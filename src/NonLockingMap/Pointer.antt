-- ===== src/NonLockingMap/Pointer.antt =====
-- The memory behind `map_ptr` of src/asynchronous/nonlockingmap.rs. The task owns the boxed map; the
-- pointer is to that box, and the old box is freed when `moved_map` is assigned.
use little_stomper.Prelude.{
  ℕ, suc, ◌≡◌, refl, ◌<◌, Option, none, some, [], ℕ_discrete, ite, Option-cases, inl, inr, arith,
  ap, ◌∙◌,
}
use little_stomper.Prelude.HashMap
use little_stomper.Prelude.HashMap.{HashMap}
use little_stomper.NonLockingMap.Map.{Maps, get_sync, create_if_necessary, or_same}
use little_stomper.System.Family.{update, update_self}

-- `cells` has what is allocated.
pub record Memory (K V : Type 0) : Type 0 where
  pub cells : ℕ → Option (HashMap K V)
  pub map_ptr : ℕ
  pub moved_map : ℕ
  pub next : ℕ

module _ {K V : Type 0} (dec : Discrete K) where
  abbrev look : K → Option (HashMap K V) → Option (Option V)
  look key none = none
  look key (some map) = some (HashMap.get dec key map)

  -- `(*ptr).get(key)`: `none` if what the pointer points to is freed.
  abbrev pub deref : Memory K V → ℕ → K → Option (Option V)
  deref memory ptr key = look key (memory.cells ptr)

  abbrev pub new_memory : Memory K V
  new_memory = record {
    cells = λ ptr. ite (ℕ_discrete 0 ptr) (some []) none;
    map_ptr = 0;
    moved_map = 0;
    next = 1;
  }

  abbrev pub load : Memory K V → ℕ
  load memory = memory.map_ptr

  -- The pointer is swapped to the box of a new map, and the box of the old one is freed.
  abbrev renewed : Memory K V → HashMap K V → Memory K V
  renewed memory map = record {
    cells =
        update ℕ_discrete memory.moved_map none
          (update ℕ_discrete memory.next (some map) memory.cells);
    map_ptr = memory.next;
    moved_map = memory.next;
    next = suc memory.next;
  }

  -- The new map is an update of the task's own.
  abbrev replace : Memory K V → K → V → Option (HashMap K V) → Memory K V
  replace memory key value none = memory
  replace memory key value (some map) = renewed memory (HashMap.insert dec key value map)

  abbrev create_absent : Memory K V → K → (K → V) → Option (Option V) → Memory K V
  create_absent memory key factory (some none) =
      replace memory key (factory key) (memory.cells memory.moved_map)
  create_absent memory key factory _ = memory

  -- One `GetOrCreate` in the task's loop.
  unfoldable pub serve_create : Memory K V → K → (K → V) → Memory K V
  serve_create memory key factory =
      create_absent memory key factory (deref memory (load memory) key)

  -- The pointer is to the task's box, which is allocated, and holds the map of the model without
  -- pointers.
  pub record Holds {Waker : Type 0} (memory : Memory K V) (m : Maps K V Waker) : Type 0 where
    pub same_box : memory.map_ptr ≡ memory.moved_map
    pub same_map : m.published ≡ m.owned
    pub allocated : memory.cells memory.map_ptr ≡ some m.published
    pub fresh : memory.map_ptr < memory.next

  module _ {Waker : Type 0} (memory : Memory K V) (m : Maps K V Waker) (h : Holds memory m) where
    serve_create-renewed :
        (key : K) (factory : K → V)
        → get_sync dec m key ≡ none
        → serve_create memory key factory
          ≡ renewed memory (HashMap.insert dec key (factory key) m.published)
    unfolding serve_create get_sync
    serve_create-renewed key factory absent = ground (arith, h.allocated, absent, h.same_box)

    renewed-allocated :
        (map : HashMap K V) → (renewed memory map).cells (renewed memory map).map_ptr ≡ some map
    renewed-allocated map = ground (arith, h.fresh, h.same_box)

    serve_create-absent-Holds :
        (key : K) (factory : K → V)
        → get_sync dec m key ≡ none
        → Holds
            (serve_create memory key factory)
            (or_same m (create_if_necessary dec m key factory))
    unfolding create_if_necessary get_sync
    serve_create-absent-Holds key factory absent =
        let gone : HashMap.get dec key m.published ≡ none = absent in
        rw (serve_create-renewed key factory absent, gone)
          (record {
            same_box = refl;
            same_map = refl;
            allocated =
                renewed-allocated _
                ∙ ap (λ map. some (HashMap.insert dec key (factory key) map)) h.same_map;
            fresh = omega arith;
          })

    serve_create-present-Holds :
        (key : K) (factory : K → V) (v : V)
        → get_sync dec m key ≡ some v
        → Holds
            (serve_create memory key factory)
            (or_same m (create_if_necessary dec m key factory))
    unfolding create_if_necessary get_sync serve_create
    serve_create-present-Holds key factory v present =
        let there : HashMap.get dec key m.published ≡ some v = present in rw (h.allocated, there) h

    -- Between two actions of the task a read through the pointer is a read of an allocated map, and
    -- gives what the model without pointers gives; and so it stays when the task serves an action.
    pub serve_create-Holds :
        (key : K) (factory : K → V)
        → ((q : K) → deref memory (load memory) q ≡ some (get_sync dec m q))
          × Holds
              (serve_create memory key factory)
              (or_same m (create_if_necessary dec m key factory))
    unfolding create_if_necessary get_sync
    serve_create-Holds key factory = (
      λ q. rw h.allocated refl,
      elim (Option-cases (get_sync dec m key)) [
        | inl absent ↦ serve_create-absent-Holds key factory absent
        | inr (v, present) ↦ serve_create-present-Holds key factory v present
      ],
    )

    -- If the task serves an action for a key that is absent between the load of the pointer and
    -- the read through it, the read is of a map that is freed.
    pub deref-freed :
        (key q : K) (factory : K → V)
        → get_sync dec m key ≡ none
        → deref (serve_create memory key factory) (load memory) q ≡ none
    deref-freed key q factory absent = rw (serve_create-renewed key factory absent) (
        rw h.same_box (
          ap (look q) (
            update_self ℕ_discrete memory.moved_map none (
              update ℕ_discrete memory.next
                (some (HashMap.insert dec key (factory key) m.published)) memory.cells))))
