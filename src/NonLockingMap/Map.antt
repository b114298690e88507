-- ===== src/NonLockingMap/Map.antt =====
-- `NonLockingMap` of src/asynchronous/nonlockingmap.rs: the futures that read the published map,
-- and the task that replaces it. A waker is left to the runtime.
use little_stomper.Prelude.{Option, none, some, List, [], ◌∷◌}
use little_stomper.Prelude.Effects.{Outcome, done, panic}
use little_stomper.Tokio.{Poll, ready, pending}
use little_stomper.Prelude.HashMap
use little_stomper.Prelude.HashMap.{HashMap}

module _ (K V Waker : Type 0) where
  pub data MapAction : Type 0 where
    get_or_create : K → (K → V) → Waker → MapAction
    quit : MapAction

  pub record MapReturnFuture : Type 0 where
    pub key : K
    pub factory : Option (K → V)

-- The map that `map_ptr` points to, the map that the task owns, and the wakers that it woke.
pub record Maps (K V Waker : Type 0) : Type 0 where
  pub published : HashMap K V
  pub owned : HashMap K V
  pub woken : List Waker

module _ {K V Waker : Type 0} where
  -- `new`, and `get`.
  abbrev pub new : Maps K V Waker
  new = record { published = []; owned = []; woken = [] }

  abbrev pub get : K → (K → V) → MapReturnFuture K V Waker
  get key factory = record { key = key; factory = some factory }

  abbrev pub or_same : Maps K V Waker → Option (Maps K V Waker) → Maps K V Waker
  or_same m none = m
  or_same m (some m') = m'

module _ {K V Waker : Type 0} (dec : Discrete K) where
  -- `get_sync`, through the pointer; `get_sync_instance` and `get_if_present` are the same.
  unfoldable pub get_sync : Maps K V Waker → K → Option V
  get_sync m key = HashMap.get dec key m.published

  -- `poll`: the answer, what is sent to the task, and the future after it. To take the factory a
  -- second time panics.
  poll_absent :
      MapReturnFuture K V Waker
      → Waker
      → Option (K → V)
      → Outcome (Poll V × Option (MapAction K V Waker) × MapReturnFuture K V Waker)
  poll_absent f waker none = panic "called `Option::unwrap()` on a `None` value"
  poll_absent f waker (some factory) =
      done (pending, some (get_or_create f.key factory waker), record f { factory = none })

  poll_found :
      MapReturnFuture K V Waker
      → Waker
      → Option V
      → Outcome (Poll V × Option (MapAction K V Waker) × MapReturnFuture K V Waker)
  unfolding poll_absent
  poll_found f waker (some value) = done (ready value, none, f)
  poll_found f waker none = poll_absent f waker f.factory

  unfoldable pub poll :
      Maps K V Waker
      → MapReturnFuture K V Waker
      → Waker
      → Outcome (Poll V × Option (MapAction K V Waker) × MapReturnFuture K V Waker)
  unfolding poll_found get_sync
  poll m f waker = poll_found f waker (get_sync m f.key)

  -- The new map is an update of the task's own, and its pointer is swapped in.
  create_absent : Maps K V Waker → K → (K → V) → Option V → Option (Maps K V Waker)
  create_absent m key factory (some value) = none
  create_absent m key factory none =
      let cloned_map = HashMap.insert dec key (factory key) m.owned in
      some (record m { published = cloned_map; owned = cloned_map })

  unfoldable pub create_if_necessary : Maps K V Waker → K → (K → V) → Option (Maps K V Waker)
  unfolding create_absent get_sync
  create_if_necessary m key factory = create_absent m key factory (get_sync m key)

  -- The task's loop over the actions that it receives.
  unfoldable pub update_loop : Maps K V Waker → List (MapAction K V Waker) → Maps K V Waker
  unfolding create_if_necessary
  update_loop m [] = m
  update_loop m (quit ∷ rest) = m
  update_loop m (get_or_create key factory waker ∷ rest) =
      let m' = or_same m (create_if_necessary m key factory) in
      update_loop (record m' { woken = waker ∷ m'.woken }) rest
