-- ===== src/NonLockingMap/Agreement.antt =====
-- What the futures of src/asynchronous/nonlockingmap.rs see.
use little_stomper.Prelude.{◌≡◌, none, some, List, [], ◌∷◌, arith}
use little_stomper.Prelude.Effects.{done, panic}
use little_stomper.Prelude.HashMap
use little_stomper.Prelude.HashMap.{HashMap}
use little_stomper.Tokio.{pending}
use little_stomper.NonLockingMap.Map.{
  MapAction, get_or_create, quit, MapReturnFuture, Maps, get_sync, poll, create_if_necessary,
  or_same, update_loop,
}

module _ {K V Waker : Type 0} (dec : Discrete K) where
  -- The task's own map is the published one.
  abbrev IsSynced : Maps K V Waker → Type 0
  IsSynced m = m.published ≡ m.owned

  abbrev NoQuit : List (MapAction K V Waker) → Type 0
  NoQuit [] = Unit
  NoQuit (quit ∷ rest) = ⊥
  NoQuit (get_or_create _ _ _ ∷ rest) = NoQuit rest

  after_one : Maps K V Waker → K → (K → V) → Waker → Maps K V Waker
  after_one m key factory waker =
      let m' = or_same m (create_if_necessary dec m key factory) in
      record m' { woken = waker ∷ m'.woken }

  after_one-IsSynced :
      (m : Maps K V Waker) (key : K) (factory : K → V) (waker : Waker)
      → IsSynced m
      → IsSynced (after_one m key factory waker)
  unfolding after_one create_if_necessary
  after_one-IsSynced m key factory waker h = ground arith

  -- If the published and the owned map agree, they agree after any actions.
  update_loop-IsSynced :
      (m : Maps K V Waker) (actions : List (MapAction K V Waker))
      → IsSynced m
      → IsSynced (update_loop dec m actions)
  unfolding update_loop after_one
  update_loop-IsSynced m [] h = h
  update_loop-IsSynced m (quit ∷ rest) h = h
  update_loop-IsSynced m (get_or_create key factory waker ∷ rest) h =
      update_loop-IsSynced (after_one m key factory waker) rest
        (after_one-IsSynced m key factory waker h)

  -- A future that had to wait panics if it is polled again while its key is still absent, since the
  -- first poll took the factory away.
  pub poll-again :
      (m m' : Maps K V Waker) (f f' : MapReturnFuture K V Waker) (waker waker' : Waker)
      (action : MapAction K V Waker)
      → poll dec m f waker ≡ done (pending, some action, f')
      → get_sync dec m' f.key ≡ none
      → poll dec m' f' waker' ≡ panic "called `Option::unwrap()` on a `None` value"
  unfolding poll
  poll-again m m' f f' waker waker' action e absent = ground arith
