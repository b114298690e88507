-- ===== src/System/Tasks.antt =====
-- A task taken from those that were spawned is within the policy, as they are.
use little_stomper.Prelude.{ℕ, zero, suc, Option, none, some, List, [], ◌∷◌, All}
use little_stomper.System.Shared.{SubscribeTask}
use little_stomper.System.Moves.{put_back, take_task}
use little_stomper.System.Policy.{Policy, IsAllowedTask}

module _ (L : Policy) where
  -- One of the tasks is as allowed as all of them, and the others are, too.
  abbrev pub Taken : Option (SubscribeTask × List SubscribeTask) → Type 0
  Taken none = Unit
  Taken (some (t, ts)) = IsAllowedTask L t × All (IsAllowedTask L) ts

  put_back-Taken :
      (t : SubscribeTask) (o : Option (SubscribeTask × List SubscribeTask))
      → IsAllowedTask L t
      → Taken o
      → Taken (put_back t o)
  put_back-Taken t none a h = tt
  put_back-Taken t (some (taken, ts)) a h = (h.0, (a, h.1))

  pub take_task-Taken :
      (n : ℕ) (ts : List SubscribeTask) → All (IsAllowedTask L) ts → Taken (take_task n ts)
  take_task-Taken zero [] a = tt
  take_task-Taken (suc n) [] a = tt
  take_task-Taken zero (t ∷ ts) a = a
  take_task-Taken (suc n) (t ∷ ts) a =
      put_back-Taken t (take_task n ts) a.0 (take_task-Taken n ts a.1)
