-- ===== src/System/Backing.antt =====
-- The map of a session beside those of its destinations.
use little_stomper.Prelude.{
  ℕ, ◌≡◌, refl, sym, subst, ap, ◌∙◌, String, none, some, List, [], ◌∷◌, false, All, Bool-cases, inl,
  inr, arith,
}
use little_stomper.Prelude.HashMap.{get-insert_self}
use little_stomper.Client.{default_client_methods}
use little_stomper.Ids.{SubscriptionId, DestinationId, StringId-discrete, from_str}
use little_stomper.Stomp.{Frames, StompParser}
use little_stomper.InMemory.Backend.{Subscription, get}
use little_stomper.Session.Handler.{get_active}
use little_stomper.System.Family.{update_self}
use little_stomper.System.Shared.{Shared, Post, subscribes}
use little_stomper.System.Moves.{System, Session, Move, serves, begin, step, run, serve_next}
use little_stomper.System.Policy.{
  Ledger, Policy, IsAllowedMove, IsAllowedEntry, IfAlive, IsAllowedSystem,
}
use little_stomper.System.Steps.{serve_next-IsAllowed, IfNextGranted}
use little_stomper.System.Invariant.{begin-IsAllowed, step-IsAllowed}
use little_stomper.System.Service.{still_heard}
use little_stomper.System.Subscribing.{sub_of, served, step-served}
use little_stomper.System.Ownership.{AreDistinct, IsOwned}
use little_stomper.System.Ownership.Growth.{IsAllowedSystem-grows}
use little_stomper.System.Ownership.Giving.{begin-IsOwned, step-IsOwned}
use little_stomper.System.Ownership.Keeping.{
  HasSubscription, IsOwned-IsAllowed, more-HasSubscription,
}
use little_stomper.System.Ending.{was_open}

-- The destination has a subscription under the id that sends to the session under the id of its
-- client.
abbrev pub IsBacked :
    {F : Frames} → ℕ → DestinationId → SubscriptionId → SubscriptionId → System F → Type 0
IsBacked {F = F} j d c i sys =
    (s : Subscription (Shared F)) × HasSubscription d j i s sys × (s.subscriber_sub_id ≡ some c)

-- The session may hold what its destinations have, of those whose tasks have not ended; the others
-- may hold anything.
abbrev backed : {F : Frames} → ℕ → System F → Ledger
backed j sys = record {
  holds = λ k d c i. k ≡ j → sys.shared.is_closed d ≡ false → IsBacked j d c i sys;
  from = 0;
}

module _ {F : Frames} (P : StompParser F) (quote : String → String) (name : ℕ → String)
    (distinct : AreDistinct name) (L : Policy) (j : ℕ) (stays : ¬ L.may_leave j)
    (keeps : (c : SubscriptionId) → ¬ L.may_unsubscribe j c) where
  -- A move takes nothing away.
  step-grows :
      (m : Move F) (sys : System F)
      → IsAllowedMove P L m
      → IsOwned P name L sys
      → (k : ℕ) (d : DestinationId) (c i : SubscriptionId) → (backed j sys).holds k d c i
      → (backed j (step P quote name m sys)).holds k d c i
  unfolding run
  step-grows m sys h own k d c i held = λ same open_.
      let (s, has, named) = held same (
        was_open P quote name L d (m ∷ []) sys (h, tt) (IsOwned-IsAllowed P name L sys own)
          open_) in
      (
        s,
        more-HasSubscription P quote name distinct L d j i s (m ∷ []) sys (h, tt) stays keeps own
            open_ has,
        named,
      )

  served-IsBacked :
      (d : DestinationId) (c : SubscriptionId) (ps : List Post) (sys : System F)
      → IsBacked j d c (from_str (name sys.shared.next)) (served name j d c ps sys)
  served-IsBacked d c ps sys =
      let id : SubscriptionId = from_str (name sys.shared.next) in
      let old = (sys.backends d).subscriptions in
      (
        sub_of j d c id,
        (
          ap (λ b. get id b.subscriptions) (update_self StringId-discrete d _ sys.backends)
              ∙ get-insert_self StringId-discrete id (sub_of j d c id) old,
          refl,
        ),
        refl,
      )

  -- A destination that serves a request of the session has the subscription then.
  next_granted :
      (H : Ledger) (d : DestinationId) (ps : List Post) (sys : System F)
      → IsAllowedSystem P L H sys
      → sys.shared.is_closed d ≡ false
      → sys.shared.posts d ≡ ps
      → IfNextGranted P quote name L (backed j (step P quote name (serves d) sys)) d ps sys
  next_granted H d [] sys i is_open posted = tt
  next_granted H d (subscribes k none ∷ ps) sys i is_open posted = tt
  next_granted H d (subscribes k (some c) ∷ ps) sys i is_open posted = λ same _.
      subst (IsBacked j d c (from_str (name sys.shared.next)))
        (sym (
          step-served P quote name j d c ps sys
            (subst (λ k. sys.shared.posts d ≡ subscribes k (some c) ∷ ps) same posted) is_open
            (still_heard P quote name L d j sys i stays) (i.backends d).id_kept))
        (served-IsBacked d c ps sys)
  next_granted H d (p ∷ ps) sys i is_open posted = tt

  step-backed :
      (m : Move F) (sys : System F)
      → IsAllowedMove P L m
      → IsOwned P name L sys
      → IsAllowedSystem P L (backed j sys) sys
      → IsAllowedSystem P L (backed j (step P quote name m sys)) (step P quote name m sys)
  unfolding step
  step-backed (serves d) sys h own i = elim (Bool-cases (sys.shared.is_closed d)) [
    | inl closed ↦ rw closed i
    | inr open_ ↦
        let now =
          IsAllowedSystem-grows P L (backed j sys) (backed j (step P quote name (serves d) sys))
            (step-grows (serves d) sys h own) sys (omega arith) i in
        let granted = next_granted (backed j sys) d (sys.shared.posts d) sys i open_ refl in
        let H = backed j (step P quote name (serves d) sys) in
        subst (IsAllowedSystem P L H) (serving d sys open_) (
          serve_next-IsAllowed P quote name L H d (sys.shared.posts d) sys (now.shared.posts d)
            granted now)
  ]
    where
      serving :
          (d : DestinationId) (sys : System F)
          → sys.shared.is_closed d ≡ false
          → serve_next P quote name d (sys.shared.posts d) sys ≡ step P quote name (serves d) sys
      serving d sys open_ = rw open_ refl
  step-backed m sys h own i =
      let H = backed j (step P quote name m sys) in
      step-IsAllowed P quote name L H m sys h tt
        (IsAllowedSystem-grows P L (backed j sys) H (step-grows m sys h own) sys (omega arith) i)

  run-backed :
      (ms : List (Move F)) (sys : System F)
      → All (IsAllowedMove P L) ms
      → IsOwned P name L sys
      → IsAllowedSystem P L (backed j sys) sys
      → IsAllowedSystem P L (backed j (run P quote name ms sys)) (run P quote name ms sys)
  unfolding run
  run-backed [] sys h own i = i
  run-backed (m ∷ ms) sys h own i =
      run-backed ms (step P quote name m sys) h.1 (step-IsOwned P quote name L m sys h.0 own)
        (step-backed m sys h.0 own i)

  -- Ids are made of distinct texts. From the start, after any moves in any order that keep to a
  -- policy under which a session's client neither leaves nor unsubscribes: whatever the session has
  -- in its map, a destination whose task has not ended and an id of it under an id of its client, the
  -- destination has too: a subscription under that id, which sends to the session under the id of the
  -- client.
  pub run-IsBacked :
      (ms : List (Move F)) (t : Session F) (c : SubscriptionId) (d : DestinationId)
      (i : SubscriptionId)
      → All (IsAllowedMove P L) ms
      → (run P quote name ms begin).sessions j ≡ some t
      → get_active c t.active_subscriptions_by_client_id ≡ some (d, i)
      → (run P quote name ms begin).shared.is_closed d ≡ false
      → IsBacked j d c i (run P quote name ms begin)
  run-IsBacked ms t c d i h here has open_ =
      let sys = run P quote name ms begin in
      let H = backed j sys in
      let now =
        run-backed ms begin h (begin-IsOwned P quote name L)
          (begin-IsAllowed P quote name L (backed j begin) (omega arith)) in
      let (_, act) = subst (IfAlive P L H j) here (now.sessions j) in
      (subst (IsAllowedEntry P L H j c) has (act c)).1 refl open_
