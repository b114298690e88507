-- ===== src/System/Ownership/Giving.antt =====
-- The next id goes to the session whose request to subscribe is served; all others keep theirs.
use little_stomper.Prelude.{
  ℕ, suc, ◌<◌, ◌≤◌, ◌≡◌, refl, subst, ap, ◌∙◌, String, none, some, List, [], ◌∷◌, All, Bool-cases,
  inl, inr, ℕ_discrete, ite, Option, arith,
}
use little_stomper.Prelude.Effects.{Outcome, done, panic}
use little_stomper.Ids.{SubscriptionId, DestinationId, StringId-discrete, from_str}
use little_stomper.Stomp.{Frames, StompParser}
use little_stomper.InMemory.Backend.{handle_action}
use little_stomper.System.Family.{update, update_self}
use little_stomper.System.Shared.{Shared, Post, subscribes, action_of, new_id}
use little_stomper.System.Moves.{
  System, Backend, Move, serves, begin, step, run, settle_backend, serve_next,
}
use little_stomper.System.Policy.{
  IfGranted, Policy, Ledger, IsAllowedPost, IsAllowedMove, IsAllowedSystem,
}
use little_stomper.System.Steps.{serve_next-IsAllowed}
use little_stomper.System.Broker.{Roster, broker}
use little_stomper.System.Broker.Refinement.{IsAllowedSub-Represents, handle_action-Refines}
use little_stomper.System.Invariant.{begin-IsAllowed, step-IsAllowed}
use little_stomper.System.Ownership.{Owners, owned_by, IsOwned}
use little_stomper.System.Ownership.Growth.{IsAllowedSystem-grows}

module _ {F : Frames} where
  settle_backend-next :
      (d : DestinationId) (o : Outcome (Option (Backend F))) (w : Shared F) (sys : System F)
      → (settle_backend d o w sys).shared.next ≡ w.next
  settle_backend-next d (done (some b)) w sys = refl
  settle_backend-next d (done none) w sys = refl
  settle_backend-next d (panic why) w sys = refl

  broker-next :
      (name : ℕ → String) (d : DestinationId) (k : ℕ) (i : Option SubscriptionId) (r : Roster)
      (w : Shared F)
      → (broker name d (subscribes k i) r w).1.next ≡ suc w.next
  unfolding broker
  broker-next name d k none r w = refl
  broker-next name d k (some c) r w = ground arith

module _ {F : Frames} (P : StompParser F) (quote : String → String) (name : ℕ → String)
    (L : Policy) where
  -- Serving a request to subscribe takes one id.
  subscribes-next :
      (H : Ledger) (k : ℕ) (i : Option SubscriptionId) (d : DestinationId) (ps : List Post)
      (sys : System F)
      → IsAllowedSystem P L H sys
      → (serve_next P quote name d (subscribes k i ∷ ps) sys).shared.next ≡ suc sys.shared.next
  subscribes-next H k i d ps sys a =
      let b = sys.backends d in
      let w = record sys.shared { posts = update StringId-discrete d ps sys.shared.posts } in
      let (o, w') = handle_action (new_id name) b (action_of (subscribes k i)) w in
      let (r, stands_for) =
        IsAllowedSub-Represents L H d b.subscriptions (a.backends d).subscriptions in
      let (same, _) =
        handle_action-Refines name d b r (a.backends d).id_kept stands_for (subscribes k i) w
          (a.valid d) in
      settle_backend-next d o w' sys ∙ ap (λ w. w.next) same ∙ broker-next name d k i r w

  -- With the next id given away.
  abbrev give : ℕ → DestinationId → ℕ → Owners → Owners
  give k d n own = update ℕ_discrete n (k, d) own

  earlier : (k : ℕ) (d : DestinationId) (own : Owners) (n m : ℕ) → m < n → give k d n own m ≡ own m
  earlier k d own n m less = elim (ℕ_discrete n m) as (λ x. ite x (k, d) (own m) ≡ own m) [
    | yes e ↦ absurd (omega (arith, less, e))
    | no n ↦ refl
  ]

  -- The ids of all owners, of the first `n` ids, in a system that has given `m` ids.
  abbrev ledger : Owners → ℕ → ℕ → Ledger
  ledger own n m = record (owned_by name own n) { from = m }

  owned_more :
      (own : Owners) (n m : ℕ) (sys : System F)
      → m ≤ sys.shared.next
      → n ≤ sys.shared.next
      → IsAllowedSystem P L (ledger own n m) sys
      → IsOwned P name L sys
  owned_more own n m sys h g a = (
    own,
    IsAllowedSystem-grows P L (ledger own n m) (owned_by name own sys.shared.next)
        (λ k d c i (j, less, made, mine). (j, omega (arith, less, g), made, mine)) sys (omega arith)
        a,
  )

  given :
      (k : ℕ) (d : DestinationId) (own : Owners) (sys : System F)
      → IsAllowedSystem P L (owned_by name own sys.shared.next) sys
      → IsAllowedSystem P L
          (ledger (give k d sys.shared.next own) (suc sys.shared.next) sys.shared.next)
          sys
  given k d own sys a =
      IsAllowedSystem-grows P L (owned_by name own sys.shared.next)
        (ledger (give k d sys.shared.next own) (suc sys.shared.next) sys.shared.next)
        (λ j e c i (m, less, made, mine).
          (m, omega (arith, less), made, earlier k d own sys.shared.next m less ∙ mine))
        sys (omega arith) a

  -- The session that gets the next id may hold it.
  granted :
      (k : ℕ) (d : DestinationId) (i : Option SubscriptionId) (own : Owners) (n : ℕ)
      → IfGranted (ledger (give k d n own) (suc n) n) name n d (subscribes k i)
  granted k d none own n = tt
  granted k d (some c) own n = (n, omega arith, refl, update_self ℕ_discrete n (k, d) own)

  kept :
      (own : Owners) (sys sys' : System F)
      → IsAllowedSystem P L (owned_by name own sys.shared.next) sys'
      → IsOwned P name L sys'
  kept own sys sys' a =
      owned_more own sys.shared.next sys.shared.next sys' a.shared.grown a.shared.grown a

  -- Whichever action comes next: by itself, or as a request to subscribe, which takes the next id.
  serve_next-IsOwned :
      (d : DestinationId) (ps : List Post) (sys : System F)
      → sys.shared.posts d ≡ ps
      → IsOwned P name L sys
      → IsOwned P name L (serve_next P quote name d ps sys)
  serve_next-IsOwned d (subscribes k i ∷ ps) sys e (own, a) =
      let n = sys.shared.next in
      let own' = give k d n own in
      let b = given k d own sys a in
      let c =
        serve_next-IsAllowed P quote name L (ledger own' (suc n) n) d (subscribes k i ∷ ps) sys
          (subst (All (IsAllowedPost L (ledger own' (suc n) n) d)) e (b.shared.posts d))
          (granted k d i own n) b in
      owned_more own' (suc n) n (serve_next P quote name d (subscribes k i ∷ ps) sys) c.shared.grown
        (omega (arith, subscribes-next (ledger own' (suc n) n) k i d ps sys b)) c
  serve_next-IsOwned d [] sys e a = a
  serve_next-IsOwned d (p ∷ ps) sys e (own, a) =
      let H = owned_by name own sys.shared.next in
      kept own sys (serve_next P quote name d (p ∷ ps) sys) (
        serve_next-IsAllowed P quote name L H d (p ∷ ps) sys
          (subst (All (IsAllowedPost L H d)) e (a.shared.posts d)) tt a)

  pub step-IsOwned :
      (m : Move F) (sys : System F)
      → IsAllowedMove P L m
      → IsOwned P name L sys
      → IsOwned P name L (step P quote name m sys)
  unfolding step
  step-IsOwned (serves d) sys h a = elim (Bool-cases (sys.shared.is_closed d)) [
    | inl closed ↦ rw closed a
    | inr open_ ↦ rw open_ (serve_next-IsOwned d (sys.shared.posts d) sys refl a)
  ]
  step-IsOwned m sys h (own, a) =
      kept own sys (step P quote name m sys)
        (step-IsAllowed P quote name L (owned_by name own sys.shared.next) m sys h tt a)

  pub run-IsOwned :
      (ms : List (Move F)) (sys : System F)
      → All (IsAllowedMove P L) ms
      → IsOwned P name L sys
      → IsOwned P name L (run P quote name ms sys)
  unfolding run
  run-IsOwned [] sys h a = a
  run-IsOwned (m ∷ ms) sys h a =
      run-IsOwned ms (step P quote name m sys) h.1 (step-IsOwned m sys h.0 a)

  pub begin-IsOwned : IsOwned P name L begin
  unfolding begin
  begin-IsOwned = ((λ m. (0, from_str "")), begin-IsAllowed P quote name L _ (omega arith))
