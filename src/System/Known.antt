-- ===== src/System/Known.antt =====
-- The destinations that the registry has, and the others.
use little_stomper.Prelude.{
  ◌⊎◌, ℕ, ◌≡◌, refl, sym, subst, ap, ◌∙◌, String, Option, none, some, List, [], ◌∷◌, true, All,
  Bool-cases, inl, inr, ℕ_discrete, arith,
}
use little_stomper.Prelude.Effects.{Outcome, done, panic}
use little_stomper.Client.{default_client_methods}
use little_stomper.Ids.{DestinationId, StringId-discrete}
use little_stomper.Stomp.{Frames, StompParser}
use little_stomper.InMemory.Backend.{start}
use little_stomper.Session.Events.{ClientEvent, Response}
use little_stomper.Session.Handler.{handle_event}
use little_stomper.Session.Stream.{not_dead}
use little_stomper.System.Family.{update}
use little_stomper.System.Shared.{Shared, Post, SubscribeTask}
use little_stomper.System.Moves.{
  System, Session, Move, arrives, receives, runs, serves, begin, step, run, act, receive, settle,
  run_taken, serve_next, take_task, is_external,
}
use little_stomper.System.Policy.{Policy, anyone, IsAllowedMove, IfAlive, IsAllowedSystem}
use little_stomper.System.Invariant.{run-IsAllowed, begin-IsAllowed}
use little_stomper.System.Registered.{Registers, run_task-Registers, handle_event-Registers}
use little_stomper.System.Broker.Untouched.{serve_next-Untouched}
use little_stomper.System.Ownership.Removal.{everything, any_moves}
use little_stomper.System.Ownership.Untouched.{
  act-backends, receive-backends, run_taken-backends, serve_next-other,
}

module _ {F : Frames} (P : StompParser F) (quote : String → String) (name : ℕ → String) (L : Policy)
    (d : DestinationId) where
  -- The registry has the destination, or it is as it was at the start.
  abbrev pub IsKnown : System F → Type 0
  IsKnown sys =
      (sys.shared.made d ≡ true)
      ⊎ ((sys.shared.posts d ≡ []) × ((sys.backends d).subscriptions ≡ []))

  Registers-IsKnown :
      (sys sys' : System F)
      → Registers d sys.shared sys'.shared
      → sys'.backends ≡ sys.backends
      → IsKnown sys
      → IsKnown sys'
  Registers-IsKnown sys sys' now same (inl made) = inl (now.stays made)
  Registers-IsKnown sys sys' now same (inr (quiet, none_there)) = go now.is_known
    where
      go : (sys'.shared.made d ≡ true) ⊎ (sys'.shared.posts d ≡ sys.shared.posts d) → IsKnown sys'
      go (inl made) = inl made
      go (inr kept) =
          inr (kept ∙ quiet, ap (λ backends. (backends d).subscriptions) same ∙ none_there)

  settle-Registers :
      (k : ℕ) (o : Outcome (Session F × Response F)) (w : Shared F) (sys : System F)
      → Registers d sys.shared w
      → Registers d sys.shared (settle k o w sys).shared
  settle-Registers k (done (s, r)) w sys h = elim (Bool-cases (not_dead r)) [
    | inl on ↦ rw on h
    | inr off ↦ rw off (record { stays = h.stays; is_known = h.is_known; none_ends = h.none_ends })
  ]
  settle-Registers k (panic why) w sys h = record {
    stays = h.stays;
    is_known = h.is_known;
    none_ends = h.none_ends;
  }

  pub act-Registers :
      (k : ℕ) (e : ClientEvent F) (w : Shared F) (o : Option (Session F)) (sys : System F)
      → IfAlive P L anyone k o
      → w.made ≡ sys.shared.made
      → w.posts ≡ sys.shared.posts
      → w.is_closed ≡ sys.shared.is_closed
      → Registers d sys.shared (act P quote name k e w o sys).shared
  act-Registers k e w none sys a made posts shut = record {
    stays = λ h. h;
    is_known = inr refl;
    none_ends = refl;
  }
  act-Registers k e w (some s) sys a made posts shut =
      let (o, w') = handle_event P quote s e w in
      let now = handle_event-Registers P L quote k d s e w a.0 in
      settle-Registers k o w' sys (record {
        stays = λ h. now.stays (ap (λ made. made d) made ∙ h);
        is_known = subst (λ posts. (w'.made d ≡ true) ⊎ (w'.posts d ≡ posts d)) posts now.is_known;
        none_ends = now.none_ends ∙ shut;
      })

  pub receive-Registers :
      (k : ℕ) (es : List (ClientEvent F)) (sys : System F)
      → IfAlive P L anyone k (sys.sessions k)
      → Registers d sys.shared (receive P quote name k es sys).shared
  receive-Registers k [] sys a = record { stays = λ h. h; is_known = inr refl; none_ends = refl }
  receive-Registers k (e ∷ es) sys a =
      let w = sys.shared in
      act-Registers k e (record w { queues = update ℕ_discrete k es w.queues }) (sys.sessions k) sys
        a refl refl refl

  pub run_taken-Registers :
      (t : Option (SubscribeTask × List SubscribeTask)) (sys : System F)
      → Registers d sys.shared (run_taken t sys).shared
  run_taken-Registers none sys = record { stays = λ h. h; is_known = inr refl; none_ends = refl }
  run_taken-Registers (some (t, ts)) sys =
      let now = run_task-Registers d t (record sys.shared { tasks = ts }) in
      record { stays = now.stays; is_known = now.is_known; none_ends = now.none_ends }

  -- The next action of a destination, of this or of another.
  serve_next-IsKnown :
      (e : DestinationId) (ps : List Post) (sys : System F)
      → IsAllowedSystem P L anyone sys
      → sys.shared.posts e ≡ ps
      → IsKnown sys
      → IsKnown (serve_next P quote name e ps sys)
  serve_next-IsKnown e [] sys i posted known = known
  serve_next-IsKnown e (p ∷ ps) sys i posted (inl made) =
      inl (ap (λ made. made d) (serve_next-Untouched P quote name L anyone e sys i p ps).1 ∙ made)
  serve_next-IsKnown e (p ∷ ps) sys i posted (inr (quiet, none_there)) =
      elim (StringId-discrete e d) [
        | yes same ↦
            absurd (cons_not_nil p ps (sym posted ∙ ap (λ d. sys.shared.posts d) same ∙ quiet))
        | no other ↦ inr (
          ap (λ posts. posts d) (serve_next-Untouched P quote name L anyone e sys i p ps).0
              ∙ elsewhere e ps sys other
              ∙ quiet,
          ap (λ b. b.subscriptions) (serve_next-other P quote name e d (p ∷ ps) sys other)
              ∙ none_there,
        )
      ]
    where
      cons_not_nil : (p : Post) (ps : List Post) → ¬ (p ∷ ps ≡ [])
      cons_not_nil p ps e = ground arith

      elsewhere :
          (e : DestinationId) (ps : List Post) (sys : System F)
          → ¬ (e ≡ d)
          → update StringId-discrete e ps sys.shared.posts d ≡ sys.shared.posts d
      elsewhere e ps sys other = ground arith

  step-IsKnown :
      (m : Move F) (sys : System F)
      → IsAllowedSystem P L anyone sys
      → IsKnown sys
      → IsKnown (step P quote name m sys)
  unfolding step
  step-IsKnown (arrives k e) sys i known = elim (Bool-cases (is_external e)) [
    | inl yes_ ↦ rw yes_ (
        let o = sys.sessions k in
        Registers-IsKnown sys (act P quote name k e sys.shared o sys)
          (act-Registers k e sys.shared o sys (i.sessions k) refl refl refl)
          (act-backends P quote name k e sys.shared o sys) known)
    | inr no_ ↦ rw no_ known
  ]
  step-IsKnown (receives k) sys i known =
      let es = sys.shared.queues k in
      Registers-IsKnown sys (receive P quote name k es sys)
        (receive-Registers k es sys (i.sessions k)) (receive-backends P quote name k es sys) known
  step-IsKnown (runs n) sys i known =
      let t = take_task n sys.shared.tasks in
      Registers-IsKnown sys (run_taken t sys) (run_taken-Registers t sys) (run_taken-backends t sys)
        known
  step-IsKnown (serves e) sys i known = elim (Bool-cases (sys.shared.is_closed e)) [
    | inl closed ↦ rw closed known
    | inr open_ ↦ rw open_ (serve_next-IsKnown e (sys.shared.posts e) sys i refl known)
  ]

  pub run-IsKnown :
      (ms : List (Move F)) (sys : System F)
      → All (IsAllowedMove P L) ms
      → IsAllowedSystem P L anyone sys
      → IsKnown sys
      → IsKnown (run P quote name ms sys)
  unfolding run
  run-IsKnown [] sys a i known = known
  run-IsKnown (m ∷ ms) sys a i known =
      run-IsKnown ms (step P quote name m sys) a.1
        (run-IsAllowed P quote name L (m ∷ []) sys (a.0, tt) i) (step-IsKnown m sys i known)

  pub begin-IsKnown : IsKnown begin
  unfolding begin start
  begin-IsKnown = inr (refl, refl)

-- From the start, after any moves in any order, whatever clients do: the registry has each destination
-- that has an action to serve or a subscription.
pub run-IsRegistered :
    {F : Frames} (P : StompParser F) (quote : String → String) (name : ℕ → String)
    (ms : List (Move F)) (d : DestinationId)
    → let sys = run P quote name ms begin in
      (sys.shared.made d ≡ true)
      ⊎ ((sys.shared.posts d ≡ []) × ((sys.backends d).subscriptions ≡ []))
run-IsRegistered P quote name ms d =
    run-IsKnown P quote name everything d ms begin (any_moves P ms)
      (begin-IsAllowed P quote name everything anyone (omega arith))
      (begin-IsKnown P quote name everything d)
