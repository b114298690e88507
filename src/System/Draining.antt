-- ===== src/System/Draining.antt =====
-- Moves that clear the way: the destination serves the actions in front, and the session takes all
-- events of its channel.
use little_stomper.Prelude.{
  ℕ, ◌≡◌, refl, subst, ap, ◌∙◌, String, some, List, [], ◌∷◌, ◌++◌, All, All-append, ℕ_discrete,
  arith,
}
use little_stomper.Client.{default_client_methods}
use little_stomper.Ids.{DestinationId, StringId-discrete}
use little_stomper.Stomp.{Frames, StompParser}
use little_stomper.Timer.Resetter.{reset_timer}
use little_stomper.Session.Events.{ClientEvent}
use little_stomper.Session.Handler.{handle_event, server_message}
use little_stomper.Session.Stream.{not_dead}
use little_stomper.System.Family.{update, update_self}
use little_stomper.System.Shared.{Post}
use little_stomper.System.Moves.{
  System, Session, Move, receives, serves, step, run, run-append, IsAsMade,
}
use little_stomper.System.Policy.{
  Policy, anyone, MayEnd, IsAllowedMove, IsAllowedNotice, IsAllowedSystem,
}
use little_stomper.System.Invariant.{run-IsAllowed}
use little_stomper.System.Broker.Untouched.{serve_next-Untouched}
use little_stomper.System.Mail.{receives_each}
use little_stomper.System.Service.{still_open, still_alive}

-- The next actions of a destination, one for each item of a list.
abbrev pub serves_each_of : {F : Frames} {A : Type 0} → DestinationId → List A → List (Move F)
serves_each_of d [] = []
serves_each_of d (x ∷ xs) = serves d ∷ serves_each_of d xs

module _ {F : Frames} (P : StompParser F) (quote : String → String) (name : ℕ → String) (L : Policy)
    (d : DestinationId) (j : ℕ) where
  module _ (sys : System F) (i : IsAllowedSystem P L anyone sys) where
    -- A destination that serves an action takes it out of its channel.
    pub step-posts :
        (p : Post) (ps : List Post)
        → ¬ MayEnd L d
        → sys.shared.posts d ≡ p ∷ ps
        → (step P quote name (serves d) sys).shared.posts d ≡ ps
    unfolding step
    step-posts p ps lasts posted =
        rw (still_open P quote name L d j sys i lasts, posted)
          (ap (λ posts. posts d) (serve_next-Untouched P quote name L anyone d sys i p ps).0
            ∙ update_self StringId-discrete d ps sys.shared.posts)

    -- A session whose client may not end it takes an event and changes nothing else of the world.
    pub step-received :
        (e : ClientEvent F) (es : List (ClientEvent F)) (s : Session F)
        → ¬ L.may_leave j
        → IsAllowedNotice P L anyone j e
        → sys.shared.queues j ≡ e ∷ es
        → sys.sessions j ≡ some s
        → IsAsMade j s
        → (step P quote name (receives j) sys).shared
          ≡ record sys.shared { queues = update ℕ_discrete j es sys.shared.queues }
    unfolding step handle_event reset_timer not_dead server_message
    step-received (ClientEvent.server_message c m) es s stays (a, n) queued alive same =
        rw (queued, alive) (rw (ap (λ s. s.server_heartbeat_resetter) same) refl)
    step-received (ClientEvent.subscribed b c r) es s stays (a, n) queued alive same =
        rw (queued, alive) refl
    step-received (ClientEvent.unsubscribed c r) es s stays (a, n) queued alive same =
        rw (queued, alive) refl
    step-received ClientEvent.close es s stays (a, n) queued alive same = absurd (stays a)
    step-received e es s stays (a, n) queued alive same = ground arith

  abbrev served_all : {A : Type 0} → List A → System F → System F
  served_all xs = run P quote name (serves_each_of d xs)

  pub serves-IsAllowed :
      {A : Type 0} (xs : List A) → All (IsAllowedMove {F = F} P L) (serves_each_of d xs)
  serves-IsAllowed [] = tt
  serves-IsAllowed (x ∷ xs) = (tt, serves-IsAllowed xs)

  pub receives-IsAllowed :
      {A : Type 0} (xs : List A) → All (IsAllowedMove {F = F} P L) (receives_each j xs)
  receives-IsAllowed [] = tt
  receives-IsAllowed (x ∷ xs) = (tt, receives-IsAllowed xs)

  run-posts :
      (ps qs : List Post) (sys : System F)
      → IsAllowedSystem P L anyone sys
      → ¬ MayEnd L d
      → sys.shared.posts d ≡ ps ++ qs
      → (served_all ps sys).shared.posts d ≡ qs
  unfolding run
  run-posts [] qs sys i lasts posted = posted
  run-posts (p ∷ ps) qs sys i lasts posted =
      run-posts ps qs (step P quote name (serves d) sys)
        (run-IsAllowed P quote name L (serves d ∷ []) sys (tt, tt) i) lasts
        (step-posts sys i p (ps ++ qs) lasts posted)

  -- Once all events are taken, the channel is empty, and those of destinations are as they were.
  abbrev IsDrained : System F → System F → Type 0
  IsDrained sys sys' = (sys'.shared.queues j ≡ []) × (sys'.shared.posts ≡ sys.shared.posts)

  run-IsDrained :
      (es : List (ClientEvent F)) (sys : System F)
      → IsAllowedSystem P L anyone sys
      → ¬ L.may_leave j
      → sys.shared.queues j ≡ es
      → IsDrained sys (run P quote name (receives_each j es) sys)
  unfolding run
  run-IsDrained [] sys i stays queued = (queued, refl)
  run-IsDrained (e ∷ es) sys i stays queued =
      let (s, alive, same) = still_alive P quote name L d j sys i stays in
      let a = subst (All (IsAllowedNotice P L anyone j)) queued (i.shared.queues j) in
      let now = step-received sys i e es s stays a.0 queued alive same in
      let (none_left, kept) =
        run-IsDrained es (step P quote name (receives j) sys)
          (run-IsAllowed P quote name L (receives j ∷ []) sys (tt, tt) i) stays
          (ap (λ w. w.queues j) now ∙ update_self ℕ_discrete j es sys.shared.queues) in
      (none_left, kept ∙ ap (λ w. w.posts) now)

  -- The moves that serve the given actions and then take what is in the channel of the session.
  abbrev pub clearing : {A : Type 0} → List A → System F → List (Move F)
  clearing xs sys = serves_each_of d xs ++ receives_each j ((served_all xs sys).shared.queues j)

  abbrev pub cleared : {A : Type 0} → List A → System F → System F
  cleared xs sys = run P quote name (clearing xs sys) sys

  pub clearing-IsAllowed :
      {A : Type 0} (xs : List A) (sys : System F) → All (IsAllowedMove P L) (clearing xs sys)
  clearing-IsAllowed xs sys =
      let es = (served_all xs sys).shared.queues j in
      All-append (IsAllowedMove P L) (serves_each_of d xs) (receives_each j es)
        (serves-IsAllowed xs) (receives-IsAllowed es)

  -- The destination comes to what was behind the given actions, and the session has no events left.
  pub cleared-lem :
      (ps qs : List Post) (sys : System F)
      → IsAllowedSystem P L anyone sys
      → ¬ MayEnd L d
      → ¬ L.may_leave j
      → sys.shared.posts d ≡ ps ++ qs
      → ((cleared ps sys).shared.posts d ≡ qs)
        × ((cleared ps sys).shared.queues j ≡ [])
        × IsAllowedSystem P L anyone (cleared ps sys)
  cleared-lem ps qs sys i lasts stays posted =
      let sys₁ = served_all ps sys in
      let es = sys₁.shared.queues j in
      let i₁ = run-IsAllowed P quote name L (serves_each_of d ps) sys (serves-IsAllowed ps) i in
      let (quiet, kept) = run-IsDrained es sys₁ i₁ stays refl in
      let joined = run-append P quote name (serves_each_of d ps) (receives_each j es) sys in
      (
        ap (λ sys. sys.shared.posts d) joined
            ∙ ap (λ posts. posts d) kept
            ∙ run-posts ps qs sys i lasts posted,
        ap (λ sys. sys.shared.queues j) joined ∙ quiet,
        run-IsAllowed P quote name L (clearing ps sys) sys (clearing-IsAllowed ps sys) i,
      )
