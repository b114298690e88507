-- ===== src/System/Written.antt =====
-- What a client has been sent, along a run.
use little_stomper.Prelude.{
  ℕ, ◌≡◌, refl, sym, ap, ◌∙◌, String, Option, none, some, List, [], ◌∷◌, ◌++◌, ℕ_discrete,
  Bool-cases, inl, inr,
}
use mathlib.Core.List.{append-nil, append_assoc}
use little_stomper.Prelude.Effects.{Outcome, done, panic}
use little_stomper.Client.{default_client_methods}
use little_stomper.Ids.{DestinationId, StringId-discrete}
use little_stomper.Stomp.{Frames, StompParser}
use little_stomper.InMemory.Backend.{handle_action}
use little_stomper.Session.Events.{ClientEvent, Response, ServerMessage}
use little_stomper.Session.Handler.{handle_event}
use little_stomper.Session.Stream.{not_dead}
use little_stomper.System.Family.{update, update-all}
use little_stomper.System.Shared.{Shared, Post, SubscribeTask, action_of, new_id}
use little_stomper.System.Moves.{
  System, Session, Backend, Move, arrives, receives, runs, serves, step, run, act, receive, settle,
  settle_backend, serve_next, run_taken, take_task, is_external, output,
}

module _ {F : Frames} (P : StompParser F) (quote : String → String) (name : ℕ → String)
    (j : ℕ) where
  -- What the client has been sent at first comes first in what it has been sent then.
  abbrev pub SendsMore : System F → System F → Type 0
  SendsMore sys sys' = (more : List (ServerMessage F)) × (sys'.written j ≡ sys.written j ++ more)

  nothing : (sys : System F) → SendsMore sys sys
  nothing sys = ([], sym (append-nil (sys.written j)))

  -- An update of what client `k` has been sent, for each client.
  more_written :
      (k : ℕ) (new : List (ServerMessage F)) (sys : System F)
      → (more : List (ServerMessage F)) × (update ℕ_discrete k (sys.written k ++ new) sys.written j
          ≡ sys.written j ++ more)
  more_written k new sys =
      update-all ℕ_discrete
        (λ j now. (more : List (ServerMessage F)) × (now ≡ sys.written j ++ more)) k
        (sys.written k ++ new) sys.written (new, refl) (λ j. ([], sym (append-nil (sys.written j))))
        j

  settle-SendsMore :
      (k : ℕ) (o : Outcome (Session F × Response F)) (w : Shared F) (sys : System F)
      → SendsMore sys (settle k o w sys)
  settle-SendsMore k (done (s, r)) w sys = elim (Bool-cases (not_dead r)) [
    | inl on ↦ rw on (more_written k (output r) sys)
    | inr off ↦ rw off (nothing sys)
  ]
  settle-SendsMore k (panic why) w sys = nothing sys

  act-SendsMore :
      (k : ℕ) (e : ClientEvent F) (w : Shared F) (o : Option (Session F)) (sys : System F)
      → SendsMore sys (act P quote name k e w o sys)
  act-SendsMore k e w none sys = nothing sys
  act-SendsMore k e w (some s) sys =
      let (o, w') = handle_event P quote s e w in settle-SendsMore k o w' sys

  receive-SendsMore :
      (k : ℕ) (es : List (ClientEvent F)) (sys : System F)
      → SendsMore sys (receive P quote name k es sys)
  receive-SendsMore k [] sys = nothing sys
  receive-SendsMore k (e ∷ es) sys =
      let w = sys.shared in
      act-SendsMore k e (record w { queues = update ℕ_discrete k es w.queues }) (sys.sessions k) sys

  run_taken-SendsMore :
      (t : Option (SubscribeTask × List SubscribeTask)) (sys : System F)
      → SendsMore sys (run_taken t sys)
  run_taken-SendsMore none sys = nothing sys
  run_taken-SendsMore (some t) sys = nothing sys

  settle_backend-SendsMore :
      (d : DestinationId) (o : Outcome (Option (Backend F))) (w : Shared F) (sys : System F)
      → SendsMore sys (settle_backend d o w sys)
  settle_backend-SendsMore d (done (some b)) w sys = nothing sys
  settle_backend-SendsMore d (done none) w sys = nothing sys
  settle_backend-SendsMore d (panic why) w sys = nothing sys

  serve_next-SendsMore :
      (d : DestinationId) (ps : List Post) (sys : System F)
      → SendsMore sys (serve_next P quote name d ps sys)
  serve_next-SendsMore d [] sys = nothing sys
  serve_next-SendsMore d (p ∷ ps) sys =
      let w = record sys.shared { posts = update StringId-discrete d ps sys.shared.posts } in
      let (o, w') = handle_action (new_id name) (sys.backends d) (action_of p) w in
      settle_backend-SendsMore d o w' sys

  step-SendsMore : (m : Move F) (sys : System F) → SendsMore sys (step P quote name m sys)
  unfolding step
  step-SendsMore (arrives k e) sys = elim (Bool-cases (is_external e)) [
    | inl yes_ ↦ rw yes_ (act-SendsMore k e sys.shared (sys.sessions k) sys)
    | inr no_ ↦ rw no_ (nothing sys)
  ]
  step-SendsMore (receives k) sys = receive-SendsMore k (sys.shared.queues k) sys
  step-SendsMore (runs n) sys = run_taken-SendsMore (take_task n sys.shared.tasks) sys
  step-SendsMore (serves d) sys = elim (Bool-cases (sys.shared.is_closed d)) [
    | inl closed ↦ rw closed (nothing sys)
    | inr open_ ↦ rw open_ (serve_next-SendsMore d (sys.shared.posts d) sys)
  ]

  -- Whatever moves are made, what a client has been sent is not taken back.
  pub run-SendsMore :
      (ms : List (Move F)) (sys : System F) → SendsMore sys (run P quote name ms sys)
  unfolding run
  run-SendsMore [] sys = nothing sys
  run-SendsMore (m ∷ ms) sys =
      let (xs, first) = step-SendsMore m sys in
      let (ys, then_) = run-SendsMore ms (step P quote name m sys) in
      (xs ++ ys, then_ ∙ ap (λ zs. zs ++ ys) first ∙ append_assoc (sys.written j) xs ys)
