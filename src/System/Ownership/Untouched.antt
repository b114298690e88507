-- ===== src/System/Ownership/Untouched.antt =====
-- Which moves change the map of a destination: its own alone.
use little_stomper.Prelude.{
  ℕ, ◌≡◌, refl, sym, ◌∙◌, true, false, subst, String, Option, none, some, List, [], ◌∷◌, arith,
}
use little_stomper.Prelude.Effects.{Outcome, done, panic, Ensures}
use little_stomper.Client.{default_client_methods}
use little_stomper.Ids.{SubscriptionId, DestinationId, StringId-discrete}
use little_stomper.Stomp.{Frames, StompParser}
use little_stomper.InMemory.Backend.{Subscription, get, to_send_fn, handle_action}
use little_stomper.Session.Events.{ClientEvent, Response, as_subscriber}
use little_stomper.Session.Handler.{handle_event}
use little_stomper.System.Family.{update, update_self}
use little_stomper.System.Shared.{Shared, Post, SubscribeTask, proxy, action_of, new_id}
use little_stomper.System.Moves.{
  System, Session, Backend, settle, act, receive, run_taken, settle_backend, serve_next,
}
use little_stomper.System.Ownership.Listing.{IfStays}

module _ {F : Frames} where
  settle-backends :
      (k : ℕ) (o : Outcome (Session F × Response F)) (w : Shared F) (sys : System F)
      → (settle k o w sys).backends ≡ sys.backends
  settle-backends k (done (s, r)) w sys = ground arith
  settle-backends k (panic why) w sys = refl

  pub run_taken-backends :
      (o : Option (SubscribeTask × List SubscribeTask)) (sys : System F)
      → (run_taken o sys).backends ≡ sys.backends
  run_taken-backends none sys = refl
  run_taken-backends (some (t, ts)) sys = refl

  settle_backend-other :
      (e d : DestinationId) (o : Outcome (Option (Backend F))) (w : Shared F) (sys : System F)
      → ¬ (e ≡ d)
      → (settle_backend e o w sys).backends d ≡ sys.backends d
  settle_backend-other e d (done (some b)) w sys other = ground arith
  settle_backend-other e d (done none) w sys other = ground arith
  settle_backend-other e d (panic why) w sys other = ground arith

  not_closed :
      (d : DestinationId) (w : Shared F) → ¬ (update StringId-discrete d true w.is_closed d ≡ false)
  not_closed d w e =
      let both : true ≡ false = sym (update_self StringId-discrete d true w.is_closed) ∙ e in
      ground arith

  -- A backend whose task has not ended has what its action leaves.
  pub settle_backend-IfStays :
      (name : ℕ → String) (i : SubscriptionId) (k : ℕ) (s : Subscription (Shared F))
      (mine : s.send_fn ≡ to_send_fn (as_subscriber (proxy k))) (d : DestinationId)
      (o : Outcome (Option (Backend F))) (w : Shared F) (sys : System F)
      → Ensures (IfStays name i k s mine) o
      → (settle_backend d o w sys).shared.is_closed d ≡ false
      → get i ((settle_backend d o w sys).backends d).subscriptions ≡ some s
  settle_backend-IfStays name i k s mine d (done (some b)) w sys h open_ =
      subst (λ b. get i b.subscriptions ≡ some s)
        (sym (update_self StringId-discrete d b sys.backends)) h
  settle_backend-IfStays name i k s mine d (done none) w sys h open_ = absurd (not_closed d w open_)
  settle_backend-IfStays name i k s mine d (panic why) w sys h open_ = absurd (not_closed d w open_)

module _ {F : Frames} (P : StompParser F) (quote : String → String) (name : ℕ → String) where
  pub act-backends :
      (k : ℕ) (e : ClientEvent F) (w : Shared F) (o : Option (Session F)) (sys : System F)
      → (act P quote name k e w o sys).backends ≡ sys.backends
  act-backends k e w none sys = refl
  act-backends k e w (some s) sys =
      let (o, w') = handle_event P quote s e w in settle-backends k o w' sys

  pub receive-backends :
      (k : ℕ) (es : List (ClientEvent F)) (sys : System F)
      → (receive P quote name k es sys).backends ≡ sys.backends
  receive-backends k [] sys = refl
  receive-backends k (e ∷ es) sys = act-backends k e _ (sys.sessions k) sys

  pub serve_next-other :
      (e d : DestinationId) (ps : List Post) (sys : System F)
      → ¬ (e ≡ d)
      → (serve_next P quote name e ps sys).backends d ≡ sys.backends d
  serve_next-other e d [] sys other = refl
  serve_next-other e d (p ∷ ps) sys other =
      let w = record sys.shared { posts = update StringId-discrete e ps sys.shared.posts } in
      let (o, w') = handle_action (new_id name) (sys.backends e) (action_of p) w in
      settle_backend-other e d o w' sys other
