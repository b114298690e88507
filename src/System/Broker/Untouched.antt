-- ===== src/System/Broker/Untouched.antt =====
-- What a destination leaves alone: the registry, the tasks and the channels of other destinations.
use little_stomper.Prelude.{
  [], true, ℕ, ◌≡◌, refl, ap, ◌∙◌, String, Option, none, some, List, ◌∷◌, arith,
}
use little_stomper.Prelude.Effects.{Outcome, done, panic}
use little_stomper.Prelude.HashMap
use little_stomper.Ids.{SubscriptionId, DestinationId, StringId-discrete}
use little_stomper.Stomp.{Frames, StompParser}
use little_stomper.InMemory.Backend.{handle_action}
use little_stomper.System.Family.{update}
use little_stomper.System.Shared.{
  Shared, Post, subscribes, unsubscribes, sends, closes, action_of, new_id,
}
use little_stomper.System.Moves.{System, Backend, settle_backend, serve_next}
use little_stomper.System.Policy.{Policy, Ledger, IsAllowedSystem}
use little_stomper.System.Broker.{Roster, broker, without}
use little_stomper.System.Broker.Refinement.{handle_action-Refines, IsAllowedSub-Represents}

module _ {F : Frames} (name : ℕ → String) (d : DestinationId) where
  -- The same registry, the same channels of destinations and the same tasks.
  abbrev pub Untouched : Shared F → Shared F → Type 0
  Untouched w w' = (w'.posts ≡ w.posts) × (w'.made ≡ w.made) × (w'.tasks ≡ w.tasks)

  without-is_closed :
      (k : ℕ) (i : SubscriptionId) (r : Roster) (o : Option (ℕ × SubscriptionId)) (w : Shared F)
      → (without name d k i r o w).1.is_closed ≡ w.is_closed
  without-is_closed k i r none w = refl
  without-is_closed k i r (some (owner, c)) w = ground arith

  broker-is_closed :
      (p : Post) (r : Roster) (w : Shared F) → (broker name d p r w).1.is_closed ≡ w.is_closed
  unfolding broker
  broker-is_closed (subscribes k none) r w = refl
  broker-is_closed (subscribes k (some c)) r w = ground arith
  broker-is_closed (unsubscribes k i) r w =
      without-is_closed k i r (HashMap.get StringId-discrete i r) w
  broker-is_closed (sends k m) r w = refl
  broker-is_closed closes r w = refl

  without-Untouched :
      (k : ℕ) (i : SubscriptionId) (r : Roster) (o : Option (ℕ × SubscriptionId)) (w : Shared F)
      → Untouched w (without name d k i r o w).1
  without-Untouched k i r none w = (refl, refl, refl)
  without-Untouched k i r (some (owner, c)) w = ground arith

  -- As the plain description has it.
  broker-Untouched : (p : Post) (r : Roster) (w : Shared F) → Untouched w (broker name d p r w).1
  unfolding broker
  broker-Untouched (subscribes k none) r w = (refl, refl, refl)
  broker-Untouched (subscribes k (some c)) r w = ground arith
  broker-Untouched (unsubscribes k i) r w =
      without-Untouched k i r (HashMap.get StringId-discrete i r) w
  broker-Untouched (sends k m) r w = (refl, refl, refl)
  broker-Untouched closes r w = (refl, refl, refl)

  settle_backend-Untouched :
      (o : Outcome (Option (Backend F))) (w : Shared F) (sys : System F)
      → Untouched w (settle_backend d o w sys).shared
  settle_backend-Untouched (done (some b)) w sys = (refl, refl, refl)
  settle_backend-Untouched (done none) w sys = (refl, refl, refl)
  settle_backend-Untouched (panic why) w sys = (refl, refl, refl)

  settle_backend-is_closed :
      (o : Outcome (Option (Backend F))) (w : Shared F) (sys : System F) (e : DestinationId)
      → w.is_closed e ≡ true
      → (settle_backend d o w sys).shared.is_closed e ≡ true
  settle_backend-is_closed (done (some b)) w sys e closed = closed
  settle_backend-is_closed (done none) w sys e closed = ground arith
  settle_backend-is_closed (panic why) w sys e closed = ground arith

module _ {F : Frames} (P : StompParser F) (quote : String → String) (name : ℕ → String) (L : Policy)
    (H : Ledger) (d : DestinationId) (sys : System F) (i : IsAllowedSystem P L H sys) where
  -- A destination that takes its next action changes its own channel only.
  pub serve_next-Untouched :
      (p : Post) (ps : List Post)
      → Untouched {F = F} name d
          (record sys.shared { posts = update StringId-discrete d ps sys.shared.posts })
          (serve_next P quote name d (p ∷ ps) sys).shared
  serve_next-Untouched p ps =
      let b = sys.backends d in
      let w = record sys.shared { posts = update StringId-discrete d ps sys.shared.posts } in
      let (o, w') = handle_action (new_id name) b (action_of p) w in
      let (r, stands_for) =
        IsAllowedSub-Represents L H d b.subscriptions (i.backends d).subscriptions in
      let now =
        handle_action-Refines name d b r (i.backends d).id_kept stands_for p w (i.valid d) in
      let last = settle_backend-Untouched name d o w' sys in
      let plain = broker-Untouched name d p r w in
      (
        last.0 ∙ ap (λ w. w.posts) now.0 ∙ plain.0,
        last.1 ∙ ap (λ w. w.made) now.0 ∙ plain.1,
        last.2 ∙ ap (λ w. w.tasks) now.0 ∙ plain.2,
      )

  -- A task of a destination that has ended does not come back.
  pub serve_next-is_closed :
      (ps : List Post) (e : DestinationId)
      → sys.shared.is_closed e ≡ true
      → (serve_next P quote name d ps sys).shared.is_closed e ≡ true
  serve_next-is_closed [] e closed = closed
  serve_next-is_closed (p ∷ ps) e closed =
      let b = sys.backends d in
      let w = record sys.shared { posts = update StringId-discrete d ps sys.shared.posts } in
      let (o, w') = handle_action (new_id name) b (action_of p) w in
      let (r, stands_for) =
        IsAllowedSub-Represents L H d b.subscriptions (i.backends d).subscriptions in
      let now =
        handle_action-Refines name d b r (i.backends d).id_kept stands_for p w (i.valid d) in
      settle_backend-is_closed name d o w' sys e
        (ap (λ w. w.is_closed e) now.0 ∙ ap (λ c. c e) (broker-is_closed name d p r w) ∙ closed)
