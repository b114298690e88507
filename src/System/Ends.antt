-- ===== src/System/Ends.antt =====
-- The task of a destination ends only by a request to unsubscribe.
use little_stomper.Prelude.{ℕ, String, refl, ap, sym, subst, Option, none, some, [], ◌∷◌, All}
use little_stomper.Prelude.Effects.{Outcome, done, panic, Ensures}
use little_stomper.Ids.{SubscriptionId, DestinationId}
use little_stomper.Stomp.{Frames, StompParser}
use little_stomper.InMemory.Backend.{Subscriptions, handle_action}
use little_stomper.InMemory.Totality.{IsCalm, IsCalmAction, handle_action-Returns}
use little_stomper.Session.Events
use little_stomper.System.Shared.{
  Shared, Post, subscribes, unsubscribes, sends, closes, action_of, new_id,
}
use little_stomper.System.Moves.{Backend}
use little_stomper.System.Policy.{
  Ledger, IfGranted, Policy, MayEnd, IsAllowedPost, IsAllowedSub, IsAllowedBackend, IsAllowedShared,
}
use little_stomper.System.Backends.{IfGoesOn, handle_action-Safe}

module _ {F : Frames} (L : Policy) (H : Ledger) (d : DestinationId) where
  IsAllowedSub-IsCalm :
      (m : Subscriptions (Shared F)) → All (λ e. IsAllowedSub L H d e.1) m → IsCalm m
  unfolding Events.send
  IsAllowedSub-IsCalm [] a = tt
  IsAllowedSub-IsCalm (e ∷ m) a =
      (λ out. rw (a.0.sends, a.0.named) (λ w. (_, _, refl, tt)), IsAllowedSub-IsCalm m a.1)

  -- Requests to subscribe name an id of the client, so that no callback panics.
  subscribes-IsCalmAction :
      (k : ℕ) (c : SubscriptionId) → IsCalmAction (action_of {F = F} (subscribes k (some c)))
  unfolding Events.send Events.subscribe_callback
  subscribes-IsCalmAction k c = (λ d r w. (_, _, refl, tt), λ j out w. (_, _, refl, tt))

module _ {F : Frames} (P : StompParser F) (L : Policy) (H : Ledger) (name : ℕ → String)
    (d : DestinationId) (b : Backend F) (h : IsAllowedBackend L H d b) where
  -- A backend that does not go on ends for a reason that the policy admits.
  abbrev pub IfEnded : Outcome (Option (Backend F)) → Type 0
  IfEnded (done (some b)) = Unit
  IfEnded _ = MayEnd L d

  excused : (o : Outcome (Option (Backend F))) → MayEnd L d → IfEnded o
  excused (done (some b)) m = tt
  excused (done none) m = m
  excused (panic why) m = m

  returned : (o : Option (Backend F)) → IfGoesOn P L H name d b h o → IfEnded (done o)
  returned none a = absurd a
  returned (some b') a = tt

  calm :
      (p : Post) (w : Shared F)
      → IsAllowedPost L H d p
      → IfGranted H name w.next d p
      → IsAllowedShared P L H w
      → IsCalmAction (action_of {F = F} p)
      → IfEnded (handle_action (new_id name) b (action_of p) w).0
  calm p w a g i c =
      let (o, w', e, _) =
        handle_action-Returns (new_id name) b (action_of p)
          (IsAllowedSub-IsCalm L H d b.subscriptions h.subscriptions) c w in
      let same = ap (λ r. r.0) e in
      subst IfEnded (sym same) (
        returned o (
          subst (Ensures (IfGoesOn P L H name d b h)) same
            (handle_action-Safe P L H name d b h p w a g i).1))

  pub handle_action-IfEnded :
      (p : Post) (w : Shared F)
      → IsAllowedPost L H d p
      → IfGranted H name w.next d p
      → IsAllowedShared P L H w
      → IfEnded (handle_action (new_id name) b (action_of p) w).0
  handle_action-IfEnded (subscribes k i) w (c, asked, a) g h = rw asked (
      calm (subscribes k (some c)) w (c, refl, a)
        (subst (λ i. IfGranted H name w.next d (subscribes k i)) asked g) h
        (subscribes-IsCalmAction L H d k c))
  handle_action-IfEnded (unsubscribes k i) w (c, subscribed, unsubscribed, _) g h =
      excused _ (k, c, subscribed, unsubscribed)
  handle_action-IfEnded (sends k m) w a g h = calm (sends k m) w a g h (λ o r w. (_, _, refl, tt))
  handle_action-IfEnded closes w a g h = absurd a
