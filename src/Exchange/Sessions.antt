-- ===== src/Exchange/Sessions.antt =====
-- What sessions (src/asynchronous/client.rs) post to a backend (src/asynchronous/inmemory.rs), short
-- of requests to unsubscribe, cannot end its task by a panic.
use little_stomper.Prelude.{refl, some, [], ◌∷◌, All}
use little_stomper.Ids.{SubscriptionId}
use little_stomper.Destinations.{InboundMessage}
use little_stomper.Stomp.{Frames}
use little_stomper.Tokio.{NewUuid}
use little_stomper.InMemory.Backend.{
  InMemDestinationBackend, DestinationAction, Received, Subscriptions, to_subscribe_callback,
  to_send_fn, to_send_callback, serve,
}
use little_stomper.InMemory.Totality.{IsCalm, IsCalmAction, IsCalmBackend, Returns, serve-Returns}
use little_stomper.Session.Events
use little_stomper.Session.Events.{AsyncStompClient, as_subscriber, as_sender}
use little_stomper.Exchange.Delivery.{IsOwnedBy}

-- The actions of sessions, other than unsubscriptions, and `Close`.
pub data IsPosted {W : Type 0} (F : Frames) : DestinationAction W → Type 0 where
  subscribes :
      (c : AsyncStompClient W F) (i : SubscriptionId)
      → IsPosted F (
          DestinationAction.subscribe
            (some i)
            (to_subscribe_callback (as_subscriber c))
            (to_send_fn (as_subscriber c)))
  sends :
      (c : AsyncStompClient W F) (m : InboundMessage)
      → IsPosted F (DestinationAction.send m (to_send_callback (as_sender c)))
  closes : IsPosted F DestinationAction.close

module _ {W : Type 0} (F : Frames) where
  -- Each subscription was made by a session, under an id of its client.
  abbrev AreOwned : Subscriptions W → Type 0
  AreOwned = All (λ e. (c : AsyncStompClient W F) × IsOwnedBy c e.1)

  AreOwned-IsCalm : (m : Subscriptions W) → AreOwned m → IsCalm m
  unfolding Events.send
  AreOwned-IsCalm [] o = tt
  AreOwned-IsCalm ((k, s) ∷ m) ((c, owned), o) =
      (λ out. rw (owned.sends, owned.named) (λ w. (_, _, refl, tt)), AreOwned-IsCalm m o)

  IsPosted-IsCalmAction : (a : DestinationAction W) → IsPosted F a → IsCalmAction a
  unfolding Events.send Events.subscribe_callback
  IsPosted-IsCalmAction _ (subscribes c i) =
      (λ d r w. (_, _, refl, tt), λ j out w. (_, _, refl, tt))
  IsPosted-IsCalmAction _ (sends c m) = λ o r w. (_, _, refl, tt)
  IsPosted-IsCalmAction _ closes = tt

  All-IsCalmAction :
      (received : Received W)
      → All (λ x. IsPosted F x.1) received
      → All (λ x. IsCalmAction x.1) received
  All-IsCalmAction [] p = tt
  All-IsCalmAction ((others, a) ∷ rest) p = (IsPosted-IsCalmAction a p.0, All-IsCalmAction rest p.1)

  -- If sessions made the subscriptions of a backend, and the actions are subscriptions under ids of
  -- clients, messages and `Close`s, all from sessions, whether their channels are open or closed,
  -- then the loop returns.
  pub serve-IsPosted :
      (new_v4 : NewUuid W) (b : InMemDestinationBackend W) (received : Received W)
      → AreOwned b.subscriptions
      → All (λ x. IsPosted F x.1) received
      → Returns (λ r. IsCalmBackend r.0) (serve new_v4 b received)
  serve-IsPosted new_v4 b received owned posted =
      serve-Returns new_v4 b received (AreOwned-IsCalm b.subscriptions owned)
        (All-IsCalmAction received posted)
