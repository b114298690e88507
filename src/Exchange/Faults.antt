-- ===== src/Exchange/Faults.antt =====
-- How an UNSUBSCRIBE can end the task that serves it: the session's callback expects a client id
-- (src/asynchronous/client.rs), and src/asynchronous/inmemory.rs does not always have one.
use little_stomper.Prelude.{◌≡◌, some, ◌∷◌, arith}
use little_stomper.Prelude.Effects.{done, panic, ok, err}
use little_stomper.Prelude.HashMap.{get-remove}
use little_stomper.Ids.{SubscriptionId, StringId-discrete}
use little_stomper.Client.{DefaultClient}
use little_stomper.Stomp.{Frames}
use little_stomper.Tokio.{NewUuid}
use little_stomper.InMemory.Backend.{
  InMemDestinationBackend, Subscription, DestinationAction, Received, get, to_unsubscribe_callback,
  remove, remove_subscription, handle_action, serve,
}
use little_stomper.InMemory.Handle.{InMemDestination, unsubscribe}
use little_stomper.Session.Events.{
  AsyncStompClient, ClientEvent, as_subscriber, unsubscribe_callback, no_identifier,
}

module _ {W : Type 0} {F : Frames} (c : AsyncStompClient W F) where
  -- If the next two actions of a backend are requests of one session to remove one subscription,
  -- which the backend has under an id of the client, it serves the first: the subscription leaves
  -- the map, and the session's channel is handed the confirmation. At the second, which finds the
  -- world as the others left it, the backend's task panics; it changes nothing any more and serves
  -- none of the actions behind it.
  pub serve-unsubscribe_twice :
      (new_v4 : NewUuid W) (b : InMemDestinationBackend W) (id i : SubscriptionId)
      (s : Subscription W) (others others' : W → W) (rest : Received W) (w : W)
      → get id b.subscriptions ≡ some s
      → s.subscriber_sub_id ≡ some i
      → let action = DestinationAction.unsubscribe id (to_unsubscribe_callback (as_subscriber c)) in
        let confirmed = (c.sender.send (ClientEvent.unsubscribed i (ok id)) (others w)).1 in
        let b' = record b { subscriptions = remove id b.subscriptions } in
        (handle_action new_v4 b action (others w) ≡ (done (some b'), confirmed))
        × (serve new_v4 b ((others, action) ∷ (others', action) ∷ rest) w
            ≡ (panic no_identifier, others' confirmed))
  unfolding serve handle_action remove_subscription unsubscribe_callback
  serve-unsubscribe_twice new_v4 b id i s others others' rest w there named = (
    ground (arith, there, named),
    ground (arith, get-remove StringId-discrete id id b.subscriptions),
  )

  -- If the destination's channel refuses the request of a session to remove a subscription, the
  -- handle's report panics in the session itself.
  pub unsubscribe-closed :
      (d : InMemDestination W) (client : DefaultClient) (id : SubscriptionId) (w : W)
      → ((a : DestinationAction W) → d.sender.send a w ≡ (err a, w))
      → unsubscribe d id (as_subscriber c) client w ≡ (panic no_identifier, w)
  unfolding unsubscribe unsubscribe_callback
  unsubscribe-closed d client id w closed =
      ground (
        arith,
        closed (DestinationAction.unsubscribe id (to_unsubscribe_callback (as_subscriber c))),
      )
