-- ===== src/InMemory/Actions.antt =====
-- What each action of the backend in src/asynchronous/inmemory.rs does, whole.
use little_stomper.Prelude.{
  ◌≡◌, refl, Option, none, some, [], ◌∷◌, ◌++◌, arith, ite, ◌⊎◌, inl, inr, ap,
}
use little_stomper.Prelude.Effects.{ok, pure, ◌>>=◌, ◌>>◌, Ensures, Ensures-bind, Ensures-mono}
use little_stomper.Prelude.HashMap.{get-insert, get-insert_self, remove-insert_self}
use little_stomper.Ids.{SubscriptionId, StringId-discrete, from_str}
use little_stomper.Destinations.{InboundMessage, OutboundMessage}
use little_stomper.Tokio.{NewUuid}
use little_stomper.InMemory.Backend.{
  InMemDestinationBackend, Subscription, SubscribeCallback, UnsubscribeCallback, SendCallback,
  SendFn, DestinationAction, Received, get, insert, add_subscription, remove_subscription,
  send_message, handle_action, go_on, serve,
}
use little_stomper.InMemory.Validity.{IsValid}
use little_stomper.InMemory.Delivery.{retain_reached, deliver-retain_reached}

module _ {W : Type 0} (new_v4 : NewUuid W) (b : InMemDestinationBackend W) where
  -- Subscribing calls back once, with the new id, and then the map has the subscription under
  -- that id and every other entry as before; if the callback panics, so does the backend.
  pub add_subscription_lem :
      (sub_id : Option SubscriptionId) (callback : SubscribeCallback W) (send_fn : SendFn W) (w : W)
      → let (uuid, w') = new_v4 w in
        let s : Subscription W = record {
          id = from_str uuid;
          subscriber_sub_id = sub_id;
          send_fn = send_fn;
        } in
        let m = insert s.id s b.subscriptions in
        (add_subscription new_v4 b sub_id callback send_fn w
          ≡ (callback b.id sub_id (ok s.id) >> pure (record b { subscriptions = m })) w')
        × ((q : SubscriptionId)
            → get q m ≡ ite (StringId-discrete s.id q) (some s) (get q b.subscriptions))
  unfolding add_subscription
  add_subscription_lem sub_id callback send_fn w =
      let (uuid, w') = new_v4 w in
      let s : Subscription W = record {
        id = from_str uuid;
        subscriber_sub_id = sub_id;
        send_fn = send_fn;
      } in
      (
        ground (arith, get-insert_self StringId-discrete s.id s b.subscriptions),
        λ q. get-insert StringId-discrete s.id q s b.subscriptions,
      )

  -- If the new id is fresh, subscribing and then unsubscribing it calls the subscriber back with the
  -- new id, and then with its own id, and, if both callbacks return, leaves the backend as it was.
  pub add-remove_subscription :
      (sub_id : Option SubscriptionId) (callback : SubscribeCallback W) (send_fn : SendFn W)
      (callback' : UnsubscribeCallback W) (w : W)
      → get (from_str (new_v4 w).0) b.subscriptions ≡ none
      → let (uuid, w') = new_v4 w in
        let id = from_str uuid in
        (add_subscription new_v4 b sub_id callback send_fn >>= λ b'.
        remove_subscription b' id callback')
          w
        ≡ (callback b.id sub_id (ok id) >> (callback' sub_id (ok id) >> pure b)) w'
  unfolding remove_subscription add_subscription
  add-remove_subscription sub_id callback send_fn callback' w absent =
      let (uuid, w') = new_v4 w in
      let s : Subscription W = record {
        id = from_str uuid;
        subscriber_sub_id = sub_id;
        send_fn = send_fn;
      } in
      ground (
        arith,
        get-insert_self StringId-discrete s.id s b.subscriptions,
        remove-insert_self StringId-discrete s.id s b.subscriptions absent,
      )

  -- On a valid backend `send` gives every subscription the message once, in order, keeps exactly
  -- those whose send succeeded, and then reports the new message's id to the sender.
  pub send_message-retain_reached :
      (message : InboundMessage) (callback : SendCallback W) (w : W)
      → IsValid b
      → let (uuid, w') = new_v4 w in
        let out : OutboundMessage = record {
          destination = b.id;
          message_id = from_str uuid;
          body = message.body;
        } in
        send_message new_v4 b message callback w
        ≡ (do
          kept ← retain_reached b.subscriptions out
          callback message.sender_message_id (ok out.message_id)
          pure (record b { subscriptions = kept }))
            w'
  unfolding send_message
  send_message-retain_reached message callback w v =
      let (uuid, w') = new_v4 w in
      let out : OutboundMessage = record {
        destination = b.id;
        message_id = from_str uuid;
        body = message.body;
      } in
      ground (arith, deliver-retain_reached b.subscriptions out w' v.distinct v.keyed)

module _ {W : Type 0} where
  -- The rest is empty, or it stands behind the first `Close`.
  abbrev pub StopsAtClose : Received W → InMemDestinationBackend W × Received W → Type 0
  StopsAtClose received (b, rest) =
      (rest ≡ [])
      ⊎ ((served : Received W) × (others : (W → W)) × (received
            ≡ served ++ ((others, DestinationAction.close) ∷ rest)))

  StopsAtClose-cons :
      (x : (W → W) × DestinationAction W) (received : Received W)
      (r : InMemDestinationBackend W × Received W)
      → StopsAtClose received r
      → StopsAtClose (x ∷ received) r
  StopsAtClose-cons x received r (inl e) = inl e
  StopsAtClose-cons x received r (inr (served, others, e)) = inr (x ∷ served, others, ap (◌∷◌ x) e)

  handle_action-none :
      (new_v4 : NewUuid W) (b : InMemDestinationBackend W) (action : DestinationAction W) (w : W)
      → Ensures
          (λ r. r ≡ none → action ≡ DestinationAction.close)
          (handle_action new_v4 b action w).0
  unfolding handle_action
  handle_action-none new_v4 b DestinationAction.close w = λ _. refl
  handle_action-none new_v4 b _ w = ground arith

  -- The loop leaves actions unserved only behind a `Close` (or by a panic of a callback).
  pub serve-StopsAtClose :
      (new_v4 : NewUuid W) (b : InMemDestinationBackend W) (received : Received W) (w : W)
      → Ensures (StopsAtClose received) (serve new_v4 b received w).0
  unfolding serve
  serve-StopsAtClose new_v4 b [] w = inl refl
  serve-StopsAtClose new_v4 b ((others, action) ∷ rest) w =
      Ensures-bind (λ r. r ≡ none → action ≡ DestinationAction.close)
        (StopsAtClose ((others, action) ∷ rest)) (handle_action new_v4 b action)
        (go_on (λ b'. serve new_v4 b' rest) (b, rest)) (others w)
        (handle_action-none new_v4 b action (others w))
        (elim [
          | none ↦ λ _ h. inr ([], others, ap (λ a. (others, a) ∷ rest) (h refl))
          | some b' ↦ λ u _.
              Ensures-mono (StopsAtClose rest) (StopsAtClose ((others, action) ∷ rest))
                (serve new_v4 b' rest u).0 (StopsAtClose-cons (others, action) rest)
                (serve-StopsAtClose new_v4 b' rest u)
        ])
