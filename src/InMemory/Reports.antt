-- ===== src/InMemory/Reports.antt =====
-- The handle of src/asynchronous/inmemory.rs on a channel that may be closed.
use little_stomper.Prelude.{◌≡◌, Option, none, ◌⊎◌, inl, inr, arith}
use little_stomper.Prelude.Effects.{Act, ok, err, Unit₀, done}
use little_stomper.Error
use little_stomper.Ids.{SubscriptionId}
use little_stomper.Destinations.{InboundMessage, Subscriber, Sender}
use little_stomper.Client.{DefaultClient}
use little_stomper.Tokio.{IsSender}
use little_stomper.InMemory.Backend.{
  DestinationAction, to_subscribe_callback, to_send_fn, to_unsubscribe_callback, to_send_callback,
}
use little_stomper.InMemory.Handle.{InMemDestination, subscribe, unsubscribe, send}

module _ {W : Type 0} (d : InMemDestination W) (law : IsSender d.sender) (c : DefaultClient) where
  -- Over a channel that accepts an action or hands it back: a subscription is accepted and nobody is
  -- called back, or the subscriber is told at once that it failed, under its own id.
  subscribe-reports :
      (i : Option SubscriptionId) (s : Subscriber W) (w : W)
      → let sent =
          d.sender.send
            (DestinationAction.subscribe i (to_subscribe_callback s) (to_send_fn s))
            w in
        ((sent.0 ≡ ok tt) × (subscribe d i s c w ≡ (done tt, sent.1)))
        ⊎ (subscribe d i s c w ≡ s.subscribe_callback d.id i (err (Error.new "Subscribe failed")) w)
  unfolding subscribe
  subscribe-reports i s w =
      let action = DestinationAction.subscribe i (to_subscribe_callback s) (to_send_fn s) in
      elim (law.sends action w) [ inl e ↦ inl (e, ground arith) | inr e ↦ inr (ground arith) ]

  -- Over such a channel an unsubscription is accepted and nobody is called back, or the subscriber is
  -- told at once that it failed, without its own id.
  unsubscribe-reports :
      (i : SubscriptionId) (s : Subscriber W) (w : W)
      → let sent = d.sender.send (DestinationAction.unsubscribe i (to_unsubscribe_callback s)) w in
        ((sent.0 ≡ ok tt) × (unsubscribe d i s c w ≡ (done tt, sent.1)))
        ⊎ (unsubscribe d i s c w
            ≡ s.unsubscribe_callback none (err (Error.new "Unsubscribe failed")) w)
  unfolding unsubscribe
  unsubscribe-reports i s w =
      let action = DestinationAction.unsubscribe i (to_unsubscribe_callback s) in
      elim (law.sends action w) [ inl e ↦ inl (e, ground arith) | inr e ↦ inr (ground arith) ]

  -- Over such a channel a message is accepted and nobody is called back, or its sender is told at once
  -- that it failed, under the id that the sender gave the message.
  send-reports :
      (m : InboundMessage) (s : Sender W) (w : W)
      → let sent = d.sender.send (DestinationAction.send m (to_send_callback s)) w in
        ((sent.0 ≡ ok tt) × (send d m s c w ≡ (done tt, sent.1)))
        ⊎ (send d m s c w ≡ s.send_callback m.sender_message_id (err (Error.new "Send failed")) w)
  unfolding send
  send-reports m s w =
      let action = DestinationAction.send m (to_send_callback s) in
      elim (law.sends action w) [ inl e ↦ inl (e, ground arith) | inr e ↦ inr (ground arith) ]

  -- Accepted by the channel, with no call back, or the report of a failure at once.
  abbrev pub Told : DestinationAction W → Act W Unit₀ → Act W Unit₀ → W → Type 0
  Told action request report w =
      ((d.sender.send action w).0 ≡ ok tt) × (request w ≡ (done tt, (d.sender.send action w).1))
      ⊎ (request w ≡ report w)

  -- Over a channel that accepts an action or hands it back, each request of a handle is accepted and
  -- nobody is called back, or it is reported at once as failed: a subscription and a message under
  -- the id that came with it, an unsubscription without an id.
  pub requests-reported :
      (i : Option SubscriptionId) (j : SubscriptionId) (m : InboundMessage) (s : Subscriber W)
      (t : Sender W) (w : W)
      → Told
          (DestinationAction.subscribe i (to_subscribe_callback s) (to_send_fn s))
          (subscribe d i s c)
          (s.subscribe_callback d.id i (err (Error.new "Subscribe failed")))
          w
        × Told
            (DestinationAction.unsubscribe j (to_unsubscribe_callback s))
            (unsubscribe d j s c)
            (s.unsubscribe_callback none (err (Error.new "Unsubscribe failed")))
            w
        × Told
            (DestinationAction.send m (to_send_callback t))
            (send d m t c)
            (t.send_callback m.sender_message_id (err (Error.new "Send failed")))
            w
  requests-reported i j m s t w =
      (subscribe-reports i s w, unsubscribe-reports j s w, send-reports m t w)
