-- ===== src/InMemory/Validity.antt =====
-- The invariant of the backend of src/asynchronous/inmemory.rs, kept by every action.
use little_stomper.Prelude.{◌≡◌, refl, Option, none, some, List, [], ◌∷◌, arith, All}
use little_stomper.Prelude.Effects.{Ensures, Ensures-bind}
use little_stomper.Prelude.HashMap
use little_stomper.Prelude.HashMap.{
  HashMap, values, Distinct, remove-All, remove-Distinct, insert-Distinct,
}
use little_stomper.Ids.{SubscriptionId, StringId-discrete, from_str}
use little_stomper.Destinations.{InboundMessage}
use little_stomper.Tokio.{NewUuid}
use little_stomper.InMemory.Backend.{
  InMemDestinationBackend, Subscription, Subscriptions, SubscribeCallback, UnsubscribeCallback,
  SendCallback, SendFn, DestinationAction, Received, remove, insert, add_subscription,
  remove_subscription, remove_all, send_message, handle_action, go_on, serve, start,
}

module _ {W : Type 0} where
  -- Each subscription is filed under its own id.
  abbrev pub Keyed : Subscriptions W → Type 0
  Keyed = All (λ e. e.0 ≡ e.1.id)

  pub record IsValid (b : InMemDestinationBackend W) : Type 0 where
    pub distinct : Distinct StringId-discrete b.subscriptions
    pub keyed : Keyed b.subscriptions

  pub start-IsValid : (id : _) → IsValid (start id)
  unfolding start
  start-IsValid id = record { distinct = tt; keyed = tt }

  insert-Keyed :
      (k : SubscriptionId) (s : Subscription W) (m : Subscriptions W)
      → k ≡ s.id
      → Keyed m
      → Keyed (insert k s m)
  unfolding HashMap.insert
  insert-Keyed k s m e h = (e, remove-All StringId-discrete (λ e. e.0 ≡ e.1.id) k m h)

  remove-IsValid :
      (b : InMemDestinationBackend W) (k : SubscriptionId)
      → IsValid b
      → IsValid (record b { subscriptions = remove k b.subscriptions })
  remove-IsValid b k v = record {
    distinct = remove-Distinct StringId-discrete k b.subscriptions v.distinct;
    keyed = remove-All StringId-discrete (λ e. e.0 ≡ e.1.id) k b.subscriptions v.keyed;
  }

  remove_all-IsValid :
      (b : InMemDestinationBackend W) (ids : List SubscriptionId)
      → IsValid b
      → IsValid (record b { subscriptions = remove_all ids b.subscriptions })
  unfolding remove_all
  remove_all-IsValid b [] v = v
  remove_all-IsValid b (k ∷ ids) v =
      remove_all-IsValid (record b { subscriptions = remove k b.subscriptions }) ids
        (remove-IsValid b k v)

  add_subscription-IsValid :
      (new_v4 : NewUuid W) (b : InMemDestinationBackend W) (sub_id : Option SubscriptionId)
      (callback : SubscribeCallback W) (send_fn : SendFn W) (w : W)
      → IsValid b
      → Ensures IsValid (add_subscription new_v4 b sub_id callback send_fn w).0
  unfolding add_subscription
  add_subscription-IsValid new_v4 b sub_id callback send_fn w v =
      let (uuid, _) = new_v4 w in
      let id = from_str uuid in
      let s : Subscription W = record { id = id; subscriber_sub_id = sub_id; send_fn = send_fn } in
      ground (
        arith,
        insert-Distinct StringId-discrete id s b.subscriptions v.distinct,
        insert-Keyed id s b.subscriptions refl v.keyed,
      )

  remove_subscription-IsValid :
      (b : InMemDestinationBackend W) (sub_id : SubscriptionId) (callback : UnsubscribeCallback W)
      (w : W)
      → IsValid b
      → Ensures IsValid (remove_subscription b sub_id callback w).0
  unfolding remove_subscription
  remove_subscription-IsValid b sub_id callback w v = ground (arith, remove-IsValid b sub_id v)

  send_message-IsValid :
      (new_v4 : NewUuid W) (b : InMemDestinationBackend W) (message : InboundMessage)
      (callback : SendCallback W) (w : W)
      → IsValid b
      → Ensures IsValid (send_message new_v4 b message callback w).0
  unfolding send_message
  send_message-IsValid new_v4 b message callback w v = grind (arith, remove_all-IsValid b)

  abbrev pub IfGoesOn : Option (InMemDestinationBackend W) → Type 0
  IfGoesOn none = Unit
  IfGoesOn (some b) = IsValid b

  -- Whatever the action, a valid backend that goes on has each subscription once, under its own id.
  pub handle_action-IsValid :
      (new_v4 : NewUuid W) (b : InMemDestinationBackend W) (action : DestinationAction W) (w : W)
      → IsValid b
      → Ensures IfGoesOn (handle_action new_v4 b action w).0
  unfolding handle_action
  handle_action-IsValid new_v4 b (DestinationAction.subscribe i c f) w v =
      ground (arith, add_subscription-IsValid new_v4 b i c f w v)
  handle_action-IsValid new_v4 b (DestinationAction.unsubscribe i c) w v =
      ground (arith, remove_subscription-IsValid b i c w v)
  handle_action-IsValid new_v4 b (DestinationAction.send m c) w v =
      ground (arith, send_message-IsValid new_v4 b m c w v)
  handle_action-IsValid new_v4 b DestinationAction.close w v = tt

  -- After any actions, with any work of other tasks between them, a backend that was valid is so, if
  -- no callback panicked.
  pub serve-IsValid :
      (new_v4 : NewUuid W) (b : InMemDestinationBackend W) (received : Received W) (w : W)
      → IsValid b
      → Ensures (λ r. IsValid r.0) (serve new_v4 b received w).0
  unfolding serve
  serve-IsValid new_v4 b [] w v = v
  serve-IsValid new_v4 b ((others, action) ∷ rest) w v =
      Ensures-bind IfGoesOn (λ r. IsValid r.0) (handle_action new_v4 b action)
        (go_on (λ b'. serve new_v4 b' rest) (b, rest)) (others w)
        (handle_action-IsValid new_v4 b action (others w) v)
        (elim [ none ↦ λ _ _. v | some b' ↦ λ u h. serve-IsValid new_v4 b' rest u h ])
