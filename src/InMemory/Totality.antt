-- ===== src/InMemory/Totality.antt =====
-- The loop of src/asynchronous/inmemory.rs returns, if nothing that it calls panics.
use little_stomper.Prelude.{◌≡◌, refl, Option, none, some, List, [], ◌∷◌, arith, All}
use little_stomper.Prelude.Effects.{Act, Result, ok, Unit₀, pure, ◌>>=◌, ◌>>◌, done}
use little_stomper.Prelude.HashMap
use little_stomper.Prelude.HashMap.{values, get-insert_self, remove-All}
use little_stomper.Error.{StomperError}
use little_stomper.Ids.{SubscriptionId, DestinationId, MessageId, StringId-discrete, from_str}
use little_stomper.Destinations.{InboundMessage, OutboundMessage}
use little_stomper.Tokio.{NewUuid}
use little_stomper.InMemory.Backend.{
  InMemDestinationBackend, Subscription, Subscriptions, SubscribeCallback, UnsubscribeCallback,
  SendCallback, SendFn, DestinationAction, Received, send_to, push_if_err, remove, insert,
  add_subscription, remove_subscription, deliver, remove_all, send_message, handle_action, go_on,
  serve,
}

-- The code returns in every world, with a value of which `P` holds.
abbrev pub Returns : {W A : Type 0} → (A → Type 0) → Act W A → Type 0
Returns {W} {A} P m = (w : W) → (a : A) × (w' : W) × (m w ≡ (done a, w')) × P a

module _ {W A B : Type 0} (P : A → Type 0) (Q : B → Type 0) where
  Returns-bind :
      (m : Act W A) (f : A → Act W B)
      → Returns P m
      → ((a : A) → P a → Returns Q (f a))
      → Returns Q (m >>= f)
  Returns-bind m f h k w =
      let (a, w', e, p) = h w in let (b, w'', e', q) = k a p w' in (b, w'', ground arith, q)

-- No condition on the value.
abbrev Always : {A : Type 0} → A → Type 0
Always a = Unit

module _ {W : Type 0} where
  abbrev pub IsCalm : Subscriptions W → Type 0
  IsCalm = All (λ e. (out : OutboundMessage) → Returns Always (send_to e.1 out))

  -- Neither the callback of an action nor the send function that it brings panics, on the id of the
  -- subscriber that it brings.
  abbrev pub IsCalmAction : DestinationAction W → Type 0
  IsCalmAction (DestinationAction.subscribe i callback send_fn) =
      ((d : DestinationId) (r : Result SubscriptionId StomperError)
        → Returns Always (callback d i r))
      × ((j : SubscriptionId) (out : OutboundMessage) → Returns Always (send_fn j i out))
  IsCalmAction (DestinationAction.unsubscribe i callback) =
      (o : Option SubscriptionId) (r : Result SubscriptionId StomperError)
      → Returns Always (callback o r)
  IsCalmAction (DestinationAction.send message callback) =
      (o : Option MessageId) (r : Result MessageId StomperError) → Returns Always (callback o r)
  IsCalmAction DestinationAction.close = Unit

  remove-IsCalm : (k : SubscriptionId) (m : Subscriptions W) → IsCalm m → IsCalm (remove k m)
  remove-IsCalm k m h =
      remove-All StringId-discrete (λ e. (out : OutboundMessage) → Returns Always (send_to e.1 out))
        k m h

  remove_all-IsCalm :
      (ids : List SubscriptionId) (m : Subscriptions W) → IsCalm m → IsCalm (remove_all ids m)
  unfolding remove_all
  remove_all-IsCalm [] m h = h
  remove_all-IsCalm (k ∷ ids) m h = remove_all-IsCalm ids (remove k m) (remove-IsCalm k m h)

  deliver-Returns :
      (m : Subscriptions W) (out : OutboundMessage) (dead : List SubscriptionId)
      → IsCalm m
      → Returns Always (deliver (values m) out dead)
  unfolding deliver
  deliver-Returns [] out dead h = λ w. (dead, w, refl, tt)
  deliver-Returns ((k, s) ∷ m) out dead h =
      Returns-bind Always Always (send_to s out)
        (λ r. deliver (values m) out (push_if_err dead s.id r)) (h.0 out)
        (λ r _. deliver-Returns m out (push_if_err dead s.id r) h.1)

  abbrev pub IsCalmBackend : InMemDestinationBackend W → Type 0
  IsCalmBackend b = IsCalm b.subscriptions

  -- Code that calls back and then returns a calm backend.
  after-Returns :
      (m : Act W Unit₀) (b : InMemDestinationBackend W)
      → Returns Always m
      → IsCalmBackend b
      → Returns IsCalmBackend (m >> pure b)
  after-Returns m b h c =
      Returns-bind Always IsCalmBackend m (λ _. pure b) h (λ _ _ w. (b, w, refl, c))

  add_subscription-Returns :
      (new_v4 : NewUuid W) (b : InMemDestinationBackend W) (i : Option SubscriptionId)
      (callback : SubscribeCallback W) (send_fn : SendFn W)
      → IsCalmBackend b
      → IsCalmAction (DestinationAction.subscribe i callback send_fn)
      → Returns IsCalmBackend (add_subscription new_v4 b i callback send_fn)
  unfolding add_subscription HashMap.insert
  add_subscription-Returns new_v4 b i callback send_fn calm (calls, sends) w =
      let (uuid, w') = new_v4 w in
      let s : Subscription W = record {
        id = from_str uuid;
        subscriber_sub_id = i;
        send_fn = send_fn;
      } in
      let b' = record b { subscriptions = insert s.id s b.subscriptions } in
      let calm' : IsCalmBackend b' = (sends s.id, remove-IsCalm s.id b.subscriptions calm) in
      let (b'', w'', e, c) =
        after-Returns (callback b.id i (ok s.id)) b' (calls b.id (ok s.id)) calm' w' in
      (b'', w'', ground (arith, get-insert_self StringId-discrete s.id s b.subscriptions), c)

  remove_subscription-Returns :
      (b : InMemDestinationBackend W) (id : SubscriptionId) (callback : UnsubscribeCallback W)
      → IsCalmBackend b
      → IsCalmAction (DestinationAction.unsubscribe id callback)
      → Returns IsCalmBackend (remove_subscription b id callback)
  unfolding remove_subscription
  remove_subscription-Returns b id callback calm calls =
      after-Returns _ (record b { subscriptions = remove id b.subscriptions }) (calls _ _)
        (remove-IsCalm id b.subscriptions calm)

  send_message-Returns :
      (new_v4 : NewUuid W) (b : InMemDestinationBackend W) (message : InboundMessage)
      (callback : SendCallback W)
      → IsCalmBackend b
      → IsCalmAction (DestinationAction.send message callback)
      → Returns IsCalmBackend (send_message new_v4 b message callback)
  unfolding send_message
  send_message-Returns new_v4 b message callback calm calls w =
      let (uuid, w') = new_v4 w in
      let out : OutboundMessage = record {
        destination = b.id;
        message_id = from_str uuid;
        body = message.body;
      } in
      Returns-bind Always IsCalmBackend (deliver (values b.subscriptions) out [])
        (λ dead.
          callback message.sender_message_id (ok out.message_id)
          >> pure (record b { subscriptions = remove_all dead b.subscriptions }))
        (deliver-Returns b.subscriptions out [] calm)
        (λ dead _.
          after-Returns _ (record b { subscriptions = remove_all dead b.subscriptions }) (calls _ _)
            (remove_all-IsCalm dead b.subscriptions calm))
        w'

  abbrev pub IfCalm : Option (InMemDestinationBackend W) → Type 0
  IfCalm none = Unit
  IfCalm (some b) = IsCalmBackend b

  go_on-Returns :
      (m : Act W (InMemDestinationBackend W))
      → Returns IsCalmBackend m
      → Returns IfCalm (m >>= λ b. pure (some b))
  go_on-Returns m h =
      Returns-bind IsCalmBackend IfCalm m (λ b. pure (some b)) h (λ b c w. (some b, w, refl, c))

  pub handle_action-Returns :
      (new_v4 : NewUuid W) (b : InMemDestinationBackend W) (action : DestinationAction W)
      → IsCalmBackend b
      → IsCalmAction action
      → Returns IfCalm (handle_action new_v4 b action)
  unfolding handle_action
  handle_action-Returns new_v4 b (DestinationAction.subscribe i c f) calm calls =
      go_on-Returns _ (add_subscription-Returns new_v4 b i c f calm calls)
  handle_action-Returns new_v4 b (DestinationAction.unsubscribe i c) calm calls =
      go_on-Returns _ (remove_subscription-Returns b i c calm calls)
  handle_action-Returns new_v4 b (DestinationAction.send m c) calm calls =
      go_on-Returns _ (send_message-Returns new_v4 b m c calm calls)
  handle_action-Returns new_v4 b DestinationAction.close calm calls = λ w. (none, w, refl, tt)

  -- If no send function of the backend panics, and no callback or send function of the actions does,
  -- the loop serves the actions and returns, with a backend of which the same holds.
  pub serve-Returns :
      (new_v4 : NewUuid W) (b : InMemDestinationBackend W) (received : Received W)
      → IsCalmBackend b
      → All (λ x. IsCalmAction x.1) received
      → Returns (λ r. IsCalmBackend r.0) (serve new_v4 b received)
  unfolding serve
  serve-Returns new_v4 b [] calm calls = λ w. ((b, []), w, refl, calm)
  serve-Returns new_v4 b ((others, action) ∷ rest) calm calls = λ w.
      Returns-bind IfCalm (λ r. IsCalmBackend r.0) (handle_action new_v4 b action)
        (go_on (λ b'. serve new_v4 b' rest) (b, rest))
        (handle_action-Returns new_v4 b action calm calls.0)
        (elim [
          | none ↦ λ _ v. ((b, rest), v, refl, calm)
          | some b' ↦ λ c. serve-Returns new_v4 b' rest c calls.1
        ])
        (others w)
