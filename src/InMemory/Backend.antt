-- ===== src/InMemory/Backend.antt =====
-- `InMemDestinationBackend` of src/asynchronous/inmemory.rs. Callbacks act on the world and may
-- panic, which ends the backend's task.
use little_stomper.Prelude.{Option, none, some, List, [], ◌∷◌, ◌++◌}
use little_stomper.Prelude.Effects.{Act, Result, ok, err, Unit₀, pure, ◌>>=◌, ◌>>◌, done}
use little_stomper.Prelude.HashMap
use little_stomper.Prelude.HashMap.{HashMap, values}
use little_stomper.Error.{StomperError}
use little_stomper.Ids.{SubscriptionId, DestinationId, MessageId, from_str, StringId-discrete}
use little_stomper.Destinations.{InboundMessage, OutboundMessage, Subscriber, Sender}
use little_stomper.Tokio.{NewUuid}

module _ (W : Type 0) where
  abbrev pub SendFn : Type 0
  SendFn =
      SubscriptionId → Option SubscriptionId → OutboundMessage → Act W (Result Unit₀ StomperError)

  abbrev pub SubscribeCallback : Type 0
  SubscribeCallback =
      DestinationId → Option SubscriptionId → Result SubscriptionId StomperError → Act W Unit₀

  abbrev pub UnsubscribeCallback : Type 0
  UnsubscribeCallback = Option SubscriptionId → Result SubscriptionId StomperError → Act W Unit₀

  abbrev pub SendCallback : Type 0
  SendCallback = Option MessageId → Result MessageId StomperError → Act W Unit₀

  pub record Subscription : Type 0 where
    pub id : SubscriptionId
    pub subscriber_sub_id : Option SubscriptionId
    pub send_fn : SendFn

  pub data DestinationAction : Type 0 where
    subscribe : Option SubscriptionId → SubscribeCallback → SendFn → DestinationAction
    unsubscribe : SubscriptionId → UnsubscribeCallback → DestinationAction
    send : InboundMessage → SendCallback → DestinationAction
    close : DestinationAction

  pub record InMemDestinationBackend : Type 0 where
    pub id : DestinationId
    pub subscriptions : HashMap SubscriptionId Subscription

  abbrev pub Subscriptions : Type 0
  Subscriptions = HashMap SubscriptionId Subscription

  -- What `recv().await` brings: what other tasks do to the world meanwhile, and the action.
  abbrev pub Received : Type 0
  Received = List ((W → W) × DestinationAction)

abbrev pub push_if_err :
    List SubscriptionId → SubscriptionId → Result Unit₀ StomperError → List SubscriptionId
push_if_err dead id (ok _) = dead
push_if_err dead id (err _) = dead ++ (id ∷ [])

-- The closures that a handle makes of a subscriber or a sender.
module _ {W : Type 0} where
  abbrev pub to_subscribe_callback : Subscriber W → SubscribeCallback W
  to_subscribe_callback subscriber = λ x y z. subscriber.subscribe_callback x y z

  abbrev pub to_send_fn : Subscriber W → SendFn W
  to_send_fn subscriber = λ x y z. subscriber.send x y z

  abbrev pub to_unsubscribe_callback : Subscriber W → UnsubscribeCallback W
  to_unsubscribe_callback subscriber = λ x y. subscriber.unsubscribe_callback x y

  abbrev pub to_send_callback : Sender W → SendCallback W
  to_send_callback sender = λ x y. sender.send_callback x y

  -- `Subscription::send`.
  abbrev pub send_to : Subscription W → OutboundMessage → Act W (Result Unit₀ StomperError)
  send_to s message = s.send_fn s.id s.subscriber_sub_id message

  abbrev pub get : SubscriptionId → Subscriptions W → Option (Subscription W)
  get = HashMap.get StringId-discrete

  abbrev pub remove : SubscriptionId → Subscriptions W → Subscriptions W
  remove = HashMap.remove StringId-discrete

  abbrev pub insert : SubscriptionId → Subscription W → Subscriptions W → Subscriptions W
  insert = HashMap.insert StringId-discrete

  -- The callback of `add_subscription`, on what the map holds after the insertion.
  report_added :
      InMemDestinationBackend W
      → SubscriptionId
      → SubscribeCallback W
      → Option (Subscription W)
      → Act W Unit₀
  report_added b id subscriber none = pure tt
  report_added b id subscriber (some s) = subscriber b.id s.subscriber_sub_id (ok id)

  unfoldable pub add_subscription :
      NewUuid W
      → InMemDestinationBackend W
      → Option SubscriptionId
      → SubscribeCallback W
      → SendFn W
      → Act W (InMemDestinationBackend W)
  unfolding report_added
  add_subscription new_v4 b subscriber_sub_id subscriber send_fn w =
      let (uuid, w') = new_v4 w in
      let id = from_str uuid in
      let subscription : Subscription W = record {
        id = id;
        subscriber_sub_id = subscriber_sub_id;
        send_fn = send_fn;
      } in
      let b' = record b { subscriptions = insert id subscription b.subscriptions } in
      (report_added b' id subscriber (get id b'.subscriptions) >> pure b') w'

  abbrev pub subscriber_sub_id_of : Option (Subscription W) → Option SubscriptionId
  subscriber_sub_id_of none = none
  subscriber_sub_id_of (some s) = s.subscriber_sub_id

  unfoldable pub remove_subscription :
      InMemDestinationBackend W
      → SubscriptionId
      → UnsubscribeCallback W
      → Act W (InMemDestinationBackend W)
  remove_subscription b sub_id unsub_callback =
      let subscription = get sub_id b.subscriptions in
      let b' = record b { subscriptions = remove sub_id b.subscriptions } in
      unsub_callback (subscriber_sub_id_of subscription) (ok sub_id) >> pure b'

  -- The first loop of `send`: the subscriptions whose send failed, in order.
  unfoldable pub deliver :
      List (Subscription W) → OutboundMessage → List SubscriptionId → Act W (List SubscriptionId)
  deliver [] out dead = pure dead
  deliver (s ∷ ss) out dead = send_to s out >>= λ r. deliver ss out (push_if_err dead s.id r)

  -- Its second loop.
  unfoldable pub remove_all : List SubscriptionId → Subscriptions W → Subscriptions W
  remove_all [] m = m
  remove_all (id ∷ ids) m = remove_all ids (remove id m)

  unfoldable pub send_message :
      NewUuid W
      → InMemDestinationBackend W
      → InboundMessage
      → SendCallback W
      → Act W (InMemDestinationBackend W)
  unfolding deliver remove_all
  send_message new_v4 b message send_callback w =
      let (uuid, w') = new_v4 w in
      let message_id = from_str uuid in
      let out : OutboundMessage = record {
        destination = b.id;
        message_id = message_id;
        body = message.body;
      } in
      (do
        dead ← deliver (values b.subscriptions) out []
        let b' = record b { subscriptions = remove_all dead b.subscriptions }
        send_callback message.sender_message_id (ok message_id)
        pure b')
        w'

  -- The loop's body for one action: the backend to go on with, or `none` on `break`.
  unfoldable pub handle_action :
      NewUuid W
      → InMemDestinationBackend W
      → DestinationAction W
      → Act W (Option (InMemDestinationBackend W))
  handle_action new_v4 b (subscribe subscriber_sub_id subscribe_callback send_fn) =
      add_subscription new_v4 b subscriber_sub_id subscribe_callback send_fn >>= λ b'.
      pure (some b')
  handle_action new_v4 b (unsubscribe sub_id unsubscribe_callback) =
      remove_subscription b sub_id unsubscribe_callback >>= λ b'. pure (some b')
  handle_action new_v4 b (send message send_callback) =
      send_message new_v4 b message send_callback >>= λ b'. pure (some b')
  handle_action new_v4 b close = pure none

  abbrev pub go_on :
      (InMemDestinationBackend W → Act W (InMemDestinationBackend W × Received W))
      → InMemDestinationBackend W × Received W
      → Option (InMemDestinationBackend W)
      → Act W (InMemDestinationBackend W × Received W)
  go_on next last none = pure last
  go_on next last (some b) = next b

  -- The `while` loop over what is received before the channel ends: the last backend, and what
  -- was left in the queue on `break`.
  unfoldable pub serve :
      NewUuid W
      → InMemDestinationBackend W
      → Received W
      → Act W (InMemDestinationBackend W × Received W)
  serve new_v4 b [] w = (done (b, []), w)
  serve new_v4 b ((others, action) ∷ rest) w =
      let next = λ (b' : InMemDestinationBackend W). serve new_v4 b' rest in
      (handle_action new_v4 b action >>= go_on next (b, rest)) (others w)

  -- `receiver.close()` follows the loop.
  unfoldable pub listen_on :
      NewUuid W → (W → W) → InMemDestinationBackend W → Received W → Act W Unit₀
  listen_on new_v4 close_receiver b received =
      serve new_v4 b received >>= λ _ w. (done tt, close_receiver w)

  -- `start`: a new task over an empty map.
  unfoldable pub start : DestinationId → InMemDestinationBackend W
  start id = record { id = id; subscriptions = [] }
