-- ===== src/Session/Events.antt =====
-- The events of a session and the proxy that posts them: `ClientState`, `ClientEvent` and
-- `AsyncStompClient` of src/asynchronous/client.rs.
use little_stomper.Prelude.{String, Option, none, some, ◌⊎◌, Bytes}
use little_stomper.Prelude.Effects.{Act, Result, ok, err, Unit₀, pure, panics, ◌>>=◌, done}
use little_stomper.Error
use little_stomper.Error.{StomperError}
use little_stomper.Ids.{SubscriptionId, DestinationId}
use little_stomper.Destinations.{OutboundMessage, Subscriber, Sender}
use little_stomper.Stomp.{Frames, ClientFrame, ServerFrame}
use little_stomper.Tokio.{UnboundedSender}

pub data ClientState : Type 0 where
  alive dead : ClientState

pub data ClientEvent (F : Frames) : Type 0 where
  connected : F.HeartBeatIntervalls → ClientEvent F
  client_frame : Result (ClientFrame F) StomperError → ClientEvent F
  client_heartbeat : ClientEvent F
  server_message : SubscriptionId → OutboundMessage → ClientEvent F
  subscribed : DestinationId → SubscriptionId → Result SubscriptionId StomperError → ClientEvent F
  unsubscribed : SubscriptionId → Result SubscriptionId StomperError → ClientEvent F
  error : String → ClientEvent F
  heartbeat : ClientEvent F
  close : ClientEvent F

-- `Either<ServerFrame, Vec<u8>>`.
abbrev pub ServerMessage : Frames → Type 0
ServerMessage F = ServerFrame F ⊎ Bytes

-- What a handler's future yields.
abbrev pub Response : Frames → Type 0
Response F = Result (ClientState × Option (ServerMessage F)) StomperError

pub record AsyncStompClient (W : Type 0) (F : Frames) : Type 0 where
  pub sender : UnboundedSender W (ClientEvent F)

abbrev pub no_identifier : String
no_identifier = "STOMP requires subscriptions to have a client-provided identifier"

-- `expect` on a missing id panics.
abbrev unwrap_subscriber_sub_id : {W : Type 0} → Option SubscriptionId → Act W SubscriptionId
unwrap_subscriber_sub_id none = panics no_identifier
unwrap_subscriber_sub_id (some id) = pure id

abbrev or_closed : {F : Frames} → Result Unit₀ (ClientEvent F) → Result Unit₀ StomperError
or_closed (ok _) = ok tt
or_closed (err _) = err (Error.new "Unable to send message, client channel closed")

module _ {W : Type 0} {F : Frames} where
  -- A refusal is only logged.
  unfoldable pub send_event : AsyncStompClient W F → ClientEvent F → Act W Unit₀
  send_event c event w = let (r, w') = c.sender.send event w in (done tt, w')

  unfoldable pub subscribe_callback :
      AsyncStompClient W F
      → DestinationId
      → Option SubscriptionId
      → Result SubscriptionId StomperError
      → Act W Unit₀
  unfolding send_event
  subscribe_callback c destination_id client_subscription_id subscribe_result = do
    id ← unwrap_subscriber_sub_id client_subscription_id
    send_event c (subscribed destination_id id subscribe_result)

  unfoldable pub unsubscribe_callback :
      AsyncStompClient W F
      → Option SubscriptionId
      → Result SubscriptionId StomperError
      → Act W Unit₀
  unfolding send_event
  unsubscribe_callback c client_subscription_id unsubscribe_result = do
    id ← unwrap_subscriber_sub_id client_subscription_id
    send_event c (unsubscribed id unsubscribe_result)

  unfoldable pub send :
      AsyncStompClient W F
      → SubscriptionId
      → Option SubscriptionId
      → OutboundMessage
      → Act W (Result Unit₀ StomperError)
  send c _ client_subscription_id message = do
    id ← unwrap_subscriber_sub_id client_subscription_id
    λ w. let (r, w') = c.sender.send (server_message id message) w in (done (or_closed r), w')

  -- `impl Subscriber` and `impl Sender for AsyncStompClient`.
  abbrev pub as_subscriber : AsyncStompClient W F → Subscriber W
  as_subscriber c = record {
    subscribe_callback = subscribe_callback c;
    unsubscribe_callback = unsubscribe_callback c;
    send = send c;
  }

  abbrev pub as_sender : AsyncStompClient W F → Sender W
  as_sender c = record { send_callback = λ _ _. pure tt }
