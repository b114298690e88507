-- ===== src/Session/Handler.antt =====
-- `ClientSession` of src/asynchronous/client.rs: its state, and what it does with each event.
use little_stomper.Prelude.{
  ◌%◌, ◌^◌, String, ◌<>◌, Option, none, some, [], ◌∷◌, inl, inr, Bytes, length,
}
use little_stomper.Prelude.Effects.{Act, Result, ok, err, Unit₀, pure, panics, ◌>>=◌, ◌>>◌}
use little_stomper.Prelude.HashMap
use little_stomper.Prelude.HashMap.{HashMap}
use little_stomper.Client.{Client}
use little_stomper.Error.{StomperError}
use little_stomper.Ids.{
  SubscriptionId, DestinationId, from_str, into_string, display, StringId-discrete,
}
use little_stomper.Destinations.{Destinations, OutboundMessage}
use little_stomper.Stomp.{Frames, StompParser, ClientFrame, ServerFrame}
use little_stomper.Timer.Resetter.{ResettableTimerResetter, reset_timer}
use little_stomper.Session.Events.{
  ClientState, alive, dead, ClientEvent, Response, AsyncStompClient, send_event, as_subscriber,
  as_sender,
}

-- The destination, and the id that it gave the subscription.
abbrev pub Active : Type 0
Active = HashMap SubscriptionId (DestinationId × SubscriptionId)

pub record ClientSession (W C : Type 0) (F : Frames) : Type 0 where
  pub destinations : Destinations W C
  pub client_proxy : AsyncStompClient W F
  pub active_subscriptions_by_client_id : Active
  pub server_heartbeat_resetter : ResettableTimerResetter W
  pub client_heartbeat_resetter : ResettableTimerResetter W
  pub client : C

abbrev pub get_active : SubscriptionId → Active → Option (DestinationId × SubscriptionId)
get_active = HashMap.get StringId-discrete

abbrev insert_active : SubscriptionId → DestinationId × SubscriptionId → Active → Active
insert_active = HashMap.insert StringId-discrete

abbrev remove_active : SubscriptionId → Active → Active
remove_active = HashMap.remove StringId-discrete

abbrev eol : Bytes
eol = b'\n' ∷ []

-- `self.body().unwrap()` and `todo!()`.
abbrev pub no_body : String
no_body = "called `Option::unwrap()` on a `None` value"

abbrev pub not_yet : String
not_yet = "not yet implemented"

module _ {F : Frames} where
  -- `ready(Ok((ClientState::Alive, None)))`.
  abbrev pub nothing : Response F
  nothing = ok (alive, none)

  abbrev pub state_frame_result : ClientState → ServerFrame F → Response F
  state_frame_result state frame = ok (state, some (inl frame))

  abbrev pub frame_result : ServerFrame F → Response F
  frame_result frame = state_frame_result alive frame

  abbrev send_heartbeat : Response F
  send_heartbeat = ok (alive, some (inr eol))

module _ {F : Frames} (P : StompParser F) where
  -- `as u32` keeps the low 32 bits of the length.
  unfoldable pub server_message : SubscriptionId → OutboundMessage → Response F
  server_message client_subscription_id message =
      let raw_body = message.body in
      let builder =
        P.message_new (into_string message.message_id) (into_string message.destination)
          (into_string client_subscription_id) in
      frame_result (
        ServerFrame.message (
          P.message_build (
            P.message_body raw_body (
              P.message_content_length (length raw_body % 2 ^ 32)
                (P.message_content_type "text/plain" builder)))))

  abbrev pub with_session : Option String → F.ConnectedFrameBuilder → F.ConnectedFrameBuilder
  with_session none builder = builder
  with_session (some session) builder = P.connected_session session builder

  abbrev pub with_server : Option String → F.ConnectedFrameBuilder → F.ConnectedFrameBuilder
  with_server none builder = builder
  with_server (some server) builder = P.connected_server server builder

module _ {C : Type 0} ⦃methods : Client C⦄ {F : Frames} (P : StompParser F) where
  -- The reply to an accepted CONNECT.
  unfoldable pub connected_frame : C → F.HeartBeatIntervalls → F.ConnectedFrame
  connected_frame client heartbeat = P.connected_build (
      with_server P (methods.server client) (
        with_session P (methods.session client)
          (P.connected_heartbeat heartbeat (P.connected_new F.v1_2))))

-- `expect` of a failed reset panics, with this text and the error.
abbrev pub reset_failed : String
reset_failed = "Unexpected error"

abbrev pub expect_reset : {W : Type 0} → Result Unit₀ StomperError → Act W Unit₀
expect_reset (ok _) = pure tt
expect_reset (err _) = panics reset_failed

abbrev unwrap_body : {W : Type 0} → Option Bytes → Act W Bytes
unwrap_body none = panics no_body
unwrap_body (some body) = pure body

-- `{:?}` of an error, with `quote` for that of a string.
abbrev pub debug_error : (String → String) → StomperError → String
debug_error quote e = "StomperError { message: " <> quote e.message <> " }"

module _ {W C : Type 0} {F : Frames} where
  abbrev pub new :
      Destinations W C
      → AsyncStompClient W F
      → ResettableTimerResetter W
      → ResettableTimerResetter W
      → C
      → ClientSession W C F
  new destinations client_proxy server_resetter client_resetter client = record {
    destinations = destinations;
    client_proxy = client_proxy;
    active_subscriptions_by_client_id = [];
    server_heartbeat_resetter = server_resetter;
    client_heartbeat_resetter = client_resetter;
    client = client;
  }

  unfoldable pub subscribed :
      ClientSession W C F
      → DestinationId
      → SubscriptionId
      → Result SubscriptionId StomperError
      → ClientSession W C F
  subscribed s destination client_subscription_id (ok destination_sub_id) = record s {
    active_subscriptions_by_client_id =
        insert_active client_subscription_id (destination, destination_sub_id)
          s.active_subscriptions_by_client_id;
  }
  subscribed s destination client_subscription_id (err _) = s

  unfoldable pub unsubscribed :
      ClientSession W C F
      → SubscriptionId
      → Result SubscriptionId StomperError
      → ClientSession W C F
  unsubscribed s client_subscription_id (ok _) = record s {
    active_subscriptions_by_client_id =
        remove_active client_subscription_id s.active_subscriptions_by_client_id;
  }
  unsubscribed s client_subscription_id (err _) = s

  -- An error of the reset is only logged.
  client_message_received : ClientSession W C F → Act W Unit₀
  unfolding reset_timer
  client_message_received s = reset_timer s.client_heartbeat_resetter >>= λ _. pure tt

module _ {W C : Type 0} ⦃methods : Client C⦄ {F : Frames} (P : StompParser F) where
  -- The frame goes out, and a `Close` is posted to the session itself.
  unfoldable pub error : ClientSession W C F → String → Act W (Response F)
  unfolding send_event
  error s message = do
    send_event s.client_proxy ClientEvent.close
    pure (frame_result (ServerFrame.error (P.error_from_message message)))

  unsubscribe_found :
      ClientSession W C F
      → SubscriptionId
      → Option (DestinationId × SubscriptionId)
      → Act W (Response F)
  unfolding error
  unsubscribe_found s client_subscription_id none =
      error s
        ("Attempt to unsubscribe from unknown subscription: " <> display client_subscription_id)
  unsubscribe_found s client_subscription_id (some (destination_id, destination_sub_id)) = do
    s.destinations.unsubscribe destination_id destination_sub_id (as_subscriber s.client_proxy)
        s.client
    pure nothing

  unfoldable pub unsubscribe : ClientSession W C F → SubscriptionId → Act W (Response F)
  unfolding unsubscribe_found
  unsubscribe s client_subscription_id =
      unsubscribe_found s client_subscription_id
        (get_active client_subscription_id s.active_subscriptions_by_client_id)

  unfoldable pub handle : ClientSession W C F → ClientFrame F → Act W (Response F)
  unfolding unsubscribe error
  handle s (ClientFrame.connect _) = error s "Already connected."
  handle s (ClientFrame.subscribe frame) = do
    s.destinations.subscribe (from_str (P.subscribe_destination frame))
        (some (from_str (P.subscribe_id frame))) (as_subscriber s.client_proxy) s.client
    pure nothing
  handle s (ClientFrame.send frame) = do
    body ← unwrap_body (P.send_body frame)
    s.destinations.send (from_str (P.send_destination frame))
        (record { sender_message_id = none; body = body }) (as_sender s.client_proxy) s.client
    pure nothing
  handle s (ClientFrame.disconnect _) = pure (ok (dead, none))
  handle s (ClientFrame.unsubscribe frame) = unsubscribe s (from_str (P.unsubscribe_id frame))
  handle s (ClientFrame.abort _) = panics not_yet
  handle s (ClientFrame.ack _) = panics not_yet
  handle s (ClientFrame.begin _) = panics not_yet
  handle s (ClientFrame.commit _) = panics not_yet
  handle s (ClientFrame.nack _) = panics not_yet

  unfoldable pub client_frame :
      (String → String)
      → ClientSession W C F
      → Result (ClientFrame F) StomperError
      → Act W (Response F)
  unfolding handle error
  client_frame quote s (err e) =
      error s ("Error processing client message: " <> debug_error quote e)
  client_frame quote s (ok frame) = handle s frame

  unfoldable pub handle_event :
      (String → String)
      → ClientSession W C F
      → ClientEvent F
      → Act W (ClientSession W C F × Response F)
  unfolding connected_frame client_message_received client_frame server_message subscribed
      unsubscribed error reset_timer
  handle_event quote s (ClientEvent.connected heartbeat) =
      pure (s, frame_result (ServerFrame.connected (connected_frame P s.client heartbeat)))
  handle_event quote s ClientEvent.close = pure (s, ok (dead, none))
  handle_event quote s (ClientEvent.client_frame result) = do
    client_message_received s
    r ← client_frame quote s result
    pure (s, r)
  handle_event quote s ClientEvent.client_heartbeat = do
    client_message_received s
    pure (s, nothing)
  handle_event quote s (ClientEvent.server_message client_subscription_id message) = do
    r ← reset_timer s.server_heartbeat_resetter
    expect_reset r
    pure (s, server_message P client_subscription_id message)
  handle_event quote s (ClientEvent.subscribed destination client_subscription_id result) =
      pure (subscribed s destination client_subscription_id result, nothing)
  handle_event quote s (ClientEvent.unsubscribed client_subscription_id result) =
      pure (unsubscribed s client_subscription_id result, nothing)
  handle_event quote s (ClientEvent.error message) = do r ← error s message; pure (s, r)
  handle_event quote s ClientEvent.heartbeat = pure (s, send_heartbeat)
