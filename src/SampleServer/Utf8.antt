-- ===== src/SampleServer/Utf8.antt =====
-- Frames as text messages (`handle_websocket` of src/bin/sample_server.rs): those that are UTF-8, and
-- those that are not.
use little_stomper.Prelude.{String, ◌≡◌, Option, none, some, List, ◌∷◌, Bytes, arith}
use little_stomper.Prelude.Effects.{Result, ok, Unit₀, done, panic, ◌>>=◌}
use little_stomper.Client.{Client, DefaultClient, default_client_factory, default_client_methods}
use little_stomper.Error.{StomperError}
use little_stomper.Ids.{SubscriptionId}
use little_stomper.Destinations.{Destinations, OutboundMessage}
use little_stomper.Stomp.{Frames, StompParser, ServerFrame}
use little_stomper.Timer.Resetter.{reset_timer}
use little_stomper.Session.Events.{ClientEvent}
use little_stomper.Session.Handler.{ClientSession, handle_event, server_message, frame_result}
use little_stomper.Session.Connect.{Runtime, stream_from_client}
use little_stomper.Session.Stream.{
  Select, linger, respond, if_sent, first_event, not_dead, forward_response,
}
use little_stomper.Session.Admission.{refusal, process_stream-refused}
use little_stomper.SampleServer.WebSocket.{text, encode}
use little_stomper.SampleServer.Socket.{
  MessageSink, websocket_sink, joined_response, handle_websocket,
}

module _ {W X Y : Type 0} {F : Frames} (P : StompParser F) (quote : String → String)
    (rt : Runtime W F) (from_utf8 : Bytes → Option String) (sink : MessageSink W X Y) where
  -- A client whose first message is not a CONNECT for STOMP 1.2 gets one text message, the ERROR
  -- frame with the reason, if that is UTF-8; if the channel takes it, the sink is closed after the
  -- linger time, and then the response task is awaited; nothing else happens.
  pub handle_websocket-refused :
      {J : Type 0} (join : W → Result Unit₀ J × W) (stream : List (Result Bytes StomperError))
      (destinations : Destinations W DefaultClient) (select : Select W F) (why t : String) (w : W)
      → refusal P (first_event (stream_from_client P stream)) ≡ some why
      → from_utf8 (P.into_bytes (ServerFrame.error (P.error_from_message why))) ≡ some t
      → let (_, w') =
          (sink.send (text t) >>= if_sent (linger rt (websocket_sink from_utf8 sink))) w in
        let (r, w'') = join w' in
        handle_websocket P quote rt from_utf8 sink join stream destinations select w
        ≡ (joined_response r, w'')
  unfolding handle_websocket websocket_sink encode
  handle_websocket-refused join stream destinations select why t w h e = ground (
    arith,
    process_stream-refused P quote rt (websocket_sink from_utf8 sink) stream destinations
        default_client_factory select why w h,
  )

  -- If the timer of the session takes its reset, a message whose MESSAGE frame is not UTF-8 ends
  -- the task of the session by a panic, and nothing behind it is read.
  pub respond-not_utf8 :
      {C : Type 0} ⦃methods : Client C⦄ (s : ClientSession W C F) (others : W → W)
      (c : SubscriptionId) (m : OutboundMessage) (frame : F.MessageFrame)
      (rest : List ((W → W) × ClientEvent F)) (w v : W)
      → server_message P c m ≡ frame_result (ServerFrame.message frame)
      → from_utf8 (P.into_bytes (ServerFrame.message frame)) ≡ none
      → reset_timer s.server_heartbeat_resetter (others w) ≡ (done (ok tt), v)
      → respond P quote rt
          (websocket_sink from_utf8 sink)
          s
          ((others, ClientEvent.server_message c m) ∷ rest)
          w
        ≡ (panic "called `Result::unwrap()` on an `Err` value", v)
  unfolding respond handle_event websocket_sink encode not_dead forward_response
  respond-not_utf8 s others c m frame rest w v made bad on = ground arith
