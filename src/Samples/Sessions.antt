-- ===== src/Samples/Sessions.antt =====
-- A session's handlers, its greeting and its heartbeats.
use little_stomper.Prelude.{
  ◌≡◌, refl, ◌↔◌, ◌≤◌, String, ◌<>◌, none, some, [], ◌∷◌, ◌++◌, not, true, arith, length,
}
use little_stomper.Prelude.Effects.{ok, err, done, Ensures}
use mathlib.Core.Option.{map as map_option}
use little_stomper.Ids.{display, from_str}
use little_stomper.Error
use little_stomper.Client.{default_client, default_client_methods, default_server}
use little_stomper.Stomp.{ClientFrame, ServerFrame}
use little_stomper.Session.Events.{ClientEvent}
use little_stomper.Session.Handler.{
  nothing, subscribed, unsubscribed, unsubscribe, error, handle_event, frame_result, server_message,
}
use little_stomper.Session.Connect.{open_session, heartbeat_with_buffer}
use little_stomper.Session.Stream.{not_dead}
use little_stomper.Session.Behaviour.{
  FollowsEvent, handle_event-FollowsEvent, handle_event-ends, ends, is_ok,
}
use little_stomper.Session.Unsubscribe.{unsubscribe-subscribed_twice, handle_event-IsFault}
use little_stomper.Session.Heartbeats.{le-heartbeat_with_buffer_iff}
use little_stomper.Session.Greeting.{Delivered, open_session-greets, server_message-read}
use little_stomper.Samples.Protocol.{
  frames, parser, SampleConnected, as_connected, parser-IsBuilder,
}
use little_stomper.Samples.World.{
  quiet, queue, open_now, event_sender-IsChannel, timer_sender-IsApart, idle_destinations, news,
  my_id, its_id, session, hello, runtime,
}

abbrev quote : String → String
quote s = "\"" <> s <> "\""

abbrev confirmed : ClientEvent frames
confirmed = ClientEvent.subscribed news my_id (ok its_id)

handle_event-FollowsEvent_example :
    Ensures
      (FollowsEvent parser quote session confirmed)
      (handle_event parser quote session confirmed quiet).0
handle_event-FollowsEvent_example = handle_event-FollowsEvent parser quote session confirmed quiet

abbrev disconnect : ClientEvent frames
disconnect = ClientEvent.client_frame (ok (ClientFrame.disconnect tt))

handle_event-ends_example :
    Ensures
      (λ r. (not_dead r.1 ≡ not (ends disconnect)) × (is_ok r.1 ≡ true))
      (handle_event parser quote session disconnect quiet).0
handle_event-ends_example = handle_event-ends parser quote session disconnect quiet

unsubscribe-subscribed_twice_example :
    let once = subscribed session news my_id (ok its_id) in
    let twice = subscribed once news my_id (ok (from_str "u-3")) in
    let removed = unsubscribed twice my_id (ok (from_str "u-3")) in
    (unsubscribe parser twice my_id quiet ≡ (done nothing, quiet))
    × (unsubscribe parser removed my_id quiet
        ≡ error parser removed
            ("Attempt to unsubscribe from unknown subscription: " <> display my_id)
            quiet)
unfolding subscribed
unsubscribe-subscribed_twice_example =
    unsubscribe-subscribed_twice parser session news news my_id its_id (from_str "u-3") quiet

abbrev unreadable : ClientEvent frames
unreadable = ClientEvent.client_frame (err (Error.new "Unknown frame"))

handle_event-IsFault_example :
    (frame : String) × ((handle_event parser quote session unreadable quiet).0
      ≡ done (session, frame_result (ServerFrame.error frame)))
    × (queue (handle_event parser quote session unreadable quiet).1
        ≡ queue quiet ++ (ClientEvent.close ∷ []))
handle_event-IsFault_example =
    handle_event-IsFault parser quote session queue open_now event_sender-IsChannel
      timer_sender-IsApart unreadable quiet tt refl

open_session-greets_example :
    let (s, event, server_timer) =
      (open_session runtime idle_destinations (1000, 2000) default_client quiet).0 in
    (frame : SampleConnected) × (handle_event parser quote s event quiet
      ≡ (done (s, frame_result (ServerFrame.connected frame)), quiet))
    × ((as_connected frame).version ≡ 12)
    × ((as_connected frame).session ≡ none)
    × ((as_connected frame).server ≡ some default_server)
    × (map_option frames.supplied (as_connected frame).heartbeat ≡ some 2000)
    × (map_option frames.expected (as_connected frame).heartbeat ≡ some 1000)
    × (s.active_subscriptions_by_client_id ≡ [])
    × (server_timer.period ≡ 2000)
open_session-greets_example =
    open_session-greets parser parser-IsBuilder runtime quote idle_destinations (1000, 2000)
      default_client quiet quiet

hello_read :
    (frame : Delivered) × (server_message parser my_id hello
      ≡ frame_result (ServerFrame.message frame))
    × (frame ≡ record {
      message_id = "u-2";
      destination = "news";
      subscription = "mine";
      content_type = some "text/plain";
      content_length = some (length hello.body);
      body = some hello.body;
    })
hello_read = server_message-read parser parser-IsBuilder my_id hello (omega arith)

le-heartbeat_with_buffer_iff_example :
    (40000000 ≤ heartbeat_with_buffer 40000000) ↔ (40000000 ≤ 35791394)
le-heartbeat_with_buffer_iff_example = le-heartbeat_with_buffer_iff 40000000 (omega arith)

-- A period above the bound wraps: the buffered one is shorter.
wrapped : heartbeat_with_buffer 40000000 ≡ 5050327
unfolding heartbeat_with_buffer
wrapped = refl
