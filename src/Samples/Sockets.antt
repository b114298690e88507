-- ===== src/Samples/Sockets.antt =====
-- A WebSocket whose text messages are ASCII.
use little_stomper.Prelude.{
  ◌≡◌, sym, arith, true, List, ◌++◌, refl, false, String, Option, none, some, [], ◌∷◌, suc, Bytes,
  ltb, if◌then◌else◌,
}
use little_stomper.Prelude.Effects.{Act, Result, ok, err, Unit₀, done, panic}
use little_stomper.Client.{default_client_methods}
use little_stomper.Destinations.{OutboundMessage}
use little_stomper.Ids.{from_str}
use little_stomper.Timer.Resetter.{reset_timer}
use little_stomper.Session.Events.{ClientEvent}
use little_stomper.Session.Handler.{server_message}
use little_stomper.Session.Connect.{stream_from_client}
use little_stomper.Session.Stream.{Select, linger, respond}
use little_stomper.Tokio.{UnboundedSender, IsChannel}
use mathlib.Core.List.{append-nil}
use little_stomper.SampleServer.WebSocket.{
  Message, Incoming, ping, pong, text, binary, close, bytes_stream, response_task,
}
use little_stomper.SampleServer.Replies.{AllPost, bytes_stream-replies, response_task-close}
use little_stomper.SampleServer.Socket.{MessageSink, websocket_sink, handle_websocket}
use little_stomper.SampleServer.Utf8.{handle_websocket-refused, respond-not_utf8}
use little_stomper.Samples.Protocol.{frames, parser}
use little_stomper.Samples.World.{World, quiet, session, idle_destinations, runtime, news, my_id}

abbrev quote : String → String
quote s = s

-- The text is not looked at.
abbrev from_ascii : Bytes → Option String
from_ascii [] = some "text"
from_ascii (b ∷ bytes) = let rest = from_ascii bytes in if ltb b 128 then rest else none

abbrev message_sink : MessageSink World Unit₀ Unit₀
message_sink = record {
  send = λ m w. (done (ok tt), record w { actions = suc w.actions });
  close = λ w. (done (ok tt), record w { is_open = false });
}

abbrev join : World → Result Unit₀ String × World
join w = (ok tt, w)

abbrev in_order : Select World frames
in_order [] = []
in_order (e ∷ es) = (λ w. w, e) ∷ in_order es

handle_websocket-refused_example :
    handle_websocket parser quote runtime from_ascii message_sink join
      (ok (b'D' ∷ []) ∷ [])
      idle_destinations
      in_order
      quiet
    ≡ (ok tt, record quiet { actions = 1; is_open = false })
unfolding stream_from_client linger websocket_sink
handle_websocket-refused_example =
    handle_websocket-refused parser quote runtime from_ascii message_sink join (ok (b'D' ∷ []) ∷ [])
      idle_destinations in_order "First message must be a CONNECT frame" "text" quiet refl refl

-- A message whose body is the byte 255.
abbrev binary_message : OutboundMessage
binary_message = record { destination = news; message_id = from_str "u-2"; body = 255 ∷ [] }

respond-not_utf8_example :
    respond parser quote runtime
      (websocket_sink from_ascii message_sink)
      session
      ((λ w. w, ClientEvent.server_message my_id binary_message)
        ∷ (λ w. w, ClientEvent.heartbeat)
        ∷ [])
      quiet
    ≡ (panic "called `Result::unwrap()` on an `Err` value", record quiet { resets = 1 })
unfolding server_message reset_timer
respond-not_utf8_example =
    respond-not_utf8 parser quote runtime from_ascii message_sink session (λ w. w) my_id
      binary_message
      (record {
        message_id = "u-2";
        destination = "news";
        subscription = "mine";
        content_type = some "text/plain";
        content_length = some 1;
        body = some (255 ∷ []);
      })
      ((λ w. w, ClientEvent.heartbeat) ∷ []) quiet (record quiet { resets = 1 }) refl refl refl

-- A socket's channel, as the list of its messages; any value of the world is such a list.
abbrev Channel : Type 0
Channel = List (Message Unit₀ Unit₀)

abbrev channel : UnboundedSender Channel (Message Unit₀ Unit₀)
channel = record { send = λ m w. (ok tt, w ++ (m ∷ [])) }

channel-IsChannel : IsChannel channel (λ w. w) (λ w. true)
channel-IsChannel = record {
  send_open = λ a w h. (refl, refl, refl);
  send_closed = λ a w h. ground arith;
}

abbrev from_text : String → Bytes
from_text t = 7 ∷ []

abbrev show : Unit₀ → String
show u = "reset"

-- Another task posts a text.
abbrev answer : Channel → Channel
answer w = w ++ (text "m" ∷ [])

abbrev before_close : Incoming Channel Unit₀ Unit₀ Unit₀
before_close = (λ w. w, ok (ping (1 ∷ []))) ∷ (answer, ok (binary (2 ∷ []))) ∷ []

abbrev after_close : Incoming Channel Unit₀ Unit₀ Unit₀
after_close = (answer, err tt) ∷ []

before-AllPost :
    AllPost from_text show channel (λ w. w) (λ w. true) before_close ([] ∷ (text "m" ∷ []) ∷ [])
before-AllPost = ((λ w o. (sym (append-nil w), refl)), ((λ w o. (refl, refl)), tt))

bytes_stream-replies_example :
    ((bytes_stream from_text show channel before_close []).0 ≡ done (ok (2 ∷ []) ∷ []))
    × ((bytes_stream from_text show channel before_close []).1 ≡ pong (1 ∷ []) ∷ text "m" ∷ [])
bytes_stream-replies_example =
    bytes_stream-replies from_text show channel (λ w. w) (λ w. true) before_close
      ([] ∷ (text "m" ∷ []) ∷ []) [] channel-IsChannel before-AllPost refl

-- A socket that takes what it is sent.
abbrev forward : List (Message Unit₀ Unit₀) → Act Channel (Result Unit₀ Unit₀)
forward ms w = (done (ok tt), w ++ ms)

response_task-close_example :
    response_task forward
      ((bytes_stream from_text show channel
          (before_close ++ ((λ w. w, ok (close none)) ∷ after_close))
          []).1
        ++ (text "late" ∷ []))
      []
    ≡ (done tt, pong (1 ∷ []) ∷ text "m" ∷ [])
response_task-close_example =
    response_task-close from_text show channel (λ w. w) (λ w. true) forward before_close after_close
      (λ w. w) none ([] ∷ (text "m" ∷ []) ∷ []) ((text "m" ∷ []) ∷ []) [] (text "late" ∷ []) [] []
      channel-IsChannel before-AllPost
      ((λ w o. (sym (append-nil w), refl)), ((λ w o. (refl, refl)), tt)) (refl, (refl, tt)) refl
