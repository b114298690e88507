-- ===== src/Samples/Streams.antt =====
-- A session's stream, a timer and a WebSocket.
use little_stomper.Prelude.{
  suc, ◌≡◌, refl, ◌↔◌, ◌⊎◌, String, none, some, List, [], ◌∷◌, ◌++◌, true, false, Bytes, ℕ,
}
use little_stomper.Prelude.Effects.{Result, ok, Unit₀, done}
use little_stomper.Error.{StomperError}
use little_stomper.Client.{default_client, default_client_methods, default_client_factory}
use little_stomper.Stomp.{ClientFrame}
use little_stomper.Tokio.{Executor, ready}
use little_stomper.Session.Events.{ClientEvent}
use little_stomper.Session.Connect.{and_parse, to_event, stream_from_client, validate_and_connect}
use little_stomper.Session.Stream.{Select, linger, respond, process_stream}
use little_stomper.Session.Admission.{
  Offers, to_event-heartbeat_iff, process_stream-refused, validate_and_connect-accepts,
}
use little_stomper.Session.Ending.{respond-append-ends}
use little_stomper.Timer.Resetter.{reset, change_period, ResettableTimer}
use little_stomper.Timer.Task.{create_task_with_receiver, elapsed, received, sender_dropped}
use little_stomper.Timer.Polling.{poll_next}
use little_stomper.Timer.Pace.{Trace, firings, InPace, create_task-InPace}
use little_stomper.Samples.Protocol.{frames, parser}
use little_stomper.Samples.World.{World, quiet, session, idle_destinations, sink, runtime}

abbrev quote : String → String
quote s = s

abbrev crlf : Bytes
crlf = 13 ∷ 10 ∷ []

to_event-heartbeat_iff_example :
    (to_event (and_parse parser (ok crlf)) ≡ ClientEvent.client_heartbeat)
    ↔ ((crlf ≡ 10 ∷ []) ⊎ (crlf ≡ 13 ∷ 10 ∷ []))
to_event-heartbeat_iff_example = to_event-heartbeat_iff parser crlf

-- The events arrive in the order in which the client sent them, and the session's own do not.
abbrev in_order : Select World frames
in_order [] = []
in_order (e ∷ es) = (λ w. w, e) ∷ in_order es

abbrev no_connect : List (Result Bytes StomperError)
no_connect = ok (b'D' ∷ []) ∷ []

process_stream-refused_example :
    process_stream parser quote runtime sink no_connect idle_destinations default_client_factory
      in_order quiet
    ≡ (ok tt, record quiet { written = (b'e' ∷ []) ∷ []; is_open = false })
unfolding stream_from_client linger
process_stream-refused_example =
    process_stream-refused parser quote runtime sink no_connect idle_destinations
      default_client_factory in_order "First message must be a CONNECT frame" quiet refl

abbrev asked : ℕ × ℕ
asked = (1000, 2000)

abbrev connect_event : ClientEvent frames
connect_event = ClientEvent.client_frame (ok (ClientFrame.connect (12 ∷ [], 1000, 2000)))

validate_and_connect-accepts_example :
    (frame : List ℕ × ℕ × ℕ) × (some connect_event
      ≡ some (ClientEvent.client_frame (ok (ClientFrame.connect frame))))
    × Offers parser frame.0
    × (asked ≡ (frame.1, frame.2))
    × (default_client_factory none none quiet ≡ (done (ok default_client), quiet))
unfolding validate_and_connect
validate_and_connect-accepts_example =
    validate_and_connect-accepts parser (some connect_event) default_client_factory asked
      default_client quiet quiet refl

abbrev heartbeat_then_close : List ((World → World) × ClientEvent frames)
heartbeat_then_close = (λ w. w, ClientEvent.heartbeat) ∷ []

respond-append-ends_example :
    respond parser quote runtime sink session
      (heartbeat_then_close ++ ((λ w. w, ClientEvent.close) ∷ heartbeat_then_close))
    ≡ respond parser quote runtime sink session
        (heartbeat_then_close ++ ((λ w. w, ClientEvent.close) ∷ []))
respond-append-ends_example =
    respond-append-ends parser quote runtime sink heartbeat_then_close heartbeat_then_close (λ w. w)
      ClientEvent.close session refl

abbrev ticks : Trace
ticks =
    (40, received reset)
    ∷ (140, elapsed)
    ∷ (150, received (change_period 10))
    ∷ (160, elapsed)
    ∷ (165, sender_dropped)
    ∷ (175, elapsed)
    ∷ []

abbrev fired : List ℕ
fired = 140 ∷ 160 ∷ 175 ∷ []

create_task-InPace_example :
    (firings (create_task_with_receiver 0 100) ticks ≡ some fired)
    ↔ (InPace true 100 0 ticks × (fired ≡ 140 ∷ 160 ∷ 175 ∷ []))
create_task-InPace_example = create_task-InPace 0 100 ticks fired

-- It can, and does not fire at other times.
ticks-fired :
    (firings (create_task_with_receiver 0 100) ticks ≡ some fired)
    × (firings (create_task_with_receiver 0 100) ((99, elapsed) ∷ []) ≡ none)
unfolding firings create_task_with_receiver little_stomper.Timer.Task.step
ticks-fired = (refl, refl)

-- Handles are numbers; every task has fired.
abbrev executor : Executor World Unit₀ ℕ
executor = record {
  spawn = λ p r w. (0, w);
  poll_unpin = λ h w. (ready (ok (suc h)), w);
  abort = λ h w. w;
}

abbrev polled_once : ResettableTimer Unit₀ ℕ
polled_once = record { period = 100; receiver = none; task = some 0 }

ticked :
    poll_next executor polled_once quiet
    ≡ (done (ready (some tt), record polled_once { task = some 1 }), quiet)
unfolding poll_next
ticked = refl
