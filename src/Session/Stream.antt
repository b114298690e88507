-- ===== src/Session/Stream.antt =====
-- The stream of a session in src/asynchronous/client.rs: events in, bytes out, until it is dead.
use little_stomper.Prelude.{
  ℕ, String, Option, none, some, List, [], ◌∷◌, Bool, true, false, Bytes, inl, inr, if◌then◌else◌,
}
use little_stomper.Prelude.Effects.{
  Act, Outcome, Result, ok, err, Unit₀, pure, ◌>>=◌, done, panic, map_ok,
}
use little_stomper.Client.{Client, ClientFactory}
use little_stomper.Error
use little_stomper.Error.{StomperError}
use little_stomper.Destinations.{Destinations}
use little_stomper.Stomp.{Frames, StompParser, ServerFrame}
use little_stomper.Session.Events.{dead, ClientEvent, Response, ServerMessage}
use little_stomper.Session.Handler.{ClientSession, state_frame_result, handle_event}
use little_stomper.Session.Connect.{Runtime, stream_from_client, validate_and_connect, open_session}

abbrev linger_time : ℕ
linger_time = 1000

-- The sink of the client's bytes.
pub record Sink (W : Type 0) : Type 0 where
  pub send : Bytes → Act W (Result Unit₀ StomperError)
  pub close : Act W (Result Unit₀ StomperError)

module _ {F : Frames} where
  unfoldable pub not_dead : Response F → Bool
  not_dead (ok (dead, _)) = false
  not_dead _ = true

-- `.or(Ok(None)).transpose()`
abbrev drop_error : Result (Option Bytes) StomperError → Option (Result Bytes StomperError)
drop_error (ok (some bytes)) = some (ok bytes)
drop_error (ok none) = none
drop_error (err _) = none

module _ {F : Frames} (P : StompParser F) where
  abbrev serialise : ServerMessage F → Bytes
  serialise (inl frame) = P.into_bytes frame
  serialise (inr bytes) = bytes

  abbrev serialise_frame : Option (ServerMessage F) → Option Bytes
  serialise_frame none = none
  serialise_frame (some m) = some (serialise m)

  into_opt_ok_of_bytes : Response F → Option (Result Bytes StomperError)
  into_opt_ok_of_bytes result = drop_error (map_ok (λ r. serialise_frame r.1) result)

-- The chained `Err` after `LINGER_TIME`, which is dropped, and the close of the sink.
unfoldable pub linger :
    {W : Type 0} {F : Frames} → Runtime W F → Sink W → Act W (Result Unit₀ StomperError)
linger rt sink w = sink.close (rt.sleep linger_time w)

module _ {W : Type 0} where
  -- `forward` ends with the first error of the sink.
  abbrev pub if_sent :
      Act W (Result Unit₀ StomperError)
      → Result Unit₀ StomperError
      → Act W (Result Unit₀ StomperError)
  if_sent rest (ok _) = rest
  if_sent rest (err e) = pure (err e)

  abbrev forward_item :
      Sink W
      → Act W (Result Unit₀ StomperError)
      → Option (Result Bytes StomperError)
      → Act W (Result Unit₀ StomperError)
  forward_item sink rest none = rest
  forward_item sink rest (some (err e)) = pure (err e)
  forward_item sink rest (some (ok bytes)) = sink.send bytes >>= if_sent rest

  unfoldable pub forward_response :
      {F : Frames}
      → StompParser F
      → Sink W
      → Act W (Result Unit₀ StomperError)
      → Response F
      → Act W (Result Unit₀ StomperError)
  unfolding into_opt_ok_of_bytes
  forward_response P sink rest r = forward_item sink rest (into_opt_ok_of_bytes P r)

  -- A refused client gets one ERROR frame, and the stream ends.
  refuse :
      {F : Frames}
      → StompParser F
      → Runtime W F
      → Sink W
      → StomperError
      → Act W (Result Unit₀ StomperError)
  unfolding forward_response linger
  refuse P rt sink e =
      forward_response P sink (linger rt sink)
        (state_frame_result dead (ServerFrame.error (P.error_from_message e.message)))

-- `select_all` merges the client's events, the server's and the heartbeats: `select` gives them in
-- the order in which they arrive, each with what other tasks do to the world before it.
abbrev pub Select : Type 0 → Frames → Type 0
Select W F = List (ClientEvent F) → List ((W → W) × ClientEvent F)

-- `into_future`: the first event, and the rest.
abbrev pub first_event : {F : Frames} → List (ClientEvent F) → Option (ClientEvent F)
first_event [] = none
first_event (e ∷ es) = some e

abbrev later_events : {F : Frames} → List (ClientEvent F) → List (ClientEvent F)
later_events [] = []
later_events (e ∷ es) = es

-- The result of the forward is ignored; a panic of the task is an error.
abbrev pub joined : Outcome (Result Unit₀ StomperError) → Result Unit₀ StomperError
joined (done _) = ok tt
joined (panic _) = err (Error.new "Unable to join response task")

module _ {W C : Type 0} ⦃methods : Client C⦄ {F : Frames} (P : StompParser F)
    (quote : String → String) (rt : Runtime W F) (sink : Sink W) where
  -- What follows a handled event: its output and the next event, or the end.
  abbrev pub after_event :
      (ClientSession W C F → Act W (Result Unit₀ StomperError))
      → ClientSession W C F × Response F
      → Act W (Result Unit₀ StomperError)
  after_event next (s, r) =
      if not_dead r then forward_response P sink (next s) r else linger rt sink

  -- `.then(event_handler).take_while(not_dead)`, forwarded, over the events as they arrive.
  unfoldable pub respond :
      ClientSession W C F → List ((W → W) × ClientEvent F) → Act W (Result Unit₀ StomperError)
  unfolding forward_response linger not_dead
  respond s [] w = linger rt sink w
  respond s ((others, event) ∷ rest) w =
      (handle_event P quote s event >>= after_event (λ s'. respond s' rest)) (others w)

  handle_validation :
      Destinations W C
      → Select W F
      → List (ClientEvent F)
      → Result (F.HeartBeatIntervalls × C) StomperError
      → Act W (Result Unit₀ StomperError)
  unfolding refuse respond open_session
  handle_validation destinations select from_client (err e) w = refuse P rt sink e w
  handle_validation destinations select from_client (ok (requested, client)) w =
      let (opened, w') = open_session rt destinations requested client w in
      respond opened.0 ((λ v. v, opened.1) ∷ select from_client) w'

  unfoldable pub process_stream :
      List (Result Bytes StomperError)
      → Destinations W C
      → ClientFactory W C
      → Select W F
      → W
      → Result Unit₀ StomperError × W
  unfolding handle_validation validate_and_connect stream_from_client
  process_stream stream destinations client_factory select w =
      let events = stream_from_client P stream in
      let (o, w') =
        (validate_and_connect P (first_event events) client_factory
            >>= handle_validation destinations select (later_events events))
          w in
      (joined o, w')
