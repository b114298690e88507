-- ===== src/Session/Connect.antt =====
-- The start of a session in src/asynchronous/client.rs: what the client's bytes mean, the check of
-- its first message, and the set-up of heartbeats.
use little_stomper.Prelude.{
  ℕ, ◌+◌, ◌*◌, ◌/◌, ◌%◌, ◌^◌, Option, none, some, List, [], ◌∷◌, ◌++◌, map, Bool, false, ◌&&◌, ◌||◌,
  Bytes, ltb, ◌==◌, if◌then◌else◌,
}
use little_stomper.Prelude.Effects.{Act, Result, ok, err, Unit₀, pure, ◌>>=◌, map_ok}
use little_stomper.Client.{ClientFactory}
use little_stomper.Error
use little_stomper.Error.{StomperError}
use little_stomper.Destinations.{Destinations}
use little_stomper.Stomp.{Frames, StompParser, ClientFrame}
use little_stomper.Tokio.{UnboundedSender}
use little_stomper.Timer.Resetter.{
  ResettableTimer, ResettableTimerResetter, ResettableTimerCommand, create, default,
}
use little_stomper.Session.Events.{ClientEvent, AsyncStompClient, send_event}
use little_stomper.Session.Handler
use little_stomper.Session.Handler.{ClientSession}

-- `matches!(bytes, b"\n" | b"\r\n")`.
unfoldable pub is_heartbeat : Bytes → Bool
is_heartbeat (a ∷ []) = a == b'\n'
is_heartbeat (a ∷ b ∷ []) = a == b'\r' && b == b'\n'
is_heartbeat _ = false

module _ {F : Frames} (P : StompParser F) where
  abbrev some_frame :
      Result (ClientFrame F) F.ParseError → Result (Option (ClientFrame F)) StomperError
  some_frame (ok frame) = ok (some frame)
  some_frame (err e) = err (Error.from_parse_error P.error_message e)

  unfoldable pub parse_client_message : Bytes → Result (Option (ClientFrame F)) StomperError
  unfolding is_heartbeat
  parse_client_message bytes = if is_heartbeat bytes then ok none else some_frame (P.try_from bytes)

  -- `.and_then(parse_client_message)`, on an item of the raw stream.
  abbrev pub and_parse : Result Bytes StomperError → Result (Option (ClientFrame F)) StomperError
  and_parse (ok bytes) = parse_client_message bytes
  and_parse (err e) = err e

-- `opt_frame.transpose().map(ClientEvent::ClientFrame).unwrap_or(ClientEvent::ClientHeartbeat)`.
abbrev pub to_event : {F : Frames} → Result (Option (ClientFrame F)) StomperError → ClientEvent F
to_event (ok none) = ClientEvent.client_heartbeat
to_event (ok (some frame)) = ClientEvent.client_frame (ok frame)
to_event (err e) = ClientEvent.client_frame (err e)

module _ {F : Frames} (P : StompParser F) where
  -- The client's events, with a `Close` after the last.
  unfoldable pub stream_from_client : List (Result Bytes StomperError) → List (ClientEvent F)
  unfolding parse_client_message
  stream_from_client stream =
      map (λ item. to_event (and_parse P item)) stream ++ (ClientEvent.close ∷ [])

  unfoldable pub contains_v1_2 : List F.StompVersion → Bool
  contains_v1_2 [] = false
  contains_v1_2 (v ∷ vs) = F.version_eq v F.v1_2 || contains_v1_2 vs

  unfoldable pub validate_and_connect :
      {W C : Type 0}
      → Option (ClientEvent F)
      → ClientFactory W C
      → Act W (Result (F.HeartBeatIntervalls × C) StomperError)
  unfolding contains_v1_2
  validate_and_connect (some (ClientEvent.client_frame (ok (ClientFrame.connect frame)))) factory =
      if contains_v1_2 (P.accept_version frame)
      then (factory (P.login frame) (P.passcode frame) >>= λ r.
          pure (map_ok (λ client. (P.heartbeat frame, client)) r))
      else pure (err (Error.new "Only STOMP 1.2 is supported"))
  validate_and_connect _ factory = pure (err (Error.new "First message must be a CONNECT frame"))

abbrev heartbeat_buffer_percent : ℕ
heartbeat_buffer_percent = 20

-- The client's period with a margin, in `u32`: the product wraps as in a release build.
unfoldable pub heartbeat_with_buffer : ℕ → ℕ
heartbeat_with_buffer supplied = supplied * (heartbeat_buffer_percent + 100) % 2 ^ 32 / 100

-- What the runtime gives a new session: its channels and tasks. The event channel's receiver is the
-- stream of what arrives on it.
pub record Runtime (W : Type 0) (F : Frames) : Type 1 where
  pub Receiver : Type 0
  pub JoinHandle : Type 0
  pub client_channel : W → UnboundedSender W (ClientEvent F) × W
  pub timer_channel : W → (UnboundedSender W ResettableTimerCommand × Receiver) × W
  -- A task that awaits the timer's next tick and then does the given work.
  pub spawn_on_tick : ResettableTimer Receiver JoinHandle → Act W Unit₀ → W → W
  pub sleep : ℕ → W → W

-- A timer with the period, or the default one for period 0.
timer_for :
    {W R H : Type 0}
    → UnboundedSender W ResettableTimerCommand × R
    → ℕ
    → ℕ
    → ResettableTimer R H × ResettableTimerResetter W
unfolding create default
timer_for channel requested period =
    if ltb 0 requested then create channel period else default channel

-- What the task of `start_heartbeat_listener` does when the timer fires.
missed_heartbeat : {W : Type 0} {F : Frames} → AsyncStompClient W F → Act W Unit₀
unfolding send_event
missed_heartbeat client = send_event client (ClientEvent.error "Missed heartbeat")

module _ {W C : Type 0} {F : Frames} (rt : Runtime W F) where
  start_heartbeat_listener : ClientSession W C F → ResettableTimer rt.Receiver rt.JoinHandle → W → W
  unfolding missed_heartbeat
  start_heartbeat_listener s timer = rt.spawn_on_tick timer (missed_heartbeat s.client_proxy)

  -- The branch of `handle_connection_validation_result` for an accepted client: the session, the
  -- first event, and the timer whose ticks become `Heartbeat` events.
  unfoldable pub open_session :
      Destinations W C
      → F.HeartBeatIntervalls
      → C
      → W
      → (ClientSession W C F × ClientEvent F × ResettableTimer rt.Receiver rt.JoinHandle) × W
  unfolding timer_for start_heartbeat_listener heartbeat_with_buffer
  open_session destinations requested client w =
      let (tx, w₁) = rt.client_channel w in
      let (server_channel, w₂) = rt.timer_channel w₁ in
      let (server_timer, server_resetter) =
        timer_for server_channel (F.expected requested) (F.expected requested) in
      let (client_channel, w₃) = rt.timer_channel w₂ in
      let (client_timer, client_resetter) =
        timer_for client_channel (F.supplied requested)
          (heartbeat_with_buffer (F.supplied requested)) in
      let s =
        Handler.new destinations (record { sender = tx }) server_resetter client_resetter client in
      (
        (
          s,
          ClientEvent.connected (F.new_intervalls (F.expected requested) (F.supplied requested)),
          server_timer,
        ),
        start_heartbeat_listener s client_timer w₃,
      )
