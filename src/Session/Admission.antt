-- ===== src/Session/Admission.antt =====
-- Who is let in by src/asynchronous/client.rs, and what a refused client gets.
use little_stomper.Prelude.{
  String, ◌≡◌, refl, ◌↔◌, ◌⊎◌, Option, none, some, List, [], ◌∷◌, true, arith, if◌then◌else◌, Bytes,
}
use little_stomper.Prelude.Effects.{Result, ok, done, ◌>>=◌}
use little_stomper.Client.{Client, ClientFactory}
use little_stomper.Error.{StomperError}
use little_stomper.Destinations.{Destinations}
use little_stomper.Stomp.{Frames, StompParser, ClientFrame, ServerFrame}
use little_stomper.Session.Events.{ClientEvent}
use little_stomper.Session.Connect.{
  Runtime, parse_client_message, and_parse, to_event, contains_v1_2, validate_and_connect,
  stream_from_client,
}
use little_stomper.Session.Stream.{
  Sink, Select, if_sent, joined, linger, process_stream, first_event,
}

module _ {F : Frames} (P : StompParser F) where
  -- Bytes count as a heartbeat exactly if they are one end of line, LF or CR LF.
  pub to_event-heartbeat_iff :
      (bytes : Bytes)
      → (to_event (and_parse P (ok bytes)) ≡ ClientEvent.client_heartbeat)
        ↔ ((bytes ≡ 10 ∷ []) ⊎ (bytes ≡ 13 ∷ 10 ∷ []))
  unfolding parse_client_message
  to_event-heartbeat_iff [] = ground arith
  to_event-heartbeat_iff (a ∷ []) = ground arith
  to_event-heartbeat_iff (a ∷ b ∷ []) = ground arith
  to_event-heartbeat_iff (a ∷ b ∷ c ∷ rest) = ground arith

  -- Why a first event is refused, if it is.
  abbrev pub refusal : Option (ClientEvent F) → Option String
  refusal (some (ClientEvent.client_frame (ok (ClientFrame.connect frame)))) =
      if contains_v1_2 P (P.accept_version frame) then none else some "Only STOMP 1.2 is supported"
  refusal _ = some "First message must be a CONNECT frame"

module _ {W C : Type 0} ⦃methods : Client C⦄ {F : Frames} (P : StompParser F)
    (quote : String → String) (rt : Runtime W F) (sink : Sink W) where
  -- If the first message is not a CONNECT for STOMP 1.2, the client gets one ERROR frame that says
  -- which of the two it was, and, if the sink takes it, the sink is closed after the linger time: no
  -- client is made, no destination is called, and no later event is read.
  pub process_stream-refused :
      (stream : List (Result Bytes StomperError)) (destinations : Destinations W C)
      (factory : ClientFactory W C) (select : Select W F) (why : String) (w : W)
      → refusal P (first_event (stream_from_client P stream)) ≡ some why
      → let frame = ServerFrame.error (P.error_from_message why) in
        let (o, w') = (sink.send (P.into_bytes frame) >>= if_sent (linger rt sink)) w in
        process_stream P quote rt sink stream destinations factory select w ≡ (joined o, w')
  unfolding process_stream
  process_stream-refused stream destinations factory select why w h = ground arith

module _ {F : Frames} (P : StompParser F) where
  -- Some version of the list counts as STOMP 1.2.
  abbrev pub Offers : List F.StompVersion → Type 0
  Offers [] = ⊥
  Offers (v ∷ vs) = (F.version_eq v F.v1_2 ≡ true) ⊎ Offers vs

  contains_v1_2-Offers : (vs : List F.StompVersion) → contains_v1_2 P vs ≡ true → Offers vs
  unfolding contains_v1_2
  contains_v1_2-Offers [] h = cc
  contains_v1_2-Offers (v ∷ vs) h = ground (arith, contains_v1_2-Offers vs)

module _ {W C : Type 0} {F : Frames} (P : StompParser F) where
  -- A client is let in only by a CONNECT frame that offers STOMP 1.2, as the factory makes it from
  -- that frame's login and passcode, with that frame's heartbeats.
  pub validate_and_connect-accepts :
      (first : Option (ClientEvent F)) (factory : ClientFactory W C) (h : F.HeartBeatIntervalls)
      (client : C) (w w' : W)
      → validate_and_connect P first factory w ≡ (done (ok (h, client)), w')
      → (frame : F.ConnectFrame) × (first
          ≡ some (ClientEvent.client_frame (ok (ClientFrame.connect frame))))
        × Offers P (P.accept_version frame)
        × (h ≡ P.heartbeat frame)
        × (factory (P.login frame) (P.passcode frame) w ≡ (done (ok client), w'))
  unfolding validate_and_connect
  validate_and_connect-accepts (some (ClientEvent.client_frame (ok (ClientFrame.connect frame))))
        factory h client w w' e =
      (
        frame,
        refl,
        contains_v1_2-Offers P (P.accept_version frame) (ground arith),
        ground arith,
        ground arith,
      )
  validate_and_connect-accepts _ factory h client w w' e = absurd (ground arith)
