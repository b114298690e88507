-- ===== src/Session/Greeting.antt =====
-- The frames that src/asynchronous/client.rs builds, as a client reads them.
use little_stomper.Prelude.{
  ℕ, ◌^◌, ◌<◌, String, ◌≡◌, refl, Option, none, some, [], Bytes, length, arith, ap, ◌∙◌,
}
use mathlib.Core.Option.{map}
use native.Mathlib.Nat.{mod-eq_of_lt}
use little_stomper.Prelude.Effects.{done}
use little_stomper.Client.{Client}
use little_stomper.Ids.{SubscriptionId, into_string}
use little_stomper.Destinations.{Destinations, OutboundMessage}
use little_stomper.Stomp.{Frames, StompParser, ServerFrame}
use little_stomper.Session.Handler.{
  with_session, with_server, frame_result, connected_frame, server_message, handle_event,
}
use little_stomper.Session.Connect.{Runtime, open_session}

-- A CONNECTED frame, and a MESSAGE frame, with the headers that the program sets.
pub record Connected (F : Frames) : Type 0 where
  pub version : F.StompVersion
  pub heartbeat : Option F.HeartBeatIntervalls
  pub session : Option String
  pub server : Option String

pub record Delivered : Type 0 where
  pub message_id : String
  pub destination : String
  pub subscription : String
  pub content_type : Option String
  pub content_length : Option ℕ
  pub body : Option Bytes

-- The documented behaviour of the builders: each call sets its header, and `build` gives a frame
-- with the headers set.
pub record IsBuilder {F : Frames} (P : StompParser F) : Type 0 where
  pub so_far : F.ConnectedFrameBuilder → Connected F
  pub read : F.ConnectedFrame → Connected F
  pub connected_new :
      (v : F.StompVersion)
      → so_far (P.connected_new v)
        ≡ record { version = v; heartbeat = none; session = none; server = none }
  pub connected_heartbeat :
      (h : F.HeartBeatIntervalls) (b : F.ConnectedFrameBuilder)
      → so_far (P.connected_heartbeat h b) ≡ record (so_far b) { heartbeat = some h }
  pub connected_session :
      (t : String) (b : F.ConnectedFrameBuilder)
      → so_far (P.connected_session t b) ≡ record (so_far b) { session = some t }
  pub connected_server :
      (t : String) (b : F.ConnectedFrameBuilder)
      → so_far (P.connected_server t b) ≡ record (so_far b) { server = some t }
  pub connected_build : (b : F.ConnectedFrameBuilder) → read (P.connected_build b) ≡ so_far b
  pub message_so_far : F.MessageFrameBuilder → Delivered
  pub message_read : F.MessageFrame → Delivered
  pub message_new :
      (i d s : String)
      → message_so_far (P.message_new i d s) ≡ record {
        message_id = i;
        destination = d;
        subscription = s;
        content_type = none;
        content_length = none;
        body = none;
      }
  pub message_content_type :
      (t : String) (b : F.MessageFrameBuilder)
      → message_so_far (P.message_content_type t b)
        ≡ record (message_so_far b) { content_type = some t }
  pub message_content_length :
      (n : ℕ) (b : F.MessageFrameBuilder)
      → message_so_far (P.message_content_length n b)
        ≡ record (message_so_far b) { content_length = some n }
  pub message_body :
      (t : Bytes) (b : F.MessageFrameBuilder)
      → message_so_far (P.message_body t b) ≡ record (message_so_far b) { body = some t }
  pub message_build :
      (b : F.MessageFrameBuilder) → message_read (P.message_build b) ≡ message_so_far b
  pub supplied_lem : (s e : ℕ) → F.supplied (F.new_intervalls s e) ≡ s
  pub expected_lem : (s e : ℕ) → F.expected (F.new_intervalls s e) ≡ e

module _ {F : Frames} (P : StompParser F) (law : IsBuilder P) where
  open law use {
    so_far, connected_new, connected_heartbeat, connected_session, connected_server,
    connected_build,
  }

  greeting : F.HeartBeatIntervalls → F.ConnectedFrameBuilder
  greeting h = P.connected_heartbeat h (P.connected_new F.v1_2)

  optional_headers :
      (session server : Option String) (h : F.HeartBeatIntervalls)
      → so_far (with_server P server (with_session P session (greeting h)))
        ≡ record { version = F.v1_2; heartbeat = some h; session = session; server = server }
  unfolding greeting
  optional_headers none none h = simp (connected_heartbeat, connected_new)
  optional_headers (some t) none h = simp (connected_session, connected_heartbeat, connected_new)
  optional_headers none (some u) h = simp (connected_server, connected_heartbeat, connected_new)
  optional_headers (some t) (some u) h =
      simp (connected_server, connected_session, connected_heartbeat, connected_new)

  -- An accepted client is greeted first: the session that is opened answers its first event by a
  -- CONNECTED frame for STOMP 1.2 with the client's own session and server names, which promises
  -- the heartbeats that the client wants and wants those that the client promises; the session has
  -- no subscription, and its heartbeats come at the period that the client wants.
  pub open_session-greets :
      {W C : Type 0} ⦃methods : Client C⦄ (rt : Runtime W F) (quote : String → String)
      (destinations : Destinations W C) (requested : F.HeartBeatIntervalls) (client : C) (w u : W)
      → let (s, event, server_timer) = (open_session rt destinations requested client w).0 in
        (frame : F.ConnectedFrame) × (handle_event P quote s event u
          ≡ (done (s, frame_result (ServerFrame.connected frame)), u))
        × ((law.read frame).version ≡ F.v1_2)
        × ((law.read frame).session ≡ methods.session client)
        × ((law.read frame).server ≡ methods.server client)
        × (map F.supplied (law.read frame).heartbeat ≡ some (F.expected requested))
        × (map F.expected (law.read frame).heartbeat ≡ some (F.supplied requested))
        × (s.active_subscriptions_by_client_id ≡ [])
        × (server_timer.period ≡ F.expected requested)
  unfolding open_session handle_event greeting
  open_session-greets ⦃methods⦄ rt quote destinations requested client w u =
      let h = F.new_intervalls (F.expected requested) (F.supplied requested) in
      let frame = connected_frame P client h in
      let e =
        connected_build _ ∙ optional_headers (methods.session client) (methods.server client) h in
      (
        frame,
        refl,
        ap (λ r. r.version) e,
        ap (λ r. r.session) e,
        ap (λ r. r.server) e,
        ap (λ r. map F.supplied r.heartbeat) e ∙ ap some (law.supplied_lem _ _),
        ap (λ r. map F.expected r.heartbeat) e ∙ ap some (law.expected_lem _ _),
        refl,
        ground arith,
      )

  -- A message with a body of less than 2 ^ 32 bytes goes out under the subscription id that the client
  -- chose, with its body and the body's length.
  pub server_message-read :
      (id : SubscriptionId) (m : OutboundMessage)
      → length m.body < 2 ^ 32
      → (frame : F.MessageFrame) × (server_message P id m
          ≡ frame_result (ServerFrame.message frame))
        × (law.message_read frame ≡ record {
          message_id = into_string m.message_id;
          destination = into_string m.destination;
          subscription = into_string id;
          content_type = some "text/plain";
          content_length = some (length m.body);
          body = some m.body;
        })
  unfolding server_message
  server_message-read id m short = (
    _,
    refl,
    rw (mod-eq_of_lt short) (
        simp (
          law.message_build, law.message_body, law.message_content_length, law.message_content_type,
          law.message_new,
        )),
  )
