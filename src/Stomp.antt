-- ===== src/Stomp.antt =====
-- What the program uses of the stomp-parser crate: the types of frames with their accessors, the
-- builders, the parser and the serialiser. The constructors of `ClientFrame` are those that the
-- exhaustive match in `ClientSession::handle` names.
use little_stomper.Prelude.{ℕ, String, Option, List, Bool, Bytes}
use little_stomper.Prelude.Effects.{Result}

pub record Frames : Type 1 where
  pub StompVersion : Type 0
  pub v1_2 : StompVersion
  pub version_eq : StompVersion → StompVersion → Bool
  pub HeartBeatIntervalls : Type 0
  pub new_intervalls : ℕ → ℕ → HeartBeatIntervalls
  pub supplied : HeartBeatIntervalls → ℕ
  pub expected : HeartBeatIntervalls → ℕ
  pub ConnectFrame : Type 0
  pub SubscribeFrame : Type 0
  pub SendFrame : Type 0
  pub UnsubscribeFrame : Type 0
  pub DisconnectFrame : Type 0
  pub AbortFrame : Type 0
  pub AckFrame : Type 0
  pub BeginFrame : Type 0
  pub CommitFrame : Type 0
  pub NackFrame : Type 0
  pub ConnectedFrame : Type 0
  pub MessageFrame : Type 0
  pub ErrorFrame : Type 0
  pub ConnectedFrameBuilder : Type 0
  pub MessageFrameBuilder : Type 0
  pub ParseError : Type 0

pub data ClientFrame (F : Frames) : Type 0 where
  connect : F.ConnectFrame → ClientFrame F
  subscribe : F.SubscribeFrame → ClientFrame F
  send : F.SendFrame → ClientFrame F
  disconnect : F.DisconnectFrame → ClientFrame F
  unsubscribe : F.UnsubscribeFrame → ClientFrame F
  abort : F.AbortFrame → ClientFrame F
  ack : F.AckFrame → ClientFrame F
  begin : F.BeginFrame → ClientFrame F
  commit : F.CommitFrame → ClientFrame F
  nack : F.NackFrame → ClientFrame F

-- The server frames that the program builds.
pub data ServerFrame (F : Frames) : Type 0 where
  connected : F.ConnectedFrame → ServerFrame F
  message : F.MessageFrame → ServerFrame F
  error : F.ErrorFrame → ServerFrame F

pub record StompParser (F : Frames) : Type 0 where
  -- Accessors of client frames, each with `value()`.
  pub accept_version : F.ConnectFrame → List F.StompVersion
  pub login : F.ConnectFrame → Option String
  pub passcode : F.ConnectFrame → Option String
  pub heartbeat : F.ConnectFrame → F.HeartBeatIntervalls
  pub subscribe_destination : F.SubscribeFrame → String
  pub subscribe_id : F.SubscribeFrame → String
  pub send_destination : F.SendFrame → String
  pub send_body : F.SendFrame → Option Bytes
  pub unsubscribe_id : F.UnsubscribeFrame → String
  -- Builders of server frames.
  pub connected_new : F.StompVersion → F.ConnectedFrameBuilder
  pub connected_heartbeat :
      F.HeartBeatIntervalls → F.ConnectedFrameBuilder → F.ConnectedFrameBuilder
  pub connected_session : String → F.ConnectedFrameBuilder → F.ConnectedFrameBuilder
  pub connected_server : String → F.ConnectedFrameBuilder → F.ConnectedFrameBuilder
  pub connected_build : F.ConnectedFrameBuilder → F.ConnectedFrame
  pub message_new : String → String → String → F.MessageFrameBuilder
  pub message_content_type : String → F.MessageFrameBuilder → F.MessageFrameBuilder
  pub message_content_length : ℕ → F.MessageFrameBuilder → F.MessageFrameBuilder
  pub message_body : Bytes → F.MessageFrameBuilder → F.MessageFrameBuilder
  pub message_build : F.MessageFrameBuilder → F.MessageFrame
  pub error_from_message : String → F.ErrorFrame
  -- `ClientFrame::try_from(bytes)` and `frame.into()`.
  pub try_from : Bytes → Result (ClientFrame F) F.ParseError
  pub error_message : F.ParseError → String
  pub into_bytes : ServerFrame F → Bytes
