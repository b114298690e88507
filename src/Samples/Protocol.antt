-- ===== src/Samples/Protocol.antt =====
-- A small parser with its frames, for tests.
use little_stomper.Prelude.{
  ℕ, String, refl, Option, none, some, List, [], ◌∷◌, Bytes, ◌==◌, if◌then◌else◌,
}
use little_stomper.Prelude.Effects.{Result, ok, err, Unit₀}
use little_stomper.Stomp.{Frames, StompParser, ClientFrame, ServerFrame}
use little_stomper.Session.Greeting.{Delivered, Connected, IsBuilder}

pub record SampleConnected : Type 0 where
  pub version : ℕ
  pub heartbeat : Option (ℕ × ℕ)
  pub session : Option String
  pub server : Option String

abbrev pub frames : Frames
frames = record {
  StompVersion = ℕ;
  v1_2 = 12;
  version_eq = λ a b. a == b;
  HeartBeatIntervalls = ℕ × ℕ;
  new_intervalls = λ s e. (s, e);
  supplied = λ h. h.0;
  expected = λ h. h.1;
  ConnectFrame = List ℕ × ℕ × ℕ;
  SubscribeFrame = String × String;
  SendFrame = String × Option Bytes;
  UnsubscribeFrame = String;
  DisconnectFrame = Unit₀;
  AbortFrame = Unit₀;
  AckFrame = Unit₀;
  BeginFrame = Unit₀;
  CommitFrame = Unit₀;
  NackFrame = Unit₀;
  ConnectedFrame = SampleConnected;
  MessageFrame = Delivered;
  ErrorFrame = String;
  ConnectedFrameBuilder = SampleConnected;
  MessageFrameBuilder = Delivered;
  ParseError = String;
}

-- The first byte names the frame.
abbrev pub try_from : Bytes → Result (ClientFrame frames) String
try_from [] = err "Empty frame"
try_from (c ∷ rest) =
    if c == b'C'
    then ok (ClientFrame.connect (12 ∷ [], 1000, 2000))
    else (if c == b'D' then ok (ClientFrame.disconnect tt) else err "Unknown frame")

abbrev body_of : Option Bytes → Bytes
body_of none = []
body_of (some bytes) = bytes

abbrev pub into_bytes : ServerFrame frames → Bytes
into_bytes (ServerFrame.connected f) = b'c' ∷ []
into_bytes (ServerFrame.message f) = b'm' ∷ body_of f.body
into_bytes (ServerFrame.error f) = b'e' ∷ []

abbrev pub parser : StompParser frames
parser = record {
  accept_version = λ f. f.0;
  login = λ f. none;
  passcode = λ f. none;
  heartbeat = λ f. (f.1, f.2);
  subscribe_destination = λ f. f.0;
  subscribe_id = λ f. f.1;
  send_destination = λ f. f.0;
  send_body = λ f. f.1;
  unsubscribe_id = λ f. f;
  connected_new = λ v. record { version = v; heartbeat = none; session = none; server = none };
  connected_heartbeat = λ h b. record b { heartbeat = some h };
  connected_session = λ t b. record b { session = some t };
  connected_server = λ t b. record b { server = some t };
  connected_build = λ b. b;
  message_new = λ i d s. record {
    message_id = i;
    destination = d;
    subscription = s;
    content_type = none;
    content_length = none;
    body = none;
  };
  message_content_type = λ t b. record b { content_type = some t };
  message_content_length = λ n b. record b { content_length = some n };
  message_body = λ t b. record b { body = some t };
  message_build = λ b. b;
  error_from_message = λ t. t;
  try_from = try_from;
  error_message = λ e. e;
  into_bytes = into_bytes;
}

abbrev pub as_connected : SampleConnected → Connected frames
as_connected f = record {
  version = f.version;
  heartbeat = f.heartbeat;
  session = f.session;
  server = f.server;
}

abbrev pub parser-IsBuilder : IsBuilder parser
parser-IsBuilder = record {
  so_far = as_connected;
  read = as_connected;
  connected_new = λ v. refl;
  connected_heartbeat = λ h b. refl;
  connected_session = λ t b. refl;
  connected_server = λ t b. refl;
  connected_build = λ b. refl;
  message_so_far = λ b. b;
  message_read = λ b. b;
  message_new = λ i d s. refl;
  message_content_type = λ t b. refl;
  message_content_length = λ n b. refl;
  message_body = λ t b. refl;
  message_build = λ b. refl;
  supplied_lem = λ s e. refl;
  expected_lem = λ s e. refl;
}
