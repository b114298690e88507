-- ===== src/SampleServer/WebSocket.antt =====
-- `WebSocketMessageHandler` and the streams of `handle_websocket` in src/bin/sample_server.rs. The
-- messages are those of the tungstenite crate, whose constructors the exhaustive match names.
use little_stomper.Prelude.{
  String, ◌<>◌, Option, none, some, List, [], ◌∷◌, Bool, true, false, not, Bytes, if◌then◌else◌,
}
use little_stomper.Prelude.Effects.{Act, Result, ok, err, Unit₀, pure, panics, ◌>>=◌, done}
use little_stomper.Error
use little_stomper.Error.{StomperError}
use little_stomper.Tokio.{UnboundedSender}

pub data Message (CloseFrame Frame : Type 0) : Type 0 where
  text : String → Message CloseFrame Frame
  binary : Bytes → Message CloseFrame Frame
  ping : Bytes → Message CloseFrame Frame
  pong : Bytes → Message CloseFrame Frame
  close : Option CloseFrame → Message CloseFrame Frame
  frame : Frame → Message CloseFrame Frame

module _ {X Y : Type 0} where
  abbrev pub is_close : Message X Y → Bool
  is_close (close _) = true
  is_close _ = false

-- `.map_err(…)?` and then `None`.
abbrev pong_sent : {W A : Type 0} → Result Unit₀ A → Act W (Result (Option Bytes) StomperError)
pong_sent (ok _) = pure (ok none)
pong_sent (err _) = pure (err (Error.new "Unable to send return message"))

module _ {W X Y : Type 0} (into_bytes : String → Bytes) where
  unfoldable pub handle_message :
      UnboundedSender W (Message X Y) → Message X Y → Act W (Result (Option Bytes) StomperError)
  handle_message channel (ping bytes) w =
      let (r, w') = channel.send (pong bytes) w in pong_sent r w'
  handle_message channel (pong _) w = (done (ok none), w)
  handle_message channel (close reason) w =
      let (r, w') = channel.send (close reason) w in
      (done (err (Error.new "WebSocketChannel closed")), w')
  handle_message channel (text t) w = (done (ok (some (into_bytes t))), w)
  handle_message channel (binary bytes) w = (done (ok (some bytes)), w)
  handle_message channel (frame _) w = (done (ok none), w)

-- Where to call back to.
pub record WebSocketMessageHandler (W X Y : Type 0) : Type 0 where
  pub message_channel : UnboundedSender W (Message X Y)

abbrev pub new : {W X Y : Type 0} → UnboundedSender W (Message X Y) → WebSocketMessageHandler W X Y
new message_channel = record { message_channel = message_channel }

-- `try_filter_map` on an item of the WebSocket: `none` for an item that gives the session nothing.
abbrev without_nothing : Result (Option Bytes) StomperError → Option (Result Bytes StomperError)
without_nothing (ok none) = none
without_nothing (ok (some bytes)) = some (ok bytes)
without_nothing (err e) = some (err e)

abbrev pub with_item : {A : Type 0} → Option A → List A → List A
with_item none items = items
with_item (some item) items = item ∷ items

-- What the stream of the WebSocket yields, each item with what other tasks do before it.
abbrev pub Incoming : Type 0 → Type 0 → Type 0 → Type 0 → Type 0
Incoming W X Y E = List ((W → W) × Result (Message X Y) E)

module _ {W X Y E : Type 0} (into_bytes : String → Bytes) (display : E → String) where
  abbrev into_filter_map :
      WebSocketMessageHandler W X Y → Message X Y → Act W (Result (Option Bytes) StomperError)
  into_filter_map handler = λ msg. handle_message into_bytes handler.message_channel msg

  -- `map_err` and `try_filter_map` on one item.
  unfoldable pub bytes_item :
      UnboundedSender W (Message X Y)
      → Result (Message X Y) E
      → Act W (Option (Result Bytes StomperError))
  unfolding handle_message
  bytes_item channel (err e) = pure (some (err (Error.new ("Websocket error: " <> display e))))
  bytes_item channel (ok message) =
      into_filter_map (new channel) message >>= λ r. pure (without_nothing r)

  -- `bytes_stream`: what the session gets of all items.
  unfoldable pub bytes_stream :
      UnboundedSender W (Message X Y) → Incoming W X Y E → Act W (List (Result Bytes StomperError))
  unfolding bytes_item
  bytes_stream channel [] w = (done [], w)
  bytes_stream channel ((others, item) ∷ rest) w =
      (bytes_item channel item >>= λ r.
      bytes_stream channel rest >>= λ later. pure (with_item r later))
        (others w)

module _ {X Y : Type 0} where
  -- `.take_while(|msg| ready(!msg.is_close()))`: what the response task forwards to the socket.
  unfoldable pub outgoing : List (Message X Y) → List (Message X Y)
  outgoing [] = []
  outgoing (m ∷ ms) = let rest = outgoing ms in if not (is_close m) then m ∷ rest else []

  -- The response task, over what its channel receives; the parameter is `forward` into the socket,
  -- whose error is only logged.
  unfoldable pub response_task :
      {W E : Type 0}
      → (List (Message X Y) → Act W (Result Unit₀ E))
      → List (Message X Y)
      → Act W Unit₀
  unfolding outgoing
  response_task forward received = forward (outgoing received) >>= λ _. pure tt

  -- `Message::text(String::from_utf8(bytes).unwrap())`.
  abbrev pub as_text : {W : Type 0} → Option String → Act W (Message X Y)
  as_text none = panics "called `Result::unwrap()` on an `Err` value"
  as_text (some t) = pure (text t)

  unfoldable pub encode : {W : Type 0} → (Bytes → Option String) → Bytes → Act W (Message X Y)
  encode from_utf8 bytes = as_text (from_utf8 bytes)
