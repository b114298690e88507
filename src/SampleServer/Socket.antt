-- ===== src/SampleServer/Socket.antt =====
-- `handle_websocket` of src/bin/sample_server.rs: a session whose bytes go out as text messages.
use little_stomper.Prelude.{◌<>◌, String, Option, List, [], ◌∷◌, Bytes}
use little_stomper.Prelude.Effects.{Act, Result, ok, err, Unit₀, pure, panics, done, ◌>>=◌, ◌>>◌}
use little_stomper.Client.{DefaultClient, default_client_factory, default_client_methods}
use little_stomper.Error
use little_stomper.Error.{StomperError}
use little_stomper.Ids.{DestinationId}
use little_stomper.AsyncDestinations.Registry
use little_stomper.AsyncDestinations.Registry.{AsyncDestinations, AsyncFactory, VersionedMap}
use little_stomper.Destinations.{Destination, Destinations}
use little_stomper.Stomp.{Frames, StompParser}
use little_stomper.Tokio.{Spawn}
use little_stomper.Session.Connect.{Runtime}
use little_stomper.Session.Stream.{Sink, Select, process_stream}
use little_stomper.SampleServer.WebSocket.{Message, encode}

-- `UnboundedSenderSink` over the channel of the response task: the crate sender-sink.
pub record MessageSink (W X Y : Type 0) : Type 0 where
  pub send : Message X Y → Act W (Result Unit₀ StomperError)
  pub close : Act W (Result Unit₀ StomperError)

module _ {W X Y : Type 0} where
  -- `.with(|bytes| ready(Ok(Message::text(String::from_utf8(bytes).unwrap()))))`.
  unfoldable pub websocket_sink : (Bytes → Option String) → MessageSink W X Y → Sink W
  unfolding encode
  websocket_sink from_utf8 sink = record {
    send = λ bytes. encode from_utf8 bytes >>= sink.send;
    close = sink.close;
  }

-- `map_err` of the join of the response task.
abbrev pub joined_response : {J : Type 0} → Result Unit₀ J → Result Unit₀ StomperError
joined_response (ok _) = ok tt
joined_response (err _) = err (Error.new "Error awaiting WebSocket response handler")

module _ {W X Y J : Type 0} {F : Frames} (P : StompParser F) (quote : String → String)
    (rt : Runtime W F) (from_utf8 : Bytes → Option String) (sink : MessageSink W X Y) where
  -- Over the items of `bytes_stream`; `join` awaits the response task. What the session yields is
  -- dropped.
  unfoldable pub handle_websocket :
      (W → Result Unit₀ J × W)
      → List (Result Bytes StomperError)
      → Destinations W DefaultClient
      → Select W F
      → W
      → Result Unit₀ StomperError × W
  unfolding websocket_sink
  handle_websocket join bytes_stream destinations select w =
      let (_, w') =
        process_stream P quote rt (websocket_sink from_utf8 sink) bytes_stream destinations
          default_client_factory select w in
      let (r, w'') = join w' in (joined_response r, w'')

-- `expect` on a result of which only the success is used.
abbrev expect : {W A E : Type 0} → (E → String) → String → Result A E → Act W A
expect debug why (ok a) = pure a
expect debug why (err e) = panics (why <> ": " <> debug e)

module _ {W Stream Socket Address E : Type 0} where
  -- The parameters: the address of the peer, the WebSocket handshake, and `handle_websocket`, whose
  -- error is only logged.
  unfoldable pub accept_connection :
      (E → String)
      → (Stream → Act W (Result Address E))
      → (Stream → Act W (Result Socket E))
      → (Socket → W → Result Unit₀ StomperError × W)
      → Stream
      → Act W Unit₀
  accept_connection debug peer_addr accept_async handle stream = do
    addr ← peer_addr stream
    expect debug "connected streams should have a peer address" addr
    ws_stream ← accept_async stream
    socket ← expect debug "Error during the websocket handshake occurred" ws_stream
    λ w. (done tt, (handle socket w).1)

-- The loop of `main` over what the listener accepts: a task for each connection, until an error.
unfoldable pub accept_all :
    {W Stream E : Type 0} → Spawn W → (Stream → Act W Unit₀) → List (Result Stream E) → W → W
accept_all spawn connect [] w = w
accept_all spawn connect (err e ∷ rest) w = w
accept_all spawn connect (ok stream ∷ rest) w =
    accept_all spawn connect rest (spawn (connect stream) w)

-- `env::args().nth(1)`, or the default.
abbrev address : List String → String
address (program ∷ addr ∷ rest) = addr
address _ = "127.0.0.1:3030"

module _ {W Stream Listener Socket Address E : Type 0} (debug : E → String) where
  -- `main`. The parameters: the arguments, `TcpListener::bind`, what the listener accepts, the map
  -- and the factory of the registry, and those of `accept_connection`.
  unfoldable pub serve_main :
      List String
      → (String → Act W (Result Listener E))
      → (Listener → List (Result Stream E))
      → VersionedMap W DestinationId (Destination W DefaultClient)
      → AsyncFactory W DestinationId (Destination W DefaultClient)
      → (Stream → Act W (Result Address E))
      → (Stream → Act W (Result Socket E))
      → (Socket → AsyncDestinations W DefaultClient → W → Result Unit₀ StomperError × W)
      → Spawn W
      → Act W Unit₀
  unfolding accept_all accept_connection
  serve_main args bind accepted new_map create peer_addr accept_async handle spawn = do
    try_socket ← bind (address args)
    listener ← expect debug "Failed to bind" try_socket
    let destinations = Registry.start new_map create
    let connect =
        accept_connection debug peer_addr accept_async (λ socket. handle socket destinations)
    λ w. (done tt, accept_all spawn connect (accepted listener) w)
