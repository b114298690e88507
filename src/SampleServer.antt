-- ===== src/SampleServer.antt =====
-- src/bin/sample_server.rs: STOMP over WebSockets.
pub mod WebSocket
pub mod Socket
pub mod Replies
pub mod Utf8
