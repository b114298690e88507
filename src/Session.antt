-- ===== src/Session.antt =====
-- src/asynchronous/client.rs: the session of one client.
pub mod Events
pub mod Handler
pub mod Connect
pub mod Stream
pub mod Behaviour
pub mod Unsubscribe
pub mod Ending
pub mod Admission
pub mod Heartbeats
pub mod Greeting
