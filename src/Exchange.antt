-- ===== src/Exchange.antt =====
-- Sessions and in-memory destinations together: src/asynchronous/client.rs is the subscriber whose
-- callbacks and sends src/asynchronous/inmemory.rs calls.
pub mod Delivery
pub mod Faults
pub mod Requests
pub mod Sessions
