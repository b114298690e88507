-- ===== src/InMemory.antt =====
-- src/asynchronous/inmemory.rs: a destination that keeps its subscriptions in memory. A handle
-- posts actions on a channel; one task, the backend, serves them in order.
pub mod Backend
pub mod Handle
pub mod Validity
pub mod Delivery
pub mod Actions
pub mod Reports
pub mod Totality
