-- ===== src/AsyncDestinations.antt =====
-- src/asynchronous/destinations.rs: the destinations by id, created when first subscribed to.
pub mod Registry
pub mod Reuse
