-- ===== src/System.antt =====
-- Sessions, the registry and in-memory destinations at work together: src/asynchronous/client.rs,
-- src/asynchronous/destinations.rs and src/asynchronous/inmemory.rs, interleaved in any order.
pub mod Family
pub mod Shared
pub mod Moves
pub mod Safe
pub mod Policy
pub mod Sessions
pub mod Callbacks
pub mod Backends
pub mod Ends
pub mod Leaving
pub mod Tasks
pub mod Steps
pub mod Broker
pub mod Mail
pub mod Order
pub mod Service
pub mod Invariant
pub mod Ownership
pub mod Subscribing
pub mod Subscribed
pub mod Unsubscribing
pub mod Unsubscribed
pub mod Written
pub mod Registered
pub mod Known
pub mod Ending
pub mod Draining
pub mod Joining
pub mod Parting
pub mod Backing
pub mod Reaching
pub mod Delivering
pub mod Publishing
pub mod Emptying
pub mod Resting
pub mod Panics
