-- ===== src/Samples.antt =====
-- Concrete worlds, clients, frames and libraries, and the theorems applied to them.
pub mod World
pub mod Protocol
mod Backends
mod Sessions
mod Streams
mod Ticks
mod Maps
mod Systems
mod Services
mod Leaks
mod Owners
mod Reached
mod Panics
mod Orders
mod Sockets
