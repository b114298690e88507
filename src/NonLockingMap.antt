-- ===== src/NonLockingMap.antt =====
-- src/asynchronous/nonlockingmap.rs: a map that is read through a pointer and written by one task.
pub mod Map
pub mod Agreement
pub mod Pointer
