-- ===== src/Timer.antt =====
-- src/asynchronous/delayable_stream.rs: a timer whose period can be reset or changed from outside.
pub mod Resetter
pub mod Task
pub mod Polling
pub mod Polls
pub mod Pace
pub mod Ticks
