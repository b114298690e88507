-- ===== src/Session/Heartbeats.antt =====
-- The heartbeat periods of src/asynchronous/client.rs.
use little_stomper.Prelude.{ℕ, ◌+◌, ◌/◌, ◌^◌, ◌≤◌, ◌<◌, ◌≡◌, ◌↔◌, arith}
use little_stomper.Session.Connect.{heartbeat_with_buffer}

-- For a `u32` period in milliseconds the buffered period is at least the client's own exactly if
-- the product by 120 fits in 32 bits, that is up to 35791394.
pub le-heartbeat_with_buffer_iff :
    (supplied : ℕ)
    → supplied < 2 ^ 32
    → (supplied ≤ heartbeat_with_buffer supplied) ↔ (supplied ≤ 35791394)
unfolding heartbeat_with_buffer
le-heartbeat_with_buffer_iff s h = ((λ le. omega arith), (λ le. omega arith))

-- For a period up to 35791394 ms the margin is a fifth of the client's period, rounded down.
pub heartbeat_with_buffer-margin :
    (supplied : ℕ) → supplied ≤ 35791394 → heartbeat_with_buffer supplied ≡ supplied + supplied / 5
unfolding heartbeat_with_buffer
heartbeat_with_buffer-margin s h = omega arith
