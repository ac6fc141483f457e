-- ===== src/Client.antt =====
-- The parts of the client that keep state or parse input.
pub mod Health
pub mod Reconnect
pub mod Stun
pub mod Version
pub mod Tap
