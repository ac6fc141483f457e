-- ===== src/Control.antt =====
-- crates/rustunnel-server/src/control/session.rs and billing.rs: the control connection of a client.
pub mod Billing
pub mod Session
pub mod Register
pub mod Connect
pub mod Handle
pub mod Auth
pub mod Heartbeat
pub mod Loop
pub mod Server
