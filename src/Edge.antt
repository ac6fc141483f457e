-- ===== src/Edge.antt =====
-- crates/rustunnel-server/src/edge: the public side of the server.
pub mod Hosts
pub mod Streams
pub mod Http
pub mod Listeners
pub mod Tcp
pub mod Udp
