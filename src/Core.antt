-- ===== src/Core.antt =====
-- crates/rustunnel-server/src/core: the routing core of the server.
pub mod Types
pub mod Members
pub mod Subdomain
pub mod Routes
pub mod Router
pub mod Invariant
pub mod Ports
pub mod Groups
pub mod Valid
pub mod Dispatching
pub mod Reporting
pub mod Quota
pub mod Access
pub mod Labels
