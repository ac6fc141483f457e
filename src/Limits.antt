-- ===== src/Limits.antt =====
-- The rate limiters that the edge and the control plane consult:
-- crates/rustunnel-server/src/core/limiter.rs, core/ip_limiter.rs and auth.rs.
pub mod TokenBucket
pub mod Window
pub mod IpRate
pub mod AuthFailure
