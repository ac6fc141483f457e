-- ===== src/Witness.antt =====
-- The properties at concrete states.
pub mod States
pub mod Routing
pub mod Reports
pub mod Plain
pub mod Probes
pub mod Sharing
pub mod Control
pub mod Tap
pub mod Edge
pub mod Ports
pub mod Usage
