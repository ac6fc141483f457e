-- ===== src/Core/Valid.antt =====
-- The invariant of `TunnelCore` (core/router.rs) as a whole, and the steps of the server on it.
pub mod Gentle
pub mod Reports
pub mod Steps
use rustunnel.Core.Router.{TunnelCore}
use rustunnel.Core.Invariant.{IsCoherent, HasSinglePorts}
use rustunnel.Core.Groups.{IsGrouped}

-- The index and the owners agree with the routes, no port is used twice, and the index of TCP
-- groups agrees with the groups.
pub record IsValid (c : TunnelCore) : Type 0 where
  pub coherent : IsCoherent c
  pub ports : HasSinglePorts c
  pub groups : IsGrouped c
