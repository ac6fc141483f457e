-- ===== src/Limits/Window.antt =====
-- The deque of recent instants that the two sliding-window limiters keep for an address: the
-- pruning loop of core/ip_limiter.rs (`check`) and `prune` of auth.rs.
pub mod Pruning
use rustunnel.Prelude.{Bool, false, List, [], ◌∷◌, leb, ltb, if◌then◌else◌}
use rustunnel.Prelude.Map.{Map}
use rustunnel.Core.Types.{IpAddr, Instant}

-- Instants before the cutoff are popped from the front. The head of the list is the front.
unfoldable pub prune : Instant → List Instant → List Instant
prune cutoff [] = []
prune cutoff (t ∷ ts) = let rest = prune cutoff ts in if ltb t cutoff then rest else t ∷ ts

-- The test on the back of the deque by which idle addresses are kept.
unfoldable pub back_at_least : Instant → List Instant → Bool
back_at_least cutoff [] = false
back_at_least cutoff (t ∷ []) = leb cutoff t
back_at_least cutoff (t ∷ u ∷ ts) = back_at_least cutoff (u ∷ ts)

unfoldable pub retain_recent : Instant → Map IpAddr (List Instant) → Map IpAddr (List Instant)
retain_recent cutoff [] = []
retain_recent cutoff ((ip, ts) ∷ m) =
    let rest = retain_recent cutoff m in if back_at_least cutoff ts then (ip, ts) ∷ rest else rest
