-- ===== src/Limits/IpRate.antt =====
-- crates/rustunnel-server/src/core/ip_limiter.rs: requests of an address in a sliding window.
pub mod Budget
use rustunnel.Prelude.{
  ℕ, ◌-◌, Bool, true, false, List, [], ◌∷◌, ◌++◌, leb, nat_beq, if◌then◌else◌, length,
}
use rustunnel.Prelude.Map.{Map, get, insert}
use rustunnel.Core.Types.{IpAddr, Instant, or_default, ip_eq}
use rustunnel.Limits.Window.{prune, retain_recent}

pub record IpRateLimiter : Type 0 where
  pub windows : Map IpAddr (List Instant)
  pub window : ℕ
  pub max_per_window : ℕ

unfoldable pub new : ℕ → IpRateLimiter
new max_per_second = record {
  windows = [];
  window = 1_000_000_000;
  max_per_window = max_per_second;
}

-- The pruned deque is stored also when the request is refused.
unfoldable pub check : IpAddr → Instant → IpRateLimiter → IpRateLimiter × Bool
check ip now l =
    if nat_beq l.max_per_window 0
    then (l, true)
    else let entry = prune (now - l.window) (or_default (get ip l.windows)) in
      if leb l.max_per_window (length entry)
      then (record l { windows = insert ip entry l.windows }, false)
      else (record l { windows = insert ip (entry ++ now ∷ []) l.windows }, true)

unfoldable pub evict_idle : Instant → IpRateLimiter → IpRateLimiter
evict_idle now l = record l { windows = retain_recent (now - l.window) l.windows }
