-- ===== src/Limits/AuthFailure.antt =====
-- crates/rustunnel-server/src/auth.rs: the throttle on failed authentications and the client's
-- address. `secret_eq` is a comparison by a hash and is not modelled.
use rustunnel.Prelude.{
  ℕ, ◌-◌, ◌*◌, Bool, false, Option, none, some, List, [], ◌∷◌, ◌++◌, leb, ltb, if◌then◌else◌,
  length,
}
use rustunnel.Prelude.Map.{Map, get, insert}
use rustunnel.Core.Types.{Text, IpAddr, Instant, or_default, ip_eq}
use rustunnel.Limits.Window.{prune, retain_recent}

abbrev pub sweep_threshold : ℕ
sweep_threshold = 10_000

pub record AuthFailureLimiter : Type 0 where
  pub failures : Map IpAddr (List Instant)
  pub window : ℕ
  pub max_failures : ℕ

unfoldable pub with_window : ℕ → ℕ → AuthFailureLimiter
with_window max_failures window = record {
  failures = [];
  window = window;
  max_failures = max_failures;
}

unfoldable pub new : ℕ → AuthFailureLimiter
unfolding with_window
new max_failures_per_minute = with_window max_failures_per_minute (60 * 1_000_000_000)

unfoldable pub is_enabled : AuthFailureLimiter → Bool
is_enabled l = ltb 0 l.max_failures

-- The entry of an address that has one is pruned by the test.
unfoldable pub is_limited : IpAddr → Instant → AuthFailureLimiter → AuthFailureLimiter × Bool
unfolding is_enabled
is_limited ip now l =
    if is_enabled l
    then elim (get ip l.failures) [
      | none ↦ (l, false)
      | some entry ↦ (
        record l { failures = insert ip (prune (now - l.window) entry) l.failures },
        leb l.max_failures (length (prune (now - l.window) entry)),
      )
    ]
    else (l, false)

unfoldable pub evict_idle : Instant → AuthFailureLimiter → AuthFailureLimiter
evict_idle now l = record l { failures = retain_recent (now - l.window) l.failures }

unfoldable pub push_failure : IpAddr → Instant → AuthFailureLimiter → AuthFailureLimiter
push_failure ip now l = record l {
  failures =
      insert ip (prune (now - l.window) (or_default (get ip l.failures)) ++ now ∷ []) l.failures;
}

sweep : Instant → AuthFailureLimiter → AuthFailureLimiter
unfolding evict_idle
sweep later l = if ltb sweep_threshold (length l.failures) then evict_idle later l else l

-- Past the threshold the idle addresses are swept. The sweep reads the clock again.
unfoldable pub record_failure : IpAddr → Instant → Instant → AuthFailureLimiter → AuthFailureLimiter
unfolding is_enabled push_failure sweep
record_failure ip now later l = if is_enabled l then sweep later (push_failure ip now l) else l

-- `parse` is the standard library's reading of a trimmed header as an address.
unfoldable pub client_ip :
    (is_loopback : IpAddr → Bool) (parse : Text → Option IpAddr) → IpAddr → Option Text → IpAddr
client_ip is_loopback parse peer header =
    if is_loopback peer
    then elim header [ none ↦ peer | some v ↦ elim (parse v) [ none ↦ peer | some ip ↦ ip ] ]
    else peer
