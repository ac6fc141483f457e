-- ===== src/Client/Health.antt =====
-- crates/rustunnel-client/src/health.rs: the probe loop of a tunnel. What a probe finds is an
-- argument, one for each tick; the frames that the loop sends are its result.
pub mod Streaks
use rustunnel.Prelude.{
  ℕ, zero, suc, ◌+◌, ◌-◌, ◌^◌, min, max, Bool, true, false, Option, none, some, List, [], ◌∷◌, ◌++◌,
  codes, leb, if◌then◌else◌,
}
use rustunnel.Prelude.Eq.{◌==◌, nat_eq, list_eq}
use rustunnel.Core.Types.{Text}

pub record HealthCheckConfig : Type 0 where
  pub kind : Text
  pub interval_secs : ℕ
  pub timeout_secs : ℕ
  pub max_failed : ℕ
  pub path : Option Text
  pub expect_2xx : Bool
  pub alert_webhook : Option Text

pub data ProbeKind : Type 0 where
  tcp : ProbeKind
  http : (path : Text) (expect_2xx : Bool) → ProbeKind

-- Times are in seconds.
pub record ProbeSpec : Type 0 where
  pub kind : ProbeKind
  pub interval : ℕ
  pub timeout : ℕ
  pub max_failed : ℕ

pub data ConfigError : Type 0 where
  path_required : ConfigError
  unknown_kind : Text → ConfigError

pub data Configured : Type 0 where
  ok : ProbeSpec → Configured
  err : ConfigError → Configured

abbrev pub spec_of : HealthCheckConfig → ProbeKind → ProbeSpec
spec_of cfg kind = record {
  kind = kind;
  interval = max cfg.interval_secs 1;
  timeout = max cfg.timeout_secs 1;
  max_failed = max cfg.max_failed 1;
}

unfoldable pub from_config : HealthCheckConfig → Configured
from_config cfg =
    if cfg.kind == codes "tcp"
    then ok (spec_of cfg ProbeKind.tcp)
    else if cfg.kind == codes "http"
    then elim cfg.path [
      | none ↦ err path_required
      | some path ↦ ok (spec_of cfg (ProbeKind.http path cfg.expect_2xx))
    ]
    else err (unknown_kind cfg.kind)

-- The frames of the loop; the reason of an unhealthy one is the number that its text has.
pub data Report : Type 0 where
  tunnel_healthy : Report
  tunnel_unhealthy : (consecutive_failures : ℕ) → Report

-- What the loop keeps from tick to tick.
pub record Probing : Type 0 where
  pub consecutive_failures : ℕ
  pub was_healthy : Option Bool

abbrev pub first_tick : Probing
first_tick = record { consecutive_failures = 0; was_healthy = none }

abbrev pub u32_max : ℕ
u32_max = 2 ^ 32 - 1

abbrev pub saturating_succ : ℕ → ℕ
saturating_succ n = min (n + 1) u32_max

-- The edge of a failure that is not in a reported streak.
abbrev pub failed_edge : ℕ → ℕ → Option Bool
failed_edge max_failed failures = if leb max_failed failures then some false else none

-- `match (was_healthy, healthy)`: the counter after the probe and the edge.
unfoldable pub edge_of : ℕ → Option Bool → Bool → ℕ → ℕ × Option Bool
edge_of max_failed none true failures = (failures, some true)
edge_of max_failed none false failures =
    (saturating_succ failures, failed_edge max_failed (saturating_succ failures))
edge_of max_failed (some true) true failures = (0, none)
edge_of max_failed (some true) false failures =
    (saturating_succ failures, failed_edge max_failed (saturating_succ failures))
edge_of max_failed (some false) true failures = (0, some true)
edge_of max_failed (some false) false failures = (saturating_succ failures, none)

abbrev pub frame_of : ℕ → Bool → Report
frame_of failures true = tunnel_healthy
frame_of failures false = tunnel_unhealthy failures

-- `if let Some(now_healthy) = edge`, on an open channel.
abbrev pub send_edge : ℕ → Option Bool → Option Bool → Probing × List Report
send_edge failures none was = (record { consecutive_failures = failures; was_healthy = was }, [])
send_edge failures (some now) was =
    (record { consecutive_failures = failures; was_healthy = some now }, frame_of failures now ∷ [])

unfoldable pub probe_tick : ℕ → Bool → Probing → Probing × List Report
unfolding edge_of
probe_tick max_failed healthy p =
    let (failures, edge) = edge_of max_failed p.was_healthy healthy p.consecutive_failures in
    send_edge failures edge p.was_healthy

-- The loop while the channel is open, on what the probes find.
unfoldable pub run_probe_loop : ℕ → List Bool → Probing → Probing × List Report
unfolding probe_tick
run_probe_loop max_failed [] p = (p, [])
run_probe_loop max_failed (healthy ∷ hs) p =
    let (p', sent) = probe_tick max_failed healthy p in
    let (q, rest) = run_probe_loop max_failed hs p' in (q, sent ++ rest)
