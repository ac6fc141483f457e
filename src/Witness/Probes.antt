-- ===== src/Witness/Probes.antt =====
-- The probe loop and the parsing of versions of the client at concrete inputs.
use rustunnel.Prelude.{◌≡◌, refl, Bool, true, false, none, some, List, [], ◌∷◌, codes, ltb, arith}
use rustunnel.Client.Health.{
  HealthCheckConfig, spec_of, ProbeKind, from_config, ok, tunnel_healthy, tunnel_unhealthy,
  first_tick, run_probe_loop,
}
use rustunnel.Client.Health.Streaks.{streak, failures, run_probe_loop-streak, stale_failures}
use rustunnel.Prelude.Eq.{nat_eq, list_eq}

abbrev found : List Bool
found = false ∷ false ∷ true ∷ false ∷ []

run_probe_loop-streak_example :
    (run_probe_loop 2 (true ∷ found) first_tick).0
    ≡ record { consecutive_failures = streak 0 found; was_healthy = some (ltb (streak 0 found) 2) }
run_probe_loop-streak_example = run_probe_loop-streak 2 found (omega arith) (omega arith)

stale_failures_example :
    (run_probe_loop 3 (failures 2 (true ∷ false ∷ [])) first_tick).1
    ≡ tunnel_healthy ∷ tunnel_unhealthy 3 ∷ []
stale_failures_example = stale_failures 2 (omega arith)

abbrev tcp_checks : HealthCheckConfig
tcp_checks = record {
  kind = codes "tcp";
  interval_secs = 0;
  timeout_secs = 3;
  max_failed = 3;
  path = none;
  expect_2xx = true;
  alert_webhook = none;
}

tcp_accepted : from_config tcp_checks ≡ ok (spec_of tcp_checks ProbeKind.tcp)
unfolding from_config
tcp_accepted = refl
