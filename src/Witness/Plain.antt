-- ===== src/Witness/Plain.antt =====
-- Members, labels and limits at concrete inputs.
use rustunnel.Prelude.{false, [], ◌∷◌, codes, arith, ◌≤◌}
use rustunnel.Core.Types.{v4, ip_eq, HealthEvent}
use rustunnel.Limits.TokenBucket.{Bucket}
use rustunnel.Limits.Window.Pruning.{recent}
use rustunnel.Limits.IpRate.{new}
use rustunnel.Limits.IpRate.Budget.{Requests, serve, accepted_of, last_time, serve-budget}

abbrev went_down : HealthEvent
went_down = record { at = 9; healthy = false; reason = codes "refused" }

abbrev spent_bucket : Bucket
spent_bucket = record { tokens = 0; last_refill = 4 }

abbrev three_requests : Requests
three_requests = (v4 1, 5) ∷ (v4 1, 6) ∷ (v4 2, 6) ∷ []

serve-budget_example : recent 0 (accepted_of (v4 1) (serve three_requests (new 1) []).1) ≤ 1
unfolding last_time
serve-budget_example =
    serve-budget 1 0 three_requests (v4 1) 0 (omega arith)
      (omega arith, (omega arith, (omega arith, tt))) (omega arith)
