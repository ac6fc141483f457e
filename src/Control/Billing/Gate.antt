-- ===== src/Control/Billing/Gate.antt =====
-- What crates/rustunnel-server/src/billing.rs decides on a registration.
use rustunnel.Prelude.{
  ℕ, zero, suc, ◌≡◌, refl, ◌↔◌, ◌*◌, ◌^◌, ◌-◌, ◌≤◌, ◌<◌, min, true, Option, none, some, arith,
  is_some, codes, Option-cases,
}
use rustunnel.Prelude.Eq.{◌==◌, list_eq, nat_eq}
use native.Mathlib.Nat.{le-div_iff_mul-le}
use rustunnel.Core.Types.{Text}
use rustunnel.Control.Billing.{
  ℤ, pos, Plan, Queries, bytes_per_gb, percent_used, bandwidth_warning, blocking_limit,
  gate_for_plan, evaluate_hobby_limits, used_under,
}

-- The queries that the evaluation of a user's limits leaves out change nothing: with an active
-- plan and a count of tunnels it decides what `gate_for_plan` decides on all of the values, a cap
-- that is not set or a sum that fails counting as no bytes.
pub evaluate-gate_for_plan :
    (q : Queries) (plan : Plan) (requested : Option Text) (open_tunnels : ℤ)
    → q.active_plan ≡ some (some plan)
    → q.open_tunnels ≡ some open_tunnels
    → evaluate_hobby_limits q requested
      ≡ some (
          gate_for_plan plan open_tunnels requested
            (used_under plan.bandwidth_limit_gb q.month_bytes))
unfolding evaluate_hobby_limits gate_for_plan
evaluate-gate_for_plan q plan requested open_tunnels p n = ground (
  arith,
  p,
  n,
  Option-cases
      (blocking_limit plan.max_tunnels open_tunnels plan.allow_custom_subdomains requested),
)

warned :
    (percent gb : ℕ)
    → (is_some (bandwidth_warning (pos (suc percent)) (some (pos (suc gb)))) ≡ true)
      ↔ (80 ≤ percent_used (suc percent) (suc gb))
unfolding bandwidth_warning
warned percent gb = ground arith

percent_used-le :
    (u g : ℕ)
    → 0 < g
    → g < 2 ^ 31
    → u < 2 ^ 63
    → (80 ≤ percent_used u g) ↔ (80 * (g * bytes_per_gb) ≤ u * 100)
unfolding percent_used
percent_used-le u g p h k =
    let cap : min (g * bytes_per_gb) (2 ^ 63 - 1) ≡ g * bytes_per_gb = ground arith in
    let used : min (u * 100) (2 ^ 128 - 1) ≡ u * 100 = ground arith in
    rw (cap, used) (le-div_iff_mul-le (omega arith))

warned_at_zero : (gb : ℕ) → bandwidth_warning (pos 0) (some (pos gb)) ≡ none
unfolding bandwidth_warning
warned_at_zero zero = refl
warned_at_zero (suc gb) = refl

warned_iff :
    (u g : ℕ)
    → 0 < g
    → g < 2 ^ 31
    → u < 2 ^ 63
    → (is_some (bandwidth_warning (pos u) (some (pos g))) ≡ true)
      ↔ (80 * (g * bytes_per_gb) ≤ u * 100)
warned_iff u zero p h k = absurd (omega arith)
warned_iff zero (suc g) p h k = rw (warned_at_zero (suc g)) (grind arith)
warned_iff (suc u) (suc g) p h k = grind (arith, warned u g, percent_used-le (suc u) (suc g) p h k)

-- On a free plan with a cap of `g` GiB and no blocking limit, a registration is warned of the
-- bandwidth exactly if at least 80 per cent of the cap are used, where the numbers fit the code's
-- integers.
pub gate_for_plan-notice :
    (plan : Plan) (open_tunnels : ℤ) (requested : Option Text) (u g : ℕ)
    → (plan.billing_model == codes "free") ≡ true
    → blocking_limit plan.max_tunnels open_tunnels plan.allow_custom_subdomains requested ≡ none
    → plan.bandwidth_limit_gb ≡ some (pos g)
    → 0 < g
    → g < 2 ^ 31
    → u < 2 ^ 63
    → (is_some (gate_for_plan plan open_tunnels requested (pos u)).notice ≡ true)
      ↔ (80 * (g * bytes_per_gb) ≤ u * 100)
unfolding gate_for_plan
gate_for_plan-notice plan open_tunnels requested u g free pass cap p h k =
    rw (free, pass, cap) (warned_iff u g p h k)
