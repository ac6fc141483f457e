-- ===== src/Client/Health/Streaks.antt =====
-- What the reports of the probe loop (client, health.rs) say of the probes.
use rustunnel.Prelude.{
  ℕ, zero, suc, ◌+◌, ◌≤◌, ◌<◌, ◌≡◌, ◌≢◌, refl, sym, ◌∙◌, ap, inl, inr, Bool-cases, Bool, true,
  false, Option, none, some, List, [], ◌∷◌, leb, ltb, if◌then◌else◌, arith, codes, ◌⊎◌,
  Option-cases,
}
use rustunnel.Prelude.Eq.{◌==◌, eq_iff, nat_eq, list_eq}
use rustunnel.Client.Health.{
  HealthCheckConfig, ProbeSpec, from_config, ok, Report, tunnel_healthy, tunnel_unhealthy, Probing,
  first_tick, u32_max, saturating_succ, edge_of, probe_tick, run_probe_loop,
}

-- The failures at the end of what the probes found, after a streak of `n`.
unfoldable pub streak : ℕ → List Bool → ℕ
streak n [] = n
streak n (true ∷ hs) = streak 0 hs
streak n (false ∷ hs) = streak (saturating_succ n) hs

-- The state of a loop that has reported, from the length of the streak.
unfoldable pub settled : ℕ → ℕ → Probing
settled max_failed n = record { consecutive_failures = n; was_healthy = some (ltb n max_failed) }

-- A probe after which no other state than the settled one is left.
settled-tick :
    (max_failed : ℕ) (healthy : Bool) (n : ℕ)
    → 1 ≤ max_failed
    → max_failed ≤ u32_max
    → (probe_tick max_failed healthy (settled max_failed n)).0
      ≡ settled max_failed (if healthy then 0 else saturating_succ n)
unfolding probe_tick settled edge_of
settled-tick max_failed true n lo hi = elim (Bool-cases (ltb n max_failed)) [
  | inl up ↦ rw up (ground arith)
  | inr down ↦ rw down (ground arith)
]
settled-tick max_failed false n lo hi = elim (Bool-cases (ltb n max_failed)) [
  | inl up ↦ rw up (ground arith)
  | inr down ↦ rw down (ground arith)
]

settled-run :
    (max_failed : ℕ) (hs : List Bool) (n : ℕ)
    → 1 ≤ max_failed
    → max_failed ≤ u32_max
    → (run_probe_loop max_failed hs (settled max_failed n)).0 ≡ settled max_failed (streak n hs)
unfolding run_probe_loop streak
settled-run max_failed [] n lo hi = refl
settled-run max_failed (true ∷ hs) n lo hi =
    rw (settled-tick max_failed true n lo hi) (settled-run max_failed hs 0 lo hi)
settled-run max_failed (false ∷ hs) n lo hi =
    rw (settled-tick max_failed false n lo hi) (settled-run max_failed hs (saturating_succ n) lo hi)

-- If the first probe succeeds, then whatever the later ones find, the loop counts the failures
-- since the last success, and what it reported last is unhealthy exactly if these are `max_failed`
-- or more, which is at least 1 and fits the counter.
pub run_probe_loop-streak :
    (max_failed : ℕ) (hs : List Bool)
    → 1 ≤ max_failed
    → max_failed ≤ u32_max
    → (run_probe_loop max_failed (true ∷ hs) first_tick).0 ≡ record {
      consecutive_failures = streak 0 hs;
      was_healthy = some (ltb (streak 0 hs) max_failed);
    }
unfolding run_probe_loop probe_tick edge_of settled
run_probe_loop-streak max_failed hs lo hi =
    let up : ltb 0 max_failed ≡ true = ground arith in
    ap
      (λ b.
        (run_probe_loop max_failed hs
          (record { consecutive_failures = 0; was_healthy = some b })).0)
      (sym up)
    ∙ settled-run max_failed hs 0 lo hi

-- `n` failures in a row.
abbrev pub failures : ℕ → List Bool → List Bool
failures zero hs = hs
failures (suc n) hs = false ∷ failures n hs

-- Failures below the limit before any report.
unreported :
    (max_failed k : ℕ)
    → k + 1 < max_failed
    → max_failed ≤ u32_max
    → probe_tick max_failed false (record { consecutive_failures = k; was_healthy = none })
      ≡ (record { consecutive_failures = k + 1; was_healthy = none }, [])
unfolding probe_tick edge_of
unreported max_failed k h hi = ground arith

last_failure :
    (k : ℕ)
    → k + 1 ≤ u32_max
    → (run_probe_loop
        (k + 1)
        (true ∷ false ∷ [])
        (record { consecutive_failures = k; was_healthy = none })).1
      ≡ tunnel_healthy ∷ tunnel_unhealthy (k + 1) ∷ []
unfolding run_probe_loop probe_tick edge_of
last_failure k h = ground arith

stale_from :
    (n k max_failed : ℕ)
    → max_failed ≡ k + n + 1
    → max_failed ≤ u32_max
    → (run_probe_loop max_failed
        (failures n (true ∷ false ∷ []))
        (record { consecutive_failures = k; was_healthy = none })).1
      ≡ tunnel_healthy ∷ tunnel_unhealthy max_failed ∷ []
unfolding run_probe_loop
stale_from zero k m e hi =
    let here : m ≡ k + 1 = omega arith in rw here (last_failure k (omega arith))
stale_from (suc n) k m e hi =
    rw (unreported m k (omega arith) hi) (stale_from n (k + 1) m (omega arith) hi)

-- Failures before the first success stay counted: with a limit of `n + 1` that fits the counter,
-- after `n` of them and a success, one failure is reported as `n + 1` consecutive ones.
pub stale_failures :
    (n : ℕ)
    → n + 1 ≤ u32_max
    → (run_probe_loop (n + 1) (failures n (true ∷ false ∷ [])) first_tick).1
      ≡ tunnel_healthy ∷ tunnel_unhealthy (n + 1) ∷ []
stale_failures n h = stale_from n 0 (n + 1) (omega arith) h

-- What the frames say, in order, starting from what was reported before.
abbrev pub Alternates : Option Bool → List Report → Type 0
Alternates was [] = Unit
Alternates was (tunnel_healthy ∷ rs) = (was ≢ some true) × Alternates (some true) rs
Alternates was (tunnel_unhealthy n ∷ rs) = (was ≢ some false) × Alternates (some false) rs

run_from-Alternates :
    (max_failed : ℕ) (hs : List Bool) (k : ℕ) (was : Option Bool)
    → Alternates was
        (run_probe_loop max_failed hs (record { consecutive_failures = k; was_healthy = was })).1
unfolding run_probe_loop probe_tick edge_of
run_from-Alternates m [] k was = tt
run_from-Alternates m (true ∷ hs) k none = (λ h. cc, run_from-Alternates m hs k (some true))
run_from-Alternates m (true ∷ hs) k (some true) = run_from-Alternates m hs 0 (some true)
run_from-Alternates m (true ∷ hs) k (some false) = (λ h. cc, run_from-Alternates m hs 0 (some true))
run_from-Alternates m (false ∷ hs) k none = elim (Bool-cases (leb m (saturating_succ k))) [
  | inl down ↦ rw down (λ h. cc, run_from-Alternates m hs (saturating_succ k) (some false))
  | inr below ↦ rw below (run_from-Alternates m hs (saturating_succ k) none)
]
run_from-Alternates m (false ∷ hs) k (some true) = elim (Bool-cases (leb m (saturating_succ k))) [
  | inl down ↦ rw down (λ h. cc, run_from-Alternates m hs (saturating_succ k) (some false))
  | inr below ↦ rw below (run_from-Alternates m hs (saturating_succ k) (some true))
]
run_from-Alternates m (false ∷ hs) k (some false) =
    run_from-Alternates m hs (saturating_succ k) (some false)

-- Whatever the probes find, from any state the loop reports only changes: a frame never says what
-- the one before it said.
pub run_probe_loop-Alternates :
    (max_failed : ℕ) (hs : List Bool) (p : Probing)
    → Alternates p.was_healthy (run_probe_loop max_failed hs p).1
run_probe_loop-Alternates max_failed hs p =
    run_from-Alternates max_failed hs p.consecutive_failures p.was_healthy

-- A configuration that is accepted is of the kind tcp or http, and its interval, its timeout and
-- its limit of failures are at least 1.
pub from_config-bounds :
    (cfg : HealthCheckConfig) {spec : ProbeSpec}
    → from_config cfg ≡ ok spec
    → (1 ≤ spec.interval)
      × (1 ≤ spec.timeout)
      × (1 ≤ spec.max_failed)
      × (cfg.kind ≡ codes "tcp" ⊎ cfg.kind ≡ codes "http")
unfolding from_config
from_config-bounds cfg {spec} h = elim (Bool-cases (cfg.kind == codes "tcp")) [
  | inl t ↦ (ground arith, ground arith, ground arith, inl ((eq_iff cfg.kind (codes "tcp")).0 t))
  | inr n ↦ elim (Bool-cases (cfg.kind == codes "http")) [
    | inl w ↦ elim (Option-cases cfg.path) [
      | inl e ↦ absurd (ground arith)
      | inr (path, e) ↦
          (ground arith, ground arith, ground arith, inr ((eq_iff cfg.kind (codes "http")).0 w))
    ]
    | inr o ↦ absurd (ground arith)
  ]
]
