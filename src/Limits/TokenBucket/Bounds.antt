-- ===== src/Limits/TokenBucket/Bounds.antt =====
-- How many requests the bucket of core/limiter.rs lets through.
use rustunnel.Prelude.{
  ℕ, suc, ◌+◌, ◌-◌, ◌*◌, ◌≤◌, ◌≡◌, sym, ◌∙◌, ap, true, List, [], ◌∷◌, if◌then◌else◌, arith,
}
use rustunnel.Limits.TokenBucket.{Bucket, one_token, new_bucket, refill, take_token, try_consume}

-- Requests come after the given delays; how many of them the bucket lets through.
unfoldable pub granted : ℕ → List ℕ → Bucket → ℕ
granted max_rps [] b = 0
granted max_rps (d ∷ ds) b =
    let (b', allowed) = try_consume max_rps (b.last_refill + d) b in
    let rest = granted max_rps ds b' in if allowed then suc rest else rest

unfoldable pub total : List ℕ → ℕ
total [] = 0
total (d ∷ ds) = d + total ds

spent :
    (max_rps d : ℕ) (b : Bucket)
    → (if (try_consume max_rps (b.last_refill + d) b).1 then one_token else 0)
        + (try_consume max_rps (b.last_refill + d) b).0.tokens
      ≤ b.tokens + d * max_rps
unfolding try_consume refill
spent max_rps d b = ground arith

granted-tokens :
    (max_rps : ℕ) (ds : List ℕ) (b : Bucket)
    → granted max_rps ds b * one_token ≤ b.tokens + total ds * max_rps
unfolding granted total
granted-tokens max_rps [] b = ground arith
granted-tokens max_rps (d ∷ ds) b = ground (
  arith,
  spent max_rps d b,
  granted-tokens max_rps ds (try_consume max_rps (b.last_refill + d) b).0,
)

-- Whatever the requests and their delays, a new bucket lets no more through than a burst of
-- `max_rps` and what the time that has gone by refills.
pub granted-bound :
    (max_rps now : ℕ) (ds : List ℕ)
    → granted max_rps ds (new_bucket max_rps now) * one_token
      ≤ max_rps * one_token + total ds * max_rps
unfolding new_bucket
granted-bound max_rps now ds = granted-tokens max_rps ds (new_bucket max_rps now)

-- A request is let through after a wait in which one token is refilled, whatever was spent before,
-- if `max_rps` is not 0.
pub try_consume_refilled :
    (max_rps d : ℕ) (b : Bucket)
    → 1 ≤ max_rps
    → one_token ≤ d * max_rps
    → (try_consume max_rps (b.last_refill + d) b).1 ≡ true
unfolding try_consume refill
try_consume_refilled max_rps d b h k = ground arith

refill_full :
    (max_rps now : ℕ) (b : Bucket)
    → max_rps * one_token ≤ b.tokens + (now - b.last_refill) * max_rps
    → refill max_rps now b ≡ record { tokens = max_rps * one_token; last_refill = now }
unfolding refill
refill_full max_rps now b h = ground arith

-- A bucket that was idle for a second or more does what a new one does.
pub try_consume_idle :
    (max_rps d : ℕ) (b : Bucket)
    → let now = b.last_refill + (one_token + d) in
      try_consume max_rps now b ≡ try_consume max_rps now (new_bucket max_rps now)
unfolding try_consume new_bucket
try_consume_idle max_rps d b =
    let now = b.last_refill + (one_token + d) in
    let gap : now - b.last_refill ≡ one_token + d = omega arith in
    let idle : max_rps * one_token ≤ b.tokens + (now - b.last_refill) * max_rps =
      rw gap (omega arith) in
    ap take_token (
      refill_full max_rps now b idle
      ∙ sym (
          refill_full max_rps now (record { tokens = max_rps * one_token; last_refill = now })
            (omega arith)))
