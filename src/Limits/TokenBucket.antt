-- ===== src/Limits/TokenBucket.antt =====
-- crates/rustunnel-server/src/core/limiter.rs: one token bucket for each tunnel.
-- Instants are nanoseconds. The source counts tokens in f64; here they are exact, in units of
-- 10 ^ -9 token, so that a nanosecond at `max_rps` refills `max_rps` units.
pub mod Bounds
use rustunnel.Prelude.{
  ℕ, ◌+◌, ◌-◌, ◌*◌, min, Bool, true, false, Option, none, some, [], ◌∷◌, ltb, leb, if◌then◌else◌,
}
use rustunnel.Prelude.Map.{Map, get, insert}
use rustunnel.Prelude.Eq.{nat_eq}
use rustunnel.Core.Types.{Uuid, Instant}

abbrev pub one_token : ℕ
one_token = 1_000_000_000

pub record Bucket : Type 0 where
  pub tokens : ℕ
  pub last_refill : Instant

pub record RateLimiter : Type 0 where
  pub buckets : Map Uuid Bucket
  pub evict_after : ℕ

unfoldable pub new_bucket : ℕ → Instant → Bucket
new_bucket max_rps now = record { tokens = max_rps * one_token; last_refill = now }

unfoldable pub refill : ℕ → Instant → Bucket → Bucket
refill max_rps now b = record {
  tokens = min (b.tokens + (now - b.last_refill) * max_rps) (max_rps * one_token);
  last_refill = now;
}

abbrev pub take_token : Bucket → Bucket × Bool
take_token b =
    if leb one_token b.tokens
    then (record b { tokens = b.tokens - one_token }, true)
    else (b, false)

-- Refill in proportion to the time that has gone by, then take one token if there is one.
unfoldable pub try_consume : ℕ → Instant → Bucket → Bucket × Bool
unfolding refill
try_consume max_rps now b = take_token (refill max_rps now b)

unfoldable pub new : RateLimiter
new = record { buckets = []; evict_after = 300 * one_token }

abbrev or_insert_with : Option Bucket → Bucket → Bucket
or_insert_with none b = b
or_insert_with (some a) b = a

unfoldable pub check_rate_limit : Uuid → ℕ → Instant → RateLimiter → RateLimiter × Bool
check_rate_limit tunnel_id max_rps now l =
    let (b, allowed) =
      try_consume max_rps now (or_insert_with (get tunnel_id l.buckets) (new_bucket max_rps now)) in
    (record l { buckets = insert tunnel_id b l.buckets }, allowed)

unfoldable pub retain_recent : ℕ → Instant → Map Uuid Bucket → Map Uuid Bucket
retain_recent evict_after now [] = []
retain_recent evict_after now ((id, b) ∷ m) =
    let rest = retain_recent evict_after now m in
    if ltb (now - b.last_refill) evict_after then (id, b) ∷ rest else rest

unfoldable pub evict_idle : Instant → RateLimiter → RateLimiter
unfolding retain_recent
evict_idle now l = record l { buckets = retain_recent l.evict_after now l.buckets }
