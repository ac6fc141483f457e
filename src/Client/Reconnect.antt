-- ===== src/Client/Reconnect.antt =====
-- crates/rustunnel-client/src/reconnect.rs: the loop that connects again, and its delays.
-- A delay is in nanoseconds. The source computes with f64 and draws the jitter; here the factor is
-- exact, in millionths, an argument between 800,000 and 1,200,000.
pub mod Delays
use rustunnel.Prelude.{
  ℕ, zero, suc, ◌+◌, ◌*◌, ◌/◌, ◌%◌, min, Bool, true, false, not, ◌&&◌, ◌||◌, nat_beq, Option, none,
  some, List, [], ◌∷◌, ◌++◌, if◌then◌else◌,
}
use rustunnel.Core.Types.{Text}
use rustunnel.Core.Members.{u32_mod}

pub data Error : Type 0 where
  config auth tunnel connection : Text → Error
  protocol io : Text → Error

abbrev pub second : ℕ
second = 1_000_000_000

abbrev pub initial_delay : ℕ
initial_delay = 1 * second

abbrev pub max_delay : ℕ
max_delay = 60 * second

abbrev pub multiplier : ℕ
multiplier = 2

abbrev pub million : ℕ
million = 1_000_000

unfoldable pub is_fatal : Error → Bool
is_fatal (auth m) = true
is_fatal (tunnel m) = true
is_fatal (config m) = false
is_fatal (connection m) = false
is_fatal (protocol m) = false
is_fatal (io m) = false

unfoldable pub next_delay : (jitter_factor : ℕ) → ℕ → ℕ
next_delay jitter_factor current = min (current * multiplier * jitter_factor / million) max_delay

-- What one round takes from outside: whether a shutdown is asked for before it or during its wait,
-- the jitter, and the outcome of `connect`.
pub record Round : Type 0 where
  pub shutdown_requested : Bool
  pub shutdown_in_wait : Bool
  pub jitter_factor : ℕ
  pub outcome : Option Error

-- The text of an error (`e.to_string()`) is that error. A wait is reported with its attempt, the last
-- error and its delay.
pub record Wait : Type 0 where
  pub attempt : ℕ
  pub reason : Option Error
  pub delay : ℕ

pub data Ended : Type 0 where
  clean : Ended
  fatal : Error → Ended
  goes_on : Ended

pub record Retry : Type 0 where
  pub delay : ℕ
  pub attempt : ℕ
  pub last_error : Option Error

abbrev pub new_retry : Retry
new_retry = record { delay = initial_delay; attempt = 0; last_error = none }

abbrev pub wait_of : Retry → Wait
wait_of r = record { attempt = r.attempt; reason = r.last_error; delay = r.delay }

abbrev pub add_waits : List Wait → List Wait × Ended → List Wait × Ended
add_waits ws (ws', e) = (ws ++ ws', e)

-- The loop waits before each attempt but the first.
abbrev pub retrying : Retry → Bool
retrying r = not (nat_beq r.attempt 0)

abbrev pub waits_of : Retry → List Wait
waits_of r = if retrying r then wait_of r ∷ [] else []

abbrev pub stops : Round → Retry → Bool
stops x r = x.shutdown_requested || retrying r && x.shutdown_in_wait

abbrev pub waits_until_stop : Round → Retry → List Wait
waits_until_stop x r = if x.shutdown_requested then [] else waits_of r

abbrev pub delay_after : Round → Retry → ℕ
delay_after x r = if retrying r then next_delay x.jitter_factor r.delay else r.delay

abbrev pub failed : Error → Round → Retry → Retry
failed e x r = record {
  delay = delay_after x r;
  attempt = (r.attempt + 1) % u32_mod;
  last_error = some e;
}

-- The waits of the loop and how it ends, if one of these rounds is its last.
unfoldable pub run_with_reconnect : List Round → Retry → List Wait × Ended
unfolding next_delay
run_with_reconnect [] r = ([], goes_on)
run_with_reconnect (x ∷ xs) r = elim (stops x r) [
  | true ↦ (waits_until_stop x r, clean)
  | false ↦ add_waits (waits_of r) (elim x.outcome [
    | none ↦ ([], clean)
    | some e ↦ elim (is_fatal e) [
      | true ↦ ([], fatal e)
      | false ↦ run_with_reconnect xs (failed e x r)
    ]
  ])
]
