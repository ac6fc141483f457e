-- ===== src/Control/Heartbeat.antt =====
-- crates/rustunnel-server/src/control/session.rs, `heartbeat_task`: what the task sees, in its order.
-- An instant is in nanoseconds.
pub mod Rounds
use rustunnel.Prelude.{
  ℕ, ◌*◌, ◌-◌, Bool, true, false, Option, none, some, List, [], ◌∷◌, ltb, if◌then◌else◌,
}
use rustunnel.Core.Types.{Instant}

abbrev pub ping_interval : ℕ
ping_interval = 30 * 1_000_000_000

abbrev pub pong_deadline : ℕ
pong_deadline = 10 * 1_000_000_000

-- A tick of the interval, at an instant, and whether the main loop still takes pings; a pong; the
-- end of the pong channel; the stop signal.
pub data Beat : Type 0 where
  tick : (now : Instant) (taken : Bool) → Beat
  pong closed stop : Beat

-- Whether the ping that is out is overdue.
abbrev pub overdue : Instant → Option Instant → Bool
overdue now none = false
overdue now (some sent_at) = ltb pong_deadline (now - sent_at)

-- The ping that is out after an event; none where the task breaks off.
unfoldable pub beat : Option Instant → Beat → Option (Option Instant)
beat pending (tick now taken) =
    if overdue now pending then none else if taken then some (some now) else none
beat pending pong = some none
beat pending closed = none
beat pending stop = none

-- What is out after the events, none where the task has ended.
unfoldable pub heartbeat_task : Option Instant → List Beat → Option (Option Instant)
heartbeat_task pending [] = some pending
heartbeat_task pending (b ∷ bs) = elim (beat pending b) [
  | none ↦ none
  | some next ↦ heartbeat_task next bs
]
