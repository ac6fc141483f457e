-- ===== src/Control/Heartbeat/Rounds.antt =====
-- Which clients the heartbeat of control/session.rs keeps.
use rustunnel.Prelude.{
  ℕ, zero, suc, ◌≡◌, refl, ap, ◌+◌, ◌∙◌, Bool, true, false, none, some, List, [], ◌∷◌, is_some,
  arith,
}
use rustunnel.Core.Types.{Instant}
use rustunnel.Control.Heartbeat.{ping_interval, Beat, tick, pong, beat, heartbeat_task}

-- `n` pongs, and then the rest.
abbrev pub pongs : ℕ → List Beat → List Beat
pongs zero bs = bs
pongs (suc n) bs = pong ∷ pongs n bs

-- A ping at `now`, its pongs, and so on every `ping_interval`; and a last tick.
unfoldable pub rounds : Instant → List ℕ → List Beat
rounds now [] = tick now true ∷ []
rounds now (n ∷ ns) = tick now true ∷ pongs n (rounds (now + ping_interval) ns)

abbrev pub all_answered : List ℕ → Bool
all_answered [] = true
all_answered (zero ∷ ns) = false
all_answered (suc n ∷ ns) = all_answered ns

heartbeat-pongs :
    (n : ℕ) (bs : List Beat) → heartbeat_task none (pongs n bs) ≡ heartbeat_task none bs
unfolding heartbeat_task beat
heartbeat-pongs zero bs = refl
heartbeat-pongs (suc n) bs = heartbeat-pongs n bs

silent_round :
    (now : Instant) (ns : List ℕ)
    → heartbeat_task (some now) (rounds (now + ping_interval) ns) ≡ none
unfolding heartbeat_task beat rounds
silent_round now [] = ground arith
silent_round now (n ∷ ns) = ground arith

-- With a ping every 30 seconds, the heartbeat is still running after the last tick exactly if at
-- least one pong came between each two ticks: a client that is silent for one interval is dropped
-- at its end, and one that answers is kept, also if its pong comes more than ten seconds after the
-- ping.
pub heartbeat_task-rounds :
    (now : Instant) (ns : List ℕ) → is_some (heartbeat_task none (rounds now ns)) ≡ all_answered ns
unfolding heartbeat_task beat rounds
heartbeat_task-rounds now [] = refl
heartbeat_task-rounds now (zero ∷ ns) = ap is_some (silent_round now ns)
heartbeat_task-rounds now (suc n ∷ ns) =
    ap is_some (heartbeat-pongs n (rounds (now + ping_interval) ns))
    ∙ heartbeat_task-rounds (now + ping_interval) ns
