-- ===== src/Client/Reconnect/Delays.antt =====
-- The delays of the reconnection loop (reconnect.rs), and how it ends.
use rustunnel.Prelude.{ℕ, ◌*◌, ◌≤◌, inl, inr, List, [], ◌∷◌, ◌++◌, arith, nat_beq, Bool-cases}
use rustunnel.Prelude.Branches.{on_some, on_if, on_bool}
use rustunnel.Client.Reconnect.{
  max_delay, is_fatal, next_delay, Round, Wait, Ended, Retry, wait_of, retrying, waits_of, stops,
  delay_after, failed, run_with_reconnect,
}

-- The factor of a jitter of at most 20 per cent.
abbrev pub IsJitter : ℕ → Type 0
IsJitter f = (800_000 ≤ f) × (f ≤ 1_200_000)

abbrev pub AllJitter : List Round → Type 0
AllJitter [] = Unit
AllJitter (x ∷ xs) = IsJitter x.jitter_factor × AllJitter xs

-- No delay is below the one before it, nor over 60 seconds.
abbrev pub IsRising : ℕ → List Wait → Type 0
IsRising d [] = Unit
IsRising d (w ∷ ws) = (d ≤ w.delay) × (w.delay ≤ max_delay) × IsRising w.delay ws

grown : (f d : ℕ) → 800_000 ≤ f → d * 800_000 ≤ d * f
grown f d h = grind arith

next_delay-bounds :
    (f d : ℕ) → IsJitter f → d ≤ max_delay → (d ≤ next_delay f d) × (next_delay f d ≤ max_delay)
unfolding next_delay
next_delay-bounds f d j h = omega (arith, grown f (d * 2) j.0)

delay_after-bounds :
    (x : Round) (r : Retry)
    → IsJitter x.jitter_factor
    → r.delay ≤ max_delay
    → (r.delay ≤ delay_after x r) × (delay_after x r ≤ max_delay)
delay_after-bounds x r j h = ground (arith, next_delay-bounds x.jitter_factor r.delay j h)

falls_back : (d d' : ℕ) (ws : List Wait) → d ≤ d' → IsRising d' ws → IsRising d ws
falls_back d d' [] h k = tt
falls_back d d' (w ∷ ws) h (p, q, k) = (omega arith, q, k)

waits_of-IsRising :
    (r : Retry) (ws : List Wait)
    → r.delay ≤ max_delay
    → IsRising r.delay ws
    → IsRising r.delay (waits_of r ++ ws)
waits_of-IsRising r ws h k = elim (Bool-cases (nat_beq r.attempt 0)) [
  | inl e ↦ rw e k
  | inr e ↦ rw e (omega arith, h, k)
]

-- However the attempts to connect end, no wait of the reconnection loop is shorter than the one
-- before it nor than its first delay, and none is over 60 seconds; where the first delay is not,
-- and the jitter is at most 20 per cent.
pub run_with_reconnect-IsRising :
    (xs : List Round) (r : Retry)
    → AllJitter xs
    → r.delay ≤ max_delay
    → IsRising r.delay (run_with_reconnect xs r).0
unfolding run_with_reconnect
run_with_reconnect-IsRising [] r j h = tt
run_with_reconnect-IsRising (x ∷ xs) r (j, js) h =
    let (more, below) = delay_after-bounds x r j h in
    let P : List Wait × Ended → Type 0 = λ (p : List Wait × Ended). IsRising r.delay p.0 in
    let P' : List Wait × Ended → Type 0 =
      λ (p : List Wait × Ended). IsRising r.delay (waits_of r ++ p.0) in
    on_bool P (stops x r) _ _
      (λ e.
        on_if (IsRising r.delay) x.shutdown_requested [] (waits_of r) (λ asked. tt)
          λ asked.
            on_if (IsRising r.delay) (retrying r) (wait_of r ∷ []) []
              (λ again. (omega arith, h, tt)) (λ again. tt))
      λ e.
        on_some P' x.outcome _ _ (λ e'. waits_of-IsRising r [] h tt)
          λ err e'.
            on_bool P' (is_fatal err) _ _ (λ f. waits_of-IsRising r [] h tt)
              λ f. waits_of-IsRising r _ h (
                falls_back r.delay (delay_after x r) _ more
                  (run_with_reconnect-IsRising xs (failed err x r) js below))
