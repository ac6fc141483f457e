-- ===== src/Client/Tap/Splits.antt =====
-- The chunk scanner of crates/rustunnel-client/src/inspect/tap.rs does not depend on how the stream is
-- cut into buffers.
use rustunnel.Prelude.{
  ℕ, ◌≡◌, refl, sym, ap, ◌∙◌, ◌+◌, ◌<◌, Bool, true, false, Option, none, some, [], ◌∷◌, ◌++◌, arith,
  if◌then◌else◌, length,
}
use rustunnel.Core.Types.{Text}
use rustunnel.Client.Tap.{
  Body, ChunkState, size, data_left, data_crlf, trailer, finished, ChunkScanner, Turn, moves, ends,
  turn, at_state, Fed, fed, feed_chunked, is_finished,
}
use rustunnel.Client.Tap.Bytes.{
  by_bytes, by_bytes-moves, by_bytes-ends, turn-IsLive, TurnIsLive, IsLive, feed_chunked-by_bytes,
}

abbrev resume : (is_utf8 : Text → Bool) → Fed → Text → Fed
resume is_utf8 r ys = if r.ended then r else by_bytes is_utf8 r.scanner r.sink r.consumed ys

stopped :
    (is_utf8 : Text → Bool) (line : Text) (sink : Option Body) (i : ℕ) (ys : Text)
    → by_bytes is_utf8 (at_state finished line) sink i ys ≡ fed (at_state finished line) sink i true
unfolding by_bytes turn
stopped is_utf8 line sink i [] = refl
stopped is_utf8 line sink i (y ∷ ys) =
    ap (λ j. fed (at_state finished line) sink j true) (omega arith)

resume_nothing :
    (is_utf8 : Text → Bool) (st : ChunkState) (line : Text) (sink : Option Body) (i : ℕ) (ys : Text)
    → by_bytes is_utf8 (at_state st line) sink i ys
      ≡ resume is_utf8 (fed (at_state st line) sink i (is_finished st)) ys
resume_nothing is_utf8 size line sink i ys = refl
resume_nothing is_utf8 (data_left n) line sink i ys = refl
resume_nothing is_utf8 (data_crlf n) line sink i ys = refl
resume_nothing is_utf8 trailer line sink i ys = refl
resume_nothing is_utf8 finished line sink i ys = stopped is_utf8 line sink i ys

by_bytes-append :
    (is_utf8 : Text → Bool) (s : ChunkScanner) (sink : Option Body) (i : ℕ) (xs ys : Text)
    → by_bytes is_utf8 s sink i (xs ++ ys) ≡ resume is_utf8 (by_bytes is_utf8 s sink i xs) ys
by_bytes-append is_utf8 s sink i [] ys =
    unfold by_bytes in resume_nothing is_utf8 s.state s.line sink i ys
by_bytes-append is_utf8 s sink i (x ∷ xs) ys =
    next (turn is_utf8 s.state s.line sink x []) refl
      (λ s2 sink2 j. by_bytes-append is_utf8 s2 sink2 j xs ys)
  where
    next :
        (t : Turn)
        → turn is_utf8 s.state s.line sink x [] ≡ t
        → ((s2 : ChunkScanner) (sink2 : Option Body) (j : ℕ)
            → by_bytes is_utf8 s2 sink2 j (xs ++ ys)
              ≡ resume is_utf8 (by_bytes is_utf8 s2 sink2 j xs) ys)
        → by_bytes is_utf8 s sink i (x ∷ xs ++ ys)
          ≡ resume is_utf8 (by_bytes is_utf8 s sink i (x ∷ xs)) ys
    next (moves s' sink' used) e rest =
        by_bytes-moves is_utf8 s s' sink sink' i x used (xs ++ ys) e
        ∙ rest s' sink' (i + used)
        ∙ sym (ap (λ r. resume is_utf8 r ys) (by_bytes-moves is_utf8 s s' sink sink' i x used xs e))
    next (ends s' sink' used) e rest =
        by_bytes-ends is_utf8 s s' sink sink' i x used (xs ++ ys) e
        ∙ sym (ap (λ r. resume is_utf8 r ys) (by_bytes-ends is_utf8 s s' sink sink' i x used xs e))

pub by_bytes-IsLive :
    (is_utf8 : Text → Bool) (s : ChunkScanner) (sink : Option Body) (i : ℕ) (xs : Text)
    → IsLive s.state
    → (by_bytes is_utf8 s sink i xs).ended ≡ false
    → IsLive (by_bytes is_utf8 s sink i xs).scanner.state
unfolding by_bytes
by_bytes-IsLive is_utf8 s sink i [] v e = v
by_bytes-IsLive is_utf8 s sink i (x ∷ xs) v e =
    next (turn is_utf8 s.state s.line sink x []) (turn-IsLive is_utf8 s.state s.line sink x [])
      (λ s2 sink2 j. by_bytes-IsLive is_utf8 s2 sink2 j xs) e
  where
    after : Turn → Fed
    after t = elim t as (λ x. Fed) [
      | moves s' sink' used ↦ by_bytes is_utf8 s' sink' (i + used) xs
      | ends s' sink' used ↦ fed s' sink' (i + used) true
    ]

    next :
        (t : Turn)
        → TurnIsLive t
        → ((s2 : ChunkScanner) (sink2 : Option Body) (j : ℕ)
            → IsLive s2.state
            → (by_bytes is_utf8 s2 sink2 j xs).ended ≡ false
            → IsLive (by_bytes is_utf8 s2 sink2 j xs).scanner.state)
        → (after t).ended ≡ false
        → IsLive (after t).scanner.state
    next (moves s' sink' used) w rest f = rest s' sink' (i + used) w f
    next (ends s' sink' used) w rest f = absurd (ground arith)

-- Feed a second buffer, unless the body ended in the first one.
abbrev pub then_feed : (is_utf8 : Text → Bool) → ℕ → Text → Option Fed → Option Fed
then_feed is_utf8 fuel ys none = none
then_feed is_utf8 fuel ys (some r) =
    if r.ended then some r else feed_chunked is_utf8 fuel r.scanner r.sink r.consumed ys

resumed :
    (is_utf8 : Text → Bool) (fuel : ℕ) (r : Fed) (ys : Text)
    → length ys < fuel
    → (r.ended ≡ false → IsLive r.scanner.state)
    → then_feed is_utf8 fuel ys (some r) ≡ some (resume is_utf8 r ys)
resumed is_utf8 fuel r ys h v = at r.ended v
  where
    at :
        (b : Bool)
        → (b ≡ false → IsLive r.scanner.state)
        → (if b then some r else feed_chunked is_utf8 fuel r.scanner r.sink r.consumed ys)
          ≡ some (if b then r else by_bytes is_utf8 r.scanner r.sink r.consumed ys)
    at true w = refl
    at false w = feed_chunked-by_bytes is_utf8 fuel r.scanner r.sink r.consumed ys h (w refl)

-- How a stream is cut does not matter to the scanner of chunks: with more fuel than bytes, from a
-- state that waits for at least one byte of a chunk, feeding two buffers as one gives the same
-- scanner, captured body, count and end as feeding the first and then, unless the body ended in
-- it, the second.
pub feed_chunked-split :
    (is_utf8 : Text → Bool) (f g h : ℕ) (s : ChunkScanner) (sink : Option Body) (i : ℕ)
    (xs ys : Text)
    → IsLive s.state
    → length (xs ++ ys) < f
    → length xs < g
    → length ys < h
    → feed_chunked is_utf8 f s sink i (xs ++ ys)
      ≡ then_feed is_utf8 h ys (feed_chunked is_utf8 g s sink i xs)
feed_chunked-split is_utf8 f g h s sink i xs ys v p q r =
    feed_chunked-by_bytes is_utf8 f s sink i (xs ++ ys) p v
    ∙ ap some (by_bytes-append is_utf8 s sink i xs ys)
    ∙ sym (
        resumed is_utf8 h (by_bytes is_utf8 s sink i xs) ys r
          (by_bytes-IsLive is_utf8 s sink i xs v))
    ∙ sym (ap (then_feed is_utf8 h ys) (feed_chunked-by_bytes is_utf8 g s sink i xs q v))
