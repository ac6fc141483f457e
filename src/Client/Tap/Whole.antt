-- ===== src/Client/Tap/Whole.antt =====
-- A body in crates/rustunnel-client/src/inspect/tap.rs that has not ended takes in a whole buffer.
use rustunnel.Prelude.{
  ℕ, zero, suc, ◌≡◌, refl, sym, ◌∙◌, ◌+◌, ◌≤◌, min, Bool, true, false, Option, none, some, List, [],
  ◌∷◌, arith, length, drop,
}
use mathlib.Core.Path.{subst}
use rustunnel.Core.Types.{Text}
use rustunnel.Client.Tap.{
  Body, ChunkState, size, data_left, data_crlf, trailer, finished, ChunkScanner, Turn, moves, ends,
  turn, Fed, fed, Framing, length_left, chunked, until_eof, FedFraming, map_fed, feed,
}
use rustunnel.Client.Tap.Bytes.{
  by_bytes, turn-IsLive, TurnIsLive, IsLive, UsesOne, trailer_byte-UsesOne, feed_chunked-by_bytes,
}
use rustunnel.Client.Tap.Splits.{by_bytes-IsLive}

drop-all {ℓ} : {A : Type ℓ} (n : ℕ) (xs : List A) → length xs ≤ n → drop n xs ≡ []
drop-all zero [] h = refl
drop-all (suc n) [] h = refl
drop-all zero (x ∷ xs) h = absurd (omega arith)
drop-all (suc n) (x ∷ xs) h = drop-all n xs (omega arith)

turn-UsesOne :
    (is_utf8 : Text → Bool) (st : ChunkState) (line : Text) (sink : Option Body) (b : ℕ)
    → IsLive st
    → UsesOne (turn is_utf8 st line sink b [])
unfolding turn
turn-UsesOne is_utf8 size line sink b v = refl
turn-UsesOne is_utf8 (data_left zero) line sink b v = elim v [ ]
turn-UsesOne is_utf8 (data_left (suc n)) line sink b v = omega arith
turn-UsesOne is_utf8 (data_crlf seen) line sink b v = refl
turn-UsesOne is_utf8 trailer line sink b v = trailer_byte-UsesOne line b sink
turn-UsesOne is_utf8 finished line sink b v = tt

by_bytes-consumed :
    (is_utf8 : Text → Bool) (s : ChunkScanner) (sink : Option Body) (i : ℕ) (xs : Text)
    → IsLive s.state
    → (by_bytes is_utf8 s sink i xs).ended ≡ false
    → (by_bytes is_utf8 s sink i xs).consumed ≡ i + length xs
unfolding by_bytes
by_bytes-consumed is_utf8 s sink i [] v e = omega arith
by_bytes-consumed is_utf8 s sink i (x ∷ xs) v e =
    next (turn is_utf8 s.state s.line sink x []) (turn-IsLive is_utf8 s.state s.line sink x [])
      (turn-UsesOne is_utf8 s.state s.line sink x v)
      (λ s2 sink2 j. by_bytes-consumed is_utf8 s2 sink2 j xs) e
  where
    after : Turn → Fed
    after t = elim t as (λ x. Fed) [
      | moves s' sink' used ↦ by_bytes is_utf8 s' sink' (i + used) xs
      | ends s' sink' used ↦ fed s' sink' (i + used) true
    ]

    next :
        (t : Turn)
        → TurnIsLive t
        → UsesOne t
        → ((s2 : ChunkScanner) (sink2 : Option Body) (j : ℕ)
            → IsLive s2.state
            → (by_bytes is_utf8 s2 sink2 j xs).ended ≡ false
            → (by_bytes is_utf8 s2 sink2 j xs).consumed ≡ j + length xs)
        → (after t).ended ≡ false
        → (after t).consumed ≡ i + suc (length xs)
    next (moves s' sink' used) w one rest f =
        let e : i + used + length xs ≡ i + suc (length xs) = omega arith in
        rest s' sink' (i + used) w f ∙ e
    next (ends s' sink' used) w one rest f = absurd (ground arith)

abbrev pub LiveFraming : Framing → Type 0
LiveFraming (length_left n) = Unit
LiveFraming until_eof = Unit
LiveFraming (chunked s) = IsLive s.state

-- A feed gives a result, and a body that has not ended by then has used the buffer up.
abbrev pub Feeds : Text → Option FedFraming → Type 0
Feeds buf none = ⊥
Feeds buf (some f) = f.ended ≡ false → (drop f.consumed buf ≡ []) × LiveFraming f.framing

chunks-Feeds :
    (is_utf8 : Text → Bool) (s : ChunkScanner) (buf : Text) (sink : Option Body)
    → IsLive s.state
    → Feeds buf (map_fed (some (by_bytes is_utf8 s sink 0 buf)))
chunks-Feeds is_utf8 s buf sink v e = (
  drop-all _ buf (omega (arith, by_bytes-consumed is_utf8 s sink 0 buf v e)),
  by_bytes-IsLive is_utf8 s sink 0 buf v e,
)

pub feed-Feeds :
    (is_utf8 : Text → Bool) (f : Framing) (buf : Text) (sink : Option Body)
    → LiveFraming f
    → Feeds buf (feed is_utf8 f buf sink)
unfolding feed
feed-Feeds is_utf8 (length_left n) buf sink v =
    λ e. (drop-all (min n (length buf)) buf (ground arith), tt)
feed-Feeds is_utf8 until_eof buf sink v = λ e. (drop-all (length buf) buf (omega arith), tt)
feed-Feeds is_utf8 (chunked s) buf sink v =
    subst (λ r. Feeds buf (map_fed r))
      (sym (feed_chunked-by_bytes is_utf8 (length buf + 2) s sink 0 buf (omega arith) v))
      (chunks-Feeds is_utf8 s buf sink v)
