-- ===== src/Client/Tap/Bytes.antt =====
-- The chunk scanner of crates/rustunnel-client/src/inspect/tap.rs on buffers of any size: a buffer is
-- taken in as its bytes would be one by one.
use rustunnel.Prelude.{
  ℕ, zero, suc, ◌≡◌, refl, sym, ap, ◌∙◌, ◌+◌, ◌-◌, ◌≤◌, ◌<◌, min, Bool, true, false, Option, none,
  some, [], ◌∷◌, ◌++◌, arith, if◌then◌else◌, nat_beq, ltb, leb, length, take, drop, length-drop,
}
use rustunnel.Core.Types.{Text}
use rustunnel.Client.Tap.Captured.{push_to-push_to}
use rustunnel.Client.Tap.{
  Body, push_to, ChunkState, size, data_left, data_crlf, trailer, finished, ChunkScanner, Turn,
  moves, ends, turn, left_over, at_state, Fed, fed, feed_chunked, is_finished, size_byte,
  trailer_byte, sized, is_blank, max_head,
}

-- The scanner one byte at a time.
unfoldable pub by_bytes : (is_utf8 : Text → Bool) → ChunkScanner → Option Body → ℕ → Text → Fed
by_bytes is_utf8 s sink i [] = fed s sink i (is_finished s.state)
by_bytes is_utf8 s sink i (b ∷ bs) = elim (turn is_utf8 s.state s.line sink b []) [
  | moves s' sink' used ↦ by_bytes is_utf8 s' sink' (i + used) bs
  | ends s' sink' used ↦ fed s' sink' (i + used) true
]

pub by_bytes-moves :
    (is_utf8 : Text → Bool) (s s' : ChunkScanner) (sink sink' : Option Body) (i b used : ℕ)
    (bs : Text)
    → turn is_utf8 s.state s.line sink b [] ≡ moves s' sink' used
    → by_bytes is_utf8 s sink i (b ∷ bs) ≡ by_bytes is_utf8 s' sink' (i + used) bs
unfolding by_bytes
by_bytes-moves is_utf8 s s' sink sink' i b used bs e =
    ap
      (λ t. elim t as (λ x. Fed) [
        | moves s2 sink2 used2 ↦ by_bytes is_utf8 s2 sink2 (i + used2) bs
        | ends s2 sink2 used2 ↦ fed s2 sink2 (i + used2) true
      ])
      e

pub by_bytes-ends :
    (is_utf8 : Text → Bool) (s s' : ChunkScanner) (sink sink' : Option Body) (i b used : ℕ)
    (bs : Text)
    → turn is_utf8 s.state s.line sink b [] ≡ ends s' sink' used
    → by_bytes is_utf8 s sink i (b ∷ bs) ≡ fed s' sink' (i + used) true
unfolding by_bytes
by_bytes-ends is_utf8 s s' sink sink' i b used bs e =
    ap
      (λ t. elim t as (λ x. Fed) [
        | moves s2 sink2 used2 ↦ by_bytes is_utf8 s2 sink2 (i + used2) bs
        | ends s2 sink2 used2 ↦ fed s2 sink2 (i + used2) true
      ])
      e

pub turn-byte :
    (is_utf8 : Text → Bool) (n : ℕ) (line : Text) (sink : Option Body) (b : ℕ)
    → turn is_utf8 (data_left (suc n)) line sink b []
      ≡ moves (at_state (left_over n) line) (push_to sink (b ∷ [])) 1
unfolding turn
turn-byte is_utf8 n line sink b =
    let one : min (suc n) 1 ≡ 1 = omega arith in
    let left : suc n - 1 ≡ n = omega arith in rw (one, left) refl

-- A piece of a chunk in one turn.
by_bytes-piece :
    (is_utf8 : Text → Bool) (n : ℕ) (line : Text) (sink : Option Body) (i b : ℕ) (bs : Text)
    → by_bytes is_utf8 (at_state (data_left (suc n)) line) sink i (b ∷ bs)
      ≡ by_bytes is_utf8
          (at_state (left_over (suc n - min (suc n) (suc (length bs)))) line)
          (push_to sink (take (min (suc n) (suc (length bs))) (b ∷ bs)))
          (i + min (suc n) (suc (length bs)))
          (drop (min (suc n) (suc (length bs))) (b ∷ bs))
unfolding by_bytes turn
by_bytes-piece is_utf8 n line sink i b [] = let e : min (suc n) 1 ≡ 1 = omega arith in rw e refl
by_bytes-piece is_utf8 zero line sink i b (c ∷ bs) =
    let e : min 1 (suc (suc (length bs))) ≡ 1 = omega arith in rw e refl
by_bytes-piece is_utf8 (suc n) line sink i b (c ∷ bs) =
    let m = min (suc n) (suc (length bs)) in
    let used : min (suc (suc n)) (suc (suc (length bs))) ≡ suc m = omega arith in
    let rest : suc (suc n) - suc m ≡ suc n - m = omega arith in
    let sum : i + suc m ≡ (i + 1) + m = omega arith in
    let first : by_bytes is_utf8 (at_state (data_left (suc (suc n))) line) sink i (b ∷ c ∷ bs)
        ≡ by_bytes is_utf8 (at_state (data_left (suc n)) line) (push_to sink (b ∷ [])) (i + 1)
            (c ∷ bs) =
      by_bytes-moves is_utf8 (at_state (data_left (suc (suc n))) line) _ sink _ i b 1 (c ∷ bs)
        (turn-byte is_utf8 (suc n) line sink b) in
    first
    ∙ by_bytes-piece is_utf8 n line (push_to sink (b ∷ [])) (i + 1) c bs
    ∙ rw (used, rest, sum, push_to-push_to sink (b ∷ []) (take m (c ∷ bs))) refl

-- A scanner that waits for bytes of a chunk waits for at least one.
abbrev pub IsLive : ChunkState → Type 0
IsLive (data_left zero) = ⊥
IsLive _ = Unit

left_over-IsLive : (n : ℕ) → IsLive (left_over n)
left_over-IsLive zero = tt
left_over-IsLive (suc n) = tt

sized-IsLive : (o : Option ℕ) → IsLive (sized o)
sized-IsLive none = tt
sized-IsLive (some zero) = tt
sized-IsLive (some (suc n)) = tt

abbrev pub TurnIsLive : Turn → Type 0
TurnIsLive (moves s sink used) = IsLive s.state
TurnIsLive (ends s sink used) = Unit

if-IsLive {ℓ} :
    {A : Type ℓ} (P : A → Type 0) (b : Bool) (x y : A) → P x → P y → P (if b then x else y)
if-IsLive P true x y p q = p
if-IsLive P false x y p q = q

size_byte-IsLive :
    (is_utf8 : Text → Bool) (line : Text) (b : ℕ) → IsLive (size_byte is_utf8 line b).state
unfolding size_byte
size_byte-IsLive is_utf8 line b =
    if-IsLive (λ (s : ChunkScanner). IsLive s.state) (nat_beq b 10) _ _ (sized-IsLive _)
      (if-IsLive (λ (s : ChunkScanner). IsLive s.state) (ltb 64 (length (line ++ b ∷ []))) _ _ tt
        tt)

trailer_byte-IsLive :
    (line : Text) (b : ℕ) (sink : Option Body) → TurnIsLive (trailer_byte line b sink)
unfolding trailer_byte
trailer_byte-IsLive line b sink =
    if-IsLive TurnIsLive (nat_beq b 10) _ _
      (if-IsLive TurnIsLive (is_blank (line ++ b ∷ [])) _ _ tt tt)
      (if-IsLive TurnIsLive (ltb max_head (length (line ++ b ∷ []))) _ _ tt tt)

pub turn-IsLive :
    (is_utf8 : Text → Bool) (st : ChunkState) (line : Text) (sink : Option Body) (b : ℕ) (bs : Text)
    → TurnIsLive (turn is_utf8 st line sink b bs)
unfolding turn
turn-IsLive is_utf8 size line sink b bs = size_byte-IsLive is_utf8 line b
turn-IsLive is_utf8 (data_left n) line sink b bs = left_over-IsLive _
turn-IsLive is_utf8 (data_crlf seen) line sink b bs =
    if-IsLive IsLive (leb 2 (seen + 1)) size (data_crlf (seen + 1)) tt tt
turn-IsLive is_utf8 trailer line sink b bs = trailer_byte-IsLive line b sink
turn-IsLive is_utf8 finished line sink b bs = tt

-- A turn takes in some of the bytes, as many turns on single bytes do.
abbrev Takes : (is_utf8 : Text → Bool) → ChunkScanner → Option Body → ℕ → ℕ → Text → Turn → Type 0
Takes is_utf8 s sink i b bs (moves s' sink' used) =
    (1 ≤ used)
    × (by_bytes is_utf8 s sink i (b ∷ bs)
        ≡ by_bytes is_utf8 s' sink' (i + used) (drop used (b ∷ bs)))
Takes is_utf8 s sink i b bs (ends s' sink' used) =
    by_bytes is_utf8 s sink i (b ∷ bs) ≡ fed s' sink' (i + used) true

abbrev pub UsesOne : Turn → Type 0
UsesOne (moves s sink used) = used ≡ 1
UsesOne (ends s sink used) = Unit

pub trailer_byte-UsesOne :
    (line : Text) (b : ℕ) (sink : Option Body) → UsesOne (trailer_byte line b sink)
unfolding trailer_byte
trailer_byte-UsesOne line b sink =
    if-IsLive UsesOne (nat_beq b 10) _ _ (if-IsLive UsesOne (is_blank (line ++ b ∷ [])) _ _ tt refl)
      (if-IsLive UsesOne (ltb max_head (length (line ++ b ∷ []))) _ _ tt refl)

by_byte-Takes :
    (is_utf8 : Text → Bool) (s : ChunkScanner) (sink : Option Body) (i b : ℕ) (bs : Text) (t : Turn)
    → turn is_utf8 s.state s.line sink b [] ≡ t
    → UsesOne t
    → Takes is_utf8 s sink i b bs t
by_byte-Takes is_utf8 s sink i b bs (moves s' sink' used) e one = (
  omega (arith, one),
  by_bytes-moves is_utf8 s s' sink sink' i b used bs e
      ∙ ap (λ u. by_bytes is_utf8 s' sink' (i + used) (drop u (b ∷ bs))) (sym one),
)
by_byte-Takes is_utf8 s sink i b bs (ends s' sink' used) e one =
    by_bytes-ends is_utf8 s s' sink sink' i b used bs e

turn-Takes :
    (is_utf8 : Text → Bool) (st : ChunkState) (line : Text) (sink : Option Body) (i b : ℕ)
    (bs : Text)
    → IsLive st
    → Takes is_utf8 (at_state st line) sink i b bs (turn is_utf8 st line sink b bs)
unfolding turn
turn-Takes is_utf8 size line sink i b bs v =
    by_byte-Takes is_utf8 (at_state size line) sink i b bs _ refl refl
turn-Takes is_utf8 (data_left zero) line sink i b bs v = elim v [ ]
turn-Takes is_utf8 (data_left (suc n)) line sink i b bs v =
    (omega arith, by_bytes-piece is_utf8 n line sink i b bs)
turn-Takes is_utf8 (data_crlf seen) line sink i b bs v =
    by_byte-Takes is_utf8 (at_state (data_crlf seen) line) sink i b bs _ refl refl
turn-Takes is_utf8 trailer line sink i b bs v =
    by_byte-Takes is_utf8 (at_state trailer line) sink i b bs _ refl
      (trailer_byte-UsesOne line b sink)
turn-Takes is_utf8 finished line sink i b bs v =
    by_byte-Takes is_utf8 (at_state finished line) sink i b bs _ refl tt

-- With more fuel than bytes the scanner returns, with what the bytes give one by one.
pub feed_chunked-by_bytes :
    (is_utf8 : Text → Bool) (fuel : ℕ) (s : ChunkScanner) (sink : Option Body) (i : ℕ) (buf : Text)
    → length buf < fuel
    → IsLive s.state
    → feed_chunked is_utf8 fuel s sink i buf ≡ some (by_bytes is_utf8 s sink i buf)
unfolding feed_chunked
feed_chunked-by_bytes is_utf8 zero s sink i buf h v = absurd (omega arith)
feed_chunked-by_bytes is_utf8 (suc fuel) s sink i [] h v = unfold by_bytes in refl
feed_chunked-by_bytes is_utf8 (suc fuel) s sink i (b ∷ bs) h v =
    next (turn is_utf8 s.state s.line sink b bs) (turn-Takes is_utf8 s.state s.line sink i b bs v)
      (turn-IsLive is_utf8 s.state s.line sink b bs)
      (λ s2 sink2 j rest. feed_chunked-by_bytes is_utf8 fuel s2 sink2 j rest)
  where
    next :
        (t : Turn)
        → Takes is_utf8 s sink i b bs t
        → TurnIsLive t
        → ((s2 : ChunkScanner) (sink2 : Option Body) (j : ℕ) (rest : Text)
            → length rest < fuel
            → IsLive s2.state
            → feed_chunked is_utf8 fuel s2 sink2 j rest ≡ some (by_bytes is_utf8 s2 sink2 j rest))
        → (elim t as (λ x. Option Fed) [
          | moves s' sink' used ↦ feed_chunked is_utf8 fuel s' sink' (i + used) (drop used (b ∷ bs))
          | ends s' sink' used ↦ some (fed s' sink' (i + used) true)
        ])
          ≡ some (by_bytes is_utf8 s sink i (b ∷ bs))
    next (moves s' sink' used) (some_used, e) w rest =
        rest s' sink' (i + used) (drop used (b ∷ bs)) (omega (arith, length-drop used (b ∷ bs))) w
        ∙ sym (ap some e)
    next (ends s' sink' used) e w rest = sym (ap some e)
