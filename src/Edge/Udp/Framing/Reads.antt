-- ===== src/Edge/Udp/Framing/Reads.antt =====
-- The reads of a stream of frames (edge/udp.rs): they do not depend on how the stream is cut.
use rustunnel.Prelude.{
  ℕ, zero, suc, ◌+◌, ◌*◌, ◌≤◌, ◌<◌, ◌≡◌, refl, ap, ◌∙◌, false, List, [], ◌∷◌, ◌++◌, arith, ltb,
  length, length-append, length-drop, take, drop-append, Bool-cases, inl, inr,
}
use rustunnel.Core.Types.{Text}
use rustunnel.Edge.Udp.{
  max_datagram_size, Read, datagram, short, too_large, payload_of, read_framed_datagram, Ended,
  waits, fails, cons_read, read_all, read_frames,
}

take-append : (n : ℕ) (xs ys : Text) → n ≤ length xs → take n (xs ++ ys) ≡ take n xs
take-append zero xs ys h = refl
take-append (suc n) [] ys h = absurd (omega arith)
take-append (suc n) (x ∷ xs) ys h = ap (◌∷◌ x) (take-append n xs ys (omega arith))

-- What the first read of some bytes says of more bytes.
abbrev pub Continues : Read → Text → Text → Type 0
Continues (datagram d r) s t =
    (read_framed_datagram (s ++ t) ≡ datagram d (r ++ t)) × (length r < length s)
Continues short s t = Unit
Continues too_large s t = read_framed_datagram (s ++ t) ≡ too_large

payload-Continues :
    (a b c d n : ℕ) (s t : Text)
    → ((u : Text) → read_framed_datagram (a ∷ b ∷ c ∷ d ∷ u) ≡ payload_of n u)
    → Continues (payload_of n s) (a ∷ b ∷ c ∷ d ∷ s) t
payload-Continues a b c d n s t e = elim (Bool-cases (ltb max_datagram_size n)) [
  | inl large ↦ rw (large, e (s ++ t), large) refl
  | inr fits ↦ elim (Bool-cases (ltb (length s) n)) [
    | inl few ↦ rw (fits, few) tt
    | inr whole ↦
        let more : ltb (length (s ++ t)) n ≡ false = ground (arith, length-append s t) in
        let enough : n ≤ length s = ground arith in
        rw (fits, whole)
          (
            e (s ++ t) ∙ rw (fits, more, take-append n s t enough, drop-append n s t enough) refl,
            omega (arith, length-drop {0} n s),
          )
  ]
]

pub read-Continues : (s t : Text) → Continues (read_framed_datagram s) s t
unfolding read_framed_datagram
read-Continues (a ∷ b ∷ c ∷ d ∷ s) t =
    payload-Continues a b c d (a * 16_777_216 + b * 65_536 + c * 256 + d) s t (λ u. refl)
read-Continues (a ∷ b ∷ c ∷ []) t = tt
read-Continues (a ∷ b ∷ []) t = tt
read-Continues (a ∷ []) t = tt
read-Continues [] t = tt

-- The datagrams that are read from some bytes, and how it ends.
pub data Reads : Text → List Text → Ended → Type 0 where
  stop : (s : Text) → read_framed_datagram s ≡ short → Reads s [] (waits s)
  refuse : (s : Text) → read_framed_datagram s ≡ too_large → Reads s [] fails
  step :
      (s d r : Text) (ds : List Text) (e : Ended)
      → read_framed_datagram s ≡ datagram d r
      → Reads r ds e
      → Reads s (d ∷ ds) e

read_by-Reads :
    (s : Text) (r : Read) (rest : Text → List Text × Ended)
    → read_framed_datagram s ≡ r
    → ((d u : Text) → read_framed_datagram s ≡ datagram d u → Reads u (rest u).0 (rest u).1)
    → Reads s
        (elim r as (λ _. List Text × Ended) [
          | datagram d u ↦ cons_read d (rest u)
          | short ↦ ([], waits s)
          | too_large ↦ ([], fails)
        ]).0
        (elim r as (λ _. List Text × Ended) [
          | datagram d u ↦ cons_read d (rest u)
          | short ↦ ([], waits s)
          | too_large ↦ ([], fails)
        ]).1
read_by-Reads s (datagram d u) rest e h = step s d u (rest u).0 (rest u).1 e (h d u e)
read_by-Reads s short rest e h = stop s e
read_by-Reads s too_large rest e h = refuse s e

shorter : (s d u : Text) → read_framed_datagram s ≡ datagram d u → length u < length s
shorter s d u e = (rw e at (read-Continues s [])).1

-- Fuel above the number of bytes suffices.
read_all-Reads :
    (fuel : ℕ) (s : Text) → length s < fuel → Reads s (read_all fuel s).0 (read_all fuel s).1
unfolding read_all
read_all-Reads zero s h = absurd (omega arith)
read_all-Reads (suc fuel) s h =
    read_by-Reads s (read_framed_datagram s) (read_all fuel) refl
      λ d u e. read_all-Reads fuel u (omega (arith, shorter s d u e))

pub read_frames-Reads : (s : Text) → Reads s (read_frames s).0 (read_frames s).1
unfolding read_frames
read_frames-Reads s = read_all-Reads (suc (length s)) s (omega arith)
