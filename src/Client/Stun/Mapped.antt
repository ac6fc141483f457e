-- ===== src/Client/Stun/Mapped.antt =====
-- The response of a STUN server that names an IPv4 address (stun.rs), and every other one.
use rustunnel.Prelude.{
  ℕ, zero, suc, ◌+◌, ◌*◌, ◌≤◌, ◌<◌, ◌≡◌, refl, ◌∙◌, ap, sym, min, Bool, true, not, ◌&&◌, Option,
  some, [], ◌∷◌, ◌++◌, ltb, leb, nat_beq, nat_beq_iff, length, arith, Bool-cases, inl, inr,
}
use Prim.Native.Nat.{bit_xor}
use rustunnel.Prelude.Eq.{list_eq, nat_eq, eq_refl}
use mathlib.Core.Path.{subst}
use rustunnel.Prelude.Branches.{on_if}
use rustunnel.Core.Types.{Text, v4, SocketAddr}
use rustunnel.Client.Stun.{
  magic_cookie, from_be_bytes, xor_bytes, parse_xor_mapped_address, Parsed, found, missing,
  buffer_size, byte_at, u16_at, padded, slice, mapped_at, parse_attributes, is_response,
  parse_response,
}

-- Whether a byte of the cookie can be taken off again, for the bytes under a bound.
undoes : (key : ℕ) (bound : ℕ) → Bool
undoes key zero = true
undoes key (suc byte) = undoes key byte && nat_beq (bit_xor (bit_xor byte key) key) byte

cookie_undone :
    (undoes 33 256 ≡ true)
    × (undoes 18 256 ≡ true)
    × (undoes 164 256 ≡ true)
    × (undoes 66 256 ≡ true)
unfolding undoes
cookie_undone = (refl, refl, refl, refl)

split_and : (p q : Bool) → (p && q) ≡ true → (p ≡ true) × (q ≡ true)
split_and p q h = ground arith

xor_back :
    (key bound byte : ℕ)
    → undoes key bound ≡ true
    → byte < bound
    → bit_xor (bit_xor byte key) key ≡ byte
unfolding undoes
xor_back key zero byte t h = absurd (omega arith)
xor_back key (suc b) byte t h =
    let (lower, here) = split_and (undoes key b) _ t in
    elim (Bool-cases (nat_beq byte b)) [
      | inl e ↦
          subst (λ x. bit_xor (bit_xor x key) key ≡ x) (sym ((nat_beq_iff byte b).0 e))
            ((nat_beq_iff _ b).0 here)
      | inr e ↦ xor_back key b byte lower (ground (arith, e))
    ]

-- An IPv4 address and a port, as their bytes.
pub record Endpoint : Type 0 where
  pub a : ℕ
  pub b : ℕ
  pub c : ℕ
  pub d : ℕ
  pub p : ℕ
  pub q : ℕ

abbrev pub IsEndpoint : Endpoint → Type 0
IsEndpoint e = (e.a < 256) × (e.b < 256) × (e.c < 256) × (e.d < 256) × (e.p < 256) × (e.q < 256)

abbrev pub addr_of : Endpoint → SocketAddr
addr_of e = record {
  ip = v4 (from_be_bytes 0 (e.a ∷ e.b ∷ e.c ∷ e.d ∷ []));
  port = from_be_bytes 0 (e.p ∷ e.q ∷ []);
}

abbrev pub attribute_body : Endpoint → Text
attribute_body e =
    0
    ∷ 1
    ∷ (xor_bytes (e.p ∷ e.q ∷ []) magic_cookie
        ++ xor_bytes (e.a ∷ e.b ∷ e.c ∷ e.d ∷ []) magic_cookie)

-- The response of RFC 5389: its head, the cookie, the identifier and one attribute.
abbrev pub answer : Text → Endpoint → Text
answer tx_id e =
    1 ∷ 1 ∷ 0 ∷ 12 ∷ (magic_cookie ++ tx_id ++ (0 ∷ 32 ∷ 0 ∷ 8 ∷ []) ++ attribute_body e)

body_back :
    (tx_id : Text) (e : Endpoint)
    → IsEndpoint e
    → parse_xor_mapped_address tx_id (attribute_body e) ≡ some (addr_of e)
unfolding parse_xor_mapped_address xor_bytes
body_back tx_id e (a, b, c, d, p, q) =
    let (t33, t18, t164, t66) = cookie_undone in
    rw
      (
        xor_back 33 256 e.a t33 a,
        xor_back 18 256 e.b t18 b,
        xor_back 164 256 e.c t164 c,
        xor_back 66 256 e.d t66 d,
        xor_back 33 256 e.p t33 p,
        xor_back 18 256 e.q t18 q,
      )
      refl

slice-suc : (b : ℕ) (bs : Text) (i n : ℕ) → slice (b ∷ bs) (suc i) n ≡ slice bs i n
unfolding slice
slice-suc b bs i zero = refl
slice-suc b bs i (suc n) =
    let e : suc i + 1 ≡ suc (i + 1) = omega arith in
    rw e (ap (◌∷◌ (byte_at bs i)) (slice-suc b bs (i + 1) n))

slice_whole : (bs : Text) → slice bs 0 (length bs) ≡ bs
unfolding slice
slice_whole [] = refl
slice_whole (b ∷ bs) = ap (◌∷◌ b) (slice-suc b bs 0 (length bs) ∙ slice_whole bs)

answer_back :
    (tx_id : Text) (e : Endpoint)
    → IsEndpoint e
    → parse_response (slice tx_id 0 12) (answer (slice tx_id 0 12) e)
      ≡ some (found (some (addr_of e)))
unfolding parse_response is_response parse_attributes slice xor_bytes
answer_back tx_id e h =
    rw (eq_refl (slice tx_id 0 12)) (ap (λ o. some (found o)) (body_back (slice tx_id 0 12) e h))

-- A response with the request's identifier and one attribute, in which an IPv4 address and a port
-- stand combined with the cookie by xor, is read as this address and port.
pub parse_response-answer :
    (tx_id : Text) (e : Endpoint)
    → length tx_id ≡ 12
    → IsEndpoint e
    → parse_response tx_id (answer tx_id e) ≡ some (found (some (addr_of e)))
parse_response-answer tx_id e n h =
    let whole : slice tx_id 0 12 ≡ tx_id = ap (slice tx_id 0) (sym n) ∙ slice_whole tx_id in
    subst (λ t. parse_response t (answer t e) ≡ some (found (some (addr_of e)))) whole
      (answer_back tx_id e h)

abbrev pub Ends : Option Parsed → Type 0
Ends o = (r : Parsed) × (o ≡ some r)

-- A round is the last one, or has room for the head of an attribute.
round-Ends :
    (fuel : ℕ) (tx_id buf : Text) (attr_end pos : ℕ)
    → (pos + 4 ≤ attr_end
        → Ends (parse_attributes fuel tx_id buf attr_end (pos + 4 + padded (u16_at buf (pos + 2)))))
    → Ends (parse_attributes (suc fuel) tx_id buf attr_end pos)
unfolding parse_attributes
round-Ends fuel tx_id buf attr_end pos rest =
    on_if Ends (not (leb (pos + 4) attr_end)) _ _ (λ e. (missing, refl))
      λ e.
        on_if Ends (nat_beq (u16_at buf pos) 32) _ _
          (λ e'. (mapped_at tx_id buf (pos + 4) (u16_at buf (pos + 2)), refl))
          λ e'. rest (ground arith)

attributes-Ends :
    (fuel : ℕ) (tx_id buf : Text) (attr_end pos : ℕ)
    → attr_end < pos + 4 + 4 * fuel
    → Ends (parse_attributes (suc fuel) tx_id buf attr_end pos)
attributes-Ends zero tx_id buf attr_end pos h =
    round-Ends zero tx_id buf attr_end pos λ k. absurd (omega arith)
attributes-Ends (suc n) tx_id buf attr_end pos h = round-Ends (suc n) tx_id buf attr_end pos λ k.
    attributes-Ends n tx_id buf attr_end (pos + 4 + padded (u16_at buf (pos + 2)))
      (omega (arith, h))

-- Whatever a STUN server answers in at most 512 bytes, the loop over the attributes ends within
-- 256 rounds.
pub parse_response-Ends :
    (tx_id buf : Text) → length buf ≤ buffer_size → Ends (parse_response tx_id buf)
unfolding parse_response
parse_response-Ends tx_id buf h =
    on_if Ends (ltb (length buf) 20) _ _ (λ e. (missing, refl))
      λ e.
        on_if Ends (not (is_response tx_id buf)) _ _ (λ e'. (missing, refl))
          λ e'.
            attributes-Ends 255 tx_id buf (min (20 + u16_at buf 2) (length buf)) 20
              (omega (arith, h))
