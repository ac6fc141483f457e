-- ===== src/Core/Labels.antt =====
-- Which labels `validate_subdomain` accepts, and that `random_subdomain` (core/router.rs) makes such.
use rustunnel.Prelude.{
  ℕ, ◌/◌, ◌%◌, ◌≤◌, ◌<◌, ◌≡◌, refl, sym, ap, ◌↔◌, Bool, true, false, ◌&&◌, [], ◌∷◌, ◌++◌, arith,
  length, length-append, all, nat_beq,
}
use mathlib.Core.Path.{subst}
use rustunnel.Prelude.Text.{hex_digit}
use rustunnel.Core.Types.{Text, Uuid, ok}
use rustunnel.Core.Subdomain.{
  is_ascii_alphanumeric, is_label_byte, starts_with_hyphen, ends_with_hyphen, validate_subdomain,
  random_subdomain, uuid_byte,
}

-- A label: a letter or digit, at both ends, and between them 1 to 61 letters, digits or hyphens.
pub record IsLabel (s : Text) : Type 0 where
  pub first : ℕ
  pub middle : Text
  pub last : ℕ
  pub shape : s ≡ first ∷ (middle ++ last ∷ [])
  pub first_ok : is_ascii_alphanumeric first ≡ true
  pub last_ok : is_ascii_alphanumeric last ≡ true
  pub middle_ok : all is_label_byte middle ≡ true
  pub at_least : 1 ≤ length middle
  pub at_most : length middle ≤ 61

ends-snoc : (s : Text) (d : ℕ) → ends_with_hyphen (s ++ d ∷ []) ≡ nat_beq d b'-'
unfolding ends_with_hyphen
ends-snoc [] d = refl
ends-snoc (c ∷ []) d = refl
ends-snoc (c ∷ e ∷ s) d = ends-snoc (e ∷ s) d

all-snoc :
    (s : Text) (d : ℕ) → all is_label_byte (s ++ d ∷ []) ≡ (all is_label_byte s && is_label_byte d)
all-snoc [] d = ground arith
all-snoc (c ∷ s) d = ground (arith, all-snoc s d)

ends-shape : (c : ℕ) (s : Text) (d : ℕ) → ends_with_hyphen (c ∷ (s ++ d ∷ [])) ≡ nat_beq d b'-'
ends-shape c s d = ends-snoc (c ∷ s) d

alnum_hyphen :
    (c : ℕ) → is_label_byte c ≡ true → nat_beq c b'-' ≡ false → is_ascii_alphanumeric c ≡ true
alnum_hyphen c h n = ground arith

label_alnum :
    (c : ℕ) → is_ascii_alphanumeric c ≡ true → (is_label_byte c ≡ true) × (nat_beq c b'-' ≡ false)
label_alnum c h = ground arith

snoc : (c : ℕ) (s : Text) → (m : Text) × (d : ℕ) × (c ∷ s ≡ m ++ d ∷ [])
snoc c [] = ([], c, refl)
snoc c (e ∷ s) = let (m, d, h) = snoc e s in (c ∷ m, d, ap (◌∷◌ c) h)

label_accepted :
    (c : ℕ) (m : Text) (d : ℕ)
    → is_ascii_alphanumeric c ≡ true
    → is_ascii_alphanumeric d ≡ true
    → all is_label_byte m ≡ true
    → 1 ≤ length m
    → length m ≤ 61
    → validate_subdomain (c ∷ (m ++ d ∷ [])) ≡ ok tt
unfolding validate_subdomain starts_with_hyphen
label_accepted c m d hc hd hm lo hi = ground (
  arith,
  length-append m (d ∷ []),
  all-snoc m d,
  ends-shape c m d,
  label_alnum c hc,
  label_alnum d hd,
)

accepted_facts :
    (c : ℕ) (m : Text) (d : ℕ)
    → validate_subdomain (c ∷ (m ++ d ∷ [])) ≡ ok tt
    → IsLabel (c ∷ (m ++ d ∷ []))
unfolding validate_subdomain starts_with_hyphen
accepted_facts c m d h = record {
  first = c;
  middle = m;
  last = d;
  shape = refl;
  first_ok = ground (arith, alnum_hyphen c);
  last_ok = ground (arith, all-snoc m d, ends-shape c m d, alnum_hyphen d);
  middle_ok = ground (arith, all-snoc m d);
  at_least = ground (arith, length-append m (d ∷ []));
  at_most = ground (arith, length-append m (d ∷ []));
}

accepted-IsLabel : (s : Text) → validate_subdomain s ≡ ok tt → IsLabel s
unfolding validate_subdomain
accepted-IsLabel [] h = absurd (ground arith)
accepted-IsLabel (c ∷ []) h = absurd (ground arith)
accepted-IsLabel (c ∷ e ∷ s) h =
    let (m, d, eq) = snoc e s in
    let same : c ∷ e ∷ s ≡ c ∷ (m ++ d ∷ []) = ap (◌∷◌ c) eq in
    subst IsLabel (sym same)
      (accepted_facts c m d (subst (λ r. validate_subdomain r ≡ ok tt) same h))

label-accepted : (s : Text) → IsLabel s → validate_subdomain s ≡ ok tt
label-accepted s l =
    subst (λ r. validate_subdomain r ≡ ok tt) (sym l.shape)
      (label_accepted l.first l.middle l.last l.first_ok l.last_ok l.middle_ok l.at_least l.at_most)

-- `validate_subdomain` accepts exactly the texts of 3 to 63 bytes, a letter or digit at both ends
-- and letters, digits or hyphens between.
pub validate_subdomain_iff : (s : Text) → (validate_subdomain s ≡ ok tt) ↔ IsLabel s
validate_subdomain_iff s = (accepted-IsLabel s, label-accepted s)

hex-alnum : (x : ℕ) → x < 16 → is_ascii_alphanumeric (hex_digit x) ≡ true
unfolding hex_digit
hex-alnum x h = ground arith

alnum-label : (c : ℕ) → is_ascii_alphanumeric c ≡ true → is_label_byte c ≡ true
alnum-label c h = (label_alnum c h).0

and_true : {a b : Bool} → a ≡ true → b ≡ true → (a && b) ≡ true
and_true h k = ground arith

hex_high : (i id : ℕ) → is_ascii_alphanumeric (hex_digit (uuid_byte i id / 16)) ≡ true
hex_high i id = hex-alnum (uuid_byte i id / 16) (omega arith)

hex_low : (i id : ℕ) → is_ascii_alphanumeric (hex_digit (uuid_byte i id % 16)) ≡ true
hex_low i id = hex-alnum (uuid_byte i id % 16) (omega arith)

-- Every random subdomain is such a label, of eight bytes.
pub random_subdomain-IsLabel :
    (id : Uuid) → IsLabel (random_subdomain id) × (length (random_subdomain id) ≡ 8)
unfolding random_subdomain
random_subdomain-IsLabel id =
    let hi : ℕ → ℕ = λ i. hex_digit (uuid_byte i id / 16) in
    let lo : ℕ → ℕ = λ i. hex_digit (uuid_byte i id % 16) in
    (
      record {
        first = hi 0;
        middle = lo 0 ∷ hi 1 ∷ lo 1 ∷ hi 2 ∷ lo 2 ∷ hi 3 ∷ [];
        last = lo 3;
        shape = refl;
        first_ok = hex_high 0 id;
        last_ok = hex_low 3 id;
        middle_ok = and_true (alnum-label (lo 0) (hex_low 0 id)) (
            and_true (alnum-label (hi 1) (hex_high 1 id)) (
              and_true (alnum-label (lo 1) (hex_low 1 id)) (
                and_true (alnum-label (hi 2) (hex_high 2 id)) (
                  and_true (alnum-label (lo 2) (hex_low 2 id))
                    (and_true (alnum-label (hi 3) (hex_high 3 id)) refl)))));
        at_least = omega arith;
        at_most = omega arith;
      },
      refl,
    )
