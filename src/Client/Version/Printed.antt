-- ===== src/Client/Version/Printed.antt =====
-- A version that is printed is parsed back (client, version.rs), whatever suffix follows it.
use rustunnel.Prelude.{
  ℕ, zero, suc, ◌+◌, ◌-◌, ◌*◌, ◌/◌, ◌%◌, ◌^◌, ◌<◌, ◌≡◌, refl, ◌∙◌, ap, inl, inr, Bool-cases, Bool,
  true, false, ◌&&◌, ◌||◌, some, [], ◌∷◌, ◌++◌, ◌⊎◌, leb, ltb, all, arith,
}
use mathlib.Core.List.{append-nil}
use rustunnel.Prelude.Text.{decimal}
use rustunnel.Core.Types.{Text}
use rustunnel.Client.Version.{
  numeric_core, split_dot, is_digit, digits, parse_u32, parse_semver,
  server_supports_load_balancing,
}

-- `X.Y.Z` and a suffix.
unfoldable pub print_version : ℕ × ℕ × ℕ → Text → Text
print_version (a, b, c) suffix =
    decimal 10 a ++ b'.' ∷ (decimal 10 b ++ b'.' ∷ (decimal 10 c ++ suffix))

digits-append : (acc n : ℕ) (s t : Text) → digits acc s ≡ some n → digits acc (s ++ t) ≡ digits n t
unfolding digits
digits-append acc n [] t h = ground (arith)
digits-append acc n (c ∷ s) t h = ground (arith, digits-append (acc * 10 + (c - 48)) n s t)

all-append : (p : ℕ → Bool) (s t : Text) → all p (s ++ t) ≡ (all p s && all p t)
all-append p [] t = refl
all-append p (c ∷ s) t = ground (arith, all-append p s t)

decimal_short : (fuel n : ℕ) → ltb n 10 ≡ true → decimal (suc fuel) n ≡ (48 + n) ∷ []
unfolding decimal
decimal_short fuel n h = rw h refl

decimal_long :
    (fuel n : ℕ)
    → ltb n 10 ≡ false
    → decimal (suc fuel) n ≡ decimal fuel (n / 10) ++ (48 + n % 10) ∷ []
unfolding decimal
decimal_long fuel n h = rw h refl

-- The text of a number has digits only.
decimal-digits : (fuel n : ℕ) → all is_digit (decimal fuel n) ≡ true
decimal-digits zero n = unfold decimal in refl
decimal-digits (suc fuel) n = elim (Bool-cases (ltb n 10)) [
  | inl h ↦ rw (decimal_short fuel n h) (ground arith)
  | inr h ↦
      rw
        (
          decimal_long fuel n h,
          all-append is_digit (decimal fuel (n / 10)) ((48 + n % 10) ∷ []),
          decimal-digits fuel (n / 10),
        )
        (ground arith)
]

one_digit :
    (acc d : ℕ) → d < 10 → acc * 10 + d < 2 ^ 32 → digits acc ((48 + d) ∷ []) ≡ some (acc * 10 + d)
unfolding digits
one_digit acc d h k = ground arith

digits-decimal : (fuel n : ℕ) → n < 10 ^ fuel → n < 2 ^ 32 → digits 0 (decimal fuel n) ≡ some n
digits-decimal zero n h k = unfold decimal digits in ground arith
digits-decimal (suc fuel) n h k = elim (Bool-cases (ltb n 10)) [
  | inl e ↦
      rw (decimal_short fuel n e)
        (one_digit 0 n (ground arith) (omega arith) ∙ ap some (omega arith))
  | inr e ↦
      let lower : n / 10 < 10 ^ fuel = ground arith in
      let whole : n / 10 * 10 + n % 10 ≡ n = omega arith in
      rw (decimal_long fuel n e) (
        digits-append 0 (n / 10) (decimal fuel (n / 10)) ((48 + n % 10) ∷ [])
          (digits-decimal fuel (n / 10) lower (omega arith))
        ∙ one_digit (n / 10) (n % 10) (omega arith) (omega (arith, whole))
        ∙ ap some whole)
]

parse_u32-snoc : (s : Text) (d : ℕ) → parse_u32 (s ++ d ∷ []) ≡ digits 0 (s ++ d ∷ [])
unfolding parse_u32
parse_u32-snoc [] d = refl
parse_u32-snoc (c ∷ s) d = refl

parse_u32-digits : (fuel n : ℕ) → parse_u32 (decimal (suc fuel) n) ≡ digits 0 (decimal (suc fuel) n)
parse_u32-digits fuel n = elim (Bool-cases (ltb n 10)) [
  | inl e ↦ rw (decimal_short fuel n e) (parse_u32-snoc [] (48 + n))
  | inr e ↦ rw (decimal_long fuel n e) (parse_u32-snoc (decimal fuel (n / 10)) (48 + n % 10))
]

parse_u32-decimal : (n : ℕ) → n < 2 ^ 32 → parse_u32 (decimal 10 n) ≡ some n
parse_u32-decimal n h = parse_u32-digits 9 n ∙ digits-decimal 10 n (omega arith) h

numeric_core-digits :
    (s t : Text) → all is_digit s ≡ true → numeric_core (s ++ t) ≡ s ++ numeric_core t
unfolding numeric_core
numeric_core-digits [] t h = refl
numeric_core-digits (c ∷ s) t h = ground (arith, numeric_core-digits s t)

split_dot-digits : (s : Text) → all is_digit s ≡ true → split_dot s ≡ s ∷ []
unfolding split_dot
split_dot-digits [] h = refl
split_dot-digits (c ∷ s) h = ground (arith, split_dot-digits s)

split_dot-part : (s t : Text) → all is_digit s ≡ true → split_dot (s ++ b'.' ∷ t) ≡ s ∷ split_dot t
unfolding split_dot
split_dot-part [] t h = refl
split_dot-part (c ∷ s) t h = ground (arith, split_dot-part s t)

numeric_core-dot : (t : Text) → numeric_core (b'.' ∷ t) ≡ b'.' ∷ numeric_core t
unfolding numeric_core
numeric_core-dot t = refl

-- What may follow the numbers: nothing, or a pre-release or build suffix.
abbrev pub Suffix : Text → Type 0
Suffix [] = Unit
Suffix (c ∷ s) = (c ≡ b'-') ⊎ (c ≡ b'+')

numeric_core-suffix : (s : Text) → Suffix s → numeric_core s ≡ []
unfolding numeric_core
numeric_core-suffix [] h = refl
numeric_core-suffix (c ∷ s) h = ground arith

module _ (a b c : ℕ) (suffix : Text) (h : Suffix suffix) where
  core_printed :
      numeric_core (decimal 10 a ++ b'.' ∷ (decimal 10 b ++ b'.' ∷ (decimal 10 c ++ suffix)))
      ≡ decimal 10 a ++ b'.' ∷ (decimal 10 b ++ b'.' ∷ decimal 10 c)
  unfolding numeric_core
  core_printed =
      numeric_core-digits (decimal 10 a) _ (decimal-digits 10 a)
      ∙ ap (λ t. decimal 10 a ++ b'.' ∷ t)
          (numeric_core-digits (decimal 10 b) _ (decimal-digits 10 b)
            ∙ ap (λ t. decimal 10 b ++ b'.' ∷ t)
                (numeric_core-digits (decimal 10 c) suffix (decimal-digits 10 c)
                  ∙ rw (numeric_core-suffix suffix h, append-nil) refl))

  split_printed :
      split_dot (decimal 10 a ++ b'.' ∷ (decimal 10 b ++ b'.' ∷ decimal 10 c))
      ≡ decimal 10 a ∷ decimal 10 b ∷ decimal 10 c ∷ []
  split_printed =
      split_dot-part (decimal 10 a) _ (decimal-digits 10 a)
      ∙ ap (◌∷◌ (decimal 10 a)) (
          split_dot-part (decimal 10 b) _ (decimal-digits 10 b)
          ∙ ap (◌∷◌ (decimal 10 b)) (split_dot-digits (decimal 10 c) (decimal-digits 10 c)))

  parsed_printed :
      a < 2 ^ 32
      → b < 2 ^ 32
      → c < 2 ^ 32
      → parse_semver (print_version (a, b, c) suffix) ≡ some (a, b, c)
  unfolding print_version parse_semver
  parsed_printed ha hb hc =
      rw
        (
          core_printed,
          split_printed,
          parse_u32-decimal a ha,
          parse_u32-decimal b hb,
          parse_u32-decimal c hc,
        )
        refl

-- A printed version, followed by nothing or by a suffix after `-` or `+`, is parsed back, if its
-- parts are below 2 ^ 32; and the server is taken to support load balancing exactly if it is not
-- below 0.7.0.
pub parse_semver-printed :
    (a b c : ℕ) (suffix : Text)
    → a < 2 ^ 32
    → b < 2 ^ 32
    → c < 2 ^ 32
    → Suffix suffix
    → let s = print_version (a, b, c) suffix in
      (parse_semver s ≡ some (a, b, c)) × (server_supports_load_balancing s ≡ (ltb 0 a || leb 7 b))
unfolding server_supports_load_balancing
parse_semver-printed a b c suffix ha hb hc h =
    let parsed = parsed_printed a b c suffix h ha hb hc in
    (parsed, rw (parsed, server_supports_load_balancing) (ground arith))
