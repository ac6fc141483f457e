-- ===== src/Client/Version.antt =====
-- crates/rustunnel-client/src/version.rs: the version that the server reports.
pub mod Printed
use rustunnel.Prelude.{
  ℕ, zero, suc, ◌+◌, ◌-◌, ◌*◌, ◌^◌, Bool, true, false, ◌&&◌, ◌||◌, Option, none, some, List, [],
  ◌∷◌, leb, ltb, nat_beq, if◌then◌else◌,
}
use rustunnel.Core.Types.{Text}

-- `split(['-', '+']).next()`
unfoldable pub numeric_core : Text → Text
numeric_core [] = []
numeric_core (c ∷ s) =
    let rest = numeric_core s in if nat_beq c b'-' || nat_beq c b'+' then [] else c ∷ rest

abbrev cons_first : ℕ → List Text → List Text
cons_first c [] = (c ∷ []) ∷ []
cons_first c (w ∷ ws) = (c ∷ w) ∷ ws

-- `split('.')`
unfoldable pub split_dot : Text → List Text
split_dot [] = [] ∷ []
split_dot (c ∷ s) =
    let rest = split_dot s in if nat_beq c b'.' then [] ∷ rest else cons_first c rest

abbrev pub is_digit : ℕ → Bool
is_digit c = leb 48 c && leb c 57

-- The value of digits after those of `acc`; none on another byte or from 2 ^ 32 on.
unfoldable pub digits : ℕ → Text → Option ℕ
digits acc [] = some acc
digits acc (c ∷ s) =
    let rest = digits (acc * 10 + (c - 48)) s in
    if is_digit c && ltb (acc * 10 + (c - 48)) (2 ^ 32) then rest else none

-- `parse::<u32>()` of a part; no sign reaches it, since the split is at `-` and `+` too.
unfoldable pub parse_u32 : Text → Option ℕ
unfolding digits
parse_u32 [] = none
parse_u32 (c ∷ s) = digits 0 (c ∷ s)

abbrev triple : Option ℕ → Option ℕ → Option ℕ → Option (ℕ × ℕ × ℕ)
triple (some a) (some b) (some c) = some (a, b, c)
triple _ _ _ = none

abbrev parse_parts : List Text → Option (ℕ × ℕ × ℕ)
parse_parts (major ∷ minor ∷ patch ∷ []) =
    triple (parse_u32 major) (parse_u32 minor) (parse_u32 patch)
parse_parts _ = none

unfoldable pub parse_semver : Text → Option (ℕ × ℕ × ℕ)
unfolding numeric_core split_dot parse_u32
parse_semver s = parse_parts (split_dot (numeric_core s))

-- The order of tuples.
abbrev pub version_leb : ℕ × ℕ × ℕ → ℕ × ℕ × ℕ → Bool
version_leb (a, b, c) (x, y, z) = ltb a x || nat_beq a x && (ltb b y || nat_beq b y && leb c z)

abbrev pub min_server_version_for_load_balancing : ℕ × ℕ × ℕ
min_server_version_for_load_balancing = (0, 7, 0)

unfoldable pub server_supports_load_balancing : Text → Bool
unfolding parse_semver
server_supports_load_balancing server_version = elim (parse_semver server_version) [
  | none ↦ false
  | some v ↦ version_leb min_server_version_for_load_balancing v
]
