-- ===== src/Edge/Hosts.antt =====
-- crates/rustunnel-server/src/edge/http.rs: what is read from a Host header. A header's value is its
-- bytes; no byte of a character outside ASCII is a letter, a digit, a hyphen, a dot or a colon.
pub mod Laws
use rustunnel.Prelude.{
  ℕ, Bool, true, false, ◌&&◌, ◌||◌, not, Option, none, some, [], ◌∷◌, ◌++◌, if◌then◌else◌, leb,
  nat_beq, length, all, drop,
}
use rustunnel.Prelude.Eq.{◌==◌, list_eq, nat_eq}
use rustunnel.Prelude.Map.{is_empty}
use rustunnel.Core.Types.{Text}
use rustunnel.Core.Subdomain.{is_ascii_alphanumeric, hyphen}

abbrev pub colon : ℕ
colon = b':'

abbrev pub dot : ℕ
dot = b'.'

-- `split(':').next()`
unfoldable pub before_colon : Text → Text
before_colon [] = []
before_colon (b ∷ s) = let rest = before_colon s in if nat_beq b colon then [] else b ∷ rest

abbrev pub prefix_with : ℕ → Option Text → Option Text
prefix_with b none = none
prefix_with b (some s) = some (b ∷ s)

unfoldable pub strip_suffix : Text → Text → Option Text
strip_suffix suffix [] = if suffix == [] then some [] else none
strip_suffix suffix (b ∷ s) =
    let rest = prefix_with b (strip_suffix suffix s) in if suffix == b ∷ s then some [] else rest

unfoldable pub extract_subdomain : Text → Text → Option Text
extract_subdomain host domain =
    if before_colon host == domain then none else strip_suffix (dot ∷ domain) (before_colon host)

-- A split at the last colon; the second part keeps it.
abbrev pub grow : ℕ → Text × Option Text → Text × Option Text
grow b (name, some port) = (b ∷ name, some port)
grow b (name, none) = if nat_beq b colon then ([], some (b ∷ name)) else (b ∷ name, none)

unfoldable pub split_last_colon : Text → Text × Option Text
split_last_colon [] = ([], none)
split_last_colon (b ∷ s) = grow b (split_last_colon s)

abbrev pub is_host_byte : ℕ → Bool
is_host_byte c = is_ascii_alphanumeric c || nat_beq c hyphen || nat_beq c dot

abbrev pub is_ascii_digit : ℕ → Bool
is_ascii_digit c = leb 48 c && leb c 57

-- A colon with at least one digit.
abbrev pub is_port : Option Text → Bool
is_port none = true
is_port (some port) = leb 2 (length port) && all is_ascii_digit (drop 1 port)

unfoldable pub sanitize_host : Text → Option Text
unfolding split_last_colon
sanitize_host host =
    let (name, port) = split_last_colon host in
    if all is_host_byte name && not (is_empty name) && is_port port then some host else none
