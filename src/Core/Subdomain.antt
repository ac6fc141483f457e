-- ===== src/Core/Subdomain.antt =====
-- The labels of HTTP tunnels: `validate_subdomain` and `random_subdomain` of
-- crates/rustunnel-server/src/core/router.rs. A label is its UTF-8 bytes; no byte of a character
-- outside ASCII is a letter, a digit or a hyphen, so the test on characters is one on bytes.
use rustunnel.Prelude.{
  ℕ, ◌-◌, ◌*◌, ◌/◌, ◌%◌, ◌^◌, Bool, false, ◌&&◌, ◌||◌, not, [], ◌∷◌, ◌++◌, leb, nat_beq,
  if◌then◌else◌, length, all,
}
use rustunnel.Prelude.Text.{hex_byte}
use rustunnel.Core.Types.{
  Text, Uuid, Result, ok, err, tunnel, subdomain_length, subdomain_hyphen, subdomain_charset,
}

abbrev pub hyphen : ℕ
hyphen = b'-'

abbrev pub is_ascii_alphanumeric : ℕ → Bool
is_ascii_alphanumeric c = leb 48 c && leb c 57 || leb 65 c && leb c 90 || leb 97 c && leb c 122

abbrev pub is_label_byte : ℕ → Bool
is_label_byte c = is_ascii_alphanumeric c || nat_beq c hyphen

unfoldable pub starts_with_hyphen : Text → Bool
starts_with_hyphen [] = false
starts_with_hyphen (c ∷ s) = nat_beq c hyphen

unfoldable pub ends_with_hyphen : Text → Bool
ends_with_hyphen [] = false
ends_with_hyphen (c ∷ []) = nat_beq c hyphen
ends_with_hyphen (c ∷ d ∷ s) = ends_with_hyphen (d ∷ s)

unfoldable pub validate_subdomain : Text → Result (Unit {0})
validate_subdomain s =
    if not (leb 3 (length s) && leb (length s) 63)
    then err (tunnel (subdomain_length s))
    else if starts_with_hyphen s || ends_with_hyphen s
    then err (tunnel (subdomain_hyphen s))
    else if not (all is_label_byte s)
    then err (tunnel (subdomain_charset s))
    else ok tt

-- Byte i of a Uuid, the most significant first.
abbrev pub uuid_byte : ℕ → Uuid → ℕ
uuid_byte i id = id / 2 ^ (8 * (15 - i)) % 256

unfoldable pub random_subdomain : Uuid → Text
unfolding hex_byte
random_subdomain id =
    hex_byte (uuid_byte 0 id)
    ++ hex_byte (uuid_byte 1 id)
    ++ hex_byte (uuid_byte 2 id)
    ++ hex_byte (uuid_byte 3 id)
