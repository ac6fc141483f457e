-- ===== src/Client/Tap/Head.antt =====
-- crates/rustunnel-client/src/inspect/tap.rs: the end of a head, headers, and the framing that they
-- give the body. The parser of a head, of the crate httparse, is a parameter, with the standard
-- library's readings of UTF-8.
use rustunnel.Prelude.{
  ℕ, zero, suc, ◌+◌, ◌*◌, ◌^◌, ◌-◌, Bool, true, false, ◌&&◌, ◌||◌, Option, none, some, List, [],
  ◌∷◌, if◌then◌else◌, leb, ltb, nat_beq, codes,
}
use rustunnel.Prelude.Text.{trim, lowercase}
use rustunnel.Prelude.Eq.{◌==◌, list_eq, nat_eq, option_eq}
use rustunnel.Prelude.Map.{is_empty}
use rustunnel.Core.Types.{Text}
use rustunnel.Client.Tap.{Framing, length_left, chunked, until_eof, new_scanner}

abbrev pub Headers : Type 0
Headers = List (Text × Text)

-- What a parser finds in a complete head: the method and the path, or the status, if they are
-- there, and the headers with the bytes of their values.
pub record Libraries : Type 0 where
  pub is_utf8 : Text → Bool
  pub from_utf8_lossy : Text → Text
  pub parse_request : Text → Option (Option Text × Option Text × Headers)
  pub parse_response : Text → Option (Option ℕ × Headers)

-- Whether a text starts with another.
abbrev pub starts_with : Text → Text → Bool
starts_with [] s = true
starts_with (p ∷ ps) [] = false
starts_with (p ∷ ps) (b ∷ s) = nat_beq p b && starts_with ps s

abbrev next_position : Option ℕ → Option ℕ
next_position none = none
next_position (some i) = some (suc i)

-- `windows(..).position(..)`: where a text first stands in another.
unfoldable pub position : Text → Text → Option ℕ
position p [] = if starts_with p [] then some 0 else none
position p (b ∷ s) =
    let rest = next_position (position p s) in if starts_with p (b ∷ s) then some 0 else rest

abbrev or_else : Option ℕ → Option ℕ → Option ℕ
or_else none o = o
or_else (some n) o = some n

abbrev plus : ℕ → Option ℕ → Option ℕ
plus n none = none
plus n (some i) = some (i + n)

unfoldable pub head_end : Text → Option ℕ
head_end buf =
    or_else (plus 4 (position (13 ∷ 10 ∷ 13 ∷ 10 ∷ []) buf)) (plus 2 (position (10 ∷ 10 ∷ []) buf))

unfoldable pub collect_headers : (from_utf8_lossy : Text → Text) → Headers → Headers
collect_headers lossy [] = []
collect_headers lossy ((name, value) ∷ hs) =
    let rest = collect_headers lossy hs in
    if is_empty name then rest else (name, lossy value) ∷ rest

unfoldable pub header_value : Headers → Text → Option Text
header_value [] name = none
header_value ((k, v) ∷ hs) name =
    let rest = header_value hs name in if lowercase k == lowercase name then some v else rest

abbrev contains_chunked : Option Text → Bool
contains_chunked none = false
contains_chunked (some v) = found (position (codes "chunked") (lowercase v))
  where
    found : Option ℕ → Bool
    found none = false
    found (some i) = true

unfoldable pub is_chunked : Headers → Bool
is_chunked headers = contains_chunked (header_value headers (codes "transfer-encoding"))

abbrev in_u64 : ℕ → Option ℕ → Option ℕ
in_u64 v rest = if ltb v (2 ^ 64) then rest else none

-- Digits after those of `acc`; none on another byte or from 2 ^ 64 on.
unfoldable pub decimal_digits : ℕ → Text → Option ℕ
decimal_digits acc [] = some acc
decimal_digits acc (c ∷ s) =
    let rest = in_u64 (acc * 10 + (c - 48)) (decimal_digits (acc * 10 + (c - 48)) s) in
    if leb 48 c && leb c 57 then rest else none

-- `parse::<u64>()`: a plus sign may lead the digits.
unfoldable pub parse_u64 : Text → Option ℕ
parse_u64 [] = none
parse_u64 (c ∷ []) = decimal_digits 0 (c ∷ [])
parse_u64 (c ∷ d ∷ s) =
    if nat_beq c b'+' then decimal_digits 0 (d ∷ s) else decimal_digits 0 (c ∷ d ∷ s)

abbrev length_of : Option Text → Option ℕ
length_of none = none
length_of (some v) = parse_u64 (trim v)

unfoldable pub content_length : Headers → Option ℕ
content_length headers = length_of (header_value headers (codes "content-length"))

-- A length of 0 is no body; without a length, what the direction says.
abbrev pub by_length : Option Framing → Option ℕ → Option Framing
by_length d none = d
by_length d (some zero) = none
by_length d (some (suc n)) = some (length_left (suc n))

unfoldable pub request_framing : Headers → Option Framing
request_framing headers =
    if is_chunked headers
    then some (chunked new_scanner)
    else by_length none (content_length headers)

abbrev pub is_head : Option Text → Bool
is_head none = false
is_head (some m) = lowercase m == codes "head"

unfoldable pub response_framing : ℕ → Option Text → Headers → Option Framing
response_framing status request_method headers =
    if nat_beq status 204 || nat_beq status 304
    then none
    else if is_head request_method
    then none
    else if is_chunked headers
    then some (chunked new_scanner)
    else by_length (some until_eof) (content_length headers)

abbrev complete_request :
    (Text → Text) → Option (Option Text × Option Text × Headers) → Option (Text × Text × Headers)
complete_request lossy (some (some m, some p, hs)) = some (m, p, collect_headers lossy hs)
complete_request lossy (some (some m, none, hs)) = none
complete_request lossy (some (none, p, hs)) = none
complete_request lossy none = none

unfoldable pub parse_request_head : Libraries → Text → Option (Text × Text × Headers)
parse_request_head lib head = complete_request lib.from_utf8_lossy (lib.parse_request head)

abbrev complete_response : (Text → Text) → Option (Option ℕ × Headers) → Option (ℕ × Headers)
complete_response lossy (some (some code, hs)) = some (code, collect_headers lossy hs)
complete_response lossy (some (none, hs)) = none
complete_response lossy none = none

unfoldable pub parse_response_head : Libraries → Text → Option (ℕ × Headers)
parse_response_head lib head = complete_response lib.from_utf8_lossy (lib.parse_response head)
