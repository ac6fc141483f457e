-- ===== src/Client/Tap.antt =====
-- crates/rustunnel-client/src/inspect/tap.rs, the framing of bodies, and the captured `Body` of
-- inspect/mod.rs.
pub mod Captured
pub mod Bytes
pub mod Splits
pub mod Head
pub mod Whole
pub mod State
pub mod Requests
pub mod Answers
pub mod Returns
use rustunnel.Prelude.{
  ℕ, zero, suc, ◌+◌, ◌-◌, ◌*◌, ◌%◌, ◌^◌, min, Bool, true, false, ◌&&◌, ◌||◌, Option, none, some,
  List, [], ◌∷◌, ◌++◌, if◌then◌else◌, leb, ltb, nat_beq, length, take, drop,
}
use rustunnel.Prelude.Text.{trim}
use rustunnel.Prelude.Eq.{◌==◌, list_eq, nat_eq}
use rustunnel.Core.Types.{Text}

abbrev pub max_head : ℕ
max_head = 64 * 1024

abbrev pub body_cap : ℕ
body_cap = 64 * 1024

pub record Body : Type 0 where
  pub bytes : Text
  pub total : ℕ
  pub truncated : Bool

abbrev pub empty_body : Body
empty_body = record { bytes = []; total = 0; truncated = false }

abbrev pub captured : Body → Text → ℕ → Body
captured body bytes total = record {
  bytes = bytes;
  total = total;
  truncated = ltb (length bytes) total;
}

-- The prefix up to the cap is kept, and all bytes are counted.
unfoldable pub push : Body → Text → Body
push body chunk =
    let total = (body.total + length chunk) % 2 ^ 64 in
    let room = body_cap - length body.bytes in
    if nat_beq room 0
    then captured body body.bytes total
    else captured body (body.bytes ++ take (min room (length chunk)) chunk) total

-- Where the body goes, if anywhere.
abbrev pub push_to : Option Body → Text → Option Body
push_to none chunk = none
push_to (some body) chunk = some (push body chunk)

pub data ChunkState : Type 0 where
  size : ChunkState
  data_left : ℕ → ChunkState
  data_crlf : ℕ → ChunkState
  trailer finished : ChunkState

pub record ChunkScanner : Type 0 where
  pub state : ChunkState
  pub line : Text

unfoldable pub new_scanner : ChunkScanner
new_scanner = record { state = size; line = [] }

abbrev pub hex_value : ℕ → Option ℕ
hex_value c =
    if leb 48 c && leb c 57
    then some (c - 48)
    else if leb 97 c && leb c 102
    then some (c - 87)
    else if leb 65 c && leb c 70
    then some (c - 55)
    else none

abbrev below_u64 : ℕ → Option ℕ → Option ℕ
below_u64 v rest = if ltb v (2 ^ 64) then rest else none

-- Digits after those of `acc`; none on another byte or from 2 ^ 64 on.
unfoldable pub hex_digits : ℕ → Text → Option ℕ
hex_digits acc [] = some acc
hex_digits acc (c ∷ s) = elim (hex_value c) [
  | none ↦ none
  | some d ↦ below_u64 (acc * 16 + d) (hex_digits (acc * 16 + d) s)
]

-- `u64::from_str_radix(text, 16)` of a text that is not empty: a plus sign may lead the digits.
unfoldable pub parse_hex : Text → Option ℕ
parse_hex [] = none
parse_hex (c ∷ []) = hex_digits 0 (c ∷ [])
parse_hex (c ∷ d ∷ s) = if nat_beq c b'+' then hex_digits 0 (d ∷ s) else hex_digits 0 (c ∷ d ∷ s)

abbrev pub is_line_end : ℕ → Bool
is_line_end b = nat_beq b 13 || nat_beq b 10

abbrev all_line_ends : Text → Bool
all_line_ends [] = true
all_line_ends (b ∷ bs) = is_line_end b && all_line_ends bs

-- `trim_end_matches(['\r', '\n'])`
unfoldable pub trim_line : Text → Text
trim_line [] = []
trim_line (b ∷ bs) =
    let rest = trim_line bs in if is_line_end b && all_line_ends bs then [] else b ∷ rest

-- `split(';').next()`
unfoldable pub before_extension : Text → Text
before_extension [] = []
before_extension (b ∷ bs) =
    let rest = before_extension bs in if nat_beq b b';' then [] else b ∷ rest

-- `is_utf8` is the standard library's test of an encoding; white space is ASCII.
unfoldable pub parse_chunk_size : (is_utf8 : Text → Bool) → Text → Option ℕ
parse_chunk_size is_utf8 line =
    if is_utf8 line then parse_hex (trim (before_extension (trim_line line))) else none

-- One turn of the loop: it goes on past some bytes, or the body ended after some.
pub data Turn : Type 0 where
  moves ends : ChunkScanner → Option Body → (used : ℕ) → Turn

abbrev pub at_state : ChunkState → Text → ChunkScanner
at_state state line = record { state = state; line = line }

abbrev pub sized : Option ℕ → ChunkState
sized none = finished
sized (some zero) = trailer
sized (some (suc n)) = data_left (suc n)

unfoldable pub size_byte : (is_utf8 : Text → Bool) → Text → ℕ → ChunkScanner
size_byte is_utf8 line b =
    if nat_beq b 10
    then at_state (sized (parse_chunk_size is_utf8 (line ++ b ∷ []))) []
    else if ltb 64 (length (line ++ b ∷ []))
    then at_state finished (line ++ b ∷ [])
    else at_state size (line ++ b ∷ [])

abbrev pub left_over : ℕ → ChunkState
left_over zero = data_crlf 0
left_over (suc n) = data_left (suc n)

abbrev pub is_blank : Text → Bool
is_blank line = line == 10 ∷ [] || line == 13 ∷ 10 ∷ []

unfoldable pub trailer_byte : Text → ℕ → Option Body → Turn
trailer_byte line b sink =
    if nat_beq b 10
    then if is_blank (line ++ b ∷ [])
      then ends (at_state finished []) sink 1
      else moves (at_state trailer []) sink 1
    else if ltb max_head (length (line ++ b ∷ []))
    then ends (at_state finished (line ++ b ∷ [])) sink 1
    else moves (at_state trailer (line ++ b ∷ [])) sink 1

-- The turn at the first of some bytes.
unfoldable pub turn : (is_utf8 : Text → Bool) → ChunkState → Text → Option Body → ℕ → Text → Turn
turn is_utf8 size line sink b bs = moves (size_byte is_utf8 line b) sink 1
turn is_utf8 (data_left n) line sink b bs =
    let used = min n (suc (length bs)) in
    moves (at_state (left_over (n - used)) line) (push_to sink (take used (b ∷ bs))) used
turn is_utf8 (data_crlf seen) line sink b bs =
    moves (at_state (if leb 2 (seen + 1) then size else data_crlf (seen + 1)) line) sink 1
turn is_utf8 trailer line sink b bs = trailer_byte line b sink
turn is_utf8 finished line sink b bs = ends (at_state finished line) sink 0

pub record Fed : Type 0 where
  pub scanner : ChunkScanner
  pub sink : Option Body
  pub consumed : ℕ
  pub ended : Bool

abbrev pub is_finished : ChunkState → Bool
is_finished finished = true
is_finished _ = false

abbrev pub fed : ChunkScanner → Option Body → ℕ → Bool → Fed
fed s sink i ended = record { scanner = s; sink = sink; consumed = i; ended = ended }

-- `ChunkScanner::feed` from the `i`-th byte on; none when the fuel is used up.
unfoldable pub feed_chunked :
    (is_utf8 : Text → Bool) (fuel : ℕ) → ChunkScanner → Option Body → ℕ → Text → Option Fed
feed_chunked is_utf8 zero s sink i buf = none
feed_chunked is_utf8 (suc fuel) s sink i [] = some (fed s sink i (is_finished s.state))
feed_chunked is_utf8 (suc fuel) s sink i (b ∷ bs) = elim (turn is_utf8 s.state s.line sink b bs) [
  | moves s' sink' used ↦ feed_chunked is_utf8 fuel s' sink' (i + used) (drop used (b ∷ bs))
  | ends s' sink' used ↦ some (fed s' sink' (i + used) true)
]

pub data Framing : Type 0 where
  length_left : ℕ → Framing
  chunked : ChunkScanner → Framing
  until_eof : Framing

-- What is left of a framing, where the body went, the bytes used, and whether the body ended.
pub record FedFraming : Type 0 where
  pub framing : Framing
  pub sink : Option Body
  pub consumed : ℕ
  pub ended : Bool

abbrev of_chunks : Fed → FedFraming
of_chunks f = record {
  framing = chunked f.scanner;
  sink = f.sink;
  consumed = f.consumed;
  ended = f.ended;
}

abbrev pub map_fed : Option Fed → Option FedFraming
map_fed none = none
map_fed (some f) = some (of_chunks f)

unfoldable pub feed : (is_utf8 : Text → Bool) → Framing → Text → Option Body → Option FedFraming
feed is_utf8 (length_left remaining) buf sink =
    let used = min remaining (length buf) in
    some (record {
      framing = length_left (remaining - used);
      sink = push_to sink (take used buf);
      consumed = used;
      ended = nat_beq (remaining - used) 0;
    })
feed is_utf8 until_eof buf sink =
    some (record {
      framing = until_eof;
      sink = push_to sink buf;
      consumed = length buf;
      ended = false;
    })
feed is_utf8 (chunked scanner) buf sink =
    map_fed (feed_chunked is_utf8 (length buf + 2) scanner sink 0 buf)
