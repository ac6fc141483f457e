-- ===== src/Client/Tap/Returns/Turns.antt =====
-- One turn of the two loops of crates/rustunnel-client/src/inspect/tap.rs: it uses something up, or
-- the loop returns with little kept.
use rustunnel.Prelude.{
  ℕ, zero, suc, ◌≡◌, refl, ap, ◌+◌, ◌*◌, ◌≤◌, ◌<◌, Bool, true, false, ◌||◌, Option, none, some,
  List, [], ◌∷◌, arith, if◌then◌else◌, length, length-drop, nat_beq, ltb,
}
use rustunnel.Core.Types.{Text}
use rustunnel.Prelude.Map.{is_empty}
use rustunnel.Client.Tap.{Body, Framing, chunked, until_eof, max_head, new_scanner}
use rustunnel.Client.Tap.Head.{
  Headers, head_end, position, request_framing, response_framing, by_length, is_chunked,
  content_length, is_head,
}
use rustunnel.Client.Tap.Whole.{LiveFraming}
use rustunnel.Client.Tap.State.{
  Mode, head, body, passthrough, DirParser, PendingRequest, PendingResponse, TapState, Clocks, Loop,
  again, return, max_pending, parser, passed, no_head_yet, mode_for, complete_exchange, paired_with,
  paired,
}
use rustunnel.Client.Tap.Requests.{make_room, set_last_body}

-- A scanner in a body that is being read waits for at least one byte of a chunk.
abbrev pub LiveMode : Mode → Type 0
LiveMode head = Unit
LiveMode (body framing) = LiveFraming framing
LiveMode passthrough = Unit

pub record BoundedParser (p : DirParser) : Type 0 where
  pub live : LiveMode p.mode
  pub buffered : length p.buffer ≤ max_head

-- The queue and the two buffers are bounded.
pub record IsBounded (t : TapState) : Type 0 where
  pub queued : length t.pending ≤ max_pending
  pub request : BoundedParser t.request
  pub response : BoundedParser t.response

-- The same inside the loop of one direction, whose own buffer may be longer.
pub record InRequest (t : TapState) : Type 0 where
  pub queued : length t.pending ≤ max_pending
  pub live : LiveMode t.request.mode
  pub response : BoundedParser t.response

pub record InResponse (t : TapState) : Type 0 where
  pub queued : length t.pending ≤ max_pending
  pub live : LiveMode t.response.mode
  pub request : BoundedParser t.request

abbrev pub in_body : Mode → ℕ
in_body head = 0
in_body (body framing) = 1
in_body passthrough = 0

abbrev pub measure : DirParser → ℕ
measure p = 2 * length p.buffer + in_body p.mode

-- A turn of the loop on requests uses up some of `n`, or the loop returns.
abbrev pub RequestTurns : ℕ → Option Loop → Type 0
RequestTurns n none = ⊥
RequestTurns n (some (again t)) = InRequest t × (measure t.request < n)
RequestTurns n (some (return t)) = IsBounded t

abbrev pub ResponseTurns : ℕ → Option Loop → Type 0
ResponseTurns n none = ⊥
ResponseTurns n (some (again t)) = InResponse t × (measure t.response < n)
ResponseTurns n (some (return t)) = IsBounded t

pub passed-Bounded : BoundedParser passed
passed-Bounded = record { live = tt; buffered = omega arith }

pub no_head_yet-Bounded : (buffer : Text) → BoundedParser (no_head_yet buffer)
no_head_yet-Bounded buffer = at (ltb max_head (length buffer)) refl
  where
    at :
        (b : Bool)
        → ltb max_head (length buffer) ≡ b
        → BoundedParser (if b then passed else parser head buffer)
    at true e = passed-Bounded
    at false e = record { live = tt; buffered = ground (arith, e) }

-- The end of a head is past its start.
pub head_end-pos :
    (buffer : Text) (n : ℕ) → head_end buffer ≡ some n → (1 ≤ n) × (1 ≤ length buffer)
unfolding head_end position
head_end-pos [] n e = absurd (ground arith)
head_end-pos (b ∷ bs) n e = (ground (arith, e), omega arith)

if-Live :
    (b : Bool) (x y : Option Framing)
    → LiveMode (mode_for x)
    → LiveMode (mode_for y)
    → LiveMode (mode_for (if b then x else y))
if-Live true x y p q = p
if-Live false x y p q = q

by_length-Live :
    (d : Option Framing) (n : Option ℕ)
    → LiveMode (mode_for d)
    → LiveMode (mode_for (by_length d n))
by_length-Live d none h = h
by_length-Live d (some zero) h = tt
by_length-Live d (some (suc n)) h = tt

pub request_framing-Live : (hs : Headers) → LiveMode (mode_for (request_framing hs))
unfolding request_framing new_scanner
request_framing-Live hs =
    if-Live (is_chunked hs) (some (chunked new_scanner)) _ tt
      (by_length-Live none (content_length hs) tt)

pub response_framing-Live :
    (status : ℕ) (m : Option Text) (hs : Headers)
    → LiveMode (mode_for (response_framing status m hs))
unfolding response_framing new_scanner
response_framing-Live status m hs = if-Live (nat_beq status 204 || nat_beq status 304) none _ tt (
    if-Live (is_head m) none _ tt (
      if-Live (is_chunked hs) (some (chunked new_scanner)) _ tt
        (by_length-Live (some until_eof) (content_length hs) tt)))

pub set_last_body-length :
    (o : Option Body) (rs : List PendingRequest) → length (set_last_body o rs) ≡ length rs
set_last_body-length none rs = refl
set_last_body-length (some b) [] = refl
set_last_body-length (some b) (r ∷ []) = refl
set_last_body-length (some b) (r ∷ s ∷ rs) = ap suc (set_last_body-length (some b) (s ∷ rs))

pub make_room-length :
    (rs : List PendingRequest) → length rs ≤ max_pending → length (make_room rs) < max_pending
make_room-length rs h = ground (arith, length-drop 1 rs)

pub in_body-le : (m : Mode) → in_body m ≤ 1
in_body-le head = omega arith
in_body-le (body framing) = omega arith
in_body-le passthrough = omega arith

pub is_empty-length : (buffer : Text) → is_empty buffer ≡ true → length buffer ≤ max_head
is_empty-length [] e = omega arith
is_empty-length (b ∷ bs) e = absurd (ground arith)

pub nothing-Bounded :
    (fr : Framing) (rest : Text)
    → (rest ≡ []) × LiveFraming fr
    → BoundedParser (parser (body fr) rest)
nothing-Bounded fr rest (e, v) = record { live = v; buffered = rw e (omega arith) }

-- A completed exchange takes at most one request from the queue and leaves the parsers alone.
pub record Shrinks (t t' : TapState) : Type 0 where
  pub shorter : length t'.pending ≤ length t.pending
  pub request : t'.request ≡ t.request
  pub response : t'.response ≡ t.response

paired-Shrinks :
    (k : Clocks) (t : TapState) (r : PendingResponse) (rs : List PendingRequest)
    → t.pending ≡ rs
    → Shrinks t (paired k t r rs)
paired-Shrinks k t r [] e = record { shorter = omega arith; request = refl; response = refl }
paired-Shrinks k t r (q ∷ rs) e =
    let longer : length t.pending ≡ suc (length rs) = ap length e in
    record { shorter = omega (arith, longer); request = refl; response = refl }

pub complete_exchange-Shrinks : (k : Clocks) (t : TapState) → Shrinks t (complete_exchange k t)
unfolding complete_exchange
complete_exchange-Shrinks k t = at t.current_response
  where
    at : (o : Option PendingResponse) → Shrinks t (paired_with k t o)
    at none = record { shorter = omega arith; request = refl; response = refl }
    at (some r) = paired-Shrinks k t r t.pending refl
