-- ===== src/Client/Tap/Answers.antt =====
-- crates/rustunnel-client/src/inspect/tap.rs, `feed_response`: the bytes from the local service.
use rustunnel.Prelude.{
  ℕ, zero, suc, not, ◌&&◌, Option, none, some, List, [], ◌∷◌, ◌++◌, if◌then◌else◌, leb, ltb,
  nat_beq, take, drop,
}
use rustunnel.Prelude.Map.{is_empty}
use rustunnel.Core.Types.{Text}
use rustunnel.Client.Tap.{Body, empty_body, Framing, FedFraming, feed}
use rustunnel.Client.Tap.Head.{Headers, Libraries, head_end, parse_response_head, response_framing}
use rustunnel.Client.Tap.State.{
  Mode, passed, PendingRequest, PendingResponse, TapState, Clocks, complete_exchange, Loop,
  set_request, set_response, parser, no_head_yet, on_fed, is_passthrough, enough_fuel, head, body,
  passthrough, again, return,
}

abbrev pub first_method : List PendingRequest → Option Text
first_method [] = none
first_method (r ∷ rs) = some r.method

abbrev pub new_response : ℕ → Headers → PendingResponse
new_response status headers = record { status = status; headers = headers; body = empty_body }

abbrev pub responding : ℕ → Headers → TapState → TapState
responding status headers t = record t { current_response = some (new_response status headers) }

abbrev pub by_framing : Clocks → Text → TapState → Option Framing → Loop
by_framing k rest t none = again (set_response (parser head rest) (complete_exchange k t))
by_framing k rest t (some framing) = again (set_response (parser (body framing) rest) t)

-- An interim response is passed over, an upgrade ends the looking at the connection.
abbrev pub response_parsed : Clocks → Text → TapState → Option (ℕ × Headers) → Loop
response_parsed k rest t none = return (set_response passed t)
response_parsed k rest t (some (status, headers)) =
    if leb 100 status && ltb status 200 && not (nat_beq status 101)
    then again (set_response (parser head rest) t)
    else if nat_beq status 101
    then return (
        set_response passed
          (set_request passed (complete_exchange k (responding status headers t))))
    else by_framing k rest (responding status headers t)
        (response_framing status (first_method t.pending) headers)

abbrev pub response_head : Libraries → Clocks → Text → TapState → Option ℕ → Loop
response_head lib k buffer t none = return (set_response (no_head_yet buffer) t)
response_head lib k buffer t (some end) =
    response_parsed k (drop end buffer) t (parse_response_head lib (take end buffer))

abbrev pub response_body : Option PendingResponse → Option Body
response_body none = none
response_body (some r) = some r.body

abbrev pub set_body : Option Body → Option PendingResponse → Option PendingResponse
set_body none r = r
set_body (some b) none = none
set_body (some b) (some r) = some (record r { body = b })

abbrev pub response_fed : Clocks → Text → TapState → FedFraming → Loop
response_fed k buffer t f =
    let rest = drop f.consumed buffer in
    let written = record t { current_response = set_body f.sink t.current_response } in
    if f.ended
    then again (set_response (parser head rest) (complete_exchange k written))
    else return (set_response (parser (body f.framing) rest) written)

unfoldable pub response_turn : Libraries → Clocks → Mode → Text → TapState → Option Loop
response_turn lib k passthrough buffer t = some (return (set_response passed t))
response_turn lib k head buffer t = some (response_head lib k buffer t (head_end buffer))
response_turn lib k (body framing) buffer t =
    if is_empty buffer
    then some (return (set_response (parser (body framing) buffer) t))
    else on_fed (response_fed k buffer t)
        (feed lib.is_utf8 framing buffer (response_body t.current_response))

unfoldable pub response_loop : Libraries → Clocks → (fuel : ℕ) → TapState → Option TapState
response_loop lib k zero t = none
response_loop lib k (suc fuel) t = elim (response_turn lib k t.response.mode t.response.buffer t) [
  | none ↦ none
  | some (again t') ↦ response_loop lib k fuel t'
  | some (return t') ↦ some t'
]

unfoldable pub feed_response : Libraries → Clocks → Text → TapState → Option TapState
feed_response lib k bytes t =
    let buffer = t.response.buffer ++ bytes in
    if is_passthrough t.response.mode
    then some t
    else response_loop lib k (enough_fuel buffer) (set_response (parser t.response.mode buffer) t)
