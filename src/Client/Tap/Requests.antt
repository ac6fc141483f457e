-- ===== src/Client/Tap/Requests.antt =====
-- crates/rustunnel-client/src/inspect/tap.rs, `feed_request`: the bytes towards the local service.
use rustunnel.Prelude.{
  ℕ, zero, suc, Option, none, some, List, [], ◌∷◌, ◌++◌, if◌then◌else◌, leb, codes, length, take,
  drop,
}
use rustunnel.Prelude.Map.{is_empty}
use rustunnel.Core.Types.{Text}
use rustunnel.Client.Tap.{Body, empty_body, FedFraming, feed}
use rustunnel.Client.Tap.Head.{
  Headers, Libraries, head_end, header_value, parse_request_head, request_framing,
}
use rustunnel.Client.Tap.State.{
  max_pending, Mode, passed, PendingRequest, TapState, Clocks, Loop, set_request, parser,
  no_head_yet, mode_for, on_fed, is_passthrough, enough_fuel, head, body, passthrough, again,
  return,
}

-- The oldest request gives way where the queue is full.
abbrev pub make_room : List PendingRequest → List PendingRequest
make_room pending = if leb max_pending (length pending) then drop 1 pending else pending

abbrev pub new_request : Clocks → Text → Text → Headers → PendingRequest
new_request k method path headers = record {
  method = method;
  path = path;
  host = header_value headers (codes "host");
  headers = headers;
  body = empty_body;
  started_at = k.utc_now;
  start = k.now;
}

abbrev pub request_parsed : Clocks → Text → TapState → Option (Text × Text × Headers) → Loop
request_parsed k rest t none = return (set_request passed t)
request_parsed k rest t (some (method, path, headers)) = again (record t {
  pending = make_room t.pending ++ new_request k method path headers ∷ [];
  request = parser (mode_for (request_framing headers)) rest;
})

abbrev pub request_head : Libraries → Clocks → Text → TapState → Option ℕ → Loop
request_head lib k buffer t none = return (set_request (no_head_yet buffer) t)
request_head lib k buffer t (some end) =
    request_parsed k (drop end buffer) t (parse_request_head lib (take end buffer))

-- The body of the last request.
abbrev pub last_body : List PendingRequest → Option Body
last_body [] = none
last_body (r ∷ []) = some r.body
last_body (r ∷ s ∷ rs) = last_body (s ∷ rs)

abbrev pub set_last_body : Option Body → List PendingRequest → List PendingRequest
set_last_body none rs = rs
set_last_body (some b) [] = []
set_last_body (some b) (r ∷ []) = record r { body = b } ∷ []
set_last_body (some b) (r ∷ s ∷ rs) = r ∷ set_last_body (some b) (s ∷ rs)

abbrev pub request_fed : Text → TapState → FedFraming → Loop
request_fed buffer t f =
    let rest = drop f.consumed buffer in
    let written = record t { pending = set_last_body f.sink t.pending } in
    if f.ended
    then again (set_request (parser head rest) written)
    else return (set_request (parser (body f.framing) rest) written)

-- One turn of the loop of `feed_request`.
unfoldable pub request_turn : Libraries → Clocks → Mode → Text → TapState → Option Loop
request_turn lib k passthrough buffer t = some (return (set_request passed t))
request_turn lib k head buffer t = some (request_head lib k buffer t (head_end buffer))
request_turn lib k (body framing) buffer t =
    if is_empty buffer
    then some (return (set_request (parser (body framing) buffer) t))
    else on_fed (request_fed buffer t) (feed lib.is_utf8 framing buffer (last_body t.pending))

-- None when the fuel is used up.
unfoldable pub request_loop : Libraries → Clocks → (fuel : ℕ) → TapState → Option TapState
request_loop lib k zero t = none
request_loop lib k (suc fuel) t = elim (request_turn lib k t.request.mode t.request.buffer t) [
  | none ↦ none
  | some (again t') ↦ request_loop lib k fuel t'
  | some (return t') ↦ some t'
]

unfoldable pub feed_request : Libraries → Clocks → Text → TapState → Option TapState
feed_request lib k bytes t =
    let buffer = t.request.buffer ++ bytes in
    if is_passthrough t.request.mode
    then some t
    else request_loop lib k (enough_fuel buffer) (set_request (parser t.request.mode buffer) t)
