-- ===== src/Client/Tap/State.antt =====
-- crates/rustunnel-client/src/inspect/tap.rs: the state of a tapped connection, and how an exchange is
-- completed. What is recorded is a list, newest last. The clocks stand still while one buffer is
-- looked at.
use rustunnel.Prelude.{
  ℕ, ◌+◌, ◌*◌, ◌/◌, ◌-◌, Bool, true, false, Option, none, some, List, [], ◌∷◌, ◌++◌, if◌then◌else◌,
  ltb, codes, length,
}
use rustunnel.Core.Types.{Text, Uuid, Instant}
use rustunnel.Client.Tap.{Body, empty_body, Framing, FedFraming, max_head}
use rustunnel.Client.Tap.Head.{Headers}

abbrev pub max_pending : ℕ
max_pending = 64

pub data Mode : Type 0 where
  head : Mode
  body : Framing → Mode
  passthrough : Mode

pub record DirParser : Type 0 where
  pub mode : Mode
  pub buffer : Text

abbrev pub new_parser : DirParser
new_parser = record { mode = head; buffer = [] }

abbrev pub passed : DirParser
passed = record { mode = passthrough; buffer = [] }

pub record PendingRequest : Type 0 where
  pub method : Text
  pub path : Text
  pub host : Option Text
  pub headers : Headers
  pub body : Body
  pub started_at : Instant
  pub start : Instant

pub record PendingResponse : Type 0 where
  pub status : ℕ
  pub headers : Headers
  pub body : Body

pub record Exchange : Type 0 where
  pub id : ℕ
  pub conn_id : Uuid
  pub tunnel : Text
  pub client_addr : Text
  pub method : Text
  pub path : Text
  pub host : Option Text
  pub status : ℕ
  pub request_headers : Headers
  pub response_headers : Headers
  pub request_body : Body
  pub response_body : Body
  pub duration_ms : ℕ
  pub started_at : Instant
  pub replayed : Bool

pub record TapState : Type 0 where
  pub tunnel : Text
  pub conn_id : Uuid
  pub client_addr : Text
  pub request : DirParser
  pub response : DirParser
  pub pending : List PendingRequest
  pub current_response : Option PendingResponse
  pub recorded : List Exchange

-- The wall clock, and the clock that durations are measured with.
pub record Clocks : Type 0 where
  pub utc_now : Instant
  pub now : Instant

unfoldable pub new : Text → Uuid → Text → TapState
new tunnel conn_id client_addr = record {
  tunnel = tunnel;
  conn_id = conn_id;
  client_addr = client_addr;
  request = new_parser;
  response = new_parser;
  pending = [];
  current_response = none;
  recorded = [];
}

abbrev pub exchange : TapState → PendingResponse → PendingRequest → ℕ → Exchange
exchange t response req duration_ms = record {
  id = 0;
  conn_id = t.conn_id;
  tunnel = t.tunnel;
  client_addr = t.client_addr;
  method = req.method;
  path = req.path;
  host = req.host;
  status = response.status;
  request_headers = req.headers;
  response_headers = response.headers;
  request_body = req.body;
  response_body = response.body;
  duration_ms = duration_ms;
  started_at = req.started_at;
  replayed = false;
}

-- What stands for the request of a response that has none.
abbrev pub unknown_request : Clocks → PendingRequest
unknown_request k = record {
  method = codes "?";
  path = codes "?";
  host = none;
  headers = [];
  body = empty_body;
  started_at = k.utc_now;
  start = k.now;
}

abbrev pub paired : Clocks → TapState → PendingResponse → List PendingRequest → TapState
paired k t response [] = record t {
  current_response = none;
  recorded = t.recorded ++ exchange t response (unknown_request k) 0 ∷ [];
}
paired k t response (req ∷ rest) = record t {
  current_response = none;
  pending = rest;
  recorded = t.recorded ++ exchange t response req ((k.now - req.start) / 1_000_000) ∷ [];
}

abbrev pub paired_with : Clocks → TapState → Option PendingResponse → TapState
paired_with k t none = t
paired_with k t (some response) = paired k t response t.pending

unfoldable pub complete_exchange : Clocks → TapState → TapState
complete_exchange k t = paired_with k t t.current_response

-- Whether the loop goes on, or returns.
pub data Loop : Type 0 where
  again : TapState → Loop
  return : TapState → Loop

abbrev pub set_request : DirParser → TapState → TapState
set_request p t = record t { request = p }

abbrev pub set_response : DirParser → TapState → TapState
set_response p t = record t { response = p }

abbrev pub parser : Mode → Text → DirParser
parser mode buffer = record { mode = mode; buffer = buffer }

-- No end of the head yet: too many bytes without one are not HTTP.
abbrev pub no_head_yet : Text → DirParser
no_head_yet buffer = if ltb max_head (length buffer) then passed else parser head buffer

abbrev pub mode_for : Option Framing → Mode
mode_for none = head
mode_for (some framing) = body framing

abbrev pub on_fed : (FedFraming → Loop) → Option FedFraming → Option Loop
on_fed f none = none
on_fed f (some x) = some (f x)

abbrev pub is_passthrough : Mode → Bool
is_passthrough passthrough = true
is_passthrough _ = false

-- Each turn uses up bytes or leaves a body.
abbrev pub enough_fuel : Text → ℕ
enough_fuel buffer = 2 * length buffer + 2

abbrev pub finish_at : Clocks → TapState → Mode → TapState
finish_at k t (body Framing.until_eof) = complete_exchange k t
finish_at k t (body (Framing.length_left n)) = t
finish_at k t (body (Framing.chunked s)) = t
finish_at k t head = t
finish_at k t passthrough = t

-- The connection closed.
unfoldable pub finish : Clocks → TapState → TapState
finish k t = finish_at k t t.response.mode
