-- ===== src/Edge/Http/Proxy.antt =====
-- crates/rustunnel-server/src/edge/http.rs: a request to the edge, from its headers to the answer.
-- The connection of hyper to the tunnel's client, and what comes back on it, are read from outside.
use rustunnel.Prelude.{
  ℕ, ◌+◌, ◌%◌, Bool, false, Option, none, some, List, [], ◌∷◌, if◌then◌else◌, ltb, codes,
}
use rustunnel.Prelude.Text.{lowercase}
use rustunnel.Prelude.Eq.{◌==◌, list_eq, nat_eq}
use rustunnel.Core.Types.{Text, Uuid, Instant, SocketAddr, TunnelInfo}
use rustunnel.Core.Members.{u64_mod}
use rustunnel.Core.Router.{TunnelCore, TunnelKey}
use rustunnel.Limits.TokenBucket.{RateLimiter}
use rustunnel.Limits.IpRate.{IpRateLimiter}
use rustunnel.Client.Tap.Head.{parse_u64}
use rustunnel.Control.Session.{Effect}
use rustunnel.Edge.Streams.{Outside, meter_add}
use rustunnel.Edge.Http.{
  PlainHttpMode, ForwardScheme, Libraries, HeaderMap, Request, Response, str_header, text_or,
  err_response,
}
use rustunnel.Edge.Http.Headers.{forward_headers, remove_hop_by_hop}

-- The configuration that a request is served under, and whether requests are captured.
pub record ProxyCtx : Type 0 where
  pub domain : Text
  pub rate_limit_rps : ℕ
  pub request_body_max_bytes : ℕ
  pub plain_http_mode : PlainHttpMode
  pub https_port : ℕ
  pub capturing : Bool

pub record CaptureEvent : Type 0 where
  pub conn_id : Uuid
  pub tunnel_id : Uuid
  pub tunnel_label : Text
  pub method : Text
  pub path : Text
  pub status : ℕ
  pub request_bytes : ℕ
  pub response_bytes : ℕ
  pub duration_ms : ℕ
  pub captured_at : Instant

-- One poll of the metered stream, with the bytes that it moved.
pub data Poll : Type 0 where
  written been_read : (n : ℕ) → Poll

-- What becomes of a forwarded request: the frames of a response are the lengths of their data.
pub data Reply : Type 0 where
  handshake_failed send_failed overdue : Reply
  replied : Response → (frames : List ℕ) → Reply

pub record HttpOutside : Type 0 where
  pub stream : Outside
  pub polls : List Poll
  pub reply : Reply
  pub duration_ms : ℕ
  pub captured_at : Instant

pub record EdgeState : Type 0 where
  pub core : TunnelCore
  pub ip_limiter : IpRateLimiter
  pub rate_limiter : RateLimiter

-- The state and the messages to sessions after a request, the headers that its tunnel got, the
-- answer, and what is captured once the answer's body has ended.
pub record Passed : Type 0 where
  pub core : TunnelCore
  pub effects : List Effect
  pub forwarded : Option HeaderMap
  pub response : Response
  pub captures : List CaptureEvent

pub record Served : Type 0 where
  pub state : EdgeState
  pub effects : List Effect
  pub forwarded : Option HeaderMap
  pub response : Response
  pub captures : List CaptureEvent

unfoldable pub refused : EdgeState → Response → Served
refused s response = record {
  state = s;
  effects = [];
  forwarded = none;
  response = response;
  captures = [];
}

-- `DirectionMeter`: what is written is inbound, what is read is outbound.
unfoldable pub meter_polls : TunnelKey → Uuid → List Poll → TunnelCore → TunnelCore
meter_polls k t [] c = c
meter_polls k t (written n ∷ ps) c = meter_polls k t ps (if ltb 0 n then meter_add k t n 0 c else c)
meter_polls k t (been_read n ∷ ps) c =
    meter_polls k t ps (if ltb 0 n then meter_add k t 0 n c else c)

abbrev is_websocket : Option Text → Bool
is_websocket none = false
is_websocket (some v) = lowercase v == codes "websocket"

unfoldable pub is_websocket_upgrade : Libraries → Request → Bool
is_websocket_upgrade lib req = is_websocket (str_header lib.is_str (codes "upgrade") req.headers)

abbrev parsed : Option Text → Option ℕ
parsed none = none
parsed (some v) = parse_u64 v

-- The length that the request states, if it is one.
unfoldable pub stated_length : Libraries → Request → Option ℕ
stated_length lib req = parsed (str_header lib.is_str (codes "content-length") req.headers)

abbrev pub exceeds : ℕ → Option ℕ → Bool
exceeds max none = false
exceeds max (some n) = ltb max n

abbrev pub or_zero : Option ℕ → ℕ
or_zero none = 0
or_zero (some n) = n

-- The counter of the body's bytes after all frames.
unfoldable pub count_frames : List ℕ → ℕ → ℕ
count_frames [] n = n
count_frames (f ∷ fs) n = count_frames fs ((n + f) % u64_mod)

unfoldable pub emit_capture : ProxyCtx → CaptureEvent → List CaptureEvent
emit_capture ctx event = if ctx.capturing then event ∷ [] else []

-- The answer of the upgrade; the bytes are copied, and counted, after it.
unfoldable pub handle_ws_upgrade : ProxyCtx → HttpOutside → TunnelCore → Passed
handle_ws_upgrade ctx o c = record {
  core = c;
  effects = [];
  forwarded = none;
  response = record {
    status = 101;
    headers = (codes "upgrade", codes "websocket") ∷ (codes "connection", codes "Upgrade") ∷ [];
    body = [];
  };
  captures = emit_capture ctx (record {
    conn_id = o.stream.conn_id;
    tunnel_id = 0;
    tunnel_label = [];
    method = codes "WS-UPGRADE";
    path = [];
    status = 101;
    request_bytes = 0;
    response_bytes = 0;
    duration_ms = o.duration_ms;
    captured_at = o.captured_at;
  });
}

-- `meter.add` when both directions of an upgraded connection have ended without an error.
unfoldable pub ws_done : TunnelKey → Uuid → Option (ℕ × ℕ) → TunnelCore → TunnelCore
ws_done k t none c = c
ws_done k t (some (up, dn)) c = meter_add k t up dn c

-- The event that the guard of a response's body sends when the body is dropped.
unfoldable pub capture_guard :
    Libraries → Text → TunnelInfo → Request → HttpOutside → ℕ → List ℕ → CaptureEvent
capture_guard lib sub info req o status frames = record {
  conn_id = o.stream.conn_id;
  tunnel_id = info.tunnel_id;
  tunnel_label = sub;
  method = req.method;
  path = text_or (codes "/") req.path_and_query;
  status = status;
  request_bytes = or_zero (stated_length lib req);
  response_bytes = count_frames frames 0;
  duration_ms = o.duration_ms;
  captured_at = o.captured_at;
}

abbrev pub ended : TunnelCore → Option HeaderMap → Response → Passed
ended c forwarded response = record {
  core = c;
  effects = [];
  forwarded = forwarded;
  response = response;
  captures = [];
}

-- What `forward_http` gives, and `proxy_request` makes of it.
unfoldable pub concluded :
    Libraries
    → ProxyCtx
    → Text
    → TunnelInfo
    → Request
    → HttpOutside
    → HeaderMap
    → TunnelCore
    → Reply
    → Passed
concluded lib ctx sub info req o headers c handshake_failed =
    ended c none (err_response 502 (codes "Proxy error"))
concluded lib ctx sub info req o headers c send_failed =
    ended c (some headers) (err_response 502 (codes "Proxy error"))
concluded lib ctx sub info req o headers c overdue =
    ended c (some headers) (err_response 504 (codes "Proxy timeout"))
concluded lib ctx sub info req o headers c (replied r frames) = record {
  core = c;
  effects = [];
  forwarded = some headers;
  response = record r { headers = remove_hop_by_hop r.headers };
  captures = emit_capture ctx (capture_guard lib sub info req o r.status frames);
}

unfoldable pub forward_http :
    Libraries
    → ProxyCtx
    → ForwardScheme
    → SocketAddr
    → Text
    → Text
    → TunnelInfo
    → Request
    → HttpOutside
    → TunnelCore
    → Passed
unfolding concluded
forward_http lib ctx scheme peer host sub info req o c =
    concluded lib ctx sub info req o (forward_headers lib peer.ip scheme host req.headers)
      (o.stream.serving (meter_polls (TunnelKey.http sub) info.tunnel_id o.polls c)) o.reply
