-- ===== src/Edge/Http/Requests.antt =====
-- crates/rustunnel-server/src/edge/http.rs: `proxy_request` with its guards, and the two listeners'
-- services.
pub mod Settled
pub mod Reaches
use rustunnel.Prelude.{
  ℕ, Bool, true, false, not, ◌&&◌, Option, none, some, List, [], ◌∷◌, ◌++◌, if◌then◌else◌, nat_beq,
  codes,
}
use rustunnel.Core.Types.{Text, SocketAddr, TunnelInfo, TunnelProtocol}
use rustunnel.Core.Router.{TunnelCore, TunnelKey, register_pending_conn, cancel_pending_conn}
use rustunnel.Core.Router.Dispatch.{resolve_http, has_http_route}
use rustunnel.Limits.TokenBucket.{RateLimiter, check_rate_limit}
use rustunnel.Limits.IpRate.{check}
use rustunnel.Control.Session.{Effect, tell, new_connection}
use rustunnel.Edge.Hosts.{extract_subdomain}
use rustunnel.Edge.Streams.{
  StreamOutcome, opened, dropped, timed_out, available, take_permit, give_permit,
}
use rustunnel.Edge.Http.{
  PlainHttpMode, redirect, proxy, ForwardScheme, Libraries, Request, Response, str_header,
  err_response, gateway_error,
}
use rustunnel.Edge.Http.Redirect.{redirect_to_https}
use rustunnel.Edge.Http.Proxy.{
  ProxyCtx, HttpOutside, EdgeState, Passed, Served, ended, refused, is_websocket_upgrade,
  stated_length, exceeds, handle_ws_upgrade, forward_http,
}

-- A request with what serves it.
pub record Incoming : Type 0 where
  pub lib : Libraries
  pub ctx : ProxyCtx
  pub scheme : ForwardScheme
  pub peer : SocketAddr
  pub req : Request

-- The request once its stream is there.
unfoldable pub serve_stream :
    Incoming → Text → Text → TunnelInfo → HttpOutside → TunnelCore → Passed
serve_stream i host sub info o c =
    if is_websocket_upgrade i.lib i.req
    then handle_ws_upgrade i.ctx o c
    else forward_http i.lib i.ctx i.scheme i.peer host sub info i.req o c

-- The wait for the data stream, at the state that the other tasks leave.
unfoldable pub await_stream :
    Incoming → Text → Text → TunnelInfo → HttpOutside → StreamOutcome → TunnelCore → Passed
await_stream i host sub info o (opened stream) c = serve_stream i host sub info o c
await_stream i host sub info o dropped c =
    ended c none (err_response 502 (codes "Tunnel did not open a data stream"))
await_stream i host sub info o timed_out c =
    ended (cancel_pending_conn o.stream.conn_id c) none
      (err_response 504 (codes "Tunnel stream timeout"))

abbrev pub with_effect : Effect → Passed → Passed
with_effect e p = record p { effects = e ∷ p.effects }

-- The session is asked for a stream; `tx` is its control channel.
unfoldable pub open_stream :
    Incoming → Text → Text → TunnelInfo → ℕ → HttpOutside → TunnelCore → Passed
open_stream i host sub info tx o c =
    let pending = register_pending_conn o.stream.conn_id o.stream.stream_tx c in
    if o.stream.session_open
    then with_effect (tell tx (new_connection o.stream.conn_id i.peer TunnelProtocol.http))
        (await_stream i host sub info o o.stream.outcome (o.stream.waiting pending))
    else ended (cancel_pending_conn o.stream.conn_id pending) none
        (err_response 502 (codes "Tunnel session unavailable"))

abbrev pub give_back : TunnelKey → TunnelInfo → EdgeState → Passed → Served
give_back k info s p = record {
  state = record s { core = give_permit k info.tunnel_id p.core };
  effects = p.effects;
  forwarded = p.forwarded;
  response = p.response;
  captures = p.captures;
}

-- A request that is let through holds one permit until it is answered.
unfoldable pub with_permit :
    Incoming → Text → Text → TunnelInfo → ℕ → HttpOutside → EdgeState → Served
with_permit i host sub info tx o s =
    if nat_beq (available (TunnelKey.http sub) info s.core) 0
    then refused s (err_response 503 (codes "Too many concurrent connections"))
    else give_back (TunnelKey.http sub) info s
        (open_stream i host sub info tx o (take_permit (TunnelKey.http sub) info.tunnel_id s.core))

unfoldable pub with_tunnel :
    Incoming → Text → Text → TunnelInfo → ℕ → HttpOutside → EdgeState → Served
with_tunnel i host sub info tx o s =
    let (l, allowed) =
      check_rate_limit info.tunnel_id i.ctx.rate_limit_rps o.stream.now s.rate_limiter in
    let s' = record s { rate_limiter = l } in
    if not allowed
    then refused s' (err_response 429 (codes "Tunnel rate limit exceeded"))
    else if exceeds i.ctx.request_body_max_bytes (stated_length i.lib i.req)
    then refused s' (err_response 413 (codes "Request body too large"))
    else with_permit i host sub info tx o s'

unfoldable pub with_subdomain : Incoming → Text → Text → HttpOutside → EdgeState → Served
with_subdomain i host sub o s =
    let (c, found) = resolve_http o.stream.pick sub s.core in
    elim found [
      | none ↦ refused (record s { core = c }) (gateway_error sub)
      | some (info, tx) ↦ with_tunnel i host sub info tx o (record s { core = c })
    ]

unfoldable pub with_host : Incoming → Text → HttpOutside → EdgeState → Served
with_host i host o s = elim (extract_subdomain host i.ctx.domain) [
  | none ↦ refused s (err_response 400 (codes "Cannot parse subdomain"))
  | some sub ↦ with_subdomain i host sub o s
]

unfoldable pub proxy_request : Incoming → HttpOutside → EdgeState → Served
unfolding with_host
proxy_request i o s = elim (str_header i.lib.is_str (codes "host") i.req.headers) [
  | none ↦ refused s (err_response 400 (codes "Missing Host header"))
  | some host ↦ with_host i host o s
]

unfoldable pub limited : (EdgeState → Served) → Incoming → HttpOutside → EdgeState → Served
limited serve i o s =
    let (l, allowed) = check i.peer.ip o.stream.now s.ip_limiter in
    let s' = record s { ip_limiter = l } in
    if allowed then serve s' else refused s' (err_response 429 (codes "Rate limit exceeded"))

-- A request on the TLS listener.
unfoldable pub https_request : Incoming → HttpOutside → EdgeState → Served
unfolding limited
https_request i o s = limited (proxy_request (record i { scheme = ForwardScheme.https }) o) i o s

abbrev routed : Option Text → TunnelCore → Bool
routed none c = false
routed (some sub) c = has_http_route sub c

abbrev subdomain_of : Option Text → Text → Option Text
subdomain_of none domain = none
subdomain_of (some host) domain = extract_subdomain host domain

unfoldable pub resolvable : Incoming → TunnelCore → Bool
resolvable i c =
    routed (subdomain_of (str_header i.lib.is_str (codes "host") i.req.headers) i.ctx.domain) c

abbrev pub proxies : PlainHttpMode → Bool
proxies proxy = true
proxies redirect = false

-- A request on the plain listener.
unfoldable pub plain_http_request : Incoming → HttpOutside → EdgeState → Served
unfolding limited
plain_http_request i o s =
    limited
      (λ s'.
        if proxies i.ctx.plain_http_mode && resolvable i s'.core
        then proxy_request (record i { scheme = ForwardScheme.http }) o s'
        else refused s' (redirect_to_https i.lib.is_str i.req i.ctx.domain i.ctx.https_port))
      i o s
