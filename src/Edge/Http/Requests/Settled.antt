-- ===== src/Edge/Http/Requests/Settled.antt =====
-- What a request to the HTTP edge (edge/http.rs) leaves behind in the server, however it ends.
use rustunnel.Prelude.{
  ℕ, ◌≡◌, refl, inl, inr, Bool, true, false, List, [], ◌∷◌, arith, nat_beq, nat_beq_iff, codes,
  if◌then◌else◌, ltb, Bool-cases,
}
use rustunnel.Core.Types.{Text, Uuid, TunnelInfo, TunnelProtocol}
use rustunnel.Control.Session.{tell, new_connection}
use rustunnel.Core.Router.{TunnelCore, TunnelKey, register_pending_conn}
use rustunnel.Core.Router.Dispatch.{resolve}
use rustunnel.Core.Valid.Gentle.{stays-IsQuiet}
use rustunnel.Limits.TokenBucket.{check_rate_limit}
use rustunnel.Edge.Streams.Permits.{stays-KeepsPermits}
use rustunnel.Edge.Hosts.{extract_subdomain}
use rustunnel.Edge.Streams.{
  StreamOutcome, opened, dropped, timed_out, available, take_permit, meter_add,
}
use rustunnel.Edge.Streams.Clean.{
  IsClean, IsFair, stays-IsClean, chain-IsClean, meter_add-IsClean, resolve-IsClean,
  cancelled-IsClean, settled-IsClean, permit-IsClean,
}
use rustunnel.Edge.Http.{str_header, HeaderMap}
use rustunnel.Edge.Http.Proxy.{
  HttpOutside, EdgeState, Passed, Served, Poll, written, been_read, Reply, handshake_failed,
  send_failed, overdue, replied, refused, meter_polls, concluded, forward_http, handle_ws_upgrade,
  is_websocket_upgrade, exceeds, stated_length,
}
use rustunnel.Prelude.Branches.{on_pair, on_some}
use rustunnel.Edge.Http.Requests.{
  Incoming, with_effect, serve_stream, await_stream, open_stream, with_permit, with_tunnel,
  with_subdomain, proxy_request,
}

meter_if-IsClean :
    (id : Uuid) (k : TunnelKey) (t : Uuid) (i o : ℕ) (c : TunnelCore) (b : Bool)
    → IsClean id c (if b then meter_add k t i o c else c)
meter_if-IsClean id k t i o c true = meter_add-IsClean id k t i o c
meter_if-IsClean id k t i o c false = stays-IsClean id c

meter_polls-IsClean :
    (id : Uuid) (k : TunnelKey) (t : Uuid) (ps : List Poll) (c : TunnelCore)
    → IsClean id c (meter_polls k t ps c)
unfolding meter_polls
meter_polls-IsClean id k t [] c = stays-IsClean id c
meter_polls-IsClean id k t (written n ∷ ps) c =
    chain-IsClean id (meter_if-IsClean id k t n 0 c (ltb 0 n)) (meter_polls-IsClean id k t ps _)
meter_polls-IsClean id k t (been_read n ∷ ps) c =
    chain-IsClean id (meter_if-IsClean id k t 0 n c (ltb 0 n)) (meter_polls-IsClean id k t ps _)

either-IsClean :
    (id : Uuid) (c : TunnelCore) (b : Bool) (x y : Passed)
    → IsClean id c x.core
    → IsClean id c y.core
    → IsClean id c (if b then x else y).core
either-IsClean id c true x y p q = p
either-IsClean id c false x y p q = q

module _ (i : Incoming) (host sub : Text) (info : TunnelInfo) (o : HttpOutside) where
  concluded-core :
      (headers : HeaderMap) (c : TunnelCore) (r : Reply)
      → (concluded i.lib i.ctx sub info i.req o headers c r).core ≡ c
  unfolding concluded
  concluded-core headers c handshake_failed = refl
  concluded-core headers c send_failed = refl
  concluded-core headers c overdue = refl
  concluded-core headers c (replied r frames) = refl

  forward_http-IsClean :
      (c : TunnelCore)
      → IsFair o.stream
      → IsClean o.stream.conn_id c
          (forward_http i.lib i.ctx i.scheme i.peer host sub info i.req o c).core
  unfolding forward_http
  forward_http-IsClean c fair =
      rw
        (concluded-core _
          (o.stream.serving (meter_polls (TunnelKey.http sub) info.tunnel_id o.polls c)) o.reply)
        (chain-IsClean o.stream.conn_id
          (meter_polls-IsClean o.stream.conn_id (TunnelKey.http sub) info.tunnel_id o.polls c)
          (fair.serves _))

  serve_stream-IsClean :
      (c : TunnelCore)
      → IsFair o.stream
      → IsClean o.stream.conn_id c (serve_stream i host sub info o c).core
  unfolding serve_stream handle_ws_upgrade
  serve_stream-IsClean c fair = elim (Bool-cases (is_websocket_upgrade i.lib i.req)) [
    | inl e ↦ rw e (stays-IsClean o.stream.conn_id c)
    | inr e ↦ rw e (forward_http-IsClean c fair)
  ]

  await_stream-IsClean :
      (e : StreamOutcome) (c : TunnelCore)
      → IsFair o.stream
      → o.stream.outcome ≡ e
      → IsClean o.stream.conn_id c
          (await_stream i host sub info o e
            (o.stream.waiting (register_pending_conn o.stream.conn_id o.stream.stream_tx c))).core
  unfolding await_stream
  await_stream-IsClean (opened s) c fair e =
      chain-IsClean o.stream.conn_id (settled-IsClean o.stream c fair (λ t. ground arith))
        (serve_stream-IsClean _ fair)
  await_stream-IsClean dropped c fair e = settled-IsClean o.stream c fair (λ t. ground arith)
  await_stream-IsClean timed_out c fair e =
      cancelled-IsClean o.stream.conn_id o.stream.stream_tx c _ (fair.quiet _) (fair.permits _)

  open_stream-IsClean :
      (tx : ℕ) (c : TunnelCore)
      → IsFair o.stream
      → IsClean o.stream.conn_id c (open_stream i host sub info tx o c).core
  unfolding open_stream
  open_stream-IsClean tx c fair =
      let pending = register_pending_conn o.stream.conn_id o.stream.stream_tx c in
      either-IsClean o.stream.conn_id c o.stream.session_open
        (with_effect (tell tx (new_connection o.stream.conn_id i.peer TunnelProtocol.http))
          (await_stream i host sub info o o.stream.outcome (o.stream.waiting pending)))
        _ (await_stream-IsClean o.stream.outcome c fair refl)
        (cancelled-IsClean o.stream.conn_id o.stream.stream_tx c pending (stays-IsQuiet pending)
          (stays-KeepsPermits pending))

  with_permit-IsClean :
      (tx : ℕ) (s : EdgeState)
      → IsFair o.stream
      → IsClean o.stream.conn_id s.core (with_permit i host sub info tx o s).state.core
  unfolding with_permit refused
  with_permit-IsClean tx s fair =
      elim (Bool-cases (nat_beq (available (TunnelKey.http sub) info s.core) 0)) [
        | inl e ↦ rw e (stays-IsClean o.stream.conn_id s.core)
        | inr e ↦ rw e (
            permit-IsClean o.stream.conn_id (TunnelKey.http sub) info s.core _
              (λ z. ground (arith, nat_beq_iff (available (TunnelKey.http sub) info s.core) 0))
              (open_stream-IsClean tx (take_permit (TunnelKey.http sub) info.tunnel_id s.core)
                fair))
      ]

  with_tunnel-IsClean :
      (tx : ℕ) (s : EdgeState)
      → IsFair o.stream
      → IsClean o.stream.conn_id s.core (with_tunnel i host sub info tx o s).state.core
  unfolding with_tunnel refused
  with_tunnel-IsClean tx s fair =
      let bucket =
        check_rate_limit info.tunnel_id i.ctx.rate_limit_rps o.stream.now s.rate_limiter in
      elim (Bool-cases bucket.1) [
        | inr e ↦ rw e (stays-IsClean o.stream.conn_id s.core)
        | inl e ↦
            elim (Bool-cases (exceeds i.ctx.request_body_max_bytes (stated_length i.lib i.req))) [
              | inl large ↦ rw (e, large) (stays-IsClean o.stream.conn_id s.core)
              | inr fits ↦
                  rw (e, fits) (with_permit-IsClean tx (record s { rate_limiter = bucket.0 }) fair)
            ]
      ]

with_subdomain-IsClean :
    (i : Incoming) (host sub : Text) (o : HttpOutside) (s : EdgeState)
    → IsFair o.stream
    → IsClean o.stream.conn_id s.core (with_subdomain i host sub o s).state.core
unfolding with_subdomain refused
with_subdomain-IsClean i host sub o s fair =
    let c = (resolve o.stream.pick (TunnelKey.http sub) s.core).0 in
    let resolved = resolve-IsClean o.stream.conn_id o.stream.pick (TunnelKey.http sub) s.core in
    on_pair (λ (r : Served). IsClean o.stream.conn_id s.core r.state.core)
      (resolve o.stream.pick (TunnelKey.http sub) s.core).1 _ _ (λ e. resolved)
      λ info tx e.
        chain-IsClean o.stream.conn_id resolved
          (with_tunnel-IsClean i host sub info o tx (record s { core = c }) fair)

-- However a request to the HTTP edge ends, the tunnels keep their owners, a valid state stays
-- valid, every semaphore has the permits that it had, and the connection is not left pending if it
-- was not before; where the other tasks keep the same, and take the entry of a connection out if
-- its wait ends without running out.
pub proxy_request-IsClean :
    (i : Incoming) (o : HttpOutside) (s : EdgeState)
    → IsFair o.stream
    → IsClean o.stream.conn_id s.core (proxy_request i o s).state.core
unfolding proxy_request refused
proxy_request-IsClean i o s fair =
    on_some (λ (r : Served). IsClean o.stream.conn_id s.core r.state.core)
      (str_header i.lib.is_str (codes "host") i.req.headers) _ _
      (λ e. stays-IsClean o.stream.conn_id s.core)
      λ host e.
        on_some (λ (r : Served). IsClean o.stream.conn_id s.core r.state.core)
          (extract_subdomain host i.ctx.domain) _ _ (λ e'. stays-IsClean o.stream.conn_id s.core)
          λ sub e'. with_subdomain-IsClean i host sub o s fair
