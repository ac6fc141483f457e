-- ===== src/Edge/Http/Requests/Reaches.antt =====
-- Where a request to the HTTP edge (edge/http.rs) goes: through every guard, to the session of a
-- healthy member of the group that its Host header names.
use rustunnel.Prelude.{
  ℕ, ◌≡◌, ◌≢◌, refl, ap, ◌⊎◌, inl, inr, true, false, not, none, some, List, [], ◌∷◌, arith, codes,
  nat_beq,
}
use rustunnel.Prelude.Eq.{nat_eq}
use rustunnel.Prelude.Map.{get}
use rustunnel.Core.Types.{Text, TunnelInfo, TunnelGroup, SessionInfo, TunnelProtocol}
use rustunnel.Core.Router.{TunnelCore, TunnelKey, register_pending_conn}
use rustunnel.Core.Router.Health.{group_at}
use rustunnel.Core.Router.Dispatch.{resolve}
use rustunnel.Core.Dispatching.{Serves, resolve-Serves}
use rustunnel.Limits.TokenBucket.{check_rate_limit}
use rustunnel.Control.Session.{Effect, tell, new_connection}
use rustunnel.Edge.Hosts.{extract_subdomain}
use rustunnel.Edge.Hosts.Laws.{HasNoColon, IsHostOf, extract_subdomain_iff}
use rustunnel.Edge.Streams.{StreamOutcome, opened, dropped, timed_out, available, take_permit}
use rustunnel.Edge.Http.{str_header, HeaderMap}
use rustunnel.Edge.Http.Proxy.{
  HttpOutside, EdgeState, Passed, Served, Reply, handshake_failed, send_failed, overdue, replied,
  refused, concluded, forward_http, handle_ws_upgrade, is_websocket_upgrade, exceeds, stated_length,
}
use rustunnel.Prelude.Branches.{on_some, on_pair, on_if}
use rustunnel.Edge.Http.Requests.{
  Incoming, serve_stream, await_stream, open_stream, with_permit, with_tunnel, with_subdomain,
  proxy_request,
}

-- The end of a request that no session hears of.
abbrev pub Unheard : Served → Type 0
Unheard r = (r.effects ≡ []) × (r.forwarded ≡ none) × (r.captures ≡ [])

-- A request that is passed on: the header and the subdomain, the group and its member, and the
-- guards that it went through.
pub record Reaches (i : Incoming) (o : HttpOutside) (s : EdgeState) (r : Served) : Type 0 where
  pub host : Text
  pub sub : Text
  pub group : TunnelGroup
  pub member : TunnelInfo
  pub session : SessionInfo
  pub read : str_header i.lib.is_str (codes "host") i.req.headers ≡ some host
  pub named : IsHostOf host sub i.ctx.domain
  pub routed : group_at (TunnelKey.http sub) s.core ≡ some group
  pub serves : Serves member group.members
  pub owned : get member.session_id s.core.sessions ≡ some session
  pub told :
      r.effects
      ≡ tell session.control_tx (new_connection o.stream.conn_id i.peer TunnelProtocol.http) ∷ []
  pub room :
      available (TunnelKey.http sub) member (resolve o.stream.pick (TunnelKey.http sub) s.core).0
      ≢ 0
  pub paced :
      (check_rate_limit member.tunnel_id i.ctx.rate_limit_rps o.stream.now s.rate_limiter).1 ≡ true
  pub fits : exceeds i.ctx.request_body_max_bytes (stated_length i.lib i.req) ≡ false

module _ (i : Incoming) (host sub : Text) (info : TunnelInfo) (o : HttpOutside) where
  concluded-effects :
      (headers : HeaderMap) (c : TunnelCore) (r : Reply)
      → (concluded i.lib i.ctx sub info i.req o headers c r).effects ≡ []
  unfolding concluded
  concluded-effects headers c handshake_failed = refl
  concluded-effects headers c send_failed = refl
  concluded-effects headers c overdue = refl
  concluded-effects headers c (replied r frames) = refl

  await_stream-effects :
      (e : StreamOutcome) (c : TunnelCore) → (await_stream i host sub info o e c).effects ≡ []
  unfolding await_stream serve_stream handle_ws_upgrade forward_http
  await_stream-effects (opened st) c =
      on_if (λ (p : Passed). p.effects ≡ []) (is_websocket_upgrade i.lib i.req) _ _ (λ e. refl)
        λ e. concluded-effects _ _ o.reply
  await_stream-effects dropped c = refl
  await_stream-effects timed_out c = refl

  abbrev Told : ℕ → List Effect → Type 0
  Told tx es = es ≡ tell tx (new_connection o.stream.conn_id i.peer TunnelProtocol.http) ∷ []

  abbrev UnheardStream : Passed → Type 0
  UnheardStream p = (p.effects ≡ []) × (p.forwarded ≡ none) × (p.captures ≡ [])

  open_stream-Told :
      (tx : ℕ) (c : TunnelCore)
      → UnheardStream (open_stream i host sub info tx o c)
        ⊎ Told tx (open_stream i host sub info tx o c).effects
  unfolding open_stream
  open_stream-Told tx c =
      on_if (λ (p : Passed). UnheardStream p ⊎ Told tx p.effects) o.stream.session_open _ _
        (λ e. inr (
          ap (◌∷◌ (tell tx (new_connection o.stream.conn_id i.peer TunnelProtocol.http))) (
            await_stream-effects o.stream.outcome
              (o.stream.waiting (register_pending_conn o.stream.conn_id o.stream.stream_tx c)))))
        λ e. inl (refl, refl, refl)

  with_permit-Told :
      (tx : ℕ) (s : EdgeState)
      → Unheard (with_permit i host sub info tx o s)
        ⊎ (Told tx (with_permit i host sub info tx o s).effects
            × (nat_beq (available (TunnelKey.http sub) info s.core) 0 ≡ false))
  unfolding with_permit refused
  with_permit-Told tx s =
      on_if
        (λ (r : Served).
          Unheard r
          ⊎ (Told tx r.effects × (nat_beq (available (TunnelKey.http sub) info s.core) 0 ≡ false)))
        (nat_beq (available (TunnelKey.http sub) info s.core) 0) _ _ (λ e. inl (refl, refl, refl))
        λ e. elim (open_stream-Told tx (take_permit (TunnelKey.http sub) info.tunnel_id s.core)) [
          | inl u ↦ inl u
          | inr told ↦ inr (told, e)
        ]

  abbrev Passes : ℕ → EdgeState → Served → Type 0
  Passes tx s r =
      Told tx r.effects
      × (nat_beq (available (TunnelKey.http sub) info s.core) 0 ≡ false)
      × ((check_rate_limit info.tunnel_id i.ctx.rate_limit_rps o.stream.now s.rate_limiter).1
          ≡ true)
      × (exceeds i.ctx.request_body_max_bytes (stated_length i.lib i.req) ≡ false)

  with_tunnel-Told :
      (tx : ℕ) (s : EdgeState)
      → Unheard (with_tunnel i host sub info tx o s)
        ⊎ Passes tx s (with_tunnel i host sub info tx o s)
  unfolding with_tunnel refused
  with_tunnel-Told tx s =
      let (l, allowed) =
        check_rate_limit info.tunnel_id i.ctx.rate_limit_rps o.stream.now s.rate_limiter in
      on_if (λ (r : Served). Unheard r ⊎ Passes tx s r) (not allowed) _ _
        (λ e. inl (refl, refl, refl))
        λ paced.
          on_if (λ (r : Served). Unheard r ⊎ Passes tx s r)
            (exceeds i.ctx.request_body_max_bytes (stated_length i.lib i.req)) _ _
            (λ e. inl (refl, refl, refl))
            λ fits. elim (with_permit-Told tx (record s { rate_limiter = l })) [
              | inl u ↦ inl u
              | inr (told, room) ↦ inr (told, room, ground arith, fits)
            ]

-- A request to the HTTP edge has one of two ends: no session hears of it, nothing is forwarded and
-- nothing captured; or its Host header is a subdomain of the server's domain with or without a
-- port, and just one session is told of the connection, that of a healthy member of the group
-- which is routed there, where the member's bucket had a token, its semaphore a permit and the
-- stated length is within the limit. The server's domain has no colon.
pub proxy_request-Reaches :
    (i : Incoming) (o : HttpOutside) (s : EdgeState)
    → HasNoColon i.ctx.domain
    → Unheard (proxy_request i o s) ⊎ Reaches i o s (proxy_request i o s)
unfolding proxy_request with_subdomain refused
proxy_request-Reaches i o s plain =
    on_some (λ (r : Served). Unheard r ⊎ Reaches i o s r)
      (str_header i.lib.is_str (codes "host") i.req.headers) _ _ (λ e. inl (refl, refl, refl))
      λ host read.
        on_some (λ (r : Served). Unheard r ⊎ Reaches i o s r) (extract_subdomain host i.ctx.domain)
          _ _ (λ e. inl (refl, refl, refl))
          λ sub named.
            let k = TunnelKey.http sub in
            let c = (resolve o.stream.pick k s.core).0 in
            on_pair (λ (r : Served). Unheard r ⊎ Reaches i o s r) (resolve o.stream.pick k s.core).1
              _ _ (λ e. inl (refl, refl, refl))
              λ info tx found.
                elim (with_tunnel-Told i host sub info o tx (record s { core = c })) [
                  | inl u ↦ inl u
                  | inr (told, room, paced, fits) ↦
                      let (g, m, owner, eg, serves, es, etx, ei, ec) =
                        resolve-Serves o.stream.pick k s.core {c' = c} {info = info} {tx = tx}
                          (ground arith) in
                      inr (record {
                        host = host;
                        sub = sub;
                        group = g;
                        member = m;
                        session = owner;
                        read = read;
                        named = ((extract_subdomain_iff host sub i.ctx.domain plain).0 named).0;
                        routed = eg;
                        serves = serves;
                        owned = es;
                        told = rw etx told;
                        room = ground arith;
                        paced = ground arith;
                        fits = fits;
                      })
                ]
