-- ===== src/Control/Register/Answers.antt =====
-- Every way through `RegisterTunnel` in control/session.rs: the permit, and the protocols.
use rustunnel.Prelude.{
  ◌≡◌, refl, ◌∙◌, Bool, true, false, Option, none, some, List, ◌++◌, if◌then◌else◌, Option-cases,
  inl, inr, codes, not,
}
use rustunnel.Prelude.Eq.{◌==◌, nat_eq, list_eq}
use rustunnel.Prelude.Map.{get}
use rustunnel.Core.Types.{Text, Uuid, TunnelProtocol, GroupSpec, Returns-ok}
use rustunnel.Core.Router.{TunnelCore, TunnelKey}
use rustunnel.Core.Router.Register.{
  Fresh, register_http_tunnel, register_tcp_tunnel, register_udp_tunnel, register_p2p_tunnel,
}
use rustunnel.Core.Invariant.Registered.{
  register_http_tunnel-Adds, register_tcp_tunnel-Adds, register_udp_tunnel-Adds,
  register_p2p_tunnel-Adds,
}
use rustunnel.Core.Valid.{IsValid}
use rustunnel.Core.Valid.Steps.{http_opens, tcp_opens, udp_opens, p2p_opens}
use rustunnel.Protocol.{RegisterTunnel}
use rustunnel.Control.Billing.{HobbyGate, Surface, Queries, parse_surface, evaluate_hobby_limits}
use rustunnel.Control.Session.{Token, SessionCtx, Effect, Outside, Handled}
use rustunnel.Control.Register.{
  Permit, granted, refused, failed, by_gate, by_plan, check_user, check_token, answer, say_http,
  say_port, say_p2p, register_named, register_granted, after, permitted, register_tunnel,
  has_expired,
}
use rustunnel.Control.Register.Heard.{
  replies, Answered, opened, unchanged, broken_off, answer-Answered, refuse-Answered, http-id,
  tcp-id, udp-id, p2p-id,
}

module _ (ctx : SessionCtx) (r : RegisterTunnel) (f : Fresh) (c : TunnelCore) where
  http-Answered :
      (p : TunnelProtocol) (g : Option GroupSpec) (notice : Option Text)
      → get f.tunnel_id c.tunnel_index ≡ none
      → Answered ctx.session_id r f c (
          answer r c
            (register_http_tunnel ctx.session_id r.subdomain p g f c)
            (say_http ctx r p notice))
  http-Answered p g notice fresh =
      let m = register_http_tunnel ctx.session_id r.subdomain p g f c in
      answer-Answered ctx.session_id r f c m (say_http ctx r p notice)
        (λ c' t sub e. record {
          key = TunnelKey.http sub;
          adds = Returns-ok _ m e (register_http_tunnel-Adds ctx.session_id r.subdomain p g f c);
          step = http_opens c c' ctx.session_id r.subdomain p g f t sub fresh e;
          id = http-id ctx.session_id r.subdomain p g f c c' t sub e;
        })
        (λ t sub. (_, refl, refl, refl))

  tcp-Answered :
      (g : Option GroupSpec) (notice : Option Text)
      → get f.tunnel_id c.tunnel_index ≡ none
      → IsValid c
      → Answered ctx.session_id r f c (
          answer r c
            (register_tcp_tunnel ctx.session_id g f c)
            (say_port ctx r (codes "tcp") notice))
  tcp-Answered g notice fresh v =
      let m = register_tcp_tunnel ctx.session_id g f c in
      answer-Answered ctx.session_id r f c m (say_port ctx r (codes "tcp") notice)
        (λ c' t port e. record {
          key = TunnelKey.tcp port;
          adds = Returns-ok _ m e (register_tcp_tunnel-Adds ctx.session_id g f c v.ports);
          step = tcp_opens c c' ctx.session_id g f t port fresh e;
          id = tcp-id ctx.session_id g f c c' t port e;
        })
        (λ t port. (_, refl, refl, refl))

  udp-Answered :
      (notice : Option Text)
      → get f.tunnel_id c.tunnel_index ≡ none
      → IsValid c
      → Answered ctx.session_id r f c (
          answer r c (register_udp_tunnel ctx.session_id f c) (say_port ctx r (codes "udp") notice))
  udp-Answered notice fresh v =
      let m = register_udp_tunnel ctx.session_id f c in
      answer-Answered ctx.session_id r f c m (say_port ctx r (codes "udp") notice)
        (λ c' t port e. record {
          key = TunnelKey.udp port;
          adds = Returns-ok _ m e (register_udp_tunnel-Adds ctx.session_id f c v.ports);
          step = udp_opens c c' ctx.session_id f t port fresh e;
          id = udp-id ctx.session_id f c c' t port e;
        })
        (λ t port. (_, refl, refl, refl))

  named-Answered :
      (notice name secret : Option Text)
      → get f.tunnel_id c.tunnel_index ≡ none
      → Answered ctx.session_id r f c (register_named ctx r f notice name secret c)
  unfolding register_named
  named-Answered notice none secret fresh = refuse-Answered _ _ _ _ _
  named-Answered notice (some name) none fresh = refuse-Answered _ _ _ _ _
  named-Answered notice (some name) (some secret) fresh =
      let m = register_p2p_tunnel ctx.session_id name secret f c in
      answer-Answered ctx.session_id r f c m (say_p2p ctx r notice)
        (λ c' t n e. record {
          key = TunnelKey.p2p name;
          adds = Returns-ok _ m e (register_p2p_tunnel-Adds ctx.session_id name secret f c);
          step = p2p_opens c c' ctx.session_id name secret f t n fresh e;
          id = p2p-id ctx.session_id name secret f c c' t n e;
        })
        (λ t n. (_, refl, refl, refl))

  if-Answered :
      (b : Bool) (x y : Handled)
      → Answered ctx.session_id r f c x
      → Answered ctx.session_id r f c y
      → Answered ctx.session_id r f c (if b then x else y)
  if-Answered true x y p q = p
  if-Answered false x y p q = q

  granted-Answered :
      (notice : Option Text) (p : TunnelProtocol) (g : Option GroupSpec)
      → get f.tunnel_id c.tunnel_index ≡ none
      → IsValid c
      → Answered ctx.session_id r f c (register_granted ctx r f notice p g c)
  unfolding register_granted
  granted-Answered notice TunnelProtocol.http g fresh v =
      http-Answered TunnelProtocol.http g notice fresh
  granted-Answered notice TunnelProtocol.https g fresh v =
      http-Answered TunnelProtocol.https g notice fresh
  granted-Answered notice TunnelProtocol.tcp g fresh v = tcp-Answered g notice fresh v
  granted-Answered notice TunnelProtocol.udp g fresh v = udp-Answered notice fresh v
  granted-Answered notice TunnelProtocol.p2p g fresh v =
      if-Answered ctx.config.p2p_enabled _ _
        (named-Answered notice r.p2p_name r.p2p_secret_hash fresh) (refuse-Answered _ _ _ _ _)

  -- Effects that the client does not hear.
  abbrev IsSilent : List Effect → Type 0
  IsSilent reports = (es : List Effect) → replies (reports ++ es) ≡ replies es

  after-Answered :
      (reports : List Effect) (h : Handled)
      → IsSilent reports
      → Answered ctx.session_id r f c h
      → Answered ctx.session_id r f c (after reports h)
  after-Answered reports h quiet (opened k told a st q t heard g) =
      opened k told a st q t (quiet h.effects ∙ heard) g
  after-Answered reports h quiet (unchanged why e heard g) =
      unchanged why e (quiet h.effects ∙ heard) g
  after-Answered reports h quiet (broken_off e heard g) = broken_off e (quiet h.effects ∙ heard) g

  -- What a permit lets the session say.
  abbrev pub IsQuietPermit : Permit → Type 0
  IsQuietPermit (granted notice reports) = IsSilent reports
  IsQuietPermit (refused why reports) = IsSilent reports
  IsQuietPermit failed = Unit

  by_gate-IsQuietPermit :
      (user : Uuid) (surface : Surface) (gate : HobbyGate)
      → IsQuietPermit (by_gate ctx user surface gate)
  unfolding by_gate
  by_gate-IsQuietPermit user surface gate = elim (Option-cases gate.block) [
    | inr (block, e) ↦ rw (e, by_gate) (λ es. refl)
    | inl e ↦ elim (Option-cases gate.notice) [
      | inr (warning, n) ↦ rw (e, n, by_gate) (λ es. refl)
      | inl n ↦ rw (e, n, by_gate) (λ es. refl)
    ]
  ]

  if-IsQuietPermit :
      (b : Bool) (x y : Permit)
      → IsQuietPermit x
      → IsQuietPermit y
      → IsQuietPermit (if b then x else y)
  if-IsQuietPermit true x y p q = p
  if-IsQuietPermit false x y p q = q

  by_plan-IsQuietPermit :
      (surface : Surface) (user : Uuid) (gate : Option HobbyGate)
      → IsQuietPermit (by_plan ctx surface user gate)
  by_plan-IsQuietPermit surface user none = tt
  by_plan-IsQuietPermit surface user (some gate) = by_gate-IsQuietPermit user surface gate

  check_user-IsQuietPermit :
      (q : Queries) (user : Option Uuid) → IsQuietPermit (check_user ctx r q user)
  check_user-IsQuietPermit q none = λ es. refl
  check_user-IsQuietPermit q (some user) =
      by_plan-IsQuietPermit (parse_surface r.client_surface) user
        (evaluate_hobby_limits q r.subdomain)

  pub check_token-IsQuietPermit :
      (o : Outside) (token : Option Token) → IsQuietPermit (check_token ctx r o token)
  unfolding check_token
  check_token-IsQuietPermit o none = λ es. refl
  check_token-IsQuietPermit o (some token) =
      if-IsQuietPermit (not (token.status == codes "active")) _ _ (λ es. refl)
        (if-IsQuietPermit token.unlimited _ _ (λ es. refl)
          (if-IsQuietPermit (has_expired o.utc_now token.expires_at) _ _ (λ es. refl)
            (check_user-IsQuietPermit o.queries token.user_id)))

  permitted-Answered :
      (permit : Permit)
      → get f.tunnel_id c.tunnel_index ≡ none
      → IsValid c
      → IsQuietPermit permit
      → Answered ctx.session_id r f c (permitted ctx r f permit c)
  permitted-Answered (granted notice reports) fresh v q =
      after-Answered reports _ q (granted-Answered notice r.protocol _ fresh v)
  permitted-Answered (refused why reports) fresh v q =
      after-Answered reports _ q (refuse-Answered _ _ _ _ _)
  permitted-Answered failed fresh v q = broken_off refl refl refl

-- A `RegisterTunnel` has one of three ends: one tunnel of this session is added to a valid state,
-- under the fresh id, and the client hears just a `TunnelRegistered` with that id and the
-- request's; the state is unchanged and the client hears just a `TunnelError` for the request; or
-- the state is unchanged, the client hears nothing and the session ends.
pub register_tunnel-Answered :
    (ctx : SessionCtx) (r : RegisterTunnel) (o : Outside) (c : TunnelCore)
    → get o.fresh.tunnel_id c.tunnel_index ≡ none
    → IsValid c
    → Answered ctx.session_id r o.fresh c (register_tunnel ctx r o c)
unfolding register_tunnel
register_tunnel-Answered ctx r o c fresh v =
    permitted-Answered ctx r o.fresh c (check_token ctx r o ctx.db_token) fresh v
      (check_token-IsQuietPermit ctx r o.fresh c o ctx.db_token)
