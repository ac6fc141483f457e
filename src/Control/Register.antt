-- ===== src/Control/Register.antt =====
-- crates/rustunnel-server/src/control/session.rs: the handling of `RegisterTunnel`.
pub mod Heard
pub mod Answers
pub mod Tokens
use rustunnel.Prelude.{
  ℕ, Bool, true, false, not, ◌&&◌, Option, none, some, List, [], ◌∷◌, ◌++◌, if◌then◌else◌, ltb,
  codes,
}
use rustunnel.Prelude.Eq.{◌==◌, list_eq, nat_eq}
use rustunnel.Core.Types.{
  Text, Uuid, Instant, TunnelProtocol, HealthCheckSpec, GroupSpec, Result, ok, err,
}
use rustunnel.Core.Router.{TunnelCore}
use rustunnel.Core.Router.Register.{
  Fresh, to_string, register_http_tunnel, register_tcp_tunnel, register_udp_tunnel,
  register_p2p_tunnel,
}
use rustunnel.Protocol.{
  Message, RegisterTunnel, TunnelRegistered, ControlFrame, tunnel_error, tunnel_registered,
}
use rustunnel.Control.Billing.{
  HobbyReason, HobbyGate, Surface, Queries, parse_surface, message, evaluate_hobby_limits,
}
use rustunnel.Control.Session.{
  Token, SessionCtx, AuditEvent, Effect, reply, audit, log_tunnel_registered, hobby_limit_report,
  Outside, Handled, done, token_id_of, user_of,
}

-- A group needs the switch of the region, a name and a key; without them the tunnel is solo.
unfoldable pub group_spec :
    Bool → Option Text → Option Text → Option HealthCheckSpec → Option GroupSpec
group_spec true (some name) (some hash) health_check =
    some (record { group_name = name; key_hash = hash; health_check = health_check })
group_spec true (some name) none health_check = none
group_spec true none hash health_check = none
group_spec false name hash health_check = none

-- Whether the token may register: with a notice and the effects of saying so, or not, or the
-- database failed.
pub data Permit : Type 0 where
  granted : (notice : Option Text) (reports : List Effect) → Permit
  refused : (message : Text) (reports : List Effect) → Permit
  failed : Permit

abbrev report : SessionCtx → Uuid → HobbyReason → Surface → List Effect
report ctx user reason surface = hobby_limit_report ctx.config.region_id user reason surface ∷ []

unfoldable pub by_gate : SessionCtx → Uuid → Surface → HobbyGate → Permit
by_gate ctx user surface gate = elim gate.block [
  | some block ↦ refused (message block surface) (report ctx user block surface)
  | none ↦ elim gate.notice [
    | some warning ↦ granted (some (message warning surface)) (report ctx user warning surface)
    | none ↦ granted none []
  ]
]

abbrev pub has_expired : Instant → Option Instant → Bool
has_expired now none = false
has_expired now (some expiry) = ltb expiry now

abbrev pub by_plan : SessionCtx → Surface → Uuid → Option HobbyGate → Permit
by_plan ctx surface user none = failed
by_plan ctx surface user (some gate) = by_gate ctx user surface gate

abbrev pub check_user : SessionCtx → RegisterTunnel → Queries → Option Uuid → Permit
check_user ctx r q none = granted none []
check_user ctx r q (some user) =
    by_plan ctx (parse_surface r.client_surface) user (evaluate_hobby_limits q r.subdomain)

unfoldable pub check_token : SessionCtx → RegisterTunnel → Outside → Option Token → Permit
check_token ctx r o none = granted none []
check_token ctx r o (some token) =
    if not (token.status == codes "active")
    then refused (codes "token is suspended or revoked") []
    else if token.unlimited
    then granted none []
    else if has_expired o.utc_now token.expires_at
    then refused (codes "token has expired") []
    else check_user ctx r o.queries token.user_id

abbrev pub registration : SessionCtx → Uuid → Text → Text → List Effect
registration ctx tunnel_id protocol label =
    audit (AuditEvent.tunnel_registered ctx.session_id tunnel_id protocol label)
    ∷ log_tunnel_registered (record {
      tunnel_id = tunnel_id;
      protocol = protocol;
      label = label;
      session_id = ctx.session_id;
      token_id = token_id_of ctx.db_token;
      region_id = ctx.config.region_id;
      user_id = user_of ctx.db_token;
    })
    ∷ []

abbrev pub scheme : TunnelProtocol → Text
scheme TunnelProtocol.https = codes "https"
scheme _ = codes "http"

-- The core, the tunnel and its label or port, or the error that the client is told.
abbrev pub answer {ℓ} :
    {A : Type ℓ}
    → RegisterTunnel
    → TunnelCore
    → Result (TunnelCore × Uuid × A)
    → (Uuid → A → List Effect)
    → Handled
answer r c (ok (c', t, a)) say = done c' (say t a)
answer r c (err e) say = done c (reply (tunnel_error r.request_id (Message.error e)) ∷ [])

abbrev pub refuse : RegisterTunnel → TunnelCore → Text → Handled
refuse r c why = done c (reply (tunnel_error r.request_id (Message.text why)) ∷ [])

abbrev pub say_http :
    SessionCtx → RegisterTunnel → TunnelProtocol → Option Text → Uuid → Text → List Effect
say_http ctx r protocol notice tunnel_id sub =
    registration ctx tunnel_id (scheme protocol) sub
    ++ reply (
        tunnel_registered (record {
          request_id = r.request_id;
          tunnel_id = tunnel_id;
          public_url = scheme protocol ++ codes "://" ++ sub ++ 46 ∷ ctx.config.domain;
          assigned_port = none;
          p2p_tunnel_name = none;
          notice = notice;
        }))
      ∷ []

abbrev pub say_port : SessionCtx → RegisterTunnel → Text → Option Text → Uuid → ℕ → List Effect
say_port ctx r protocol notice tunnel_id port =
    registration ctx tunnel_id protocol (to_string port)
    ++ reply (
        tunnel_registered (record {
          request_id = r.request_id;
          tunnel_id = tunnel_id;
          public_url = protocol ++ codes "://" ++ ctx.config.domain ++ 58 ∷ to_string port;
          assigned_port = some port;
          p2p_tunnel_name = none;
          notice = notice;
        }))
      ∷ []

abbrev pub say_p2p : SessionCtx → RegisterTunnel → Option Text → Uuid → Text → List Effect
say_p2p ctx r notice tunnel_id name =
    registration ctx tunnel_id (codes "p2p") name
    ++ reply (
        tunnel_registered (record {
          request_id = r.request_id;
          tunnel_id = tunnel_id;
          public_url = codes "p2p://" ++ name;
          assigned_port = none;
          p2p_tunnel_name = some name;
          notice = notice;
        }))
      ∷ []

unfoldable pub register_named :
    SessionCtx
    → RegisterTunnel
    → Fresh
    → Option Text
    → Option Text
    → Option Text
    → TunnelCore
    → Handled
register_named ctx r f notice none secret c =
    refuse r c (codes "P2P tunnel requires a name (p2p_name)")
register_named ctx r f notice (some name) none c =
    refuse r c (codes "P2P tunnel requires a secret hash (p2p_secret_hash)")
register_named ctx r f notice (some name) (some secret) c =
    answer r c (register_p2p_tunnel ctx.session_id name secret f c) (say_p2p ctx r notice)

unfoldable pub register_granted :
    SessionCtx
    → RegisterTunnel
    → Fresh
    → Option Text
    → TunnelProtocol
    → Option GroupSpec
    → TunnelCore
    → Handled
register_granted ctx r f notice TunnelProtocol.http group c =
    answer r c (register_http_tunnel ctx.session_id r.subdomain TunnelProtocol.http group f c)
      (say_http ctx r TunnelProtocol.http notice)
register_granted ctx r f notice TunnelProtocol.https group c =
    answer r c (register_http_tunnel ctx.session_id r.subdomain TunnelProtocol.https group f c)
      (say_http ctx r TunnelProtocol.https notice)
register_granted ctx r f notice TunnelProtocol.udp group c =
    answer r c (register_udp_tunnel ctx.session_id f c) (say_port ctx r (codes "udp") notice)
register_granted ctx r f notice TunnelProtocol.tcp group c =
    answer r c (register_tcp_tunnel ctx.session_id group f c) (say_port ctx r (codes "tcp") notice)
register_granted ctx r f notice TunnelProtocol.p2p group c =
    if ctx.config.p2p_enabled
    then register_named ctx r f notice r.p2p_name r.p2p_secret_hash c
    else refuse r c (codes "P2P tunnels are not enabled on this server")

abbrev pub after : List Effect → Handled → Handled
after reports h = record h { effects = reports ++ h.effects }

abbrev pub permitted : SessionCtx → RegisterTunnel → Fresh → Permit → TunnelCore → Handled
permitted ctx r f (granted notice reports) c = after reports (
    register_granted ctx r f notice r.protocol
      (group_spec ctx.config.load_balancing_enabled r.group r.group_key_hash r.health_check) c)
permitted ctx r f (refused why reports) c = after reports (refuse r c why)
permitted ctx r f failed c = record { core = c; effects = []; goes_on = false }

unfoldable pub register_tunnel : SessionCtx → RegisterTunnel → Outside → TunnelCore → Handled
register_tunnel ctx r o c = permitted ctx r o.fresh (check_token ctx r o ctx.db_token) c
