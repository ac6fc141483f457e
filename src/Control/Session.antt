-- ===== src/Control/Session.antt =====
-- crates/rustunnel-server/src/control/session.rs: what a session reads and what it does besides
-- changing `TunnelCore`. A sent frame is taken to arrive at the socket; a task that the code spawns
-- and an entry of the audit or the database that it makes is an effect.
use rustunnel.Prelude.{ℕ, Bool, true, Option, none, some, List}
use rustunnel.Core.Types.{Text, Uuid, Instant, SocketAddr, TunnelProtocol, GroupAlertPayload}
use rustunnel.Core.Router.{TunnelCore}
use rustunnel.Core.Router.Register.{Fresh}
use rustunnel.Core.Members.{LiveTunnelMeter}
use rustunnel.Protocol.{ControlFrame}
use rustunnel.Control.Billing.{HobbyReason, Surface, Queries}

-- The columns of a token that the session reads.
pub record Token : Type 0 where
  pub id : Text
  pub status : Text
  pub unlimited : Bool
  pub expires_at : Option Instant
  pub user_id : Option Uuid

-- The parts of `ServerConfig` that the session reads.
pub record ServerConfig : Type 0 where
  pub domain : Text
  pub region_id : Text
  pub require_auth : Bool
  pub admin_token : Text
  pub p2p_enabled : Bool
  pub load_balancing_enabled : Bool
  pub alert_webhook_url : Option Text
  pub server_version : Text

pub record SessionCtx : Type 0 where
  pub session_id : Uuid
  pub config : ServerConfig
  pub db_token : Option Token

pub data ControlMessage : Type 0 where
  new_connection :
      (conn_id : Uuid) (client_addr : SocketAddr) (protocol : TunnelProtocol) → ControlMessage
  shutdown : ControlMessage

pub data AuditEvent : Type 0 where
  auth_attempt : (peer : SocketAddr) (success : Bool) (token_id : Option Text) → AuditEvent
  tunnel_registered : (session_id tunnel_id : Uuid) (protocol label : Text) → AuditEvent
  tunnel_removed : (tunnel_id : Uuid) (label : Text) → AuditEvent
  token_created : (token_id label : Text) (admin : Bool) → AuditEvent
  token_deleted : (token_id : Text) (admin : Bool) → AuditEvent
  admin_action : (action detail : Text) → AuditEvent

pub record TunnelRegistration : Type 0 where
  pub tunnel_id : Uuid
  pub protocol : Text
  pub label : Text
  pub session_id : Uuid
  pub token_id : Option Text
  pub region_id : Text
  pub user_id : Option Uuid

pub data Effect : Type 0 where
  reply : ControlFrame → Effect
  tell : (control_tx : ℕ) → ControlMessage → Effect
  pong_in : (timestamp : ℕ) → Effect
  open_stream : (conn_id : Uuid) → Effect
  audit : AuditEvent → Effect
  log_tunnel_registered : TunnelRegistration → Effect
  log_tunnel_unregistered : LiveTunnelMeter → Effect
  hobby_limit_report : (region_id : Text) (user_id : Uuid) → HobbyReason → Surface → Effect
  zero_healthy_alert : (url : Text) → GroupAlertPayload → Effect
  relay : (pub_conn_id sub_conn_id tunnel_id : Uuid) → Effect

-- What the handling of a frame takes from outside: ids that it draws, the clocks, the channels that
-- it makes, whether the publisher's session still listens, and what the database answers.
pub record Outside : Type 0 where
  pub fresh : Fresh
  pub utc_now : Instant
  pub conn_id : Uuid
  pub sub_conn_id : Uuid
  pub pub_stream_tx : ℕ
  pub sub_stream_tx : ℕ
  pub publisher_open : Bool
  pub queries : Queries

-- The state after a frame, the effects in their order, and whether the session goes on.
pub record Handled : Type 0 where
  pub core : TunnelCore
  pub effects : List Effect
  pub goes_on : Bool

abbrev pub done : TunnelCore → List Effect → Handled
done core effects = record { core = core; effects = effects; goes_on = true }

abbrev pub token_id_of : Option Token → Option Text
token_id_of none = none
token_id_of (some token) = some token.id

abbrev pub user_of : Option Token → Option Uuid
user_of none = none
user_of (some token) = token.user_id
