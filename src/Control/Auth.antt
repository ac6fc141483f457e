-- ===== src/Control/Auth.antt =====
-- crates/rustunnel-server/src/control/session.rs, `auth_handshake`, and `secret_eq` of auth.rs. SHA-256
-- is a parameter.
pub mod Guard
use rustunnel.Prelude.{
  ℕ, Bool, true, false, not, ◌&&◌, ◌||◌, Option, none, some, List, [], ◌∷◌, if◌then◌else◌, codes,
}
use rustunnel.Prelude.Eq.{◌==◌, list_eq, nat_eq}
use rustunnel.Core.Types.{Text, Uuid, Instant, SocketAddr}
use rustunnel.Core.Router.{TunnelCore, register_session}
use rustunnel.Limits.AuthFailure.{AuthFailureLimiter, is_limited, record_failure}
use rustunnel.Protocol.{ControlFrame, auth_error, auth_ok}
use rustunnel.Control.Session.{
  Token, ServerConfig, Effect, reply, audit, auth_attempt, token_id_of, user_of,
}

unfoldable pub secret_eq : (digest : Text → Text) → Text → Text → Bool
secret_eq digest a b = digest a == digest b

-- What came within the time that the client has: nothing that decodes to a frame, or a frame.
pub data FirstMessage : Type 0 where
  no_frame : FirstMessage
  frame : ControlFrame → FirstMessage

-- What a handshake takes from outside. The query fails, finds no token, or finds one.
pub record Attempt : Type 0 where
  pub peer : SocketAddr
  pub asked_at : Instant
  pub failed_at : Instant
  pub swept_at : Instant
  pub registered_at : Instant
  pub session_id : Uuid
  pub control_tx : ℕ
  pub verified : Option (Option Token)

pub record Handshake : Type 0 where
  pub core : TunnelCore
  pub limiter : AuthFailureLimiter
  pub effects : List Effect
  pub session : Option (Uuid × Option Token)

-- `verify_token(..).await.ok().flatten()`
abbrev pub found : Option (Option Token) → Option Token
found none = none
found (some token) = token

abbrev pub attempt_failed : SocketAddr → Effect
attempt_failed peer = audit (auth_attempt peer false none)

abbrev pub turn_away : Attempt → Text → TunnelCore → AuthFailureLimiter → Handshake
turn_away a why c l = record {
  core = c;
  limiter = l;
  effects = reply (auth_error why) ∷ attempt_failed a.peer ∷ [];
  session = none;
}

unfoldable pub welcome :
    ServerConfig → Attempt → Text → Option Token → TunnelCore → AuthFailureLimiter → Handshake
welcome config a token db_token c l = record {
  core =
      register_session a.session_id a.registered_at a.peer token (token_id_of db_token)
        (user_of db_token) a.control_tx c;
  limiter = l;
  effects =
      audit (auth_attempt a.peer true (some token))
      ∷ reply (auth_ok a.session_id config.server_version)
      ∷ [];
  session = some (a.session_id, db_token);
}

unfoldable pub by_token :
    ServerConfig → Attempt → Text → Option Token → TunnelCore → AuthFailureLimiter → Handshake
by_token config a token none c l =
    turn_away a (codes "invalid token") c (record_failure a.peer.ip a.failed_at a.swept_at l)
by_token config a token (some t) c l = welcome config a token (some t) c l

unfoldable pub check_credential :
    (digest : Text → Text)
    → ServerConfig
    → Attempt
    → Text
    → TunnelCore
    → AuthFailureLimiter
    → Handshake
check_credential digest config a token c l =
    if not config.require_auth
    then welcome config a token (found a.verified) c l
    else if secret_eq digest token config.admin_token
    then welcome config a token none c l
    else by_token config a token (found a.verified) c l

unfoldable pub throttle :
    (digest : Text → Text)
    → ServerConfig
    → Attempt
    → Text
    → TunnelCore
    → AuthFailureLimiter × Bool
    → Handshake
throttle digest config a token c (l, true) = turn_away a (codes "too many failed auth attempts") c l
throttle digest config a token c (l, false) = check_credential digest config a token c l

unfoldable pub auth_handshake :
    (digest : Text → Text)
    → ServerConfig
    → Attempt
    → FirstMessage
    → TunnelCore
    → AuthFailureLimiter
    → Handshake
auth_handshake digest config a no_frame c l = record {
  core = c;
  limiter = l;
  effects = [];
  session = none;
}
auth_handshake digest config a (frame (ControlFrame.auth token client_version)) c l =
    throttle digest config a token c (is_limited a.peer.ip a.asked_at l)
auth_handshake digest config a (frame _) c l = turn_away a (codes "expected Auth frame") c l
