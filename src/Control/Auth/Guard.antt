-- ===== src/Control/Auth/Guard.antt =====
-- Who passes `auth_handshake` of control/session.rs.
use rustunnel.Prelude.{
  ◌≡◌, refl, Bool, true, false, not, ◌&&◌, ◌||◌, Option, none, some, arith, is_some, if◌then◌else◌,
}
use rustunnel.Prelude.Eq.{◌==◌, list_eq, nat_eq}
use rustunnel.Prelude.Map.{get}
use rustunnel.Core.Types.{Text}
use rustunnel.Core.Router.{TunnelCore}
use rustunnel.Core.Valid.Gentle.{IsQuiet, stays-IsQuiet}
use rustunnel.Core.Valid.Reports.{register_session-IsQuiet}
use rustunnel.Limits.AuthFailure.{AuthFailureLimiter, is_limited, record_failure}
use rustunnel.Protocol.{ControlFrame}
use rustunnel.Control.Session.{Token, ServerConfig, token_id_of, user_of}
use rustunnel.Control.Auth.{
  secret_eq, FirstMessage, no_frame, frame, Attempt, Handshake, found, welcome, by_token,
  check_credential, throttle, auth_handshake,
}

-- The credentials that open a session: any if authentication is off, one with the digest of the
-- admin's token, and one that the database knows.
abbrev pub admits : (digest : Text → Text) → ServerConfig → Text → Option (Option Token) → Bool
admits digest config token verified =
    not config.require_auth || digest token == digest config.admin_token || is_some (found verified)

-- A session is opened exactly for an address that is not throttled and a credential that is
-- admitted. Without one the core is as it was; and a failure is counted exactly for a credential
-- that was looked at and not admitted.
pub record Guards (admitted throttled : Bool) (a : Attempt) (c : TunnelCore)
    (l : AuthFailureLimiter) (h : Handshake) : Type 0 where
  pub opens : is_some h.session ≡ not throttled && admitted
  pub shut : h.session ≡ none → h.core ≡ c
  pub quiet : get a.session_id c.sessions ≡ none → IsQuiet c h.core
  pub counted :
      h.limiter
      ≡ (if throttled || admitted then l else record_failure a.peer.ip a.failed_at a.swept_at l)

welcome-Guards :
    (config : ServerConfig) (a : Attempt) (token : Text) (t : Option Token) (c : TunnelCore)
    (l : AuthFailureLimiter)
    → Guards true false a c l (welcome config a token t c l)
unfolding welcome
welcome-Guards config a token t c l = record {
  opens = refl;
  shut = λ e. absurd (ground arith);
  quiet = λ fresh.
      register_session-IsQuiet a.session_id a.registered_at a.peer token (token_id_of t) (user_of t)
        a.control_tx c fresh;
  counted = refl;
}

by_token-Guards :
    (config : ServerConfig) (a : Attempt) (token : Text) (t : Option Token) (c : TunnelCore)
    (l : AuthFailureLimiter)
    → Guards (is_some t) false a c l (by_token config a token t c l)
unfolding by_token
by_token-Guards config a token none c l = record {
  opens = refl;
  shut = λ e. refl;
  quiet = λ fresh. stays-IsQuiet c;
  counted = refl;
}
by_token-Guards config a token (some t) c l = welcome-Guards config a token (some t) c l

credential-Guards :
    (config : ServerConfig) (a : Attempt) (token : Text) (t : Option Token) (c : TunnelCore)
    (l : AuthFailureLimiter) (required admin : Bool)
    → Guards (not required || admin || is_some t) false a c l (
        if not required
        then welcome config a token t c l
        else if admin
        then welcome config a token none c l
        else by_token config a token t c l)
credential-Guards config a token t c l false admin = welcome-Guards config a token t c l
credential-Guards config a token t c l true true = welcome-Guards config a token none c l
credential-Guards config a token t c l true false = by_token-Guards config a token t c l

check_credential-Guards :
    (digest : Text → Text) (config : ServerConfig) (a : Attempt) (token : Text) (c : TunnelCore)
    (l : AuthFailureLimiter)
    → Guards
        (admits digest config token a.verified)
        false
        a
        c
        l
        (check_credential digest config a token c l)
unfolding check_credential secret_eq
check_credential-Guards digest config a token c l =
    credential-Guards config a token (found a.verified) c l config.require_auth
      (digest token == digest config.admin_token)

throttle-Guards :
    (digest : Text → Text) (config : ServerConfig) (a : Attempt) (token : Text) (c : TunnelCore)
    (x : AuthFailureLimiter × Bool)
    → Guards
        (admits digest config token a.verified)
        x.1
        a
        c
        x.0
        (throttle digest config a token c x)
unfolding throttle
throttle-Guards digest config a token c (l, true) = record {
  opens = refl;
  shut = λ e. refl;
  quiet = λ fresh. stays-IsQuiet c;
  counted = refl;
}
throttle-Guards digest config a token c (l, false) =
    check_credential-Guards digest config a token c l

pub auth_frame-Guards :
    (digest : Text → Text) (config : ServerConfig) (a : Attempt) (token version : Text)
    (c : TunnelCore) (l : AuthFailureLimiter)
    → Guards
        (admits digest config token a.verified)
        (is_limited a.peer.ip a.asked_at l).1
        a
        c
        (is_limited a.peer.ip a.asked_at l).0
        (auth_handshake digest config a (frame (ControlFrame.auth token version)) c l)
unfolding auth_handshake
auth_frame-Guards digest config a token version c l =
    throttle-Guards digest config a token c (is_limited a.peer.ip a.asked_at l)

-- The token of an `Auth` frame.
abbrev pub token_of : FirstMessage → Option Text
token_of no_frame = none
token_of (frame (ControlFrame.auth token version)) = some token
token_of (frame _) = none

-- No session, and the routing state and the throttle as they were.
pub record IsTurnedAway (c : TunnelCore) (l : AuthFailureLimiter) (h : Handshake) : Type 0 where
  pub no_session : h.session ≡ none
  pub same_core : h.core ≡ c
  pub same_limiter : h.limiter ≡ l

-- What is promised where the first frame is an `Auth` with this token, and where it is not.
abbrev pub GuardsFirst :
    (digest : Text → Text)
    → ServerConfig
    → Attempt
    → TunnelCore
    → AuthFailureLimiter
    → Handshake
    → Option Text
    → Type 0
GuardsFirst digest config a c l h (some token) =
    Guards (admits digest config token a.verified) (is_limited a.peer.ip a.asked_at l).1 a c
      (is_limited a.peer.ip a.asked_at l).0 h
GuardsFirst digest config a c l h none = IsTurnedAway c l h

-- Whatever the first message of a client is, a handshake opens a session exactly if it is an
-- `Auth` frame, from an address that is not throttled, with a credential that is admitted:
-- authentication is off, the token has the digest of the admin's, or the database knows it.
-- Without a session the routing state is as it was; a failure is counted exactly for an `Auth`
-- frame whose credential was looked at and not admitted; and a valid state stays valid with the
-- owners of all tunnels, where the session's id is not in use.
pub auth_handshake-Guards :
    (digest : Text → Text) (config : ServerConfig) (a : Attempt) (m : FirstMessage) (c : TunnelCore)
    (l : AuthFailureLimiter)
    → GuardsFirst digest config a c l (auth_handshake digest config a m c l) (token_of m)
unfolding auth_handshake
auth_handshake-Guards digest config a no_frame c l = record {
  no_session = refl;
  same_core = refl;
  same_limiter = refl;
}
auth_handshake-Guards digest config a (frame (ControlFrame.auth token version)) c l =
    auth_frame-Guards digest config a token version c l
auth_handshake-Guards digest config a (frame _) c l = record {
  no_session = refl;
  same_core = refl;
  same_limiter = refl;
}
