-- ===== src/Control/Register/Tokens.antt =====
-- Which tokens may register a tunnel (control/session.rs).
use rustunnel.Prelude.{
  ◌≡◌, Bool, true, false, not, ◌&&◌, ◌||◌, Option, none, some, List, [], ◌∷◌, codes, is_some,
}
use rustunnel.Prelude.Eq.{◌==◌, list_eq, nat_eq}
use rustunnel.Core.Types.{Uuid}
use rustunnel.Core.Router.{TunnelCore}
use rustunnel.Core.Router.Register.{Fresh}
use rustunnel.Protocol.{RegisterTunnel, ControlFrame}
use rustunnel.Control.Billing.{HobbyGate, Queries, evaluate_hobby_limits}
use rustunnel.Control.Session.{Token, SessionCtx, Outside}
use rustunnel.Control.Register.{Permit, granted, refused, failed, permitted, has_expired}
use rustunnel.Control.Register.Heard.{replies}

-- The limits were read and none is reached.
abbrev pub unblocked : Option HobbyGate → Bool
unblocked none = false
unblocked (some gate) = not (is_some gate.block)

abbrev pub user_fits : RegisterTunnel → Queries → Option Uuid → Bool
user_fits r q none = true
user_fits r q (some user) = unblocked (evaluate_hobby_limits q r.subdomain)

-- An active token that is unlimited, or that has not expired and whose user has no limit reached.
abbrev pub fits : RegisterTunnel → Outside → Token → Bool
fits r o token =
    token.status == codes "active"
    && (token.unlimited
        || not (has_expired o.utc_now token.expires_at) && user_fits r o.queries token.user_id)

abbrev pub announces : List ControlFrame → Bool
announces [] = false
announces (ControlFrame.tunnel_registered told ∷ frames) = true
announces (_ ∷ frames) = announces frames

abbrev is_granted : Permit → Bool
is_granted (granted notice reports) = true
is_granted (refused why reports) = false
is_granted failed = false

-- Nothing happens but that the client may be told why.
Idle : SessionCtx → RegisterTunnel → Fresh → TunnelCore → Permit → Type 0
Idle ctx r f c permit =
    ((permitted ctx r f permit c).core ≡ c)
    × (announces (replies (permitted ctx r f permit c).effects) ≡ false)
