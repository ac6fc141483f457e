-- ===== src/Control/Register/Heard.antt =====
-- How control/session.rs answers a `RegisterTunnel`: what the client hears is what happened.
use rustunnel.Prelude.{ℕ, ◌≡◌, refl, true, false, Option, none, some, List, [], ◌∷◌, arith}
use rustunnel.Prelude.Eq.{nat_eq, list_eq}
use rustunnel.Core.Types.{Text, Uuid, TunnelProtocol, GroupSpec, Result, ok, err}
use rustunnel.Core.Router.{TunnelCore, TunnelKey}
use rustunnel.Core.Router.Register.{
  Fresh, register_http_tunnel, register_tcp_tunnel, register_udp_tunnel, register_p2p_tunnel,
  register_tcp_solo, register_tcp_grouped, register_tcp_first, register_tcp_join,
}
use rustunnel.Core.Invariant.{Adds}
use rustunnel.Core.Valid.Steps.{Step}
use rustunnel.Protocol.{
  Message, RegisterTunnel, TunnelRegistered, ControlFrame, tunnel_error, tunnel_registered,
}
use rustunnel.Control.Session.{Effect, reply, Handled}
use rustunnel.Control.Register.{answer, refuse}

-- The frames that an effect sends to the client of the session.
abbrev pub replies : List Effect → List ControlFrame
replies [] = []
replies (reply frame ∷ es) = frame ∷ replies es
replies (_ ∷ es) = replies es

-- The tunnel is there, under an id that is told to the client; or nothing has changed, and the
-- client is told so, or loses the connection without an answer.
pub data Answered (s : Uuid) (r : RegisterTunnel) (f : Fresh) (c : TunnelCore) (h : Handled)
    : Type 0 where
  opened :
      (k : TunnelKey) (told : TunnelRegistered)
      → Adds s f.tunnel_id k c h.core
      → Step c h.core
      → told.request_id ≡ r.request_id
      → told.tunnel_id ≡ f.tunnel_id
      → replies h.effects ≡ tunnel_registered told ∷ []
      → h.goes_on ≡ true
      → Answered s r f c h
  unchanged :
      (why : Message)
      → h.core ≡ c
      → replies h.effects ≡ tunnel_error r.request_id why ∷ []
      → h.goes_on ≡ true
      → Answered s r f c h
  broken_off : h.core ≡ c → replies h.effects ≡ [] → h.goes_on ≡ false → Answered s r f c h

pub refuse-Answered :
    (s : Uuid) (r : RegisterTunnel) (f : Fresh) (c : TunnelCore) (why : Text)
    → Answered s r f c (refuse r c why)
refuse-Answered s r f c why = unchanged (Message.text why) refl refl refl

-- What a registration of the core gives, and what is said of it.
pub record Registers {ℓ} {A : Type ℓ} (s : Uuid) (f : Fresh) (c : TunnelCore)
    (r : TunnelCore × Uuid × A) : Type ℓ where
  pub key : TunnelKey
  pub adds : Adds s f.tunnel_id key c r.0
  pub step : Step c r.0
  pub id : r.1 ≡ f.tunnel_id

abbrev pub Says {ℓ} : {A : Type ℓ} → RegisterTunnel → (Uuid → A → List Effect) → Type ℓ
Says {A = A} r say =
    (t : Uuid) (a : A)
    → (told : TunnelRegistered) × (told.request_id ≡ r.request_id)
      × (told.tunnel_id ≡ t)
      × (replies (say t a) ≡ tunnel_registered told ∷ [])

pub answer-Answered {ℓ} :
    {A : Type ℓ} (s : Uuid) (r : RegisterTunnel) (f : Fresh) (c : TunnelCore)
    (m : Result (TunnelCore × Uuid × A)) (say : Uuid → A → List Effect)
    → ((c' : TunnelCore) (t : Uuid) (a : A) → m ≡ ok (c', t, a) → Registers s f c (c', t, a))
    → Says r say
    → Answered s r f c (answer r c m say)
answer-Answered s r f c (err e) say h k = unchanged (Message.error e) refl refl refl
answer-Answered s r f c (ok (c', t, a)) say h k =
    let g = h c' t a refl in
    let (told, request, tunnel, heard) = k t a in
    opened g.key told g.adds g.step request (ground (arith, tunnel, g.id)) heard refl

pub http-id :
    (s : Uuid) (req : Option Text) (p : TunnelProtocol) (g : Option GroupSpec) (f : Fresh)
    (c c' : TunnelCore) (t : Uuid) (sub : Text)
    → register_http_tunnel s req p g f c ≡ ok (c', t, sub)
    → t ≡ f.tunnel_id
unfolding register_http_tunnel
http-id s req p g f c c' t sub e = ground arith

pub tcp-id :
    (s : Uuid) (g : Option GroupSpec) (f : Fresh) (c c' : TunnelCore) (t : Uuid) (port : ℕ)
    → register_tcp_tunnel s g f c ≡ ok (c', t, port)
    → t ≡ f.tunnel_id
unfolding register_tcp_tunnel register_tcp_solo register_tcp_grouped register_tcp_first
    register_tcp_join
tcp-id s none f c c' t port e = ground arith
tcp-id s (some spec) f c c' t port e = ground arith

pub udp-id :
    (s : Uuid) (f : Fresh) (c c' : TunnelCore) (t : Uuid) (port : ℕ)
    → register_udp_tunnel s f c ≡ ok (c', t, port)
    → t ≡ f.tunnel_id
unfolding register_udp_tunnel
udp-id s f c c' t port e = ground arith

pub p2p-id :
    (s : Uuid) (name secret : Text) (f : Fresh) (c c' : TunnelCore) (t : Uuid) (n : Text)
    → register_p2p_tunnel s name secret f c ≡ ok (c', t, n)
    → t ≡ f.tunnel_id
unfolding register_p2p_tunnel
p2p-id s name secret f c c' t n e = ground arith
