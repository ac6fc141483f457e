-- ===== src/Core/Quota.antt =====
-- The limit on the tunnels of a session (core/router.rs, `check_session_limit`), and what closing a
-- tunnel gives back.
use rustunnel.Prelude.{
  ℕ, suc, ◌≤◌, ◌<◌, ◌≡◌, refl, ◌∙◌, Option, none, [], ◌∷◌, arith, length, length-append,
  Option-cases, inl, inr,
}
use rustunnel.Prelude.Eq.{nat_eq}
use rustunnel.Prelude.Map.{get}
use rustunnel.Core.Types.{
  Text, Uuid, TunnelProtocol, GroupSpec, Result, Returns, Returns-bind, Returns-ok, Returns-both,
  Returns-const, ok, ◌>>=◌,
}
use rustunnel.Core.Router.{TunnelCore, TunnelKey, check_session_limit}
use rustunnel.Core.Router.Register.{
  Fresh, register_http_tunnel, register_tcp_tunnel, register_udp_tunnel, register_p2p_tunnel,
}
use rustunnel.Core.Router.Unregister.{remove_tunnel, remove_route, unindex, close_tcp, close_udp}
use rustunnel.Core.Invariant.{Adds, holder, Adds-IsCoherent, tcp_uses}
use rustunnel.Core.Invariant.Registered.{
  register_http_tunnel-Adds, register_tcp_tunnel-Adds, register_udp_tunnel-Adds,
  register_p2p_tunnel-Adds,
}
use rustunnel.Core.Invariant.Removing.{remove_tunnel-Drops}
use rustunnel.Core.Invariant.Sessions.{tunnels_of}
use rustunnel.Core.Ports.{register_tcp_tunnel-SamePorts, remove_tunnel-SamePorts}
use rustunnel.Core.Valid.{IsValid}

-- How many tunnels a session lists.
abbrev pub listed : Uuid → TunnelCore → ℕ
listed s c = length (tunnels_of (get s c.sessions))

under_limit :
    (s : Uuid) (c : TunnelCore) (x : Unit {0})
    → check_session_limit s c ≡ ok x
    → listed s c < c.max_tunnels_per_session
unfolding check_session_limit
under_limit s c x h = ground arith

length-pushed :
    (s t : Uuid) (k : TunnelKey) (c c' : TunnelCore)
    → Adds s t k c c'
    → listed s c' ≡ suc (listed s c)
length-pushed s t k c c' a = elim (Option-cases (get s c.sessions)) [
  | inl e ↦ absurd (ground (arith, a.live))
  | inr (session, e) ↦ ground (arith, a.sessions s, length-append session.tunnels (t ∷ []))
]

abbrev pub WithinLimit : Uuid → TunnelCore → TunnelCore → Type 0
WithinLimit s c c' = (listed s c' ≡ suc (listed s c)) × (listed s c' ≤ c.max_tunnels_per_session)

-- A registration that succeeds has passed the check of the limit first.
checked {ℓ κ} :
    {A : Type ℓ} (P : A → Type κ) (s : Uuid) (c : TunnelCore) (rest : Result A)
    → (listed s c < c.max_tunnels_per_session → Returns P rest)
    → Returns P (check_session_limit s c >>= λ _. rest)
checked P s c rest h = Returns-bind P (check_session_limit s c) _ λ x e. h (under_limit s c x e)

added_WithinLimit :
    (s t : Uuid) (k : TunnelKey) (c c' : TunnelCore)
    → Adds s t k c c'
    → listed s c < c.max_tunnels_per_session
    → WithinLimit s c c'
added_WithinLimit s t k c c' a h = ground (arith, length-pushed s t k c c' a)

max-remove_route :
    (t : Uuid) (k : TunnelKey) (c : TunnelCore)
    → (remove_route t k c).max_tunnels_per_session ≡ c.max_tunnels_per_session
unfolding remove_route close_tcp close_udp
max-remove_route t (TunnelKey.http s) c = refl
max-remove_route t (TunnelKey.tcp p) c = ground arith
max-remove_route t (TunnelKey.udp p) c = ground arith
max-remove_route t (TunnelKey.p2p s) c = refl

max-remove_tunnel :
    (t : Uuid) (c : TunnelCore)
    → (remove_tunnel t c).max_tunnels_per_session ≡ c.max_tunnels_per_session
unfolding remove_tunnel
max-remove_tunnel t c = elim (Option-cases (get t c.tunnel_index)) [
  | inl e ↦ rw (e, remove_tunnel) refl
  | inr (k, e) ↦ rw (e, remove_tunnel) (max-remove_route t k (unindex t c))
]

module _ {A : Type 0} (s t : Uuid) (c : TunnelCore) (key : TunnelCore × Uuid × A → TunnelKey)
    (rest : Result (TunnelCore × Uuid × A)) where
  -- A registration which checks the limit and adds the tunnel stays within the limit.
  limited :
      let m = check_session_limit s c >>= λ _. rest in
      Returns (λ r. Adds s t (key r) c r.0) m → Returns (λ r. WithinLimit s c r.0) m
  limited adds =
      Returns-both _ (λ _. listed s c < c.max_tunnels_per_session) _ _
        (λ r a h. added_WithinLimit s t _ c r.0 a h) adds
        (checked _ s c rest λ h. Returns-const _ rest h)

-- In a valid state a registration of any of the four kinds that succeeds adds one to the tunnels
-- that the session lists, and these are then no more than the limit.
pub register-limit :
    (s : Uuid) (req : Option Text) (p : TunnelProtocol) (g : Option GroupSpec) (name secret : Text)
    (f : Fresh) (c : TunnelCore)
    → IsValid c
    → Returns (λ r. WithinLimit s c r.0) (register_http_tunnel s req p g f c)
      × Returns (λ r. WithinLimit s c r.0) (register_tcp_tunnel s g f c)
      × Returns (λ r. WithinLimit s c r.0) (register_udp_tunnel s f c)
      × Returns (λ r. WithinLimit s c r.0) (register_p2p_tunnel s name secret f c)
unfolding register_http_tunnel register_tcp_tunnel register_udp_tunnel register_p2p_tunnel
register-limit s req p g name secret f c v = (
  limited s f.tunnel_id c _ _ (register_http_tunnel-Adds s req p g f c),
  limited s f.tunnel_id c _ _ (register_tcp_tunnel-Adds s g f c v.ports),
  limited s f.tunnel_id c _ _ (register_udp_tunnel-Adds s f c v.ports),
  limited s f.tunnel_id c (λ _. TunnelKey.p2p name) _ (register_p2p_tunnel-Adds s name secret f c),
)

-- In a valid state the closing of a tunnel does not change what the check of the limit returns,
-- for any session: the place of a closed tunnel is not given back.
pub limit-remove_tunnel :
    (s t : Uuid) (c : TunnelCore)
    → IsValid c
    → check_session_limit s (remove_tunnel t c) ≡ check_session_limit s c
unfolding check_session_limit
limit-remove_tunnel s t c v =
    ground (arith, (remove_tunnel-Drops t c v.coherent.index).sessions s, max-remove_tunnel t c)

-- In a valid state, a TCP registration that succeeds with a fresh id, followed by the removal of
-- that tunnel, leaves every tunnel held and indexed and every TCP port used as often as before.
pub register_tcp-remove :
    (s : Uuid) (g : Option GroupSpec) (f : Fresh) (c c' : TunnelCore) (t : Uuid) (port : ℕ)
    → IsValid c
    → get f.tunnel_id c.tunnel_index ≡ none
    → register_tcp_tunnel s g f c ≡ ok (c', t, port)
    → let d = remove_tunnel f.tunnel_id c' in
      ((k : TunnelKey) (u : Uuid) → holder d k u ≡ holder c k u)
      × ((u : Uuid) → get u d.tunnel_index ≡ get u c.tunnel_index)
      × ((p : ℕ) → tcp_uses p d ≡ tcp_uses p c)
register_tcp-remove s g f c c' t port v fresh e =
    let m = register_tcp_tunnel s g f c in
    let a : Adds s f.tunnel_id (TunnelKey.tcp port) c c' =
      Returns-ok _ m e (register_tcp_tunnel-Adds s g f c v.ports) in
    let p = Returns-ok _ m e (register_tcp_tunnel-SamePorts s g f c v.ports) in
    let v' = Adds-IsCoherent s f.tunnel_id (TunnelKey.tcp port) c c' fresh a v.coherent in
    let d = remove_tunnel-Drops f.tunnel_id c' v'.index in
    let q = remove_tunnel-SamePorts f.tunnel_id c' v'.index in
    (
      λ k u. ground (arith, a.holds k u, d.holds k u, v.coherent.indexed k u),
      λ u. ground (arith, a.index u, d.index u),
      λ r. q.tcp_same r ∙ p.tcp_same r,
    )
