-- ===== src/Core/Invariant/Removing.antt =====
-- `remove_tunnel` of core/router.rs takes exactly one tunnel out of the tables.
use rustunnel.Prelude.{
  ◌≡◌, refl, ◌∙◌, ap, true, false, ◌&&◌, Option, none, some, arith, if◌then◌else◌, nat_beq, is_some,
  Option-cases, inl, inr,
}
use rustunnel.Prelude.Eq.{eq_iff, nat_eq, list_eq}
use rustunnel.Prelude.Map.{get, get-remove}
use rustunnel.Core.Types.{Uuid}
use rustunnel.Core.Routes.{member_at-leave}
use rustunnel.Core.Router.{TunnelCore, TunnelKey, P2pPublisher}
use rustunnel.Core.Router.Unregister.{remove_route, remove_tunnel, unindex}
use rustunnel.Core.Invariant.{publisher_owner, holder, key_beq, key_beq_iff, IsIndexed, Drops}

-- What a removal under a key leaves in the tables.
remaining : TunnelKey → Uuid → TunnelKey → Uuid → Option Uuid → Option Uuid
remaining k t j u o = if key_beq k j && nat_beq t u then none else o

publisher_is :
    (t u : Uuid) (o : Option P2pPublisher)
    → is_some (publisher_owner t o) ≡ true
    → nat_beq t u ≡ false
    → publisher_owner u o ≡ none
publisher_is t u none h n = refl
publisher_is t u (some p) h n = ground arith

holder-remove_route :
    (t : Uuid) (k : TunnelKey) (c : TunnelCore)
    → is_some (holder c k t) ≡ true
    → (j : TunnelKey) (u : Uuid)
    → holder (remove_route t k c) j u ≡ remaining k t j u (holder c j u)
unfolding remove_route remaining
holder-remove_route t (TunnelKey.http s) c h (TunnelKey.http n) u =
    ground (arith, member_at-leave s n t u c.http_routes)
holder-remove_route t (TunnelKey.http s) c h _ u = refl
holder-remove_route t (TunnelKey.tcp p) c h (TunnelKey.tcp q) u =
    ground (arith, member_at-leave p q t u c.tcp_routes)
holder-remove_route t (TunnelKey.tcp p) c h _ u = ground arith
holder-remove_route t (TunnelKey.udp p) c h (TunnelKey.udp q) u =
    ground (arith, member_at-leave p q t u c.udp_routes)
holder-remove_route t (TunnelKey.udp p) c h _ u = ground arith
holder-remove_route t (TunnelKey.p2p s) c h (TunnelKey.p2p n) u =
    ground (arith, get-remove s n c.p2p_tunnels, publisher_is t u (get s c.p2p_tunnels), eq_iff s n)
holder-remove_route t (TunnelKey.p2p s) c h _ u = refl

index-remove_route :
    (t : Uuid) (k : TunnelKey) (c : TunnelCore) → (remove_route t k c).tunnel_index ≡ c.tunnel_index
unfolding remove_route
index-remove_route t (TunnelKey.http s) c = refl
index-remove_route t (TunnelKey.tcp p) c = ground arith
index-remove_route t (TunnelKey.udp p) c = ground arith
index-remove_route t (TunnelKey.p2p s) c = refl

sessions-remove_route :
    (t : Uuid) (k : TunnelKey) (c : TunnelCore) → (remove_route t k c).sessions ≡ c.sessions
unfolding remove_route
sessions-remove_route t (TunnelKey.http s) c = refl
sessions-remove_route t (TunnelKey.tcp p) c = ground arith
sessions-remove_route t (TunnelKey.udp p) c = ground arith
sessions-remove_route t (TunnelKey.p2p s) c = refl

-- Only the key that the index names can hold the tunnel.
held_nowhere_else :
    (t : Uuid) (k : TunnelKey) (c : TunnelCore)
    → IsIndexed c
    → get t c.tunnel_index ≡ some k
    → (j : TunnelKey) → key_beq k j ≡ false
    → holder c j t ≡ none
held_nowhere_else t k c v e j n = ground (arith, v.indexed j t)

holder-unindex :
    (t : Uuid) (c : TunnelCore) (j : TunnelKey) (u : Uuid) → holder (unindex t c) j u ≡ holder c j u
holder-unindex t c (TunnelKey.http n) u = refl
holder-unindex t c (TunnelKey.tcp p) u = refl
holder-unindex t c (TunnelKey.udp p) u = refl
holder-unindex t c (TunnelKey.p2p n) u = refl

holder-removed :
    (t : Uuid) (k : TunnelKey) (c : TunnelCore)
    → IsIndexed c
    → get t c.tunnel_index ≡ some k
    → (j : TunnelKey) (u : Uuid)
    → holder (remove_route t k (unindex t c)) j u ≡ (if nat_beq t u then none else holder c j u)
unfolding remaining
holder-removed t k c v e j u =
    let there : is_some (holder (unindex t c) k t) ≡ true =
      ground (arith, holder-unindex t c k t, v.indexed k t, key_beq_iff k k) in
    ground (
      arith,
      holder-remove_route t k (unindex t c) there j u,
      holder-unindex t c j u,
      held_nowhere_else t k c v e j,
    )

remove_indexed-Drops :
    (t : Uuid) (k : TunnelKey) (c : TunnelCore)
    → IsIndexed c
    → get t c.tunnel_index ≡ some k
    → Drops t c (remove_route t k (unindex t c))
remove_indexed-Drops t k c v e = record {
  index = λ u. ap (get u) (index-remove_route t k (unindex t c)) ∙ get-remove t u c.tunnel_index;
  holds = holder-removed t k c v e;
  sessions = λ r. ap (get r) (sessions-remove_route t k (unindex t c));
}

-- In an indexed state `remove_tunnel` takes the tunnel, known or not, out of the routes and the
-- index, and changes no other tunnel, index entry or session.
pub remove_tunnel-Drops : (t : Uuid) (c : TunnelCore) → IsIndexed c → Drops t c (remove_tunnel t c)
unfolding remove_tunnel
remove_tunnel-Drops t c v = elim (Option-cases (get t c.tunnel_index)) [
  | inl e ↦
      rw (e, remove_tunnel)
        (record {
          index = λ u. ground arith;
          holds = λ j u. ground (arith, v.indexed j t);
          sessions = λ r. refl;
        })
  | inr (k, e) ↦ rw (e, remove_tunnel) (remove_indexed-Drops t k c v e)
]
