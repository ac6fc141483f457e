-- ===== src/Core/Invariant.antt =====
-- What ties the tables of `TunnelCore` (core/router.rs) together: the reverse index, the owners of
-- tunnels, and how one registration or one removal shows in both.
pub mod Adding
pub mod Registered
pub mod Removing
pub mod Sessions
use rustunnel.Prelude.{
  ℕ, ◌≡◌, refl, ◌↔◌, Bool, true, false, ◌&&◌, Option, none, some, arith, if◌then◌else◌, is_some,
  nat_beq, ◌+◌, ◌≤◌, contains, count, contains-append, ◌∷◌, [],
}
use rustunnel.Prelude.Eq.{Eq, ◌==◌, eq_iff, nat_eq, list_eq}
use rustunnel.Prelude.Map.{get, apply_at, contains_key}
use rustunnel.Core.Types.{Text, Uuid, GroupMember, SessionInfo}
use rustunnel.Core.Routes.{member_at}
use rustunnel.Core.Router.{TunnelCore, TunnelKey, P2pPublisher, push_tunnel}

abbrev pub key_beq : TunnelKey → TunnelKey → Bool
key_beq (TunnelKey.http s) (TunnelKey.http t) = s == t
key_beq (TunnelKey.tcp p) (TunnelKey.tcp q) = nat_beq p q
key_beq (TunnelKey.udp p) (TunnelKey.udp q) = nat_beq p q
key_beq (TunnelKey.p2p s) (TunnelKey.p2p t) = s == t
key_beq _ _ = false

pub key_beq_iff : (k j : TunnelKey) → (key_beq k j ≡ true) ↔ (k ≡ j)
key_beq_iff (TunnelKey.http s) (TunnelKey.http t) = ground (arith, eq_iff s t)
key_beq_iff (TunnelKey.p2p s) (TunnelKey.p2p t) = ground (arith, eq_iff s t)
key_beq_iff (TunnelKey.tcp s) k = ground arith
key_beq_iff (TunnelKey.udp s) k = ground arith
key_beq_iff _ _ = ground arith

instance abbrev pub key_eq : Eq TunnelKey
key_eq = record { same = key_beq; same_iff = key_beq_iff }

abbrev pub owner_of : Option GroupMember → Option Uuid
owner_of none = none
owner_of (some m) = some m.info.session_id

abbrev pub publisher_owner : Uuid → Option P2pPublisher → Option Uuid
publisher_owner t none = none
publisher_owner t (some p) =
    if nat_beq p.tunnel_info.tunnel_id t then some p.tunnel_info.session_id else none

-- The session of the tunnel that the tables route to under a key and a tunnel id, if they do.
abbrev pub holder : TunnelCore → TunnelKey → Uuid → Option Uuid
holder c (TunnelKey.http s) t = owner_of (member_at s t c.http_routes)
holder c (TunnelKey.tcp p) t = owner_of (member_at p t c.tcp_routes)
holder c (TunnelKey.udp p) t = owner_of (member_at p t c.udp_routes)
holder c (TunnelKey.p2p n) t = publisher_owner t (get n c.p2p_tunnels)

abbrev pub points_to : Option TunnelKey → TunnelKey → Bool
points_to none k = false
points_to (some j) k = key_beq j k

-- Whether a live session lists a tunnel as its own.
abbrev pub lists : Uuid → Option SessionInfo → Bool
lists t none = false
lists t (some s) = contains t s.tunnels

-- The reverse index names the key under which a tunnel is routed, if any does.
pub record IsIndexed (c : TunnelCore) : Type 0 where
  pub indexed :
      (k : TunnelKey) (t : Uuid) → is_some (holder c k t) ≡ points_to (get t c.tunnel_index) k

-- Moreover every tunnel that is routed belongs to a live session which lists it.
pub record IsCoherent (c : TunnelCore) : Type 0 where
  pub index : IsIndexed c
  pub open index use *
  pub owned :
      (k : TunnelKey) (t s : Uuid) → holder c k t ≡ some s → lists t (get s c.sessions) ≡ true

-- How often a port is in the pool or routed.
abbrev pub tcp_uses : ℕ → TunnelCore → ℕ
tcp_uses p c = count p c.available_tcp_ports + (if contains_key p c.tcp_routes then 1 else 0)

abbrev pub udp_uses : ℕ → TunnelCore → ℕ
udp_uses p c = count p c.available_udp_ports + (if contains_key p c.udp_routes then 1 else 0)

-- No port is both free and routed, or free twice.
pub record HasSinglePorts (c : TunnelCore) : Type 0 where
  pub tcp_single : (p : ℕ) → tcp_uses p c ≤ 1
  pub udp_single : (p : ℕ) → udp_uses p c ≤ 1

-- `c'` is `c` with one more tunnel, of session `s`, routed under `k`.
pub record Adds (s t : Uuid) (k : TunnelKey) (c c' : TunnelCore) : Type 0 where
  pub live : is_some (get s c.sessions) ≡ true
  pub index :
      (u : Uuid) → get u c'.tunnel_index ≡ (if nat_beq t u then some k else get u c.tunnel_index)
  pub holds :
      (j : TunnelKey) (u : Uuid)
      → holder c' j u ≡ (if key_beq k j && nat_beq t u then some s else holder c j u)
  pub sessions :
      (r : Uuid) → get r c'.sessions ≡ apply_at (push_tunnel t) (nat_beq s r) (get r c.sessions)

-- `c'` is `c` without one tunnel.
pub record Drops (t : Uuid) (c c' : TunnelCore) : Type 0 where
  pub index :
      (u : Uuid) → get u c'.tunnel_index ≡ (if nat_beq t u then none else get u c.tunnel_index)
  pub holds :
      (j : TunnelKey) (u : Uuid) → holder c' j u ≡ (if nat_beq t u then none else holder c j u)
  pub sessions : (r : Uuid) → get r c'.sessions ≡ get r c.sessions

lists-push :
    (t u : Uuid) (b : Bool) (o : Option SessionInfo)
    → lists u o ≡ true
    → lists u (apply_at (push_tunnel t) b o) ≡ true
lists-push t u b none h = h
lists-push t u false (some s) h = h
lists-push t u true (some s) h = ground (arith, contains-append u s.tunnels (t ∷ []))

lists-push_self :
    (t : Uuid) (o : Option SessionInfo)
    → is_some o ≡ true
    → lists t (apply_at (push_tunnel t) true o) ≡ true
lists-push_self t none h = cc
lists-push_self t (some s) h = ground (arith, contains-append t s.tunnels (t ∷ []))

-- A tunnel that the index does not know yet may be added to a live session.
pub Adds-IsCoherent :
    (s t : Uuid) (k : TunnelKey) (c c' : TunnelCore)
    → get t c.tunnel_index ≡ none
    → Adds s t k c c'
    → IsCoherent c
    → IsCoherent c'
Adds-IsCoherent s t k c c' fresh a v = record {
  index = record {
    indexed = λ j u. ground (arith, a.index u, a.holds j u, v.indexed j u, key_beq_iff k j);
  };
  owned = λ j u r h. ground (
    arith,
    a.holds j u,
    a.sessions r,
    v.owned j u r,
    lists-push t u (nat_beq s r) (get r c.sessions),
    lists-push_self t (get s c.sessions),
    a.live,
  );
}

pub Drops-IsIndexed : (t : Uuid) (c c' : TunnelCore) → Drops t c c' → IsIndexed c → IsIndexed c'
Drops-IsIndexed t c c' d v = record {
  indexed = λ j u. ground (arith, d.index u, d.holds j u, v.indexed j u);
}

pub Drops-IsCoherent : (t : Uuid) (c c' : TunnelCore) → Drops t c c' → IsCoherent c → IsCoherent c'
Drops-IsCoherent t c c' d v = record {
  index = Drops-IsIndexed t c c' d v.index;
  owned = λ j u r h. ground (arith, d.holds j u, d.sessions r, v.owned j u r);
}

-- A step that changes neither the owners of tunnels, the index nor what the sessions list.
pub record KeepsOwners (c c' : TunnelCore) : Type 0 where
  pub index : (u : Uuid) → get u c'.tunnel_index ≡ get u c.tunnel_index
  pub holds : (j : TunnelKey) (u : Uuid) → holder c' j u ≡ holder c j u
  pub listed : (r u : Uuid) → lists u (get r c.sessions) ≡ true → lists u (get r c'.sessions) ≡ true

pub KeepsOwners-IsCoherent : (c c' : TunnelCore) → KeepsOwners c c' → IsCoherent c → IsCoherent c'
KeepsOwners-IsCoherent c c' d v = record {
  index = record { indexed = λ j u. ground (arith, d.index u, d.holds j u, v.indexed j u) };
  owned = λ j u r h. ground (arith, d.holds j u, d.listed r u, v.owned j u r);
}
