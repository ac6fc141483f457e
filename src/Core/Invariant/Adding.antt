-- ===== src/Core/Invariant/Adding.antt =====
-- Every registration of core/router.rs adds exactly one tunnel to the tables.
use rustunnel.Prelude.{
  ℕ, ◌≡◌, refl, ◌∙◌, ap, true, ◌&&◌, Option, none, some, arith, if◌then◌else◌, nat_beq, is_some,
}
use rustunnel.Prelude.Eq.{◌==◌, eq_iff, nat_eq, list_eq}
use rustunnel.Prelude.Map.{Map, get, insert, get-insert, get-modify, get-singleton}
use rustunnel.Core.Types.{Text, Uuid, Instant, TunnelInfo, GroupMember, TunnelGroup, GroupSpec, ok}
use rustunnel.Core.Members.{healthy_with, new_solo, new_with_member, with_health_spec}
use rustunnel.Core.Routes.{member_at, member_at-join, member_at-insert}
use rustunnel.Core.Router.{TunnelCore, TunnelKey, push_tunnel}
use rustunnel.Core.Router.Register.{index_tunnel, upsert_http, first_group}
use rustunnel.Core.Invariant.{owner_of, publisher_owner, holder, key_beq, Adds}

-- The members of a new group: the one tunnel.
pub solo_owner :
    (name : Text) (info : TunnelInfo) (u : Uuid)
    → owner_of (get u (new_solo name info).members)
      ≡ (if nat_beq info.tunnel_id u then some info.session_id else none)
unfolding new_solo healthy_with
solo_owner name info u = ground (arith, get-singleton info.tunnel_id u (healthy_with info))

pub with_member_owner :
    (name : Text) (kh : Option Text) (m : GroupMember) (u : Uuid)
    → owner_of (get u (new_with_member name kh m).members)
      ≡ (if nat_beq m.info.tunnel_id u then some m.info.session_id else none)
unfolding new_with_member
with_member_owner name kh m u = ground (arith, get-singleton m.info.tunnel_id u m)

first_group_owner :
    (name : Text) (now : Instant) (info : TunnelInfo) (g : Option GroupSpec) (u : Uuid)
    → owner_of (get u (first_group name now info g).members)
      ≡ (if nat_beq info.tunnel_id u then some info.session_id else none)
unfolding first_group with_health_spec
first_group_owner name now info none u = solo_owner name info u
first_group_owner name now info (some spec) u =
    with_member_owner spec.group_name (some spec.key_hash)
      (with_health_spec now info spec.health_check) u

pub upsert_http-owner :
    (sub : Text) (now : Instant) (info : TunnelInfo) (g : Option GroupSpec)
    (r : Map Text TunnelGroup) {r' : Map Text TunnelGroup}
    → upsert_http sub now info g r ≡ ok r'
    → (j : Text) (u : Uuid)
    → owner_of (member_at j u r') ≡ (
        if sub == j && nat_beq info.tunnel_id u
        then some info.session_id
        else owner_of (member_at j u r))
unfolding upsert_http with_health_spec
upsert_http-owner sub now info none r h j u = ground (
  arith,
  first_group_owner sub now info none u,
  member_at-insert sub j u (first_group sub now info none) r,
  eq_iff sub j,
)
upsert_http-owner sub now info (some spec) r h j u = ground (
  arith,
  first_group_owner sub now info (some spec) u,
  member_at-insert sub j u (first_group sub now info (some spec)) r,
  member_at-join sub j info.tunnel_id u (with_health_spec now info spec.health_check) r,
  eq_iff sub j,
)

holder-index_tunnel :
    (s t : Uuid) (k : TunnelKey) (b : TunnelCore) (j : TunnelKey) (u : Uuid)
    → holder (index_tunnel s t k b) j u ≡ holder b j u
unfolding index_tunnel
holder-index_tunnel s t k b (TunnelKey.http n) u = refl
holder-index_tunnel s t k b (TunnelKey.tcp p) u = refl
holder-index_tunnel s t k b (TunnelKey.udp p) u = refl
holder-index_tunnel s t k b (TunnelKey.p2p n) u = refl

-- A state `b` that differs from `c` in one routing table, where it holds one more tunnel.
module _ (s t : Uuid) (c b : TunnelCore) where
  abbrev pub OneMore : TunnelKey → TunnelKey → Uuid → Type 0
  OneMore k j u = holder b j u ≡ (if key_beq k j && nat_beq t u then some s else holder c j u)

  pub http_added :
      (sub : Text)
      → b.tcp_routes ≡ c.tcp_routes
      → b.udp_routes ≡ c.udp_routes
      → b.p2p_tunnels ≡ c.p2p_tunnels
      → ((j : Text) (u : Uuid) → OneMore (TunnelKey.http sub) (TunnelKey.http j) u)
      → (j : TunnelKey) (u : Uuid) → OneMore (TunnelKey.http sub) j u
  http_added sub et eu ep h (TunnelKey.http n) u = h n u
  http_added sub et eu ep h (TunnelKey.tcp p) u = ap (λ r. owner_of (member_at p u r)) et
  http_added sub et eu ep h (TunnelKey.udp p) u = ap (λ r. owner_of (member_at p u r)) eu
  http_added sub et eu ep h (TunnelKey.p2p n) u = ap (λ r. publisher_owner u (get n r)) ep

  pub tcp_added :
      (port : ℕ)
      → b.http_routes ≡ c.http_routes
      → b.udp_routes ≡ c.udp_routes
      → b.p2p_tunnels ≡ c.p2p_tunnels
      → ((j : ℕ) (u : Uuid) → OneMore (TunnelKey.tcp port) (TunnelKey.tcp j) u)
      → (j : TunnelKey) (u : Uuid) → OneMore (TunnelKey.tcp port) j u
  tcp_added port eh eu ep h (TunnelKey.http n) u = ap (λ r. owner_of (member_at n u r)) eh
  tcp_added port eh eu ep h (TunnelKey.tcp p) u = h p u
  tcp_added port eh eu ep h (TunnelKey.udp p) u = ap (λ r. owner_of (member_at p u r)) eu
  tcp_added port eh eu ep h (TunnelKey.p2p n) u = ap (λ r. publisher_owner u (get n r)) ep

  pub udp_added :
      (port : ℕ)
      → b.http_routes ≡ c.http_routes
      → b.tcp_routes ≡ c.tcp_routes
      → b.p2p_tunnels ≡ c.p2p_tunnels
      → ((j : ℕ) (u : Uuid) → OneMore (TunnelKey.udp port) (TunnelKey.udp j) u)
      → (j : TunnelKey) (u : Uuid) → OneMore (TunnelKey.udp port) j u
  udp_added port eh et ep h (TunnelKey.http n) u = ap (λ r. owner_of (member_at n u r)) eh
  udp_added port eh et ep h (TunnelKey.tcp p) u = ap (λ r. owner_of (member_at p u r)) et
  udp_added port eh et ep h (TunnelKey.udp p) u = h p u
  udp_added port eh et ep h (TunnelKey.p2p n) u = ap (λ r. publisher_owner u (get n r)) ep

  pub p2p_added :
      (name : Text)
      → b.http_routes ≡ c.http_routes
      → b.tcp_routes ≡ c.tcp_routes
      → b.udp_routes ≡ c.udp_routes
      → ((j : Text) (u : Uuid) → OneMore (TunnelKey.p2p name) (TunnelKey.p2p j) u)
      → (j : TunnelKey) (u : Uuid) → OneMore (TunnelKey.p2p name) j u
  p2p_added name eh et eu h (TunnelKey.http n) u = ap (λ r. owner_of (member_at n u r)) eh
  p2p_added name eh et eu h (TunnelKey.tcp p) u = ap (λ r. owner_of (member_at p u r)) et
  p2p_added name eh et eu h (TunnelKey.udp p) u = ap (λ r. owner_of (member_at p u r)) eu
  p2p_added name eh et eu h (TunnelKey.p2p n) u = h n u

-- A tunnel that is put under its key in the tables and then indexed has been added.
pub index_tunnel-Adds :
    (s t : Uuid) (k : TunnelKey) (c b : TunnelCore)
    → is_some (get s c.sessions) ≡ true
    → b.tunnel_index ≡ c.tunnel_index
    → b.sessions ≡ c.sessions
    → ((j : TunnelKey) (u : Uuid)
        → holder b j u ≡ (if key_beq k j && nat_beq t u then some s else holder c j u))
    → Adds s t k c (index_tunnel s t k b)
unfolding index_tunnel
index_tunnel-Adds s t k c b live ei es h = record {
  live = live;
  index = λ u. ground (arith, get-insert t u k b.tunnel_index);
  holds = λ j u. holder-index_tunnel s t k b j u ∙ h j u;
  sessions = λ r. ground (arith, get-modify s r (push_tunnel t) b.sessions);
}

-- A route on a port that has none, whose group has one member.
pub inserted_owner :
    (s t : Uuid) (port : ℕ) (group : TunnelGroup) (r : Map ℕ TunnelGroup)
    → get port r ≡ none
    → ((u : Uuid) → owner_of (get u group.members) ≡ (if nat_beq t u then some s else none))
    → (j : ℕ) (u : Uuid)
    → owner_of (member_at j u (insert port group r))
      ≡ (if nat_beq port j && nat_beq t u then some s else owner_of (member_at j u r))
inserted_owner s t port group r free one j u =
    ground (arith, member_at-insert port j u group r, one u)
