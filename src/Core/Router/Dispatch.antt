-- ===== src/Core/Router/Dispatch.antt =====
-- crates/rustunnel-server/src/core/router.rs: the resolution of public connections to a tunnel and
-- the control channel of its session, the counters of tunnels, and the strategy for NAT pairs.
use rustunnel.Prelude.{
  ℕ, zero, suc, ◌+◌, ◌%◌, Bool, true, false, ◌&&◌, ◌||◌, Option, none, some, List, [], ◌∷◌, ◌++◌,
  if◌then◌else◌, length, codes,
}
use rustunnel.Prelude.Eq.{◌==◌, nat_eq, list_eq}
use rustunnel.Prelude.Map.{Map, get, modify, contains_key}
use rustunnel.Core.Types.{Text, Uuid, TunnelInfo, GroupMember, TunnelGroup}
use rustunnel.Core.Members.{u64_mod, LiveTunnelMeter, meter_snapshot, zeros}
use rustunnel.Core.Router.{TunnelCore, TunnelKey, P2pPublisher}
use rustunnel.Core.Router.Health.{group_at, change_group, on_member, find_in}

unfoldable pub healthy_infos : Map Uuid GroupMember → List TunnelInfo
healthy_infos [] = []
healthy_infos ((id, m) ∷ ms) =
    let rest = healthy_infos ms in if m.healthy then m.info ∷ rest else rest

abbrev pub nth {ℓ} : {A : Type ℓ} → List A → ℕ → Option A
nth [] i = none
nth (x ∷ xs) zero = some x
nth (x ∷ xs) (suc i) = nth xs i

-- `choose(&mut rng)`: the generator's number picks one of the items, if there is any.
abbrev pub choose {ℓ} : {A : Type ℓ} → ℕ → List A → Option A
choose pick [] = none
choose pick (x ∷ xs) = nth (x ∷ xs) (pick % length (x ∷ xs))

abbrev pub count_request_of : TunnelInfo → TunnelInfo
count_request_of i = record i { request_count = (i.request_count + 1) % u64_mod }

abbrev pub count_request : GroupMember → GroupMember
count_request m = record m { info = count_request_of m.info }

-- The picked member's counter, which its clones share, is raised once its session was found.
unfoldable pub dispatch_member :
    ℕ → TunnelKey → TunnelGroup → TunnelCore → TunnelCore × Option (TunnelInfo × ℕ)
unfolding healthy_infos
dispatch_member pick key g c = elim (choose pick (healthy_infos g.members)) [
  | none ↦ (c, none)
  | some info ↦ elim (get info.session_id c.sessions) [
    | none ↦ (c, none)
    | some session ↦ (
      change_group key (on_member info.tunnel_id count_request) c,
      some (count_request_of info, session.control_tx),
    )
  ]
]

unfoldable pub resolve : ℕ → TunnelKey → TunnelCore → TunnelCore × Option (TunnelInfo × ℕ)
unfolding dispatch_member
resolve pick key c = elim (group_at key c) [
  | none ↦ (c, none)
  | some g ↦ dispatch_member pick key g c
]

abbrev pub resolve_http : ℕ → Text → TunnelCore → TunnelCore × Option (TunnelInfo × ℕ)
resolve_http pick subdomain = resolve pick (TunnelKey.http subdomain)

abbrev pub resolve_tcp : ℕ → ℕ → TunnelCore → TunnelCore × Option (TunnelInfo × ℕ)
resolve_tcp pick port = resolve pick (TunnelKey.tcp port)

abbrev pub resolve_udp : ℕ → ℕ → TunnelCore → TunnelCore × Option (TunnelInfo × ℕ)
resolve_udp pick port = resolve pick (TunnelKey.udp port)

abbrev pub has_http_route : Text → TunnelCore → Bool
has_http_route subdomain c = contains_key subdomain c.http_routes

abbrev pub count_publisher : P2pPublisher → P2pPublisher
count_publisher p = record p { tunnel_info = count_request_of p.tunnel_info }

unfoldable pub resolve_p2p : Text → TunnelCore → TunnelCore × Option (P2pPublisher × ℕ)
resolve_p2p name c = elim (get name c.p2p_tunnels) [
  | none ↦ (c, none)
  | some p ↦ elim (get p.tunnel_info.session_id c.sessions) [
    | none ↦ (c, none)
    | some session ↦ (
      record c { p2p_tunnels = modify name count_publisher c.p2p_tunnels },
      some (count_publisher p, session.control_tx),
    )
  ]
]

abbrev pub set_nat : Text → List Text → P2pPublisher → P2pPublisher
set_nat nat_type mapped_addrs p = record p { nat_type = some nat_type; mapped_addrs = mapped_addrs }

abbrev pub set_nat_at : Text → List Text → Option TunnelKey → TunnelCore → TunnelCore
set_nat_at nat_type addrs none c = c
set_nat_at nat_type addrs (some (TunnelKey.http sub)) c = c
set_nat_at nat_type addrs (some (TunnelKey.tcp port)) c = c
set_nat_at nat_type addrs (some (TunnelKey.udp port)) c = c
set_nat_at nat_type addrs (some (TunnelKey.p2p name)) c = record c {
  p2p_tunnels = modify name (set_nat nat_type addrs) c.p2p_tunnels;
}

unfoldable pub update_p2p_nat_info : Uuid → Text → List Text → TunnelCore → TunnelCore
update_p2p_nat_info t nat_type addrs c = set_nat_at nat_type addrs (get t c.tunnel_index) c

abbrev pub info_of_member : Option GroupMember → Option TunnelInfo
info_of_member none = none
info_of_member (some m) = some m.info

abbrev pub info_of_publisher : Option P2pPublisher → Option TunnelInfo
info_of_publisher none = none
info_of_publisher (some p) = some p.tunnel_info

-- The tunnel under its key: a member of a group, or the publisher of a name.
abbrev pub info_under : Uuid → Option TunnelKey → TunnelCore → Option TunnelInfo
info_under t none c = none
info_under t (some (TunnelKey.http sub)) c = info_of_member (find_in t (get sub c.http_routes))
info_under t (some (TunnelKey.tcp port)) c = info_of_member (find_in t (get port c.tcp_routes))
info_under t (some (TunnelKey.udp port)) c = info_of_member (find_in t (get port c.udp_routes))
info_under t (some (TunnelKey.p2p name)) c = info_of_publisher (get name c.p2p_tunnels)

abbrev pub map_or {ℓ κ} : {A : Type ℓ} {B : Type κ} → B → (A → B) → Option A → B
map_or d f none = d
map_or d f (some a) = f a

unfoldable pub get_tunnel_request_count : Uuid → TunnelCore → ℕ
get_tunnel_request_count t c =
    map_or 0 (λ i. i.request_count) (info_under t (get t c.tunnel_index) c)

unfoldable pub get_tunnel_bytes_proxied : Uuid → TunnelCore → ℕ
get_tunnel_bytes_proxied t c =
    map_or 0 (λ i. i.bytes_proxied) (info_under t (get t c.tunnel_index) c)

unfoldable pub tunnel_meter : Uuid → TunnelCore → LiveTunnelMeter
tunnel_meter t c = map_or (zeros t) meter_snapshot (info_under t (get t c.tunnel_index) c)

unfoldable pub tunnel_session : Uuid → TunnelCore → Option Uuid
tunnel_session t c = map_or none (λ i. some i.session_id) (info_under t (get t c.tunnel_index) c)

unfoldable pub member_meters : Map Uuid GroupMember → List LiveTunnelMeter
member_meters [] = []
member_meters ((id, m) ∷ ms) = meter_snapshot m.info ∷ member_meters ms

unfoldable pub route_meters {ℓ} : {K : Type ℓ} → Map K TunnelGroup → List LiveTunnelMeter
unfolding member_meters
route_meters [] = []
route_meters ((k, g) ∷ r) = member_meters g.members ++ route_meters r

unfoldable pub publisher_meters : Map Text P2pPublisher → List LiveTunnelMeter
publisher_meters [] = []
publisher_meters ((n, p) ∷ r) = meter_snapshot p.tunnel_info ∷ publisher_meters r

unfoldable pub live_tunnel_meters : TunnelCore → List LiveTunnelMeter
unfolding route_meters publisher_meters
live_tunnel_meters c =
    route_meters c.http_routes
    ++ route_meters c.tcp_routes
    ++ route_meters c.udp_routes
    ++ publisher_meters c.p2p_tunnels

pub data Strategy : Type 0 where
  direct_exchange port_prediction relay : Strategy

abbrev pub is_cone : Option Text → Bool
is_cone none = false
is_cone (some t) = t == codes "open" || t == codes "cone"

abbrev pub is_symmetric : Option Text → Bool
is_symmetric none = false
is_symmetric (some t) = t == codes "symmetric"

-- The strategy, and whether a direct connection is tried.
unfoldable pub classify_nat_pair : Option Text → Option Text → Strategy × Bool
classify_nat_pair pub_nat sub_nat =
    if is_cone pub_nat && is_cone sub_nat
    then (direct_exchange, true)
    else if is_cone pub_nat && is_symmetric sub_nat || is_symmetric pub_nat && is_cone sub_nat
    then (port_prediction, true)
    else (relay, false)
