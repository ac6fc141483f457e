-- ===== src/Core/Router/Register.antt =====
-- crates/rustunnel-server/src/core/router.rs: the registration of tunnels. A registration returns
-- the new state, or an error; the source changes nothing before it returns an error.
use rustunnel.Prelude.{ℕ, not, Option, none, some, List, [], ◌∷◌, if◌then◌else◌}
use rustunnel.Prelude.Eq.{◌==◌, nat_eq, list_eq, option_eq, pair_eq}
use rustunnel.Prelude.Map.{Map, get, insert, contains_key}
use rustunnel.Prelude.Text.{decimal}
use rustunnel.Core.Types.{
  Text, Uuid, Instant, TunnelProtocol, TunnelInfo, GroupMember, TunnelGroup, GroupSpec, Result, ok,
  err, ok_or, tunnel, subdomain_in_use, group_key_mismatch, protocol_mismatch, stale_group_index,
  p2p_name_in_use, no_ports_available, TcpTunnelEvent, UdpTunnelEvent, protocol_eq, ◌>>=◌, ◌>>◌,
}
use rustunnel.Core.Members.{new_info, new_solo, new_with_member, with_health_spec}
use rustunnel.Core.Subdomain.{validate_subdomain, random_subdomain}
use rustunnel.Core.Routes.{join}
use rustunnel.Core.Router.{
  TunnelCore, TunnelKey, P2pPublisher, check_session_limit, add_tunnel_to_session,
}

-- What a registration takes from outside: `Uuid::new_v4()` for the tunnel, another for a random
-- label, and the clock.
pub record Fresh : Type 0 where
  pub tunnel_id : Uuid
  pub label_id : Uuid
  pub now : Instant

-- A pool of ports, `lock().pop()`.
abbrev pub pop_port : List ℕ → Option (ℕ × List ℕ)
pop_port [] = none
pop_port (p ∷ ps) = some (p, ps)

abbrev pub to_string : ℕ → Text
to_string = decimal 5

-- `tunnel_index.insert` and `add_tunnel_to_session`, with which every registration ends.
unfoldable pub index_tunnel : Uuid → Uuid → TunnelKey → TunnelCore → TunnelCore
unfolding add_tunnel_to_session
index_tunnel session_id tunnel_id key c =
    add_tunnel_to_session session_id tunnel_id
      (record c { tunnel_index = insert tunnel_id key c.tunnel_index })

unfoldable pub choose_subdomain : Option Text → Uuid → Result Text
choose_subdomain none label_id = ok (random_subdomain label_id)
choose_subdomain (some s) label_id = do validate_subdomain s; ok s

-- The group that the first registration of a route makes.
unfoldable pub first_group : Text → Instant → TunnelInfo → Option GroupSpec → TunnelGroup
first_group name now info none = new_solo name info
first_group name now info (some spec) =
    new_with_member spec.group_name (some spec.key_hash)
      (with_health_spec now info spec.health_check)

-- The protocol of the member that the iteration over a group's members meets first.
unfoldable pub existing_protocol : Map Uuid GroupMember → Option TunnelProtocol
existing_protocol [] = none
existing_protocol ((id, m) ∷ ms) = some m.info.protocol

-- Whether a registration may join the group that serves its subdomain.
unfoldable pub may_join : Text → TunnelProtocol → Option GroupSpec → TunnelGroup → Result GroupSpec
may_join subdomain protocol none existing = err (tunnel (subdomain_in_use subdomain))
may_join subdomain protocol (some spec) existing =
    if not (existing.key_hash == some spec.key_hash)
    then err (tunnel (group_key_mismatch subdomain))
    else if not (existing_protocol existing.members == some protocol)
    then err (tunnel (protocol_mismatch subdomain (existing_protocol existing.members) protocol))
    else ok spec

-- The `match self.http_routes.entry(subdomain)` block.
unfoldable pub upsert_http :
    Text
    → Instant
    → TunnelInfo
    → Option GroupSpec
    → Map Text TunnelGroup
    → Result (Map Text TunnelGroup)
unfolding first_group may_join
upsert_http subdomain now info group routes = elim (get subdomain routes) [
  | none ↦ ok (insert subdomain (first_group subdomain now info group) routes)
  | some existing ↦ do
    spec ← may_join subdomain info.protocol group existing
    ok (join subdomain info.tunnel_id (with_health_spec now info spec.health_check) routes)
]

abbrev pub http_info : Uuid → Text → TunnelProtocol → Fresh → TunnelCore → TunnelInfo
http_info session_id subdomain protocol f c =
    new_info session_id f.tunnel_id protocol (some subdomain) none c.max_connections_per_tunnel
      f.now

unfoldable pub register_http_tunnel :
    Uuid
    → Option Text
    → TunnelProtocol
    → Option GroupSpec
    → Fresh
    → TunnelCore
    → Result (TunnelCore × Uuid × Text)
unfolding choose_subdomain
register_http_tunnel session_id requested protocol group f c = do
  check_session_limit session_id c
  subdomain ← choose_subdomain requested f.label_id
  let info = http_info session_id subdomain protocol f c
  routes ← upsert_http subdomain f.now info group c.http_routes
  ok (
    index_tunnel session_id f.tunnel_id (TunnelKey.http subdomain)
        (record c { http_routes = routes }),
    f.tunnel_id,
    subdomain,
  )

abbrev pub tcp_info : Uuid → ℕ → Fresh → TunnelCore → TunnelInfo
tcp_info session_id port f c =
    new_info session_id f.tunnel_id TunnelProtocol.tcp none (some port) c.max_connections_per_tunnel
      f.now

-- Open a route on a port that was popped: the route, the index, the session, the event.
unfoldable pub open_tcp : Uuid → Uuid → ℕ → List ℕ → TunnelGroup → TunnelCore → TunnelCore
unfolding index_tunnel
open_tcp session_id tunnel_id port rest group c =
    index_tunnel session_id tunnel_id (TunnelKey.tcp port) (record c {
      available_tcp_ports = rest;
      tcp_routes = insert port group c.tcp_routes;
      tcp_events = TcpTunnelEvent.registered tunnel_id port ∷ c.tcp_events;
    })

unfoldable pub register_tcp_solo : Uuid → Fresh → TunnelCore → Result (TunnelCore × Uuid × ℕ)
unfolding open_tcp
register_tcp_solo session_id f c = do
  (port, rest) ← ok_or (pop_port c.available_tcp_ports) no_ports_available
  ok (
    open_tcp session_id f.tunnel_id port rest
        (new_solo (to_string port) (tcp_info session_id port f c)) c,
    f.tunnel_id,
    port,
  )

-- The first member of a TCP group claims a port, under the group's name and key.
unfoldable pub register_tcp_first :
    Uuid → GroupSpec → Fresh → TunnelCore → Result (TunnelCore × Uuid × ℕ)
unfolding open_tcp
register_tcp_first session_id spec f c = do
  (port, rest) ← ok_or (pop_port c.available_tcp_ports) no_ports_available
  ok (
    open_tcp session_id f.tunnel_id port rest
        (new_with_member spec.group_name (some spec.key_hash)
          (with_health_spec f.now (tcp_info session_id port f c) spec.health_check))
        (record c {
          tcp_group_index = insert (spec.group_name, spec.key_hash) port c.tcp_group_index;
        }),
    f.tunnel_id,
    port,
  )

-- A later member joins the group on its port; a stale index entry is an error.
unfoldable pub register_tcp_join :
    Uuid → GroupSpec → ℕ → Fresh → TunnelCore → Result (TunnelCore × Uuid × ℕ)
register_tcp_join session_id spec port f c =
    if contains_key port c.tcp_routes
    then ok (
      index_tunnel session_id f.tunnel_id (TunnelKey.tcp port) (record c {
        tcp_routes =
            join port f.tunnel_id
              (with_health_spec f.now (tcp_info session_id port f c) spec.health_check)
              c.tcp_routes;
      }),
      f.tunnel_id,
      port,
    )
    else err (tunnel (stale_group_index port))

unfoldable pub register_tcp_grouped :
    Uuid → GroupSpec → Fresh → TunnelCore → Result (TunnelCore × Uuid × ℕ)
register_tcp_grouped session_id spec f c =
    elim (get (spec.group_name, spec.key_hash) c.tcp_group_index) [
      | none ↦ register_tcp_first session_id spec f c
      | some port ↦ register_tcp_join session_id spec port f c
    ]

abbrev tcp_route : Uuid → Option GroupSpec → Fresh → TunnelCore → Result (TunnelCore × Uuid × ℕ)
tcp_route session_id none f c = register_tcp_solo session_id f c
tcp_route session_id (some spec) f c = register_tcp_grouped session_id spec f c

unfoldable pub register_tcp_tunnel :
    Uuid → Option GroupSpec → Fresh → TunnelCore → Result (TunnelCore × Uuid × ℕ)
register_tcp_tunnel session_id group f c = do
  check_session_limit session_id c
  tcp_route session_id group f c

abbrev pub udp_info : Uuid → ℕ → Fresh → TunnelCore → TunnelInfo
udp_info session_id port f c =
    new_info session_id f.tunnel_id TunnelProtocol.udp none (some port) c.max_connections_per_tunnel
      f.now

unfoldable pub register_udp_tunnel : Uuid → Fresh → TunnelCore → Result (TunnelCore × Uuid × ℕ)
unfolding index_tunnel
register_udp_tunnel session_id f c = do
  check_session_limit session_id c
  (port, rest) ← ok_or (pop_port c.available_udp_ports) no_ports_available
  let info = udp_info session_id port f c
  ok (
    index_tunnel session_id f.tunnel_id (TunnelKey.udp port) (record c {
      available_udp_ports = rest;
      udp_routes = insert port (new_solo (to_string port) info) c.udp_routes;
      udp_events = UdpTunnelEvent.registered f.tunnel_id port ∷ c.udp_events;
    }),
    f.tunnel_id,
    port,
  )

abbrev pub new_publisher : Uuid → Text → Text → Fresh → TunnelCore → P2pPublisher
new_publisher session_id name secret_hash f c = record {
  tunnel_info =
      new_info session_id f.tunnel_id TunnelProtocol.p2p none none c.max_connections_per_tunnel
        f.now;
  secret_hash = secret_hash;
  name = name;
  nat_type = none;
  mapped_addrs = [];
}

unfoldable pub register_p2p_tunnel :
    Uuid → Text → Text → Fresh → TunnelCore → Result (TunnelCore × Uuid × Text)
unfolding index_tunnel
register_p2p_tunnel session_id name secret_hash f c = do
  check_session_limit session_id c
  if contains_key name c.p2p_tunnels
      then err (tunnel (p2p_name_in_use name))
      else ok (
        index_tunnel session_id f.tunnel_id (TunnelKey.p2p name) (record c {
          p2p_tunnels = insert name (new_publisher session_id name secret_hash f c) c.p2p_tunnels;
        }),
        f.tunnel_id,
        name,
      )
