-- ===== src/Core/Router/Unregister.antt =====
-- crates/rustunnel-server/src/core/router.rs: `remove_tunnel` and `remove_session`.
use rustunnel.Prelude.{ℕ, Option, none, some, List, [], ◌∷◌, if◌then◌else◌}
use rustunnel.Prelude.Eq.{nat_eq, list_eq, pair_eq}
use rustunnel.Prelude.Map.{Map, get, remove}
use rustunnel.Core.Types.{Text, Uuid, TunnelGroup, TcpTunnelEvent, UdpTunnelEvent}
use rustunnel.Core.Routes.{leave, last_leaves}
use rustunnel.Core.Router.{TunnelCore, TunnelKey}

-- The index entry of a grouped TCP route, read before its members change.
abbrev pub group_index_key : Option TunnelGroup → Option (Text × Text)
group_index_key none = none
group_index_key (some g) = elim g.key_hash [ none ↦ none | some kh ↦ some (g.name, kh) ]

abbrev pub remove_opt : Option (Text × Text) → Map (Text × Text) ℕ → Map (Text × Text) ℕ
remove_opt none index = index
remove_opt (some k) index = remove k index

-- What `remove_tunnel` does once the last member has left a TCP port.
unfoldable pub close_tcp : ℕ → Option (Text × Text) → TunnelCore → TunnelCore
close_tcp port idx_key c = record c {
  tcp_group_index = remove_opt idx_key c.tcp_group_index;
  available_tcp_ports = port ∷ c.available_tcp_ports;
  tcp_events = TcpTunnelEvent.unregistered port ∷ c.tcp_events;
}

unfoldable pub close_udp : ℕ → TunnelCore → TunnelCore
close_udp port c = record c {
  available_udp_ports = port ∷ c.available_udp_ports;
  udp_events = UdpTunnelEvent.unregistered port ∷ c.udp_events;
}

-- The `match key` block; `c` has lost the tunnel's index entry.
unfoldable pub remove_route : Uuid → TunnelKey → TunnelCore → TunnelCore
unfolding close_tcp close_udp
remove_route tunnel_id (TunnelKey.http subdomain) c = record c {
  http_routes = leave subdomain tunnel_id c.http_routes;
}
remove_route tunnel_id (TunnelKey.tcp port) c =
    let left : TunnelCore = record c { tcp_routes = leave port tunnel_id c.tcp_routes } in
    if last_leaves port tunnel_id c.tcp_routes
    then close_tcp port (group_index_key (get port c.tcp_routes)) left
    else left
remove_route tunnel_id (TunnelKey.udp port) c =
    let left : TunnelCore = record c { udp_routes = leave port tunnel_id c.udp_routes } in
    if last_leaves port tunnel_id c.udp_routes then close_udp port left else left
remove_route tunnel_id (TunnelKey.p2p name) c = record c { p2p_tunnels = remove name c.p2p_tunnels }

-- `tunnel_index.remove(tunnel_id)`
abbrev pub unindex : Uuid → TunnelCore → TunnelCore
unindex tunnel_id c = record c { tunnel_index = remove tunnel_id c.tunnel_index }

unfoldable pub remove_tunnel : Uuid → TunnelCore → TunnelCore
remove_tunnel tunnel_id c = elim (get tunnel_id c.tunnel_index) [
  | none ↦ c
  | some key ↦ remove_route tunnel_id key (unindex tunnel_id c)
]

unfoldable pub remove_tunnels : List Uuid → TunnelCore → TunnelCore
remove_tunnels [] c = c
remove_tunnels (t ∷ ts) c = remove_tunnels ts (remove_tunnel t c)

unfoldable pub remove_session : Uuid → TunnelCore → TunnelCore
unfolding remove_tunnels
remove_session session_id c = elim (get session_id c.sessions) [
  | none ↦ c
  | some session ↦
      remove_tunnels session.tunnels (record c { sessions = remove session_id c.sessions })
]
