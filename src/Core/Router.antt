-- ===== src/Core/Router.antt =====
-- crates/rustunnel-server/src/core/router.rs: the state of `TunnelCore`, sessions, pending
-- connections and the tables of groups. A `DashMap` is a keyed table, a broadcast channel is the
-- list of the events sent on it, newest first, and a pool of ports is a stack whose top is the head
-- of the list. Each method is one step. What a method takes from outside (a fresh Uuid, the clock,
-- the pick of the random generator) is an argument.
pub mod Register
pub mod Unregister
pub mod Health
pub mod Dispatch
use rustunnel.Prelude.{
  ℕ, zero, suc, ◌+◌, ◌-◌, ◌^◌, ◌%◌, Bool, true, false, ◌&&◌, Option, none, some, List, [], ◌∷◌,
  ◌++◌, leb, nat_beq, if◌then◌else◌, length, is_some,
}
use rustunnel.Prelude.Eq.{Eq, ◌==◌, nat_eq, list_eq, pair_eq}
use rustunnel.Prelude.Map.{Map, get, insert, remove, modify, contains_key, is_empty}
use rustunnel.Core.Types.{
  Text, Uuid, Instant, SocketAddr, TunnelInfo, GroupMember, TunnelGroup, GroupEvent, SessionInfo,
  TcpTunnelEvent, UdpTunnelEvent, Error, session_not_found, limit_exceeded, Result, ok, err,
}
use rustunnel.Core.Members.{new_session}

pub record P2pPublisher : Type 0 where
  pub tunnel_info : TunnelInfo
  pub secret_hash : Text
  pub name : Text
  pub nat_type : Option Text
  pub mapped_addrs : List Text

-- Where a tunnel lives in the routing tables.
pub data TunnelKey : Type 0 where
  http : Text → TunnelKey
  tcp udp : ℕ → TunnelKey
  p2p : Text → TunnelKey

-- The limiters that the source keeps here are in `Limits`; they share no state with the rest.
pub record TunnelCore : Type 0 where
  pub http_routes : Map Text TunnelGroup
  pub tcp_routes : Map ℕ TunnelGroup
  pub udp_routes : Map ℕ TunnelGroup
  pub tcp_group_index : Map (Text × Text) ℕ
  pub p2p_tunnels : Map Text P2pPublisher
  pub sessions : Map Uuid SessionInfo
  pub available_tcp_ports : List ℕ
  pub available_udp_ports : List ℕ
  pub tunnel_index : Map Uuid TunnelKey
  pub max_tunnels_per_session : ℕ
  pub max_connections_per_tunnel : ℕ
  pub pending_conns : Map Uuid ℕ
  pub tcp_events : List TcpTunnelEvent
  pub udp_events : List UdpTunnelEvent
  pub group_events : List GroupEvent

-- The ports low, low + 1, …, low + n - 1, the last on top.
unfoldable pub port_stack : ℕ → ℕ → List ℕ
port_stack low zero = []
port_stack low (suc n) = (low + n) ∷ port_stack low n

-- The range `low..=high`; the UDP range 0..=0 stands for no ports.
unfoldable pub port_range : ℕ → ℕ → List ℕ
unfolding port_stack
port_range low high = port_stack low (high + 1 - low)

unfoldable pub udp_port_range : ℕ → ℕ → List ℕ
unfolding port_range
udp_port_range low high = if nat_beq low 0 && nat_beq high 0 then [] else port_range low high

unfoldable pub new : ℕ → ℕ → ℕ → ℕ → ℕ → ℕ → TunnelCore
unfolding port_range udp_port_range
new tcp_low tcp_high udp_low udp_high max_tunnels max_connections = record {
  http_routes = [];
  tcp_routes = [];
  udp_routes = [];
  tcp_group_index = [];
  p2p_tunnels = [];
  sessions = [];
  available_tcp_ports = port_range tcp_low tcp_high;
  available_udp_ports = udp_port_range udp_low udp_high;
  tunnel_index = [];
  max_tunnels_per_session = max_tunnels;
  max_connections_per_tunnel = max_connections;
  pending_conns = [];
  tcp_events = [];
  udp_events = [];
  group_events = [];
}

-- A pending connection is resolved by a sender; here, by the number of its channel.
unfoldable pub register_pending_conn : Uuid → ℕ → TunnelCore → TunnelCore
register_pending_conn conn_id tx c = record c { pending_conns = insert conn_id tx c.pending_conns }

-- `open tx` says whether the receiving end still waits. The channel that gets the stream, if any.
unfoldable pub resolve_pending_conn :
    (open_end : ℕ → Bool) → Uuid → TunnelCore → TunnelCore × Option ℕ × Bool
resolve_pending_conn open_end conn_id c = elim (get conn_id c.pending_conns) [
  | none ↦ (c, none, false)
  | some tx ↦ (
    record c { pending_conns = remove conn_id c.pending_conns },
    if open_end tx then some tx else none,
    open_end tx,
  )
]

unfoldable pub cancel_pending_conn : Uuid → TunnelCore → TunnelCore
cancel_pending_conn conn_id c = record c { pending_conns = remove conn_id c.pending_conns }

unfoldable pub set_data_pipe : Uuid → ℕ → TunnelCore → TunnelCore
set_data_pipe session_id pipe c = record c {
  sessions = modify session_id (λ s. record s { data_pipe = some pipe }) c.sessions;
}

abbrev pub data_pipe_of : Option SessionInfo → Option ℕ
data_pipe_of none = none
data_pipe_of (some s) = s.data_pipe

unfoldable pub take_data_pipe : Uuid → TunnelCore → TunnelCore × Option ℕ
take_data_pipe session_id c = (
  record c { sessions = modify session_id (λ s. record s { data_pipe = none }) c.sessions },
  data_pipe_of (get session_id c.sessions),
)

unfoldable pub register_session :
    Uuid → Instant → SocketAddr → Text → Option Text → Option Uuid → ℕ → TunnelCore → TunnelCore
register_session session_id now addr token_id db_token_id user_id control_tx c = record c {
  sessions =
      insert session_id (new_session addr token_id db_token_id user_id control_tx now) c.sessions;
}

unfoldable pub check_session_limit : Uuid → TunnelCore → Result (Unit {0})
check_session_limit session_id c = elim (get session_id c.sessions) [
  | none ↦ err (session_not_found session_id)
  | some s ↦
      if leb c.max_tunnels_per_session (length s.tunnels)
      then err (limit_exceeded session_id (length s.tunnels) c.max_tunnels_per_session)
      else ok tt
]

abbrev pub push_tunnel : Uuid → SessionInfo → SessionInfo
push_tunnel tunnel_id s = record s { tunnels = s.tunnels ++ tunnel_id ∷ [] }

unfoldable pub add_tunnel_to_session : Uuid → Uuid → TunnelCore → TunnelCore
add_tunnel_to_session session_id tunnel_id c = record c {
  sessions = modify session_id (push_tunnel tunnel_id) c.sessions;
}
