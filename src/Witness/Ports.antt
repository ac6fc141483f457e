-- ===== src/Witness/Ports.antt =====
-- The theorems on the TCP and UDP edges at concrete connections and datagrams.
use rustunnel.Prelude.{
  ℕ, Bool, false, nat_beq, Option, ◌≡◌, ◌≢◌, refl, true, none, some, [], ◌∷◌, map, arith,
  if◌then◌else◌,
}
use rustunnel.Prelude.Eq.{nat_eq}
use rustunnel.Prelude.Map.{get, insert, modify, remove, contains_key}
use rustunnel.Core.Types.{TcpTunnelEvent, TunnelInfo, TunnelProtocol}
use rustunnel.Core.Router.{
  TunnelCore, TunnelKey, new, register_session, port_range, port_stack, udp_port_range,
  check_session_limit, add_tunnel_to_session,
}
use rustunnel.Core.Router.Register.{
  open_tcp, index_tunnel, register_tcp_solo, register_tcp_tunnel, register_udp_tunnel,
}
use rustunnel.Core.Members.{new_session, new_solo, new_info}
use rustunnel.Core.Valid.Steps.{here}
use rustunnel.Limits.IpRate
use rustunnel.Edge.Streams.{available, take_permit, Outside, timed_out}
use rustunnel.Edge.Streams.Clean.{IsClean, IsFair, NotPending, stays-IsClean}
use rustunnel.Edge.Streams.Permits.{stays-KeepsPermits}
use rustunnel.Core.Valid.Gentle.{stays-IsQuiet}
use rustunnel.Edge.Listeners.{
  ports, resync_listeners, no_listeners, registered, lagged, run_tcp_edge,
}
use rustunnel.Edge.Listeners.Follow.{follow, has_listener}
use rustunnel.Edge.Listeners.Events.{tcp_received}
use rustunnel.Edge.Listeners.CaughtUp.{listeners_caught_up}
use rustunnel.Edge.Listeners.Tidy.{IsTidy, run_tcp_edge-IsTidy}
use rustunnel.Edge.Tcp.{proxy_tcp_connection}
use rustunnel.Edge.Tcp.Pending.{forgets, proxy_tcp_connection-forgets}
use rustunnel.Edge.Udp.{
  inbound, arrived, new_bridge, bridge, frame, to_be_bytes, read_framed_datagram,
}
use rustunnel.Edge.Udp.Whole.{HasSent, frames, concat, bridge-pieces, bridge-loses}
use rustunnel.Edge.Udp.Ports.{
  addr_eq, session_task, UdpPort, Task, on_datagram, new_peer, open_session, try_send,
}
use rustunnel.Edge.Udp.Delivers.{Delivers}
use rustunnel.Edge.Udp.Clean.{session_task-IsClean}
use rustunnel.Limits.IpRate.{check}
use rustunnel.Limits.Window.{prune}
use rustunnel.Core.Router.Dispatch.{resolve}
use rustunnel.Witness.States.{client, start, from_ok, fresh, with_tcp, with_tcp-Reach}

-- A connection 77 whose wait runs out, and one that gets a stream.
abbrev late : Outside
late = record {
  now = 5;
  pick = 0;
  conn_id = 77;
  stream_tx = 8;
  session_open = true;
  waiting = λ c. c;
  outcome = timed_out;
  serving = λ c. c;
}

late-IsFair : IsFair late
late-IsFair = record {
  quiet = stays-IsQuiet;
  permits = stays-KeepsPermits;
  settles = λ h c. absurd (h refl);
  serves = stays-IsClean 77;
}

not_pending : NotPending 77 with_tcp
unfolding get insert modify remove new port_range udp_port_range port_stack register_session
    check_session_limit register_tcp_tunnel register_tcp_solo open_tcp index_tunnel
    add_tunnel_to_session new_session
not_pending = refl

with_tcp-events : with_tcp.tcp_events ≡ TcpTunnelEvent.registered 2 20001 ∷ []
unfolding get insert modify remove new port_range udp_port_range port_stack register_session
    check_session_limit register_tcp_tunnel register_tcp_solo open_tcp index_tunnel
    add_tunnel_to_session new_session
with_tcp-events = refl

-- The event of the port is still in the channel when the manager resyncs.
listeners_caught_up_example :
    has_listener 20001 (
      follow
        (map tcp_received (TcpTunnelEvent.registered 2 20001 ∷ []))
        (resync_listeners (ports with_tcp.tcp_routes) no_listeners))
    ≡ contains_key 20001 with_tcp.tcp_routes
listeners_caught_up_example =
    listeners_caught_up 20000 20001 0 0 5 100 no_listeners 20001 []
      (TcpTunnelEvent.registered 2 20001 ∷ []) [] with_tcp-Reach here with_tcp-events refl

run_tcp_edge-IsTidy_example :
    IsTidy (run_tcp_edge (20001 ∷ []) (((20000 ∷ []), lagged) ∷ ([], registered 20001) ∷ []))
run_tcp_edge-IsTidy_example =
    run_tcp_edge-IsTidy (20001 ∷ []) (((20000 ∷ []), lagged) ∷ ([], registered 20001) ∷ [])

proxy_tcp_connection-forgets_example :
    let r = proxy_tcp_connection 20001 client late none with_tcp in
    get 77 r.core.pending_conns ≡ (if forgets r.fault then some 8 else none)
proxy_tcp_connection-forgets_example =
    proxy_tcp_connection-forgets 20001 client late none with_tcp late-IsFair (λ e c. refl)
      not_pending

-- The datagrams [7] and [8, 9], in two pieces.
bridge-pieces_example :
    HasSent
      (bridge
        (λ d. true)
        (map arrived ((0 ∷ 0 ∷ []) ∷ (0 ∷ 1 ∷ 7 ∷ 0 ∷ 0 ∷ 0 ∷ 2 ∷ 8 ∷ 9 ∷ []) ∷ []))
        new_bridge)
      ((7 ∷ []) ∷ (8 ∷ 9 ∷ []) ∷ [])
unfolding concat frames frame to_be_bytes
bridge-pieces_example =
    bridge-pieces (λ d. true) ((7 ∷ []) ∷ (8 ∷ 9 ∷ []) ∷ [])
      ((0 ∷ 0 ∷ []) ∷ (0 ∷ 1 ∷ 7 ∷ 0 ∷ 0 ∷ 0 ∷ 2 ∷ 8 ∷ 9 ∷ []) ∷ []) (omega arith)
      (refl, (refl, tt)) refl

-- A datagram comes in when half of a length has been read.
bridge-loses_example :
    bridge
      (λ d. true)
      (arrived (0 ∷ 0 ∷ []) ∷ inbound (5 ∷ []) true ∷ arrived (0 ∷ 1 ∷ 7 ∷ []) ∷ [])
      new_bridge
    ≡ bridge (λ d. true) (inbound (5 ∷ []) true ∷ arrived (0 ∷ 1 ∷ 7 ∷ []) ∷ []) new_bridge
unfolding read_framed_datagram
bridge-loses_example =
    bridge-loses (λ d. true) (0 ∷ 0 ∷ []) (5 ∷ []) true (arrived (0 ∷ 1 ∷ 7 ∷ []) ∷ []) new_bridge
      refl refl

-- A UDP tunnel 5 on its port, which no peer has sent to.
abbrev with_udp : TunnelCore
with_udp = from_ok {A = ℕ} start (
    register_udp_tunnel 1 (fresh 5)
      (register_session 1 0 client [] none none 9 (new 20000 20001 30000 30001 5 100)))

abbrev udp_info : TunnelInfo
udp_info = new_info 1 5 TunnelProtocol.udp none (some 30001) 100 7

abbrev quiet_port : UdpPort
quiet_port = record { port = 30001; sessions = [] }

abbrev asks : ℕ → Option Task → Bool
asks tx none = false
asks tx (some t) = nat_beq t.control_tx tx

-- The datagram starts a session.
datagram_opens :
    asks 9 (on_datagram client (7 ∷ []) late (IpRate.new 10) quiet_port with_udp).started ≡ true
unfolding get insert modify remove new port_range udp_port_range port_stack register_session
    check_session_limit register_udp_tunnel open_tcp index_tunnel add_tunnel_to_session new_session
    on_datagram new_peer open_session try_send check IpRate.new prune resolve new_solo new_info
datagram_opens = refl

-- The task that the datagram has started, whose wait runs out.
abbrev started : Task
started = record { peer = client; info = udp_info; control_tx = 9; conn_id = 77 }

a_permit_left : available (TunnelKey.udp 30001) udp_info with_udp ≢ 0
unfolding get insert modify remove new port_range udp_port_range port_stack register_session
    check_session_limit register_udp_tunnel open_tcp index_tunnel add_tunnel_to_session new_session
    new_solo new_info
a_permit_left = ground arith

session_task-IsClean_example :
    IsClean 77 with_udp
      (session_task started late
        (record { turns = []; sendable = λ d. true })
        quiet_port
        (take_permit (TunnelKey.udp 30001) 5 with_udp)).1.core
    × (get client
          (session_task started late
            (record { turns = []; sendable = λ d. true })
            quiet_port
            (take_permit (TunnelKey.udp 30001) 5 with_udp)).0.sessions
        ≡ none)
unfolding new_info
session_task-IsClean_example =
    session_task-IsClean started late (record { turns = []; sendable = λ d. true }) quiet_port
      with_udp late-IsFair a_permit_left
