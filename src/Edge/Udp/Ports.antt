-- ===== src/Edge/Udp/Ports.antt =====
-- crates/rustunnel-server/src/edge/udp.rs: the listener of a port, with its table of sessions. The
-- queue of a session holds the datagrams that its task has not taken.
use rustunnel.Prelude.{
  ℕ, ◌≡◌, ◌↔◌, Bool, true, false, not, ◌&&◌, Option, none, some, List, [], ◌∷◌, ◌++◌, if◌then◌else◌,
  leb, nat_beq, length, drop, arith,
}
use rustunnel.Prelude.Eq.{Eq, ◌==◌, eq_iff, nat_eq}
use rustunnel.Prelude.Map.{Map, get, insert, remove, modify}
use rustunnel.Core.Types.{Text, Uuid, ip_eq, SocketAddr, TunnelInfo}
use rustunnel.Core.Router.{TunnelCore, TunnelKey}
use rustunnel.Core.Router.Dispatch.{resolve_udp}
use rustunnel.Limits.IpRate.{IpRateLimiter, check}
use rustunnel.Edge.Listeners.{Listeners, Received, manage, bootstrap, no_listeners}
use rustunnel.Edge.Streams.{Outside, available, take_permit, give_permit}
use rustunnel.Edge.Udp.Session.{Traffic, Proxied, proxy_udp_session}

abbrev pub max_buffered_packets : ℕ
max_buffered_packets = 64

abbrev pub addr_beq : SocketAddr → SocketAddr → Bool
addr_beq a b = a.ip == b.ip && nat_beq a.port b.port

pub addr_beq_iff : (a b : SocketAddr) → (addr_beq a b ≡ true) ↔ (a ≡ b)
addr_beq_iff a b = ground (arith, eq_iff a.ip b.ip)

instance abbrev pub addr_eq : Eq SocketAddr
addr_eq = record { same = addr_beq; same_iff = addr_beq_iff }

-- `closed` once the session's task has ended. The time of the last activity is never read.
pub record UdpSession : Type 0 where
  pub queue : List Text
  pub closed : Bool

-- `try_send`: a full queue, or one whose task has ended, drops the datagram.
unfoldable pub try_send : Text → UdpSession → UdpSession
try_send d s =
    if s.closed
    then s
    else if leb max_buffered_packets (length s.queue)
    then s
    else record s { queue = s.queue ++ d ∷ [] }

pub record UdpPort : Type 0 where
  pub port : ℕ
  pub sessions : Map SocketAddr UdpSession

-- A session task that a datagram starts: what `proxy_udp_session` is called with. It holds a permit.
pub record Task : Type 0 where
  pub peer : SocketAddr
  pub info : TunnelInfo
  pub control_tx : ℕ
  pub conn_id : Uuid

pub record Listened : Type 0 where
  pub ports : UdpPort
  pub limiter : IpRateLimiter
  pub core : TunnelCore
  pub started : Option Task

abbrev fresh_session : Text → UdpSession
fresh_session d = try_send d (record { queue = []; closed = false })

unfoldable pub open_session :
    SocketAddr → Text → Outside → TunnelInfo → ℕ → IpRateLimiter → UdpPort → TunnelCore → Listened
unfolding try_send
open_session peer d o info tx l ps c =
    if nat_beq (available (TunnelKey.udp ps.port) info c) 0
    then record { ports = ps; limiter = l; core = c; started = none }
    else record {
      ports = record ps { sessions = insert peer (fresh_session d) ps.sessions };
      limiter = l;
      core = take_permit (TunnelKey.udp ps.port) info.tunnel_id c;
      started = some (record { peer = peer; info = info; control_tx = tx; conn_id = o.conn_id });
    }

unfoldable pub new_peer :
    SocketAddr → Text → Outside → IpRateLimiter → UdpPort → TunnelCore → Listened
new_peer peer d o l ps c =
    let (c', found) = resolve_udp o.pick ps.port c in
    elim found [
      | none ↦ record { ports = ps; limiter = l; core = c'; started = none }
      | some (info, tx) ↦ open_session peer d o info tx l ps c'
    ]

-- A datagram on the public socket.
unfoldable pub on_datagram :
    SocketAddr → Text → Outside → IpRateLimiter → UdpPort → TunnelCore → Listened
unfolding new_peer
on_datagram peer d o l ps c =
    let (l', allowed) = check peer.ip o.now l in
    if not allowed
    then record { ports = ps; limiter = l'; core = c; started = none }
    else elim (get peer ps.sessions) [
      | none ↦ new_peer peer d o l' ps c
      | some session ↦ record {
        ports = record ps { sessions = modify peer (try_send d) ps.sessions };
        limiter = l';
        core = c;
        started = none;
      }
    ]

-- The reaper's round: the sessions whose task has ended are forgotten.
unfoldable pub reap : Map SocketAddr UdpSession → Map SocketAddr UdpSession
reap [] = []
reap ((peer, session) ∷ ss) =
    let rest = reap ss in if session.closed then rest else (peer, session) ∷ rest

-- The task takes the oldest datagram of its queue.
unfoldable pub take_datagram : SocketAddr → UdpPort → UdpPort
take_datagram peer ps = record ps {
  sessions = modify peer (λ s. record s { queue = drop 1 s.queue }) ps.sessions;
}

-- The task of a session: it gives its permit back, and its entry is taken out.
unfoldable pub session_task : Task → Outside → Traffic → UdpPort → TunnelCore → UdpPort × Proxied
session_task task o traffic ps c =
    let p = proxy_udp_session ps.port task.peer task.info task.control_tx o traffic c in
    (
      record ps { sessions = remove task.peer ps.sessions },
      record p { core = give_permit (TunnelKey.udp ps.port) task.info.tunnel_id p.core },
    )

-- The manager of the UDP listeners, which is that of the TCP listeners with its own events.
unfoldable pub run_udp_edge : (routed : List ℕ) → List (List ℕ × Received) → Listeners
unfolding manage bootstrap no_listeners
run_udp_edge routed rs = manage rs (bootstrap routed no_listeners)
