-- ===== src/Edge/Tcp.antt =====
-- crates/rustunnel-server/src/edge/tcp.rs: a TCP connection to a tunnel's port, and the manager of
-- the ports' listeners.
pub mod Pending
use rustunnel.Prelude.{
  ℕ, Bool, true, false, Option, none, some, List, [], ◌∷◌, map, if◌then◌else◌, nat_beq,
}
use rustunnel.Core.Types.{SocketAddr, TunnelInfo, TunnelProtocol, TunnelGroup, TcpTunnelEvent}
use rustunnel.Prelude.Map.{Map}
use rustunnel.Core.Router.{TunnelCore, TunnelKey, register_pending_conn}
use rustunnel.Core.Router.Dispatch.{resolve_tcp}
use rustunnel.Limits.IpRate.{IpRateLimiter, check}
use rustunnel.Control.Session.{Effect, tell, new_connection}
use rustunnel.Edge.Streams.{
  StreamOutcome, opened, dropped, timed_out, Outside, available, take_permit, give_permit,
  meter_add,
}

-- The messages of `Error::Tunnel`, as data.
pub data TcpFault : Type 0 where
  no_tunnel too_many : (port : ℕ) → TcpFault
  send_failed sender_dropped stream_timeout : TcpFault

-- The state and the message to the session, and the error, if any.
pub record Connected : Type 0 where
  pub core : TunnelCore
  pub effects : List Effect
  pub fault : Option TcpFault

-- The bytes that `copy_bidirectional` has moved, up and down; none if it failed.
abbrev Copied : Type 0
Copied = Option (ℕ × ℕ)

-- A copy that failed is not counted.
unfoldable pub copied : TunnelKey → TunnelInfo → Outside → Copied → TunnelCore → TunnelCore
copied k info o none c = o.serving c
copied k info o (some (up, down)) c = meter_add k info.tunnel_id up down (o.serving c)

unfoldable pub await_stream :
    TunnelKey → TunnelInfo → Outside → Copied → StreamOutcome → TunnelCore → Connected
await_stream k info o n (opened stream) c = record {
  core = copied k info o n c;
  effects = [];
  fault = none;
}
await_stream k info o n dropped c = record { core = c; effects = []; fault = some sender_dropped }
await_stream k info o n timed_out c = record { core = c; effects = []; fault = some stream_timeout }

abbrev pub with_effect : Effect → Connected → Connected
with_effect e p = record p { effects = e ∷ p.effects }

unfoldable pub open_stream :
    ℕ → SocketAddr → TunnelInfo → ℕ → Outside → Copied → TunnelCore → Connected
open_stream port peer info tx o n c =
    let pending = register_pending_conn o.conn_id o.stream_tx c in
    if o.session_open
    then with_effect (tell tx (new_connection o.conn_id peer TunnelProtocol.tcp))
        (await_stream (TunnelKey.tcp port) info o n o.outcome (o.waiting pending))
    else record { core = pending; effects = []; fault = some send_failed }

abbrev pub give_back : TunnelKey → TunnelInfo → Connected → Connected
give_back k info p = record p { core = give_permit k info.tunnel_id p.core }

unfoldable pub with_tunnel :
    ℕ → SocketAddr → TunnelInfo → ℕ → Outside → Copied → TunnelCore → Connected
with_tunnel port peer info tx o n c =
    if nat_beq (available (TunnelKey.tcp port) info c) 0
    then record { core = c; effects = []; fault = some (too_many port) }
    else give_back (TunnelKey.tcp port) info
        (open_stream port peer info tx o n (take_permit (TunnelKey.tcp port) info.tunnel_id c))

unfoldable pub proxy_tcp_connection : ℕ → SocketAddr → Outside → Copied → TunnelCore → Connected
proxy_tcp_connection port peer o n c =
    let (c', found) = resolve_tcp o.pick port c in
    elim found [
      | none ↦ record { core = c'; effects = []; fault = some (no_tunnel port) }
      | some (info, tx) ↦ with_tunnel port peer info tx o n c'
    ]

-- A connection that the listener of a port accepts; none if its address is over the limit.
unfoldable pub accept :
    ℕ
    → SocketAddr
    → Outside
    → Copied
    → IpRateLimiter
    → TunnelCore
    → IpRateLimiter × Option Connected
accept port peer o n l c =
    let (l', allowed) = check peer.ip o.now l in
    (l', if allowed then some (proxy_tcp_connection port peer o n c) else none)
