-- ===== src/Edge/Udp/Session.antt =====
-- crates/rustunnel-server/src/edge/udp.rs: a UDP session, from its first datagram to the end of its
-- task.
use rustunnel.Prelude.{ℕ, Bool, List, [], ◌∷◌, if◌then◌else◌}
use rustunnel.Core.Types.{Text, SocketAddr, TunnelInfo, TunnelProtocol}
use rustunnel.Core.Router.{TunnelCore, TunnelKey, register_pending_conn, cancel_pending_conn}
use rustunnel.Control.Session.{Effect, tell, new_connection}
use rustunnel.Edge.Streams.{StreamOutcome, opened, dropped, timed_out, Outside, meter_add}
use rustunnel.Edge.Udp.{Turn, Bridge, new_bridge, bridge}

-- The state and the messages to the session, and what crossed the tunnel.
pub record Proxied : Type 0 where
  pub core : TunnelCore
  pub effects : List Effect
  pub bridge : Bridge

-- What the tunnel's connection carries, and whether the peer can be sent a datagram.
pub record Traffic : Type 0 where
  pub turns : List Turn
  pub sendable : Text → Bool

-- The loop, and the transfer that is added after it.
unfoldable pub run_bridge : ℕ → TunnelInfo → Outside → Traffic → TunnelCore → Proxied
run_bridge port info o traffic c =
    let b = bridge traffic.sendable traffic.turns new_bridge in
    record {
      core = meter_add (TunnelKey.udp port) info.tunnel_id b.bytes_in b.bytes_out (o.serving c);
      effects = [];
      bridge = b;
    }

unfoldable pub await_stream :
    ℕ → TunnelInfo → Outside → Traffic → StreamOutcome → TunnelCore → Proxied
await_stream port info o traffic (opened stream) c = run_bridge port info o traffic c
await_stream port info o traffic dropped c = record { core = c; effects = []; bridge = new_bridge }
await_stream port info o traffic timed_out c = record {
  core = cancel_pending_conn o.conn_id c;
  effects = [];
  bridge = new_bridge;
}

abbrev with_effect : Effect → Proxied → Proxied
with_effect e p = record p { effects = e ∷ p.effects }

unfoldable pub proxy_udp_session :
    ℕ → SocketAddr → TunnelInfo → ℕ → Outside → Traffic → TunnelCore → Proxied
proxy_udp_session port peer info tx o traffic c =
    let pending = register_pending_conn o.conn_id o.stream_tx c in
    if o.session_open
    then with_effect (tell tx (new_connection o.conn_id peer TunnelProtocol.udp))
        (await_stream port info o traffic o.outcome (o.waiting pending))
    else record { core = cancel_pending_conn o.conn_id pending; effects = []; bridge = new_bridge }
