-- ===== src/Edge/Udp/Clean.antt =====
-- What a UDP session leaves behind (edge/udp.rs).
use rustunnel.Prelude.{ℕ, ◌≡◌, ◌≢◌, ◌∙◌, ap, refl, none, arith, if◌then◌else◌}
use rustunnel.Prelude.Eq.{eq_refl, nat_eq}
use rustunnel.Prelude.Map.{get, get-remove}
use rustunnel.Core.Types.{SocketAddr, TunnelInfo}
use rustunnel.Core.Router.{TunnelCore, TunnelKey, register_pending_conn}
use rustunnel.Core.Valid.Gentle.{stays-IsQuiet}
use rustunnel.Prelude.Branches.{on_if}
use rustunnel.Edge.Streams.{
  StreamOutcome, opened, dropped, timed_out, Outside, available, take_permit,
}
use rustunnel.Edge.Streams.Permits.{stays-KeepsPermits}
use rustunnel.Edge.Streams.Clean.{
  IsClean, IsFair, chain-IsClean, meter_add-IsClean, cancelled-IsClean, settled-IsClean,
  permit-IsClean,
}
use rustunnel.Edge.Udp.Session.{Traffic, Proxied, run_bridge, await_stream, proxy_udp_session}
use rustunnel.Edge.Udp.Ports.{addr_eq, UdpPort, Task, session_task}

module _ (port : ℕ) (info : TunnelInfo) (o : Outside) (traffic : Traffic) where
  await_stream-IsClean :
      (e : StreamOutcome) (c : TunnelCore)
      → IsFair o
      → o.outcome ≡ e
      → IsClean o.conn_id c
          (await_stream port info o traffic e
            (o.waiting (register_pending_conn o.conn_id o.stream_tx c))).core
  unfolding await_stream run_bridge
  await_stream-IsClean (opened s) c fair e =
      chain-IsClean o.conn_id (settled-IsClean o c fair (λ t. ground arith)) (
        chain-IsClean o.conn_id (fair.serves _)
          (meter_add-IsClean o.conn_id (TunnelKey.udp port) info.tunnel_id _ _ _))
  await_stream-IsClean dropped c fair e = settled-IsClean o c fair (λ t. ground arith)
  await_stream-IsClean timed_out c fair e =
      cancelled-IsClean o.conn_id o.stream_tx c _ (fair.quiet _) (fair.permits _)

proxy_udp_session-IsClean :
    (port : ℕ) (peer : SocketAddr) (info : TunnelInfo) (tx : ℕ) (o : Outside) (traffic : Traffic)
    (c : TunnelCore)
    → IsFair o
    → IsClean o.conn_id c (proxy_udp_session port peer info tx o traffic c).core
unfolding proxy_udp_session
proxy_udp_session-IsClean port peer info tx o traffic c fair =
    let pending = register_pending_conn o.conn_id o.stream_tx c in
    on_if (λ (p : Proxied). IsClean o.conn_id c p.core) o.session_open _ _
      (λ e. await_stream-IsClean port info o traffic o.outcome c fair refl)
      λ e.
        cancelled-IsClean o.conn_id o.stream_tx c pending (stays-IsQuiet pending)
          (stays-KeepsPermits pending)

-- However the task of a UDP session ends, the tunnels keep their owners, a valid state stays
-- valid, every semaphore has the permits that it had before the session took its own, the
-- connection is not left pending if it was not before, and the peer has no session; where a permit
-- was there to take, the other tasks keep the same, and they take the entry of a connection out if
-- its wait ends without running out.
pub session_task-IsClean :
    (task : Task) (o : Outside) (traffic : Traffic) (ps : UdpPort) (c : TunnelCore)
    → IsFair o
    → available (TunnelKey.udp ps.port) task.info c ≢ 0
    → IsClean o.conn_id c
        (session_task task o traffic ps
          (take_permit (TunnelKey.udp ps.port) task.info.tunnel_id c)).1.core
      × (get task.peer
            (session_task task o traffic ps
              (take_permit (TunnelKey.udp ps.port) task.info.tunnel_id c)).0.sessions
          ≡ none)
unfolding session_task
session_task-IsClean task o traffic ps c fair left =
    let k = TunnelKey.udp ps.port in
    let held = take_permit k task.info.tunnel_id c in
    (
      permit-IsClean o.conn_id k task.info c _ left (
          proxy_udp_session-IsClean ps.port task.peer task.info task.control_tx o traffic held
            fair),
      get-remove task.peer task.peer ps.sessions
          ∙ ap (λ b. if b then none else get task.peer ps.sessions) (eq_refl task.peer),
    )
