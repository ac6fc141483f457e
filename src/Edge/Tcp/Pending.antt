-- ===== src/Edge/Tcp/Pending.antt =====
-- What a TCP connection leaves behind (edge/tcp.rs): its entry in the table of pending connections.
use rustunnel.Prelude.{
  ℕ, ◌≡◌, refl, ap, ◌∙◌, Bool, true, false, Option, none, some, arith, nat_beq, if◌then◌else◌,
}
use rustunnel.Prelude.Eq.{nat_eq, eq_refl}
use rustunnel.Prelude.Map.{get, get-insert}
use rustunnel.Core.Types.{SocketAddr, TunnelInfo}
use rustunnel.Core.Router.{TunnelCore, TunnelKey, register_pending_conn}
use rustunnel.Core.Router.Dispatch.{resolve}
use rustunnel.Prelude.Branches.{on_pair, on_if}
use rustunnel.Edge.Streams.{
  StreamOutcome, opened, dropped, timed_out, Outside, available, take_permit,
}
use rustunnel.Edge.Streams.Clean.{
  IsFair, NotPending, resolve-IsClean, meter_add-IsClean, give_permit-pending,
}
use rustunnel.Edge.Tcp.{
  TcpFault, no_tunnel, too_many, send_failed, sender_dropped, stream_timeout, Connected, copied,
  await_stream, open_stream, with_tunnel, proxy_tcp_connection,
}

-- The faults after which nothing takes the entry out.
abbrev pub forgets : Option TcpFault → Bool
forgets (some send_failed) = true
forgets (some stream_timeout) = true
forgets (some sender_dropped) = false
forgets (some (no_tunnel p)) = false
forgets (some (too_many p)) = false
forgets none = false

-- While a wait runs out, nobody takes the entry out.
abbrev pub LeavesEntry : Outside → Type 0
LeavesEntry o =
    o.outcome ≡ timed_out
    → (c : TunnelCore) → get o.conn_id (o.waiting c).pending_conns ≡ get o.conn_id c.pending_conns

module _ (port : ℕ) (peer : SocketAddr) (o : Outside) (n : Option (ℕ × ℕ)) where
  abbrev Left : Connected → Type 0
  Left r = get o.conn_id r.core.pending_conns ≡ (if forgets r.fault then some o.stream_tx else none)

  registered_entry :
      (c : TunnelCore)
      → get o.conn_id (register_pending_conn o.conn_id o.stream_tx c).pending_conns
        ≡ some o.stream_tx
  unfolding register_pending_conn
  registered_entry c =
      get-insert o.conn_id o.conn_id o.stream_tx c.pending_conns ∙ rw (eq_refl o.conn_id) refl

  copied-pending :
      (k : TunnelKey) (info : TunnelInfo) (m : Option (ℕ × ℕ)) (c : TunnelCore)
      → IsFair o
      → NotPending o.conn_id c
      → NotPending o.conn_id (copied k info o m c)
  unfolding copied
  copied-pending k info none c fair h = (fair.serves c).waits h
  copied-pending k info (some (up, down)) c fair h =
      (meter_add-IsClean o.conn_id k info.tunnel_id up down (o.serving c)).waits
        ((fair.serves c).waits h)

  await_stream-Left :
      (k : TunnelKey) (info : TunnelInfo) (e : StreamOutcome) (c : TunnelCore)
      → IsFair o
      → LeavesEntry o
      → o.outcome ≡ e
      → Left (await_stream k info o n e (o.waiting (register_pending_conn o.conn_id o.stream_tx c)))
  unfolding await_stream
  await_stream-Left k info (opened st) c fair kept e =
      copied-pending k info n _ fair (fair.settles (λ t. ground arith) _)
  await_stream-Left k info dropped c fair kept e = fair.settles (λ t. ground arith) _
  await_stream-Left k info timed_out c fair kept e = kept e _ ∙ registered_entry c

  open_stream-Left :
      (info : TunnelInfo) (tx : ℕ) (c : TunnelCore)
      → IsFair o
      → LeavesEntry o
      → Left (open_stream port peer info tx o n c)
  unfolding open_stream
  open_stream-Left info tx c fair kept =
      on_if Left o.session_open _ _
        (λ e. await_stream-Left (TunnelKey.tcp port) info o.outcome c fair kept refl)
        λ e. registered_entry c

  with_tunnel-Left :
      (info : TunnelInfo) (tx : ℕ) (c : TunnelCore)
      → IsFair o
      → LeavesEntry o
      → NotPending o.conn_id c
      → Left (with_tunnel port peer info tx o n c)
  unfolding with_tunnel
  with_tunnel-Left info tx c fair kept h =
      on_if Left (nat_beq (available (TunnelKey.tcp port) info c) 0) _ _ (λ e. h)
        λ e.
          ap (get o.conn_id) (give_permit-pending (TunnelKey.tcp port) info.tunnel_id _)
          ∙ open_stream-Left info tx (take_permit (TunnelKey.tcp port) info.tunnel_id c) fair kept

-- A TCP connection that fails since its session no longer listens, or since its wait runs out,
-- leaves its entry in the table of pending connections; after any other end there is none. The
-- other tasks do not put it there, take it out if the wait ends otherwise, and leave it while the
-- wait runs out; and it was not there before.
pub proxy_tcp_connection-forgets :
    (port : ℕ) (peer : SocketAddr) (o : Outside) (n : Option (ℕ × ℕ)) (c : TunnelCore)
    → IsFair o
    → LeavesEntry o
    → NotPending o.conn_id c
    → get o.conn_id (proxy_tcp_connection port peer o n c).core.pending_conns
      ≡ (if forgets (proxy_tcp_connection port peer o n c).fault then some o.stream_tx else none)
unfolding proxy_tcp_connection
proxy_tcp_connection-forgets port peer o n c fair kept h =
    let resolved = (resolve-IsClean o.conn_id o.pick (TunnelKey.tcp port) c).waits h in
    on_pair (Left port peer o n) (resolve o.pick (TunnelKey.tcp port) c).1 _ _ (λ e. resolved)
      λ info tx e. with_tunnel-Left port peer o n info tx _ fair kept resolved
