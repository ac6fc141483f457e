-- ===== src/Control/Handle/Quiet.antt =====
-- The frames of control/session.rs that leave the owners of all tunnels alone: connections between
-- peers, addresses of a peer, health reports.
use rustunnel.Prelude.{
  ℕ, ◌≡◌, refl, Bool, true, false, Option, none, some, List, arith, if◌then◌else◌, Option-cases,
  inl, inr,
}
use rustunnel.Prelude.Eq.{◌==◌, nat_eq, list_eq}
use rustunnel.Prelude.Map.{Map, get, modify, get-modify, apply_at}
use rustunnel.Core.Types.{Text, Uuid, Instant}
use rustunnel.Core.Router.{
  TunnelCore, TunnelKey, P2pPublisher, register_pending_conn, cancel_pending_conn,
}
use rustunnel.Core.Router.Health.{set_tunnel_unhealthy}
use rustunnel.Core.Router.Dispatch.{
  resolve_p2p, update_p2p_nat_info, set_nat_at, set_nat, count_publisher, tunnel_session,
}
use rustunnel.Core.Invariant.{holder, publisher_owner}
use rustunnel.Core.Valid.Gentle.{IsQuiet, stays-IsQuiet, chain-IsQuiet, owners-IsQuiet}
use rustunnel.Core.Valid.Reports.{
  set_tunnel_healthy-IsQuiet, set_tunnel_unhealthy-IsQuiet, pop_zero_healthy_alert-IsQuiet,
}
use rustunnel.Control.Session.{SessionCtx, Outside, Handled}
use rustunnel.Control.Connect.{p2p_connect, connect_resolved, connect_publisher, bridge}
use rustunnel.Control.Handle.{tunnel_healthy, tunnel_unhealthy, marked_unhealthy, owns}

holder-pending :
    (ps : Map Uuid ℕ) (c : TunnelCore) (j : TunnelKey) (u : Uuid)
    → holder (record c { pending_conns = ps }) j u ≡ holder c j u
holder-pending ps c (TunnelKey.http n) u = refl
holder-pending ps c (TunnelKey.tcp n) u = refl
holder-pending ps c (TunnelKey.udp n) u = refl
holder-pending ps c (TunnelKey.p2p n) u = refl

pending-IsQuiet : (ps : Map Uuid ℕ) (c : TunnelCore) → IsQuiet c (record c { pending_conns = ps })
pending-IsQuiet ps c =
    owners-IsQuiet c _
      (record { index = λ u. refl; holds = holder-pending ps c; listed = λ r u l. l })
      (λ v. record { tcp_single = v.tcp_single; udp_single = v.udp_single })
      (λ v. record { at = v.at })

pub register_pending_conn-IsQuiet :
    (id : Uuid) (tx : ℕ) (c : TunnelCore) → IsQuiet c (register_pending_conn id tx c)
unfolding register_pending_conn
register_pending_conn-IsQuiet id tx c = pending-IsQuiet _ c

pub cancel_pending_conn-IsQuiet :
    (id : Uuid) (c : TunnelCore) → IsQuiet c (cancel_pending_conn id c)
unfolding cancel_pending_conn
cancel_pending_conn-IsQuiet id c = pending-IsQuiet _ c

-- A write to a publisher that keeps its tunnel and its session.
abbrev KeepsTunnel : (P2pPublisher → P2pPublisher) → Type 0
KeepsTunnel f =
    (t : Uuid) (p : P2pPublisher) → publisher_owner t (some (f p)) ≡ publisher_owner t (some p)

publisher_owner-apply :
    (f : P2pPublisher → P2pPublisher) (t : Uuid) (b : Bool) (o : Option P2pPublisher)
    → KeepsTunnel f
    → publisher_owner t (apply_at f b o) ≡ publisher_owner t o
publisher_owner-apply f t b none h = refl
publisher_owner-apply f t true (some p) h = h t p
publisher_owner-apply f t false (some p) h = refl

holder-publisher :
    (name : Text) (f : P2pPublisher → P2pPublisher) (c : TunnelCore)
    → KeepsTunnel f
    → (j : TunnelKey) (u : Uuid)
    → holder (record c { p2p_tunnels = modify name f c.p2p_tunnels }) j u ≡ holder c j u
holder-publisher name f c h (TunnelKey.http n) u = refl
holder-publisher name f c h (TunnelKey.tcp n) u = refl
holder-publisher name f c h (TunnelKey.udp n) u = refl
holder-publisher name f c h (TunnelKey.p2p n) u = ground (
  arith,
  get-modify name n f c.p2p_tunnels,
  publisher_owner-apply f u (name == n) (get n c.p2p_tunnels) h,
)

publisher-IsQuiet :
    (name : Text) (f : P2pPublisher → P2pPublisher) (c : TunnelCore)
    → KeepsTunnel f
    → IsQuiet c (record c { p2p_tunnels = modify name f c.p2p_tunnels })
publisher-IsQuiet name f c h =
    owners-IsQuiet c _
      (record { index = λ u. refl; holds = holder-publisher name f c h; listed = λ r u l. l })
      (λ v. record { tcp_single = v.tcp_single; udp_single = v.udp_single })
      (λ v. record { at = v.at })

resolve_p2p-IsQuiet : (name : Text) (c : TunnelCore) → IsQuiet c (resolve_p2p name c).0
unfolding resolve_p2p
resolve_p2p-IsQuiet name c = elim (Option-cases (get name c.p2p_tunnels)) [
  | inl e ↦ rw (e, resolve_p2p) (stays-IsQuiet c)
  | inr (p, e) ↦ elim (Option-cases (get p.tunnel_info.session_id c.sessions)) [
    | inl f ↦ rw (e, f, resolve_p2p) (stays-IsQuiet c)
    | inr (session, f) ↦
        rw (e, f, resolve_p2p) (publisher-IsQuiet name count_publisher c (λ t q. refl))
  ]
]

pub update_p2p_nat_info-IsQuiet :
    (t : Uuid) (nat_type : Text) (addrs : List Text) (c : TunnelCore)
    → IsQuiet c (update_p2p_nat_info t nat_type addrs c)
unfolding update_p2p_nat_info
update_p2p_nat_info-IsQuiet t nat_type addrs c = at (get t c.tunnel_index)
  where
    at : (k : Option TunnelKey) → IsQuiet c (set_nat_at nat_type addrs k c)
    at none = stays-IsQuiet c
    at (some (TunnelKey.http n)) = stays-IsQuiet c
    at (some (TunnelKey.tcp n)) = stays-IsQuiet c
    at (some (TunnelKey.udp n)) = stays-IsQuiet c
    at (some (TunnelKey.p2p n)) = publisher-IsQuiet n (set_nat nat_type addrs) c (λ t q. refl)

if-core :
    (c : TunnelCore) (b : Bool) (x y : Handled)
    → IsQuiet c x.core
    → IsQuiet c y.core
    → IsQuiet c (if b then x else y).core
if-core c true x y p q = p
if-core c false x y p q = q

connect_publisher-IsQuiet :
    (ctx : SessionCtx) (req : Text) (o : Outside) (p : P2pPublisher) (tx : ℕ) (c : TunnelCore)
    → IsQuiet c (connect_publisher ctx req o p tx c).core
unfolding connect_publisher bridge
connect_publisher-IsQuiet ctx req o p tx c =
    let waiting = register_pending_conn-IsQuiet o.conn_id o.pub_stream_tx c in
    if-core c o.publisher_open _ _
      (chain-IsQuiet waiting (register_pending_conn-IsQuiet o.sub_conn_id o.sub_stream_tx _))
      (chain-IsQuiet waiting (cancel_pending_conn-IsQuiet o.conn_id _))

connect_resolved-IsQuiet :
    (ctx : SessionCtx) (req name secret : Text) (o : Outside)
    (found : TunnelCore × Option (P2pPublisher × ℕ))
    → IsQuiet found.0 (connect_resolved ctx req name secret o found).core
unfolding connect_resolved
connect_resolved-IsQuiet ctx req name secret o (c, none) = stays-IsQuiet c
connect_resolved-IsQuiet ctx req name secret o (c, some (p, tx)) =
    if-core c (p.secret_hash == secret) _ _ (connect_publisher-IsQuiet ctx req o p tx c)
      (stays-IsQuiet c)

pub p2p_connect-IsQuiet :
    (ctx : SessionCtx) (req name secret : Text) (o : Outside) (c : TunnelCore)
    → IsQuiet c (p2p_connect ctx req name secret o c).core
unfolding p2p_connect
p2p_connect-IsQuiet ctx req name secret o c =
    if-core c ctx.config.p2p_enabled _ _
      (chain-IsQuiet (resolve_p2p-IsQuiet name c)
        (connect_resolved-IsQuiet ctx req name secret o (resolve_p2p name c)))
      (stays-IsQuiet c)

pub tunnel_healthy-IsQuiet :
    (ctx : SessionCtx) (t : Uuid) (now : Instant) (c : TunnelCore)
    → IsQuiet c (tunnel_healthy ctx t now c).core
unfolding tunnel_healthy
tunnel_healthy-IsQuiet ctx t now c =
    if-core c (owns ctx.session_id (tunnel_session t c)) _ _ (set_tunnel_healthy-IsQuiet t now c)
      (stays-IsQuiet c)

marked_unhealthy-IsQuiet :
    (ctx : SessionCtx) (t : Uuid) (marked : TunnelCore × Bool)
    → IsQuiet marked.0 (marked_unhealthy ctx t marked).core
marked_unhealthy-IsQuiet ctx t (c, true) = pop_zero_healthy_alert-IsQuiet t ctx.config.region_id c
marked_unhealthy-IsQuiet ctx t (c, false) = stays-IsQuiet c

pub tunnel_unhealthy-IsQuiet :
    (ctx : SessionCtx) (t : Uuid) (reason : Text) (now : Instant) (c : TunnelCore)
    → IsQuiet c (tunnel_unhealthy ctx t reason now c).core
unfolding tunnel_unhealthy
tunnel_unhealthy-IsQuiet ctx t reason now c =
    if-core c (owns ctx.session_id (tunnel_session t c)) _ _
      (chain-IsQuiet (set_tunnel_unhealthy-IsQuiet t reason now c)
        (marked_unhealthy-IsQuiet ctx t (set_tunnel_unhealthy t reason now c)))
      (stays-IsQuiet c)
