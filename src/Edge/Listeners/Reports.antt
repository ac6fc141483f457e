-- ===== src/Edge/Listeners/Reports.antt =====
-- Health reports, alerts and dispatches of core/router.rs announce no port and route none, so that
-- every step keeps the events true.
use rustunnel.Prelude.{
  refl, Bool, true, false, not, ◌&&◌, Option, none, some, nat_beq, is_some, if◌then◌else◌,
}
use rustunnel.Prelude.Eq.{nat_eq, list_eq, pair_eq}
use rustunnel.Prelude.Map.{get}
use rustunnel.Core.Types.{
  Text, Uuid, Instant, TunnelGroup, GroupMember, GroupEvent, ZeroHealthyAlert, Returns-ok,
}
use rustunnel.Core.Members.{healthy_count}
use rustunnel.Core.Router.{TunnelCore, TunnelKey, register_session}
use rustunnel.Core.Router.Register.{
  register_http_tunnel, register_tcp_tunnel, register_udp_tunnel, register_p2p_tunnel,
}
use rustunnel.Core.Router.Health.{
  group_at, on_member, find_in, send_group_event, broadcast_group_event, rearm, alerted,
  mark_healthy, mark_unhealthy, on_tunnel, healthy_at, unhealthy_at, set_tunnel_healthy,
  set_tunnel_unhealthy, pop_alert_at, pop_zero_healthy_alert,
}
use rustunnel.Core.Valid.Steps.{Step}
use rustunnel.Prelude.Branches.{on_if}
use rustunnel.Edge.Streams.Permits.{on_found, on_resolve}
use rustunnel.Edge.Listeners.Events.{
  HasAnnounced, same-HasAnnounced, change_group-HasAnnounced, register_tcp_tunnel-HasAnnounced,
  register_udp_tunnel-HasAnnounced, register_p2p_tunnel-HasAnnounced,
  register_http_tunnel-HasAnnounced, remove_tunnel-HasAnnounced, remove_session-HasAnnounced,
}

send-HasAnnounced :
    (o : Option GroupEvent) (c : TunnelCore) → HasAnnounced c → HasAnnounced (send_group_event o c)
send-HasAnnounced none c h = h
send-HasAnnounced (some e) c h = same-HasAnnounced c _ refl refl (λ p. refl) (λ p. refl) h

if-HasAnnounced :
    (b : Bool) (c d : TunnelCore)
    → HasAnnounced c
    → HasAnnounced d
    → HasAnnounced (if b then c else d)
if-HasAnnounced true c d h k = h
if-HasAnnounced false c d h k = k

on_tunnel-HasAnnounced :
    (t : Uuid) (step : TunnelKey → GroupMember → TunnelCore → TunnelCore) (c : TunnelCore)
    → HasAnnounced c
    → ((k : TunnelKey) (m : GroupMember) → HasAnnounced (step k m c))
    → HasAnnounced (on_tunnel t step c).0
on_tunnel-HasAnnounced t step c h f =
    on_found HasAnnounced (get t c.tunnel_index) c false _ h
      λ k. on_found HasAnnounced (find_in t (group_at k c)) c false _ h λ m. f k m

set_tunnel_healthy-HasAnnounced :
    (t : Uuid) (now : Instant) (c : TunnelCore)
    → HasAnnounced c
    → HasAnnounced (set_tunnel_healthy t now c).0
unfolding set_tunnel_healthy healthy_at broadcast_group_event
set_tunnel_healthy-HasAnnounced t now c h =
    on_tunnel-HasAnnounced t (λ k m. healthy_at t now k m.healthy) c h
      λ k m.
        let marked =
          change_group-HasAnnounced k rearm _
            (change_group-HasAnnounced k (on_member t (mark_healthy now)) c h) in
        if-HasAnnounced m.healthy _ _ marked (send-HasAnnounced _ _ marked)

set_tunnel_unhealthy-HasAnnounced :
    (t : Uuid) (reason : Text) (now : Instant) (c : TunnelCore)
    → HasAnnounced c
    → HasAnnounced (set_tunnel_unhealthy t reason now c).0
unfolding set_tunnel_unhealthy unhealthy_at broadcast_group_event
set_tunnel_unhealthy-HasAnnounced t reason now c h =
    on_tunnel-HasAnnounced t (λ k m. unhealthy_at t reason now k m.healthy) c h
      λ k m.
        let marked = change_group-HasAnnounced k (on_member t (mark_unhealthy now reason)) c h in
        if-HasAnnounced m.healthy _ _ (send-HasAnnounced _ _ marked) marked

pop_alert_at-HasAnnounced :
    (region : Text) (k : TunnelKey) (g : TunnelGroup) (c : TunnelCore)
    → HasAnnounced c
    → HasAnnounced (pop_alert_at region k g c).0
unfolding pop_alert_at
pop_alert_at-HasAnnounced region k g c h =
    on_if (λ (r : TunnelCore × Option ZeroHealthyAlert). HasAnnounced r.0)
      (is_some g.key_hash && nat_beq (healthy_count g) 0 && not g.zero_healthy_alerted) _ _
      (λ e. change_group-HasAnnounced k alerted c h) (λ e. h)

pop_zero_healthy_alert-HasAnnounced :
    (t : Uuid) (region : Text) (c : TunnelCore)
    → HasAnnounced c
    → HasAnnounced (pop_zero_healthy_alert t region c).0
unfolding pop_zero_healthy_alert
pop_zero_healthy_alert-HasAnnounced t region c h =
    on_found HasAnnounced (get t c.tunnel_index) c none _ h λ k.
      on_found HasAnnounced (group_at k c) c none _ h λ g. pop_alert_at-HasAnnounced region k g c h

-- Every step of the server keeps the events true.
pub Step-HasAnnounced : {c c' : TunnelCore} → Step c c' → HasAnnounced c → HasAnnounced c'
unfolding register_session
Step-HasAnnounced (Step.session_opens c s now addr token db user tx fresh) h =
    same-HasAnnounced c _ refl refl (λ p. refl) (λ p. refl) h
Step-HasAnnounced (Step.session_closes c s) h = remove_session-HasAnnounced s c h
Step-HasAnnounced (Step.http_opens c c' s req p g f t sub fresh e) h =
    Returns-ok _ (register_http_tunnel s req p g f c) e
      (register_http_tunnel-HasAnnounced s req p g f c h)
Step-HasAnnounced (Step.tcp_opens c c' s g f t port fresh e) h =
    Returns-ok _ (register_tcp_tunnel s g f c) e (register_tcp_tunnel-HasAnnounced s g f c h)
Step-HasAnnounced (Step.udp_opens c c' s f t port fresh e) h =
    Returns-ok _ (register_udp_tunnel s f c) e (register_udp_tunnel-HasAnnounced s f c h)
Step-HasAnnounced (Step.p2p_opens c c' s name secret f t n fresh e) h =
    Returns-ok _ (register_p2p_tunnel s name secret f c) e
      (register_p2p_tunnel-HasAnnounced s name secret f c h)
Step-HasAnnounced (Step.tunnel_closes c t) h = remove_tunnel-HasAnnounced t c h
Step-HasAnnounced (Step.tunnel_healthy c t now) h = set_tunnel_healthy-HasAnnounced t now c h
Step-HasAnnounced (Step.tunnel_unhealthy c t reason now) h =
    set_tunnel_unhealthy-HasAnnounced t reason now c h
Step-HasAnnounced (Step.alert_popped c t region) h =
    pop_zero_healthy_alert-HasAnnounced t region c h
Step-HasAnnounced (Step.dispatched c pick k) h =
    on_resolve HasAnnounced pick k c h λ t. change_group-HasAnnounced k _ c h
