-- ===== src/Core/Valid/Reports.antt =====
-- Health reports, alerts, dispatches and the handling of sessions in core/router.rs keep the state
-- valid.
use rustunnel.Prelude.{
  ℕ, ◌≡◌, refl, Bool, true, false, Option, none, some, arith, if◌then◌else◌, nat_beq, not, ◌&&◌,
  codes, is_some,
}
use rustunnel.Prelude.Eq.{nat_eq, list_eq, pair_eq}
use rustunnel.Prelude.Map.{Map, get, insert, get-insert}
use rustunnel.Core.Types.{Text, Uuid, Instant, TunnelGroup, GroupMember, SessionInfo, SocketAddr}
use rustunnel.Core.Members.{new_session, healthy_count}
use rustunnel.Core.Router.{TunnelCore, TunnelKey, register_session}
use rustunnel.Core.Router.Health.{
  group_at, find_in, on_tunnel, mark_healthy, mark_unhealthy, broadcast_group_event, healthy_at,
  unhealthy_at, set_tunnel_healthy, set_tunnel_unhealthy, alerted, pop_alert_at,
  pop_zero_healthy_alert,
}
use rustunnel.Core.Router.Dispatch.{resolve, dispatch_member, choose, healthy_infos, count_request}
use rustunnel.Core.Invariant.{holder, lists}
use rustunnel.Core.Valid.Gentle.{
  IsQuiet, stays-IsQuiet, chain-IsQuiet, owners-IsQuiet, change_group-IsQuiet, on_member-IsGentle,
  rearm-IsGentle, alerted-IsGentle, send-IsQuiet,
}

broadcast-IsQuiet :
    (t : Uuid) (b : Bool) (reason : Text) (k : TunnelKey) (c : TunnelCore)
    → IsQuiet c (broadcast_group_event t b reason k c)
unfolding broadcast_group_event
broadcast-IsQuiet t b reason k c = send-IsQuiet _ c

if-IsQuiet :
    (b : Bool) (c d e : TunnelCore) → IsQuiet c d → IsQuiet c e → IsQuiet c (if b then d else e)
if-IsQuiet true c d e p q = p
if-IsQuiet false c d e p q = q

mark_healthy-session :
    (now : Instant) (m : GroupMember) → (mark_healthy now m).info.session_id ≡ m.info.session_id
unfolding mark_healthy
mark_healthy-session now m = ground arith

mark_unhealthy-session :
    (now : Instant) (reason : Text) (m : GroupMember)
    → (mark_unhealthy now reason m).info.session_id ≡ m.info.session_id
unfolding mark_unhealthy
mark_unhealthy-session now reason m = ground arith

if_pair-IsQuiet {ℓ} :
    {B : Type ℓ} (b : Bool) (c : TunnelCore) (x y : TunnelCore × B)
    → IsQuiet c x.0
    → IsQuiet c y.0
    → IsQuiet c (if◌then◌else◌ {A = TunnelCore × B} b x y).0
if_pair-IsQuiet true c x y p q = p
if_pair-IsQuiet false c x y p q = q

-- An operation that does nothing unless a lookup finds something.
on_found-IsQuiet {ℓ κ} :
    {A : Type ℓ} {B : Type κ} (o : Option A) (c : TunnelCore) (b : B) (f : A → TunnelCore × B)
    → ((a : A) → o ≡ some a → IsQuiet c (f a).0)
    → IsQuiet c (elim o as (λ _. TunnelCore × B) [ none ↦ (c, b) | some a ↦ f a ]).0
on_found-IsQuiet none c b f h = stays-IsQuiet c
on_found-IsQuiet (some a) c b f h = h a refl

on_tunnel-IsQuiet :
    (t : Uuid) (step : TunnelKey → GroupMember → TunnelCore → TunnelCore) (c : TunnelCore)
    → ((k : TunnelKey) (m : GroupMember) → IsQuiet c (step k m c))
    → IsQuiet c (on_tunnel t step c).0
on_tunnel-IsQuiet t step c h =
    on_found-IsQuiet (get t c.tunnel_index) c false _
      λ k _. on_found-IsQuiet (find_in t (group_at k c)) c false _ λ m _. h k m

pub set_tunnel_healthy-IsQuiet :
    (t : Uuid) (now : Instant) (c : TunnelCore) → IsQuiet c (set_tunnel_healthy t now c).0
unfolding set_tunnel_healthy healthy_at
set_tunnel_healthy-IsQuiet t now c =
    on_tunnel-IsQuiet t (λ k m. healthy_at t now k m.healthy) c
      λ k m.
        let marked =
          chain-IsQuiet
            (change_group-IsQuiet _ k c
              (on_member-IsGentle t (mark_healthy now) (mark_healthy-session now)))
            (change_group-IsQuiet _ k _ rearm-IsGentle) in
        if-IsQuiet m.healthy c _ _ marked
          (chain-IsQuiet marked (broadcast-IsQuiet t true (codes "recovered") k _))

pub set_tunnel_unhealthy-IsQuiet :
    (t : Uuid) (reason : Text) (now : Instant) (c : TunnelCore)
    → IsQuiet c (set_tunnel_unhealthy t reason now c).0
unfolding set_tunnel_unhealthy unhealthy_at
set_tunnel_unhealthy-IsQuiet t reason now c =
    on_tunnel-IsQuiet t (λ k m. unhealthy_at t reason now k m.healthy) c
      λ k m.
        let marked =
          change_group-IsQuiet _ k c (
            on_member-IsGentle t (mark_unhealthy now reason) (mark_unhealthy-session now reason)) in
        if-IsQuiet m.healthy c _ _ (chain-IsQuiet marked (broadcast-IsQuiet t false reason k _))
          marked

pop_alert_at-IsQuiet :
    (region : Text) (k : TunnelKey) (g : TunnelGroup) (c : TunnelCore)
    → IsQuiet c (pop_alert_at region k g c).0
unfolding pop_alert_at
pop_alert_at-IsQuiet region k g c =
    if_pair-IsQuiet
      (is_some g.key_hash && nat_beq (healthy_count g) 0 && not g.zero_healthy_alerted) c _ _
      (change_group-IsQuiet alerted k c alerted-IsGentle) (stays-IsQuiet c)

pub pop_zero_healthy_alert-IsQuiet :
    (t : Uuid) (region : Text) (c : TunnelCore) → IsQuiet c (pop_zero_healthy_alert t region c).0
unfolding pop_zero_healthy_alert
pop_zero_healthy_alert-IsQuiet t region c =
    on_found-IsQuiet (get t c.tunnel_index) c none _
      λ k _. on_found-IsQuiet (group_at k c) c none _ λ g _. pop_alert_at-IsQuiet region k g c

pub resolve-IsQuiet : (pick : ℕ) (k : TunnelKey) (c : TunnelCore) → IsQuiet c (resolve pick k c).0
unfolding resolve dispatch_member
resolve-IsQuiet pick k c = on_found-IsQuiet (group_at k c) c none _ λ g _.
    on_found-IsQuiet (choose pick (healthy_infos g.members)) c none _ λ info _.
      on_found-IsQuiet (get info.session_id c.sessions) c none _ λ session _.
        change_group-IsQuiet _ k c (on_member-IsGentle info.tunnel_id count_request (λ m. refl))

pub holder-sessions :
    (ss : Map Uuid SessionInfo) (c : TunnelCore) (j : TunnelKey) (u : Uuid)
    → holder (record c { sessions = ss }) j u ≡ holder c j u
holder-sessions ss c (TunnelKey.http n) u = refl
holder-sessions ss c (TunnelKey.tcp p) u = refl
holder-sessions ss c (TunnelKey.udp p) u = refl
holder-sessions ss c (TunnelKey.p2p n) u = refl

listed_insert :
    (s : Uuid) (session : SessionInfo) (c : TunnelCore)
    → get s c.sessions ≡ none
    → (r u : Uuid) → lists u (get r c.sessions) ≡ true
    → lists u (get r (insert s session c.sessions)) ≡ true
listed_insert s session c fresh r u l = ground (arith, get-insert s r session c.sessions)

-- A session under a new id.
pub register_session-IsQuiet :
    (s : Uuid) (now : Instant) (addr : SocketAddr) (token : Text) (db : Option Text)
    (user : Option Uuid) (tx : ℕ) (c : TunnelCore)
    → get s c.sessions ≡ none
    → IsQuiet c (register_session s now addr token db user tx c)
unfolding register_session
register_session-IsQuiet s now addr token db user tx c fresh =
    owners-IsQuiet c _
      (record {
        index = λ u. refl;
        holds = holder-sessions (insert s (new_session addr token db user tx now) c.sessions) c;
        listed = listed_insert s (new_session addr token db user tx now) c fresh;
      })
      (λ v. record { tcp_single = v.tcp_single; udp_single = v.udp_single })
      (λ v. record { at = v.at })
