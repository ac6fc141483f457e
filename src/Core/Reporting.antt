-- ===== src/Core/Reporting.antt =====
-- Health reports and the alert for a group with no healthy member (core/router.rs,
-- `set_tunnel_healthy`, `set_tunnel_unhealthy`, `pop_zero_healthy_alert`).
use rustunnel.Prelude.{
  ◌≡◌, refl, ap, ◌∙◌, Bool, true, false, Option, none, some, List, ◌∷◌, arith, if◌then◌else◌,
  is_some, codes,
}
use rustunnel.Prelude.Eq.{nat_eq, list_eq, eq_iff}
use rustunnel.Prelude.Map.{get, get-modify}
use rustunnel.Core.Types.{Text, Uuid, Instant, GroupMember, TunnelGroup, GroupEvent}
use rustunnel.Core.Members.{healthy_count}
use rustunnel.Core.Router.{TunnelCore, TunnelKey}
use rustunnel.Core.Router.Health.{
  group_at, change_group, on_member, on_tunnel, mark_healthy, mark_unhealthy, rearm, alerted,
  healthy_at, unhealthy_at, set_tunnel_healthy, set_tunnel_unhealthy, pop_alert_at,
  pop_zero_healthy_alert, alert_labelled, route_label, broadcast_group_event, event_for,
  send_group_event, group_event,
}

-- A write to the group under a key is read back there.
pub group_at-change :
    (k : TunnelKey) (f : TunnelGroup → TunnelGroup) (c : TunnelCore) (g : TunnelGroup)
    → group_at k c ≡ some g
    → group_at k (change_group k f c) ≡ some (f g)
group_at-change (TunnelKey.http s) f c g h =
    ground (arith, get-modify s s f c.http_routes, eq_iff s s)
group_at-change (TunnelKey.tcp p) f c g h = ground (arith, get-modify p p f c.tcp_routes)
group_at-change (TunnelKey.udp p) f c g h = ground (arith, get-modify p p f c.udp_routes)
group_at-change (TunnelKey.p2p n) f c g h = cc

index-change :
    (k : TunnelKey) (f : TunnelGroup → TunnelGroup) (c : TunnelCore)
    → (change_group k f c).tunnel_index ≡ c.tunnel_index
index-change (TunnelKey.http s) f c = refl
index-change (TunnelKey.tcp p) f c = refl
index-change (TunnelKey.udp p) f c = refl
index-change (TunnelKey.p2p n) f c = refl

group_at-events :
    (k : TunnelKey) (es : List GroupEvent) (c : TunnelCore)
    → group_at k (record c { group_events = es }) ≡ group_at k c
group_at-events (TunnelKey.http s) es c = refl
group_at-events (TunnelKey.tcp p) es c = refl
group_at-events (TunnelKey.udp p) es c = refl
group_at-events (TunnelKey.p2p n) es c = refl

-- If the group of a tunnel is grouped, counts no healthy member and has not been alerted since its
-- last recovery, an alert goes out for a route that has a label, and right after it the same
-- tunnel pops no further alert.
pub pop_once :
    (t : Uuid) (region again : Text) (c : TunnelCore) (k : TunnelKey) (g : TunnelGroup)
    → get t c.tunnel_index ≡ some k
    → group_at k c ≡ some g
    → (is_some g.key_hash ≡ true) × (healthy_count g ≡ 0) × (g.zero_healthy_alerted ≡ false)
    → ((pop_zero_healthy_alert t region c).1 ≡ alert_labelled region g (route_label k))
      × ((pop_zero_healthy_alert t again (pop_zero_healthy_alert t region c).0).1 ≡ none)
unfolding pop_zero_healthy_alert pop_alert_at
pop_once t region again c k g ei eg h =
    ground (arith, group_at-change k alerted c g, index-change k alerted c)

group_events-change :
    (k : TunnelKey) (f : TunnelGroup → TunnelGroup) (c : TunnelCore)
    → (change_group k f c).group_events ≡ c.group_events
group_events-change (TunnelKey.http s) f c = refl
group_events-change (TunnelKey.tcp p) f c = refl
group_events-change (TunnelKey.udp p) f c = refl
group_events-change (TunnelKey.p2p n) f c = refl

-- A tunnel that the index and its group know.
abbrev pub Routed : Uuid → TunnelKey → TunnelGroup → GroupMember → TunnelCore → Type 0
Routed t k g m c =
    (get t c.tunnel_index ≡ some k) × (group_at k c ≡ some g) × (get t g.members ≡ some m)

-- The group after a write to one member.
on_member-group :
    (t : Uuid) (f : GroupMember → GroupMember) (k : TunnelKey) (g : TunnelGroup) (m : GroupMember)
    (c : TunnelCore)
    → Routed t k g m c
    → Routed t k (on_member t f g) (f m) (change_group k (on_member t f) c)
on_member-group t f k g m c (ei, eg, em) = (
  ground (arith, index-change k (on_member t f) c),
  group_at-change k (on_member t f) c g eg,
  ground (arith, get-modify t t f g.members),
)

module _ (t : Uuid) (k : TunnelKey) (g : TunnelGroup) (m : GroupMember) where
  send-Routed :
      (o : Option GroupEvent) (c : TunnelCore)
      → Routed t k g m c
      → Routed t k g m (send_group_event o c)
  send-Routed none c r = r
  send-Routed (some e) c (ei, eg, em) = (ei, group_at-events k (e ∷ c.group_events) c ∙ eg, em)

  broadcast-Routed :
      (b : Bool) (reason : Text) (c : TunnelCore)
      → Routed t k g m c
      → Routed t k g m (broadcast_group_event t b reason k c)
  unfolding broadcast_group_event
  broadcast-Routed b reason c r =
      send-Routed (event_for t b reason (group_at k c) (route_label k)) c r

  broadcast-events :
      (b : Bool) (reason : Text) (label : Text × Text) (c : TunnelCore)
      → Routed t k g m c
      → route_label k ≡ some label
      → (broadcast_group_event t b reason k c).group_events
        ≡ group_event t b reason g label ∷ c.group_events
  unfolding broadcast_group_event
  broadcast-events b reason label c (ei, eg, em) l = ground arith

mark_unhealthy-down :
    (now : Instant) (reason : Text) (m : GroupMember)
    → (mark_unhealthy now reason m).healthy ≡ false
unfolding mark_unhealthy
mark_unhealthy-down now reason m = ground arith

mark_healthy-up :
    (now : Instant) (m : GroupMember)
    → ((mark_healthy now m).healthy ≡ true) × ((mark_healthy now m).consecutive_failures ≡ 0)
unfolding mark_healthy
mark_healthy-up now m = ground arith

module _ (t : Uuid) (k : TunnelKey) (g : TunnelGroup) (m : GroupMember) (label : Text × Text)
    (c : TunnelCore) (r : Routed t k g m c) (l : route_label k ≡ some label) where
  on_tunnel_lem :
      (step : TunnelKey → GroupMember → TunnelCore → TunnelCore)
      → on_tunnel t step c ≡ (step k m c, true)
  on_tunnel_lem step = ground arith

  -- The group after a member was marked healthy and the alert armed.
  rearmed :
      (now : Instant)
      → Routed t k
          (rearm (on_member t (mark_healthy now) g))
          (mark_healthy now m)
          (change_group k rearm (change_group k (on_member t (mark_healthy now)) c))
  rearmed now =
      let d = change_group k (on_member t (mark_healthy now)) c in
      let (ei, eg, em) = on_member-group t (mark_healthy now) k g m c r in
      (ground (arith, index-change k rearm d), group_at-change k rearm d _ eg, em)

  rearmed_events :
      (now : Instant)
      → (change_group k rearm (change_group k (on_member t (mark_healthy now)) c)).group_events
        ≡ c.group_events
  rearmed_events now =
      group_events-change k rearm _ ∙ group_events-change k (on_member t (mark_healthy now)) c

  unhealthy_at_lem :
      (reason : Text) (now : Instant) (b : Bool)
      → let g' = on_member t (mark_unhealthy now reason) g in
        let c' = unhealthy_at t reason now k b c in
        Routed t k g' (mark_unhealthy now reason m) c'
        × (c'.group_events
            ≡ (if b then group_event t false reason g' label ∷ c.group_events else c.group_events))
  unfolding unhealthy_at
  unhealthy_at_lem reason now true =
      let f = mark_unhealthy now reason in
      let marked = on_member-group t f k g m c r in
      (
        broadcast-Routed t k _ _ false reason _ marked,
        broadcast-events t k _ _ false reason label _ marked l
            ∙ ap (◌∷◌ (group_event t false reason (on_member t f g) label))
                (group_events-change k (on_member t f) c),
      )
  unhealthy_at_lem reason now false =
      let f = mark_unhealthy now reason in
      (on_member-group t f k g m c r, group_events-change k (on_member t f) c)

  healthy_at_lem :
      (now : Instant) (b : Bool)
      → let g' = rearm (on_member t (mark_healthy now) g) in
        let c' = healthy_at t now k b c in
        Routed t k g' (mark_healthy now m) c'
        × (c'.group_events ≡ (
            if b
            then c.group_events
            else group_event t true (codes "recovered") g' label ∷ c.group_events))
  unfolding healthy_at
  healthy_at_lem now true = (rearmed now, rearmed_events now)
  healthy_at_lem now false = (
    broadcast-Routed t k _ _ true (codes "recovered") _ (rearmed now),
    broadcast-events t k _ _ true (codes "recovered") label _ (rearmed now) l
        ∙ ap
            (◌∷◌ (
              group_event t true (codes "recovered") (rearm (on_member t (mark_healthy now) g))
                label))
            (rearmed_events now),
  )

  -- A report that a routed member of a labelled route is unhealthy is taken, the member is marked
  -- in its group, and an event with the counts of the group after the change is sent exactly if
  -- the member was healthy before.
  pub set_tunnel_unhealthy_lem :
      (reason : Text) (now : Instant)
      → let m' = mark_unhealthy now reason m in
        let g' = on_member t (mark_unhealthy now reason) g in
        let c' = (set_tunnel_unhealthy t reason now c).0 in
        ((set_tunnel_unhealthy t reason now c).1 ≡ true)
        × Routed t k g' m' c'
        × (m'.healthy ≡ false)
        × (c'.group_events ≡ (
            if m.healthy
            then group_event t false reason g' label ∷ c.group_events
            else c.group_events))
  unfolding set_tunnel_unhealthy
  set_tunnel_unhealthy_lem reason now =
      let e = on_tunnel_lem (λ k m. unhealthy_at t reason now k m.healthy) in
      let done = unhealthy_at_lem reason now m.healthy in
      rw e (refl, done.0, mark_unhealthy-down now reason m, done.1)

  -- A report that a routed member of a labelled route is healthy is taken, the member is marked,
  -- its streak of failures is over, the group's alert is armed again, and an event with the counts
  -- of the group after the change is sent exactly if the member was unhealthy before.
  pub set_tunnel_healthy_lem :
      (now : Instant)
      → let m' = mark_healthy now m in
        let g' = rearm (on_member t (mark_healthy now) g) in
        let c' = (set_tunnel_healthy t now c).0 in
        ((set_tunnel_healthy t now c).1 ≡ true)
        × Routed t k g' m' c'
        × (m'.healthy ≡ true)
        × (m'.consecutive_failures ≡ 0)
        × (g'.zero_healthy_alerted ≡ false)
        × (c'.group_events ≡ (
            if m.healthy
            then c.group_events
            else group_event t true (codes "recovered") g' label ∷ c.group_events))
  unfolding set_tunnel_healthy
  set_tunnel_healthy_lem now =
      let e = on_tunnel_lem (λ k m. healthy_at t now k m.healthy) in
      let done = healthy_at_lem now m.healthy in
      rw e (refl, done.0, (mark_healthy-up now m).0, (mark_healthy-up now m).1, refl, done.1)
