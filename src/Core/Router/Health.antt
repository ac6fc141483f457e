-- ===== src/Core/Router/Health.antt =====
-- crates/rustunnel-server/src/core/router.rs: the health of group members, the events on its
-- changes, and the alert for a group with no healthy member.
use rustunnel.Prelude.{
  ℕ, zero, suc, ◌+◌, ◌%◌, Bool, true, false, not, ◌&&◌, Option, none, some, List, [], ◌∷◌, ◌++◌,
  if◌then◌else◌, is_some, length, contains, codes, leb, ltb, nat_beq,
}
use rustunnel.Prelude.Eq.{nat_eq, list_eq}
use rustunnel.Prelude.Map.{Map, get, modify}
use rustunnel.Core.Types.{
  Text, Uuid, Instant, GroupMember, TunnelGroup, GroupEvent, ZeroHealthyAlert,
}
use rustunnel.Core.Members.{u32_mod, u64_mod, record_health_event, healthy_count}
use rustunnel.Core.Router.{TunnelCore, TunnelKey}
use rustunnel.Core.Router.Register.{to_string}

-- The group under a routing key; P2P tunnels are in no group.
abbrev pub group_at : TunnelKey → TunnelCore → Option TunnelGroup
group_at (TunnelKey.http sub) c = get sub c.http_routes
group_at (TunnelKey.tcp port) c = get port c.tcp_routes
group_at (TunnelKey.udp port) c = get port c.udp_routes
group_at (TunnelKey.p2p name) c = none

-- A write to the group under a routing key, through its `Arc`.
abbrev pub change_group : TunnelKey → (TunnelGroup → TunnelGroup) → TunnelCore → TunnelCore
change_group (TunnelKey.http sub) f c = record c { http_routes = modify sub f c.http_routes }
change_group (TunnelKey.tcp port) f c = record c { tcp_routes = modify port f c.tcp_routes }
change_group (TunnelKey.udp port) f c = record c { udp_routes = modify port f c.udp_routes }
change_group (TunnelKey.p2p name) f c = c

abbrev pub on_member : Uuid → (GroupMember → GroupMember) → TunnelGroup → TunnelGroup
on_member t f g = record g { members = modify t f g.members }

abbrev pub find_in : Uuid → Option TunnelGroup → Option GroupMember
find_in t none = none
find_in t (some g) = get t g.members

unfoldable pub group_for_tunnel : Uuid → TunnelCore → Option TunnelGroup
group_for_tunnel t c = elim (get t c.tunnel_index) [ none ↦ none | some key ↦ group_at key c ]

-- The member that `with_member` runs its function on.
unfoldable pub member_of : Uuid → TunnelCore → Option GroupMember
unfolding group_for_tunnel
member_of t c = find_in t (group_for_tunnel t c)

-- The label of a route in events and alerts.
abbrev pub route_label : TunnelKey → Option (Text × Text)
route_label (TunnelKey.http sub) = some (codes "http", sub)
route_label (TunnelKey.tcp port) = some (codes "tcp", to_string port)
route_label (TunnelKey.udp port) = some (codes "udp", to_string port)
route_label (TunnelKey.p2p name) = none

unfoldable pub group_event : Uuid → Bool → Text → TunnelGroup → Text × Text → GroupEvent
group_event t healthy reason g (protocol, label) = record {
  protocol = protocol;
  label = label;
  tunnel_id = t;
  healthy = healthy;
  reason = reason;
  healthy_count = healthy_count g;
  member_count = length g.members;
}

abbrev pub send_group_event : Option GroupEvent → TunnelCore → TunnelCore
send_group_event none c = c
send_group_event (some e) c = record c { group_events = e ∷ c.group_events }

abbrev pub event_for :
    Uuid → Bool → Text → Option TunnelGroup → Option (Text × Text) → Option GroupEvent
event_for t healthy reason none label = none
event_for t healthy reason (some g) none = none
event_for t healthy reason (some g) (some label) = some (group_event t healthy reason g label)

-- The event reads the group as it is after the change, under its key.
unfoldable pub broadcast_group_event : Uuid → Bool → Text → TunnelKey → TunnelCore → TunnelCore
unfolding group_event
broadcast_group_event t healthy reason key c =
    send_group_event (event_for t healthy reason (group_at key c) (route_label key)) c

unfoldable pub mark_healthy : Instant → GroupMember → GroupMember
unfolding record_health_event
mark_healthy now m =
    let marked : GroupMember = record m { healthy = true; consecutive_failures = 0 } in
    if m.healthy then marked else record_health_event now true (codes "recovered") marked

unfoldable pub mark_unhealthy : Instant → Text → GroupMember → GroupMember
unfolding record_health_event
mark_unhealthy now reason m =
    let marked : GroupMember = record m {
      healthy = false;
      consecutive_failures = (m.consecutive_failures + 1) % u32_mod;
      total_health_failures = (m.total_health_failures + 1) % u64_mod;
    } in
    if m.healthy then record_health_event now false reason marked else marked

abbrev pub rearm : TunnelGroup → TunnelGroup
rearm g = record g { zero_healthy_alerted = false }

-- The member is marked, the group's alert is armed again, and an event tells of a recovery.
unfoldable pub healthy_at : Uuid → Instant → TunnelKey → Bool → TunnelCore → TunnelCore
unfolding mark_healthy broadcast_group_event
healthy_at t now key was_healthy c =
    let marked = change_group key rearm (change_group key (on_member t (mark_healthy now)) c) in
    if was_healthy then marked else broadcast_group_event t true (codes "recovered") key marked

unfoldable pub unhealthy_at : Uuid → Text → Instant → TunnelKey → Bool → TunnelCore → TunnelCore
unfolding mark_unhealthy broadcast_group_event
unhealthy_at t reason now key was_healthy c =
    let marked = change_group key (on_member t (mark_unhealthy now reason)) c in
    if was_healthy then broadcast_group_event t false reason key marked else marked

-- Run a step on the key and the member of a tunnel, if it has both.
abbrev pub on_tunnel :
    Uuid → (TunnelKey → GroupMember → TunnelCore → TunnelCore) → TunnelCore → TunnelCore × Bool
on_tunnel t step c = elim (get t c.tunnel_index) [
  | none ↦ (c, false)
  | some key ↦ elim (find_in t (group_at key c)) [
    | none ↦ (c, false)
    | some m ↦ (step key m c, true)
  ]
]

unfoldable pub set_tunnel_healthy : Uuid → Instant → TunnelCore → TunnelCore × Bool
unfolding healthy_at
set_tunnel_healthy t now c = on_tunnel t (λ key m. healthy_at t now key m.healthy) c

unfoldable pub set_tunnel_unhealthy : Uuid → Text → Instant → TunnelCore → TunnelCore × Bool
unfolding unhealthy_at
set_tunnel_unhealthy t reason now c =
    on_tunnel t (λ key m. unhealthy_at t reason now key m.healthy) c

-- `chars().take(n)` on UTF-8 bytes: continuation bytes go with the character that they end.
unfoldable pub take_chars : ℕ → Text → Text
take_chars n [] = []
take_chars zero (b ∷ s) = if leb 128 b && ltb b 192 then b ∷ take_chars zero s else []
take_chars (suc n) (b ∷ s) =
    if leb 128 b && ltb b 192 then b ∷ take_chars (suc n) s else b ∷ take_chars n s

abbrev pub webhook_of : GroupMember → Option Text
webhook_of m = elim m.health_spec [ none ↦ none | some spec ↦ spec.alert_webhook_url ]

abbrev pub push_url : Option Text → List Text → List Text
push_url none urls = urls
push_url (some url) urls = if contains url urls then urls else urls ++ url ∷ []

-- The distinct webhook addresses of the members, in the order in which they are met.
unfoldable pub collect_webhooks : Map Uuid GroupMember → List Text → List Text
collect_webhooks [] urls = urls
collect_webhooks ((id, m) ∷ ms) urls = collect_webhooks ms (push_url (webhook_of m) urls)

abbrev pub hash_or_default : Option Text → Text
hash_or_default none = []
hash_or_default (some kh) = take_chars 8 kh

unfoldable pub alert_for : Text → TunnelGroup → Text × Text → ZeroHealthyAlert
alert_for region_id g (protocol, label) = record {
  payload = record {
    region_id = region_id;
    protocol = protocol;
    label = label;
    group_name = g.name;
    key_hash_short = hash_or_default g.key_hash;
    member_count = length g.members;
  };
  tenant_webhook_urls = collect_webhooks g.members [];
}

abbrev pub alerted : TunnelGroup → TunnelGroup
alerted g = record g { zero_healthy_alerted = true }

abbrev pub alert_labelled : Text → TunnelGroup → Option (Text × Text) → Option ZeroHealthyAlert
alert_labelled region_id g none = none
alert_labelled region_id g (some label) = some (alert_for region_id g label)

-- A grouped pool that has no healthy member is alerted once, until a member recovers.
unfoldable pub pop_alert_at :
    Text → TunnelKey → TunnelGroup → TunnelCore → TunnelCore × Option ZeroHealthyAlert
pop_alert_at region_id key g c =
    if is_some g.key_hash && nat_beq (healthy_count g) 0 && not g.zero_healthy_alerted
    then (change_group key alerted c, alert_labelled region_id g (route_label key))
    else (c, none)

unfoldable pub pop_zero_healthy_alert :
    Uuid → Text → TunnelCore → TunnelCore × Option ZeroHealthyAlert
unfolding pop_alert_at
pop_zero_healthy_alert t region_id c = elim (get t c.tunnel_index) [
  | none ↦ (c, none)
  | some key ↦ elim (group_at key c) [ none ↦ (c, none) | some g ↦ pop_alert_at region_id key g c ]
]
