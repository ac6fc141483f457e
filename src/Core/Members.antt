-- ===== src/Core/Members.antt =====
-- crates/rustunnel-server/src/core/tunnel.rs: tunnels, members and groups.
-- 64-bit and 32-bit atomic counters wrap.
pub mod Transfer
pub mod Ring
use rustunnel.Prelude.{
  ℕ, suc, ◌+◌, ◌-◌, ◌^◌, ◌%◌, min, Bool, true, false, Option, none, some, List, [], ◌∷◌, ◌++◌, leb,
  ltb, if◌then◌else◌, length, drop, codes,
}
use rustunnel.Prelude.Map.{Map, insert}
use rustunnel.Prelude.Eq.{nat_eq}
use rustunnel.Core.Types.{
  Text, Uuid, Instant, TunnelProtocol, HealthCheckSpec, HealthEvent, TunnelInfo, GroupMember,
  TunnelGroup, SessionInfo, SocketAddr,
}

abbrev pub u64_mod : ℕ
u64_mod = 2 ^ 64

abbrev pub u32_mod : ℕ
u32_mod = 2 ^ 32

abbrev pub saturating_add : ℕ → ℕ → ℕ
saturating_add a b = min (a + b) (u64_mod - 1)

abbrev pub health_event_ring_size : ℕ
health_event_ring_size = 50

pub record LiveTunnelMeter : Type 0 where
  pub tunnel_id : Uuid
  pub request_count : ℕ
  pub bytes_in : ℕ
  pub bytes_out : ℕ

unfoldable pub bytes_proxied : LiveTunnelMeter → ℕ
bytes_proxied m = saturating_add m.bytes_in m.bytes_out

unfoldable pub zeros : Uuid → LiveTunnelMeter
zeros tunnel_id = record { tunnel_id = tunnel_id; request_count = 0; bytes_in = 0; bytes_out = 0 }

-- `TunnelInfo::new`
unfoldable pub new_info :
    Uuid → Uuid → TunnelProtocol → Option Text → Option ℕ → ℕ → Instant → TunnelInfo
new_info session_id tunnel_id protocol subdomain assigned_port max_connections now = record {
  session_id = session_id;
  tunnel_id = tunnel_id;
  protocol = protocol;
  subdomain = subdomain;
  assigned_port = assigned_port;
  created_at = now;
  request_count = 0;
  bytes_in = 0;
  bytes_out = 0;
  bytes_proxied = 0;
  conn_semaphore = max_connections;
}

-- `TransferMeter::add` on the counters of a tunnel; a zero amount is not added.
unfoldable pub add_transfer : ℕ → ℕ → TunnelInfo → TunnelInfo
add_transfer inbound outbound t = record t {
  bytes_in = if ltb 0 inbound then (t.bytes_in + inbound) % u64_mod else t.bytes_in;
  bytes_out = if ltb 0 outbound then (t.bytes_out + outbound) % u64_mod else t.bytes_out;
  bytes_proxied =
      if ltb 0 (saturating_add inbound outbound)
      then (t.bytes_proxied + saturating_add inbound outbound) % u64_mod
      else t.bytes_proxied;
}

unfoldable pub meter_snapshot : TunnelInfo → LiveTunnelMeter
meter_snapshot t = record {
  tunnel_id = t.tunnel_id;
  request_count = t.request_count;
  bytes_in = t.bytes_in;
  bytes_out = t.bytes_out;
}

unfoldable pub healthy_with : TunnelInfo → GroupMember
healthy_with info = record {
  info = info;
  healthy = true;
  health_spec = none;
  consecutive_failures = 0;
  total_health_failures = 0;
  health_events = [];
}

-- `spec.is_none()`: a member that asks for probes starts unhealthy.
abbrev pub initially_healthy : Option HealthCheckSpec → Bool
initially_healthy none = true
initially_healthy (some spec) = false

unfoldable pub with_health_spec : Instant → TunnelInfo → Option HealthCheckSpec → GroupMember
with_health_spec now info spec = record {
  info = info;
  healthy = initially_healthy spec;
  health_spec = spec;
  consecutive_failures = 0;
  total_health_failures = 0;
  health_events =
      record {
        at = now;
        healthy = initially_healthy spec;
        reason =
            if initially_healthy spec
            then codes "registered"
            else codes "registered (awaiting first probe)";
      }
      ∷ [];
}

-- The ring of recent transitions, oldest first; a full ring drops its oldest entry.
unfoldable pub push_ring : HealthEvent → List HealthEvent → List HealthEvent
push_ring e ring =
    (if leb health_event_ring_size (length ring) then drop 1 ring else ring) ++ e ∷ []

unfoldable pub record_health_event : Instant → Bool → Text → GroupMember → GroupMember
unfolding push_ring
record_health_event now healthy reason m = record m {
  health_events =
      push_ring (record { at = now; healthy = healthy; reason = reason }) m.health_events;
}

unfoldable pub new_with_member : Text → Option Text → GroupMember → TunnelGroup
new_with_member name key_hash member = record {
  name = name;
  key_hash = key_hash;
  members = insert member.info.tunnel_id member [];
  zero_healthy_alerted = false;
}

unfoldable pub new_solo : Text → TunnelInfo → TunnelGroup
unfolding healthy_with
new_solo name info = record {
  name = name;
  key_hash = none;
  members = insert info.tunnel_id (healthy_with info) [];
  zero_healthy_alerted = false;
}

unfoldable pub count_healthy : Map Uuid GroupMember → ℕ
count_healthy [] = 0
count_healthy ((id, m) ∷ ms) = let rest = count_healthy ms in if m.healthy then suc rest else rest

unfoldable pub healthy_count : TunnelGroup → ℕ
unfolding count_healthy
healthy_count g = count_healthy g.members

-- `SessionInfo::new`
unfoldable pub new_session :
    SocketAddr → Text → Option Text → Option Uuid → ℕ → Instant → SessionInfo
new_session client_addr token_id db_token_id user_id control_tx now = record {
  client_addr = client_addr;
  auth_token_id = token_id;
  db_token_id = db_token_id;
  user_id = user_id;
  control_tx = control_tx;
  tunnels = [];
  connected_at = now;
  last_heartbeat = now;
  data_pipe = none;
}
