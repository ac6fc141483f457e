-- ===== src/Witness/States.antt =====
-- Concrete states of the routing core: two TCP ports, one session, tunnels of it.
use rustunnel.Prelude.{ℕ, ◌≡◌, refl, true, false, inl, Option, none, some, [], codes}
use rustunnel.Prelude.Eq.{nat_eq, list_eq}
use rustunnel.Prelude.Map.{get, insert, modify, remove}
use rustunnel.Core.Types.{
  Text, Uuid, SocketAddr, v4, TunnelProtocol, HealthCheckKind, HealthCheckSpec, GroupSpec,
  TunnelInfo, GroupMember, TunnelGroup, Result, ok, err,
}
use rustunnel.Core.Members.{
  healthy_count, count_healthy, new_info, with_health_spec, new_with_member, new_session,
}
use rustunnel.Core.Subdomain.{validate_subdomain, starts_with_hyphen, ends_with_hyphen}
use rustunnel.Core.Router.Dispatch.{resolve, dispatch_member, healthy_infos, count_request_of}
use rustunnel.Core.Router.{
  push_tunnel, TunnelCore, TunnelKey, port_stack, port_range, udp_port_range, new, register_session,
  check_session_limit, add_tunnel_to_session,
}
use rustunnel.Core.Router.Register.{
  Fresh, index_tunnel, choose_subdomain, first_group, upsert_http, register_http_tunnel, open_tcp,
  register_tcp_solo, register_tcp_tunnel,
}
use rustunnel.Core.Valid.{IsValid}
use rustunnel.Core.Dispatching.{Serves}
use rustunnel.Core.Valid.Steps.{
  Reach, session_opens, tcp_opens, http_opens, here, next, reachable-IsValid,
}

abbrev pub from_ok : {A : Type 0} → TunnelCore → Result (TunnelCore × Uuid × A) → TunnelCore
from_ok d (ok r) = r.0
from_ok d (err e) = d

abbrev pub start : TunnelCore
start = new 20000 20001 0 0 5 100

abbrev pub fresh : Uuid → Fresh
fresh t = record { tunnel_id = t; label_id = 0; now = 7 }

abbrev pub client : SocketAddr
client = record { ip = v4 1; port = 80 }

abbrev pub opened : TunnelCore
opened = register_session 1 0 client [] none none 9 start

-- A TCP tunnel 2 on the port 20001.
abbrev pub with_tcp : TunnelCore
with_tcp = from_ok {A = ℕ} opened (register_tcp_tunnel 1 none (fresh 2) opened)

abbrev pub checks : HealthCheckSpec
checks = record {
  kind = HealthCheckKind.tcp;
  interval_secs = 10;
  timeout_secs = 2;
  max_failed = 3;
  http_path = none;
  http_expect_2xx = false;
  alert_webhook_url = none;
}

abbrev pub pool : Option HealthCheckSpec → GroupSpec
pool checked = record {
  group_name = codes "pool";
  key_hash = codes "0123456789";
  health_check = checked;
}

abbrev pub web : TunnelKey
web = TunnelKey.http (codes "web")

-- A group on the subdomain "web" with the tunnel 3, which is healthy or awaits its first probe.
abbrev pub with_http : Option HealthCheckSpec → TunnelCore
with_http checked = from_ok {A = Text} with_tcp (
    register_http_tunnel 1 (some (codes "web")) TunnelProtocol.http (some (pool checked)) (fresh 3)
      with_tcp)

abbrev pub web_info : TunnelInfo
web_info = new_info 1 3 TunnelProtocol.http (some (codes "web")) none 100 7

abbrev pub web_member : Option HealthCheckSpec → GroupMember
web_member checked = with_health_spec 7 web_info checked

abbrev pub web_group : Option HealthCheckSpec → TunnelGroup
web_group checked = new_with_member (codes "pool") (some (codes "0123456789")) (web_member checked)

pub tcp_registers : register_tcp_tunnel 1 none (fresh 2) opened ≡ ok (with_tcp, 2, 20001)
unfolding get insert modify remove new port_range udp_port_range port_stack register_session
    check_session_limit register_tcp_tunnel register_tcp_solo new_session
tcp_registers = refl

pub http_registers :
    (checked : Option HealthCheckSpec)
    → register_http_tunnel 1
        (some (codes "web"))
        TunnelProtocol.http
        (some (pool checked))
        (fresh 3)
        with_tcp
      ≡ ok (with_http checked, 3, codes "web")
unfolding get insert modify remove new port_range udp_port_range port_stack register_session
    check_session_limit register_tcp_tunnel register_tcp_solo open_tcp index_tunnel
    add_tunnel_to_session register_http_tunnel choose_subdomain validate_subdomain
    starts_with_hyphen ends_with_hyphen upsert_http new_session
http_registers checked = refl

pub with_http-tunnel :
    (checked : Option HealthCheckSpec) → get 3 (with_http checked).tunnel_index ≡ some web
unfolding get insert modify remove new port_range udp_port_range port_stack register_session
    check_session_limit register_tcp_tunnel register_tcp_solo open_tcp index_tunnel
    add_tunnel_to_session register_http_tunnel choose_subdomain validate_subdomain
    starts_with_hyphen ends_with_hyphen upsert_http new_session
with_http-tunnel checked = refl

pub with_http-group :
    (checked : Option HealthCheckSpec)
    → get (codes "web") (with_http checked).http_routes ≡ some (web_group checked)
unfolding get insert modify remove new port_range udp_port_range port_stack register_session
    check_session_limit register_tcp_tunnel register_tcp_solo open_tcp index_tunnel
    add_tunnel_to_session register_http_tunnel choose_subdomain validate_subdomain
    starts_with_hyphen ends_with_hyphen upsert_http first_group new_info new_session
with_http-group checked = refl

pub fresh_tcp : get 2 opened.tunnel_index ≡ none
unfolding get new register_session
fresh_tcp = refl

pub fresh_http : get 3 with_tcp.tunnel_index ≡ none
unfolding get insert modify remove new port_range udp_port_range port_stack register_session
    check_session_limit register_tcp_tunnel register_tcp_solo open_tcp index_tunnel
    add_tunnel_to_session new_session
fresh_http = refl

fresh_session : get 1 start.sessions ≡ none
unfolding get new
fresh_session = refl

pub opened-Reach : Reach start opened
opened-Reach = next here (session_opens start 1 0 client [] none none 9 fresh_session)

pub with_tcp-Reach : Reach start with_tcp
with_tcp-Reach =
    next opened-Reach (tcp_opens opened with_tcp 1 none (fresh 2) 2 20001 fresh_tcp tcp_registers)

pub with_http-Reach : (checked : Option HealthCheckSpec) → Reach start (with_http checked)
with_http-Reach checked = next with_tcp-Reach (
    http_opens with_tcp (with_http checked) 1 (some (codes "web")) TunnelProtocol.http
      (some (pool checked)) (fresh 3) 3 (codes "web") fresh_http (http_registers checked))

pub opened-IsValid : IsValid opened
opened-IsValid = reachable-IsValid 20000 20001 0 0 5 100 opened-Reach

pub with_http-IsValid : (checked : Option HealthCheckSpec) → IsValid (with_http checked)
with_http-IsValid checked = reachable-IsValid 20000 20001 0 0 5 100 (with_http-Reach checked)

pub web_up : (web_member none).healthy ≡ true
unfolding with_health_spec
web_up = refl

pub web_down : healthy_count (web_group (some checks)) ≡ 0
unfolding healthy_count count_healthy new_with_member with_health_spec insert
web_down = refl

pub web_listed :
    (checked : Option HealthCheckSpec)
    → get 3 (web_group checked).members ≡ some (web_member checked)
unfolding new_with_member with_health_spec insert get new_info
web_listed checked = refl

pub web_resolves :
    resolve 0 web (with_http none)
    ≡ ((resolve 0 web (with_http none)).0, some (count_request_of web_info, 9))
unfolding get insert modify remove new port_range udp_port_range port_stack register_session
    check_session_limit register_tcp_tunnel register_tcp_solo open_tcp index_tunnel
    add_tunnel_to_session register_http_tunnel choose_subdomain validate_subdomain
    starts_with_hyphen ends_with_hyphen upsert_http first_group new_info new_session new_with_member
    with_health_spec resolve dispatch_member healthy_infos
web_resolves = refl

pub web_session :
    get 1 (with_http none).sessions
    ≡ some (push_tunnel 3 (push_tunnel 2 (new_session client [] none none 9 0)))
unfolding get insert modify remove new port_range udp_port_range port_stack register_session
    check_session_limit register_tcp_tunnel register_tcp_solo open_tcp index_tunnel
    add_tunnel_to_session register_http_tunnel choose_subdomain validate_subdomain
    starts_with_hyphen ends_with_hyphen upsert_http new_session
web_session = refl

pub web-Serves : Serves web_info (web_group none).members
unfolding new_with_member with_health_spec insert
web-Serves = inl (refl, refl)
