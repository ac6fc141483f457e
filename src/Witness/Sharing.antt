-- ===== src/Witness/Sharing.antt =====
-- Who may share a route, at concrete states.
use rustunnel.Prelude.{ℕ, ◌≡◌, refl, none, some, codes}
use rustunnel.Prelude.Eq.{nat_eq, list_eq, option_eq, pair_eq}
use rustunnel.Prelude.Map.{get, insert, modify, remove}
use rustunnel.Core.Types.{Text, TunnelProtocol, TunnelGroup, ok, protocol_eq}
use rustunnel.Core.Members.{new_info, with_health_spec, new_with_member, new_session}
use rustunnel.Core.Subdomain.{validate_subdomain, starts_with_hyphen, ends_with_hyphen}
use rustunnel.Core.Router.{
  TunnelCore, port_stack, port_range, udp_port_range, new, register_session, check_session_limit,
  add_tunnel_to_session,
}
use rustunnel.Core.Router.Register.{
  index_tunnel, choose_subdomain, first_group, existing_protocol, may_join, upsert_http,
  register_http_tunnel, open_tcp, register_tcp_solo, register_tcp_first, register_tcp_join,
  register_tcp_grouped, register_tcp_tunnel,
}
use rustunnel.Core.Valid.{IsValid}
use rustunnel.Core.Valid.Steps.{tcp_opens, next, reachable-IsValid}
use rustunnel.Core.Access.{MayJoin, register_http_tunnel-MayJoin}
use rustunnel.Witness.States.{
  from_ok, opened, with_http, fresh, pool, web_group, opened-Reach, fresh_tcp, with_http-group,
}

web_joins :
    register_http_tunnel 1
      (some (codes "web"))
      TunnelProtocol.http
      (some (pool none))
      (fresh 4)
      (with_http none)
    ≡ ok (
      from_ok {A = Text} opened (
          register_http_tunnel 1
            (some (codes "web"))
            TunnelProtocol.http
            (some (pool none))
            (fresh 4)
            (with_http none)),
      4,
      codes "web",
    )
unfolding get insert modify remove new port_range udp_port_range port_stack register_session
    check_session_limit register_tcp_tunnel register_tcp_solo open_tcp index_tunnel
    add_tunnel_to_session register_http_tunnel choose_subdomain validate_subdomain
    starts_with_hyphen ends_with_hyphen upsert_http first_group new_info new_session new_with_member
    with_health_spec may_join existing_protocol
web_joins = refl

register_http_tunnel-MayJoin_example :
    MayJoin TunnelProtocol.http (some (pool none)) (web_group none)
register_http_tunnel-MayJoin_example =
    register_http_tunnel-MayJoin 1 (codes "web") TunnelProtocol.http (some (pool none)) (fresh 4)
      (with_http none) (web_group none) (with_http-group none) web_joins

-- A TCP group with the tunnel 2 on the port 20001.
abbrev with_pool : TunnelCore
with_pool = from_ok {A = ℕ} opened (register_tcp_tunnel 1 (some (pool none)) (fresh 2) opened)

abbrev tcp_group : TunnelGroup
tcp_group =
    new_with_member (codes "pool") (some (codes "0123456789"))
      (with_health_spec 7 (new_info 1 2 TunnelProtocol.tcp none (some 20001) 100 7) none)

pool_opens : register_tcp_tunnel 1 (some (pool none)) (fresh 2) opened ≡ ok (with_pool, 2, 20001)
unfolding get insert modify remove new port_range udp_port_range port_stack register_session
    check_session_limit register_tcp_tunnel register_tcp_grouped register_tcp_first new_session
pool_opens = refl

with_pool-IsValid : IsValid with_pool
with_pool-IsValid = reachable-IsValid 20000 20001 0 0 5 100 (
    next opened-Reach
      (tcp_opens opened with_pool 1 (some (pool none)) (fresh 2) 2 20001 fresh_tcp pool_opens))

pool_group : get 20001 with_pool.tcp_routes ≡ some tcp_group
unfolding get insert modify remove new port_range udp_port_range port_stack register_session
    check_session_limit register_tcp_tunnel register_tcp_grouped register_tcp_first open_tcp
    index_tunnel add_tunnel_to_session new_session
pool_group = refl

pool_joins :
    register_tcp_tunnel 1 (some (pool none)) (fresh 3) with_pool
    ≡ ok (
      from_ok {A = ℕ} opened (register_tcp_tunnel 1 (some (pool none)) (fresh 3) with_pool),
      3,
      20001,
    )
unfolding get insert modify remove new port_range udp_port_range port_stack register_session
    check_session_limit register_tcp_tunnel register_tcp_grouped register_tcp_first
    register_tcp_join open_tcp index_tunnel add_tunnel_to_session new_session
pool_joins = refl
