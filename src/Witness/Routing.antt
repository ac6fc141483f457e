-- ===== src/Witness/Routing.antt =====
-- Registration, removal and resolution at the concrete states.
use rustunnel.Prelude.{ℕ, ◌≡◌, none, some, codes}
use rustunnel.Prelude.Eq.{nat_eq}
use rustunnel.Prelude.Map.{get}
use rustunnel.Core.Types.{Uuid, TunnelProtocol, TunnelGroup, TunnelInfo, SessionInfo, Returns}
use rustunnel.Core.Router.{TunnelKey, check_session_limit}
use rustunnel.Core.Router.Register.{
  register_http_tunnel, register_tcp_tunnel, register_udp_tunnel, register_p2p_tunnel,
}
use rustunnel.Core.Router.Unregister.{remove_tunnel, remove_session}
use rustunnel.Core.Router.Health.{group_at, change_group, on_member}
use rustunnel.Core.Router.Dispatch.{resolve, count_request, count_request_of}
use rustunnel.Core.Invariant.{holder, tcp_uses}
use rustunnel.Core.Invariant.Sessions.{Ends, remove_session-Ends}
use rustunnel.Core.Valid.{IsValid}
use rustunnel.Core.Valid.Steps.{reachable-IsValid}
use rustunnel.Core.Quota.{WithinLimit, register-limit, limit-remove_tunnel, register_tcp-remove}
use rustunnel.Core.Dispatching.{Serves, resolve-Serves}
use rustunnel.Witness.States.{
  opened, with_tcp, with_http, fresh, web, web_info, with_tcp-Reach, fresh_tcp, tcp_registers,
  opened-IsValid, with_http-IsValid, web_resolves,
}

reachable-IsValid_example : IsValid with_tcp
reachable-IsValid_example = reachable-IsValid 20000 20001 0 0 5 100 with_tcp-Reach

remove_session-Ends_example : Ends 1 (with_http none) (remove_session 1 (with_http none))
remove_session-Ends_example =
    remove_session-Ends 1 (with_http none) (with_http-IsValid none).coherent

resolve-Serves_example :
    (g : TunnelGroup) × (i : TunnelInfo) × (s : SessionInfo) × (group_at web (with_http none)
      ≡ some g)
    × Serves i g.members
    × (get i.session_id (with_http none).sessions ≡ some s)
    × (s.control_tx ≡ 9)
    × (count_request_of web_info ≡ count_request_of i)
    × ((resolve 0 web (with_http none)).0
        ≡ change_group web (on_member i.tunnel_id count_request) (with_http none))
resolve-Serves_example = resolve-Serves 0 web (with_http none) web_resolves

register_tcp-remove_example :
    let d = remove_tunnel 2 with_tcp in
    ((k : TunnelKey) (u : Uuid) → holder d k u ≡ holder opened k u)
    × ((u : Uuid) → get u d.tunnel_index ≡ get u opened.tunnel_index)
    × ((p : ℕ) → tcp_uses p d ≡ tcp_uses p opened)
register_tcp-remove_example =
    register_tcp-remove 1 none (fresh 2) opened with_tcp 2 20001 opened-IsValid fresh_tcp
      tcp_registers

register-limit_example :
    Returns
      (λ r. WithinLimit 1 opened r.0)
      (register_http_tunnel 1 none TunnelProtocol.http none (fresh 2) opened)
    × Returns (λ r. WithinLimit 1 opened r.0) (register_tcp_tunnel 1 none (fresh 2) opened)
    × Returns (λ r. WithinLimit 1 opened r.0) (register_udp_tunnel 1 (fresh 2) opened)
    × Returns
        (λ r. WithinLimit 1 opened r.0)
        (register_p2p_tunnel 1 (codes "peer") (codes "secret") (fresh 2) opened)
register-limit_example =
    register-limit 1 none TunnelProtocol.http none (codes "peer") (codes "secret") (fresh 2) opened
      opened-IsValid

limit-remove_tunnel_example :
    check_session_limit 1 (remove_tunnel 3 (with_http none))
    ≡ check_session_limit 1 (with_http none)
limit-remove_tunnel_example = limit-remove_tunnel 1 3 (with_http none) (with_http-IsValid none)
