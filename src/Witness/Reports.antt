-- ===== src/Witness/Reports.antt =====
-- Health reports and alerts at the concrete states.
use rustunnel.Prelude.{◌≡◌, refl, true, false, none, some, ◌∷◌, if◌then◌else◌, codes}
use rustunnel.Core.Router.Health.{
  on_member, mark_healthy, mark_unhealthy, rearm, group_event, set_tunnel_healthy,
  set_tunnel_unhealthy,
}
use rustunnel.Core.Reporting.{Routed, set_tunnel_healthy_lem, set_tunnel_unhealthy_lem}
use rustunnel.Witness.States.{
  with_http, checks, web, web_member, web_group, web_listed, with_http-tunnel, with_http-group,
}

set_tunnel_unhealthy_example :
    let m' = mark_unhealthy 8 (codes "down") (web_member none) in
    let g' = on_member 3 (mark_unhealthy 8 (codes "down")) (web_group none) in
    let c' = (set_tunnel_unhealthy 3 (codes "down") 8 (with_http none)).0 in
    ((set_tunnel_unhealthy 3 (codes "down") 8 (with_http none)).1 ≡ true)
    × Routed 3 web g' m' c'
    × (m'.healthy ≡ false)
    × (c'.group_events ≡ (
        if (web_member none).healthy
        then group_event 3 false (codes "down") g' (codes "http", codes "web")
          ∷ (with_http none).group_events
        else (with_http none).group_events))
set_tunnel_unhealthy_example =
    set_tunnel_unhealthy_lem 3 web (web_group none) (web_member none) (codes "http", codes "web")
      (with_http none) (with_http-tunnel none, with_http-group none, web_listed none) refl
      (codes "down") 8

set_tunnel_healthy_example :
    let c = with_http (some checks) in
    let m = web_member (some checks) in
    let m' = mark_healthy 8 m in
    let g' = rearm (on_member 3 (mark_healthy 8) (web_group (some checks))) in
    let c' = (set_tunnel_healthy 3 8 c).0 in
    ((set_tunnel_healthy 3 8 c).1 ≡ true)
    × Routed 3 web g' m' c'
    × (m'.healthy ≡ true)
    × (m'.consecutive_failures ≡ 0)
    × (g'.zero_healthy_alerted ≡ false)
    × (c'.group_events ≡ (
        if m.healthy
        then c.group_events
        else group_event 3 true (codes "recovered") g' (codes "http", codes "web")
          ∷ c.group_events))
set_tunnel_healthy_example =
    set_tunnel_healthy_lem 3 web (web_group (some checks)) (web_member (some checks))
      (codes "http", codes "web") (with_http (some checks))
      (with_http-tunnel (some checks), with_http-group (some checks), web_listed (some checks)) refl
      8
