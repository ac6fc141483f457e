-- ===== src/Core/Invariant/Registered.antt =====
-- Every registration of core/router.rs that succeeds adds exactly one tunnel to the tables.
use rustunnel.Prelude.{
  ℕ, ◌≡◌, refl, true, Option, none, some, List, ◌∷◌, arith, if◌then◌else◌, nat_beq, is_some,
}
use rustunnel.Prelude.Eq.{eq_iff, nat_eq, list_eq, pair_eq}
use rustunnel.Prelude.Map.{Map, get, insert, get-insert, contains_key}
use rustunnel.Core.Types.{
  Text, Uuid, TunnelProtocol, TunnelGroup, GroupSpec, ok, Returns, Returns-bind, Returns-if,
  Returns-elim, Error, ok_or, no_ports_available, TcpTunnelEvent, UdpTunnelEvent,
}
use rustunnel.Core.Members.{new_info, new_solo, with_health_spec}
use rustunnel.Core.Routes.{join, member_at-join}
use rustunnel.Core.Router.{TunnelCore, TunnelKey, check_session_limit}
use rustunnel.Core.Router.Register.{
  Fresh, pop_port, to_string, udp_info, new_publisher, upsert_http, choose_subdomain, http_info,
  register_http_tunnel, register_tcp_tunnel, register_tcp_solo, register_tcp_first,
  register_tcp_join, register_tcp_grouped, open_tcp, tcp_info, register_udp_tunnel,
  register_p2p_tunnel,
}
use rustunnel.Core.Invariant.{owner_of, HasSinglePorts, Adds}
use rustunnel.Core.Invariant.Adding.{
  solo_owner, with_member_owner, upsert_http-owner, inserted_owner, index_tunnel-Adds, http_added,
  tcp_added, udp_added, p2p_added,
}

live_session :
    (s : Uuid) (c : TunnelCore) (x : Unit {0})
    → check_session_limit s c ≡ ok x
    → is_some (get s c.sessions) ≡ true
unfolding check_session_limit
live_session s c x h = ground arith

-- A port on top of the pool has no route.
pub popped_port :
    (c : TunnelCore) (port : ℕ) (rest : List ℕ) (e : Error)
    → HasSinglePorts c
    → ok_or (pop_port c.available_tcp_ports) e ≡ ok (port, rest)
    → get port c.tcp_routes ≡ none
popped_port c port rest e v h = ground (arith, v.tcp_single port)

pub popped_udp_port :
    (c : TunnelCore) (port : ℕ) (rest : List ℕ) (e : Error)
    → HasSinglePorts c
    → ok_or (pop_port c.available_udp_ports) e ≡ ok (port, rest)
    → get port c.udp_routes ≡ none
popped_udp_port c port rest e v h = ground (arith, v.udp_single port)

open_tcp-Adds :
    (s t : Uuid) (port : ℕ) (rest : List ℕ) (group : TunnelGroup) (c : TunnelCore)
    (index : Map (Text × Text) ℕ)
    → is_some (get s c.sessions) ≡ true
    → get port c.tcp_routes ≡ none
    → ((u : Uuid) → owner_of (get u group.members) ≡ (if nat_beq t u then some s else none))
    → Adds s t
        (TunnelKey.tcp port)
        c
        (open_tcp s t port rest group (record c { tcp_group_index = index }))
unfolding open_tcp
open_tcp-Adds s t port rest group c index live free one =
    let b : TunnelCore = record c {
      tcp_group_index = index;
      available_tcp_ports = rest;
      tcp_routes = insert port group c.tcp_routes;
      tcp_events = TcpTunnelEvent.registered t port ∷ c.tcp_events;
    } in
    index_tunnel-Adds s t (TunnelKey.tcp port) c b live refl refl
      (tcp_added s t c b port refl refl refl (inserted_owner s t port group c.tcp_routes free one))

-- An HTTP registration that succeeds, on a new subdomain or joining a group, was made for a live
-- session, holds the new tunnel under the returned subdomain for that session, indexes it, lists
-- it in the session, and changes no other tunnel, index entry or session's list.
pub register_http_tunnel-Adds :
    (s : Uuid) (req : Option Text) (protocol : TunnelProtocol) (g : Option GroupSpec) (f : Fresh)
    (c : TunnelCore)
    → Returns
        (λ r. Adds s f.tunnel_id (TunnelKey.http r.2) c r.0)
        (register_http_tunnel s req protocol g f c)
unfolding register_http_tunnel new_info
register_http_tunnel-Adds s req protocol g f c = Returns-bind _ (check_session_limit s c) _ λ x e₁.
    Returns-bind _ (choose_subdomain req f.label_id) _ λ sub e₂.
      Returns-bind _ (upsert_http sub f.now (http_info s sub protocol f c) g c.http_routes) _
        λ r' e₃.
          let b : TunnelCore = record c { http_routes = r' } in
          index_tunnel-Adds s f.tunnel_id (TunnelKey.http sub) c b (live_session s c x e₁) refl refl
            (http_added s f.tunnel_id c b sub refl refl refl
              (upsert_http-owner sub f.now (http_info s sub protocol f c) g c.http_routes e₃))

register_tcp_solo-Adds :
    (s : Uuid) (f : Fresh) (c : TunnelCore)
    → is_some (get s c.sessions) ≡ true
    → HasSinglePorts c
    → Returns (λ r. Adds s f.tunnel_id (TunnelKey.tcp r.2) c r.0) (register_tcp_solo s f c)
unfolding register_tcp_solo new_info
register_tcp_solo-Adds s f c live v =
    Returns-bind _ (ok_or (pop_port c.available_tcp_ports) no_ports_available) _ λ (port, rest) e.
      open_tcp-Adds s f.tunnel_id port rest _ c c.tcp_group_index live
        (popped_port c port rest _ v e) (solo_owner (to_string port) (tcp_info s port f c))

register_tcp_first-Adds :
    (s : Uuid) (spec : GroupSpec) (f : Fresh) (c : TunnelCore)
    → is_some (get s c.sessions) ≡ true
    → HasSinglePorts c
    → Returns (λ r. Adds s f.tunnel_id (TunnelKey.tcp r.2) c r.0) (register_tcp_first s spec f c)
unfolding register_tcp_first new_info with_health_spec
register_tcp_first-Adds s spec f c live v =
    Returns-bind _ (ok_or (pop_port c.available_tcp_ports) no_ports_available) _ λ (port, rest) e.
      open_tcp-Adds s f.tunnel_id port rest _ c _ live (popped_port c port rest _ v e) (
        with_member_owner spec.group_name (some spec.key_hash)
          (with_health_spec f.now (tcp_info s port f c) spec.health_check))

register_tcp_join-Adds :
    (s : Uuid) (spec : GroupSpec) (port : ℕ) (f : Fresh) (c : TunnelCore)
    → is_some (get s c.sessions) ≡ true
    → Returns
        (λ r. Adds s f.tunnel_id (TunnelKey.tcp r.2) c r.0)
        (register_tcp_join s spec port f c)
unfolding register_tcp_join new_info with_health_spec
register_tcp_join-Adds s spec port f c live =
    let m = with_health_spec f.now (tcp_info s port f c) spec.health_check in
    let b : TunnelCore = record c { tcp_routes = join port f.tunnel_id m c.tcp_routes } in
    Returns-if _ (contains_key port c.tcp_routes) _ _
      (λ there. index_tunnel-Adds s f.tunnel_id (TunnelKey.tcp port) c b live refl refl (
        tcp_added s f.tunnel_id c b port refl refl refl
          (λ j u. ground (arith, member_at-join port j f.tunnel_id u m c.tcp_routes there))))
      (λ _. tt)

-- Where ports are single, a TCP registration that succeeds, solo, first of a group or joining one,
-- was made for a live session, holds the new tunnel under the returned port for that session,
-- indexes it, lists it in the session, and changes no other tunnel, index entry or session's list.
pub register_tcp_tunnel-Adds :
    (s : Uuid) (g : Option GroupSpec) (f : Fresh) (c : TunnelCore)
    → HasSinglePorts c
    → Returns (λ r. Adds s f.tunnel_id (TunnelKey.tcp r.2) c r.0) (register_tcp_tunnel s g f c)
unfolding register_tcp_tunnel register_tcp_grouped
register_tcp_tunnel-Adds s none f c v =
    Returns-bind _ (check_session_limit s c) _
      λ x e. register_tcp_solo-Adds s f c (live_session s c x e) v
register_tcp_tunnel-Adds s (some spec) f c v = Returns-bind _ (check_session_limit s c) _ λ x e.
    Returns-elim _ (get (spec.group_name, spec.key_hash) c.tcp_group_index) _ _
      (λ _. register_tcp_first-Adds s spec f c (live_session s c x e) v)
      (λ port _. register_tcp_join-Adds s spec port f c (live_session s c x e))

pub register_udp_tunnel-Adds :
    (s : Uuid) (f : Fresh) (c : TunnelCore)
    → HasSinglePorts c
    → Returns (λ r. Adds s f.tunnel_id (TunnelKey.udp r.2) c r.0) (register_udp_tunnel s f c)
unfolding register_udp_tunnel new_info
register_udp_tunnel-Adds s f c v = Returns-bind _ (check_session_limit s c) _ λ x e₁.
    Returns-bind _ (ok_or (pop_port c.available_udp_ports) no_ports_available) _ λ (port, rest) e.
      let info = udp_info s port f c in
      let b : TunnelCore = record c {
        available_udp_ports = rest;
        udp_routes = insert port (new_solo (to_string port) info) c.udp_routes;
        udp_events = UdpTunnelEvent.registered f.tunnel_id port ∷ c.udp_events;
      } in
      index_tunnel-Adds s f.tunnel_id (TunnelKey.udp port) c b (live_session s c x e₁) refl refl (
        udp_added s f.tunnel_id c b port refl refl refl (
          inserted_owner s f.tunnel_id port _ c.udp_routes (popped_udp_port c port rest _ v e)
            (solo_owner (to_string port) info)))

pub register_p2p_tunnel-Adds :
    (s : Uuid) (name secret : Text) (f : Fresh) (c : TunnelCore)
    → Returns
        (λ r. Adds s f.tunnel_id (TunnelKey.p2p name) c r.0)
        (register_p2p_tunnel s name secret f c)
unfolding register_p2p_tunnel new_info
register_p2p_tunnel-Adds s name secret f c =
    let b : TunnelCore = record c {
      p2p_tunnels = insert name (new_publisher s name secret f c) c.p2p_tunnels;
    } in
    Returns-bind _ (check_session_limit s c) _ λ x e.
      Returns-if _ (contains_key name c.p2p_tunnels) _ _ (λ _. tt)
        (λ free.
          index_tunnel-Adds s f.tunnel_id (TunnelKey.p2p name) c b (live_session s c x e) refl refl
            (p2p_added s f.tunnel_id c b name refl refl refl (λ j u. ground (
              arith,
              get-insert name j (new_publisher s name secret f c) c.p2p_tunnels,
              eq_iff name j,
            ))))
