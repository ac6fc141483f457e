-- ===== src/Edge/Listeners/Events.antt =====
-- The events of core/router.rs announce the routed ports, and so a listener manager that has
-- followed them (edge/tcp.rs and edge/udp.rs) listens on these ports and no others.
use rustunnel.Prelude.{
  ℕ, ◌≡◌, refl, ap, sym, ◌∙◌, Bool, true, false, Option, none, some, List, [], ◌∷◌, map, arith,
  nat_beq, is_some,
}
use rustunnel.Prelude.Eq.{nat_eq, list_eq, pair_eq}
use rustunnel.Prelude.Map.{Map, get, modify, remove, contains_key, get-insert, get-modify, apply_at}
use rustunnel.Core.Types.{
  Text, Uuid, TunnelProtocol, TunnelGroup, GroupSpec, GroupMember, TcpTunnelEvent, UdpTunnelEvent,
  Returns, Returns-bind, Returns-if, Returns-elim, ok_or, no_ports_available,
}
use rustunnel.Core.Members.{new_solo}
use rustunnel.Core.Routes.{get-leave, join, add_member, drop_member}
use rustunnel.Core.Router.{TunnelCore, TunnelKey, check_session_limit}
use rustunnel.Core.Router.Register.{
  Fresh, pop_port, to_string, udp_info, index_tunnel, open_tcp, register_http_tunnel,
  register_tcp_tunnel, register_tcp_solo, register_tcp_first, register_tcp_join,
  register_tcp_grouped, register_udp_tunnel, register_p2p_tunnel, choose_subdomain, upsert_http,
  http_info,
}
use rustunnel.Core.Router.Unregister.{
  remove_route, unindex, remove_tunnel, remove_tunnels, remove_session,
}
use rustunnel.Core.Router.Health.{change_group}
use rustunnel.Prelude.Branches.{on_some}
use rustunnel.Edge.Listeners.{Received, registered, unregistered}
use rustunnel.Edge.Listeners.Follow.{announced}

-- An event as the manager gets it.
unfoldable pub tcp_received : TcpTunnelEvent → Received
tcp_received (TcpTunnelEvent.registered t port) = registered port
tcp_received (TcpTunnelEvent.unregistered port) = unregistered port

unfoldable pub udp_received : UdpTunnelEvent → Received
udp_received (UdpTunnelEvent.registered t port) = registered port
udp_received (UdpTunnelEvent.unregistered port) = unregistered port

-- The newest event of a port says whether it is routed.
pub record HasAnnounced (c : TunnelCore) : Type 0 where
  pub tcp :
      (p : ℕ) → announced false p (map tcp_received c.tcp_events) ≡ contains_key p c.tcp_routes
  pub udp :
      (p : ℕ) → announced false p (map udp_received c.udp_events) ≡ contains_key p c.udp_routes

-- The rest of the state plays no part.
pub same-HasAnnounced :
    (c d : TunnelCore)
    → d.tcp_events ≡ c.tcp_events
    → d.udp_events ≡ c.udp_events
    → ((p : ℕ) → contains_key p d.tcp_routes ≡ contains_key p c.tcp_routes)
    → ((p : ℕ) → contains_key p d.udp_routes ≡ contains_key p c.udp_routes)
    → HasAnnounced c
    → HasAnnounced d
same-HasAnnounced c d te ue tr ur h = record {
  tcp = λ p.
      ap (λ (es : List TcpTunnelEvent). announced false p (map tcp_received es)) te
      ∙ h.tcp p
      ∙ sym (tr p);
  udp = λ p.
      ap (λ (es : List UdpTunnelEvent). announced false p (map udp_received es)) ue
      ∙ h.udp p
      ∙ sym (ur p);
}

is_some-apply_at {ℓ} :
    {V : Type ℓ} (f : V → V) (b : Bool) (o : Option V) → is_some (apply_at f b o) ≡ is_some o
is_some-apply_at f b none = refl
is_some-apply_at f true (some v) = refl
is_some-apply_at f false (some v) = refl

contains-modify {ℓ} :
    {V : Type ℓ} (p q : ℕ) (f : V → V) (m : Map ℕ V)
    → contains_key p (modify q f m) ≡ contains_key p m
contains-modify p q f m = rw (get-modify q p f m) (is_some-apply_at f (nat_beq q p) (get p m))

pub change_group-HasAnnounced :
    (k : TunnelKey) (f : TunnelGroup → TunnelGroup) (c : TunnelCore)
    → HasAnnounced c
    → HasAnnounced (change_group k f c)
change_group-HasAnnounced (TunnelKey.http s) f c h =
    same-HasAnnounced c _ refl refl (λ p. refl) (λ p. refl) h
change_group-HasAnnounced (TunnelKey.tcp q) f c h =
    same-HasAnnounced c _ refl refl (λ p. contains-modify p q f c.tcp_routes) (λ p. refl) h
change_group-HasAnnounced (TunnelKey.udp q) f c h =
    same-HasAnnounced c _ refl refl (λ p. refl) (λ p. contains-modify p q f c.udp_routes) h
change_group-HasAnnounced (TunnelKey.p2p s) f c h = h

open_tcp-HasAnnounced :
    (s t : Uuid) (port : ℕ) (rest : List ℕ) (group : TunnelGroup) (c : TunnelCore)
    (index : Map (Text × Text) ℕ)
    → HasAnnounced c
    → HasAnnounced (open_tcp s t port rest group (record c { tcp_group_index = index }))
unfolding open_tcp index_tunnel announced tcp_received
open_tcp-HasAnnounced s t port rest group c index h = record {
  tcp = λ p. ground (arith, h.tcp p, get-insert port p group c.tcp_routes);
  udp = λ p. h.udp p;
}

join-HasAnnounced :
    (s t port : ℕ) (m : GroupMember) (c : TunnelCore)
    → HasAnnounced c
    → HasAnnounced (
        index_tunnel s t
          (TunnelKey.tcp port)
          (record c { tcp_routes = join port t m c.tcp_routes }))
unfolding index_tunnel join
join-HasAnnounced s t port m c h =
    same-HasAnnounced c _ refl refl (λ p. contains-modify p port (add_member t m) c.tcp_routes)
      (λ p. refl) h

pub register_tcp_tunnel-HasAnnounced :
    (s : Uuid) (g : Option GroupSpec) (f : Fresh) (c : TunnelCore)
    → HasAnnounced c
    → Returns (λ r. HasAnnounced r.0) (register_tcp_tunnel s g f c)
unfolding register_tcp_tunnel register_tcp_solo register_tcp_grouped register_tcp_first
    register_tcp_join
register_tcp_tunnel-HasAnnounced s none f c h = Returns-bind _ (check_session_limit s c) _ λ x _.
    Returns-bind _ (ok_or (pop_port c.available_tcp_ports) no_ports_available) _
      λ (port, rest) e. open_tcp-HasAnnounced s f.tunnel_id port rest _ c c.tcp_group_index h
register_tcp_tunnel-HasAnnounced s (some spec) f c h =
    Returns-bind _ (check_session_limit s c) _ λ x _.
      Returns-elim _ (get (spec.group_name, spec.key_hash) c.tcp_group_index) _ _
        (λ _.
          Returns-bind _ (ok_or (pop_port c.available_tcp_ports) no_ports_available) _
            λ (port, rest) e. open_tcp-HasAnnounced s f.tunnel_id port rest _ c _ h)
        (λ port _.
          Returns-if _ (contains_key port c.tcp_routes) _ _
            (λ _. join-HasAnnounced s f.tunnel_id port _ c h) (λ _. tt))

pub register_udp_tunnel-HasAnnounced :
    (s : Uuid) (f : Fresh) (c : TunnelCore)
    → HasAnnounced c
    → Returns (λ r. HasAnnounced r.0) (register_udp_tunnel s f c)
unfolding register_udp_tunnel index_tunnel announced udp_received
register_udp_tunnel-HasAnnounced s f c h = Returns-bind _ (check_session_limit s c) _ λ x _.
    Returns-bind _ (ok_or (pop_port c.available_udp_ports) no_ports_available) _ λ (port, rest) e.
      record {
        tcp = λ p. h.tcp p;
        udp = λ p. ground (
          arith,
          h.udp p,
          get-insert port p (new_solo (to_string port) (udp_info s port f c)) c.udp_routes,
        );
      }

-- A step that writes to no table of ports and sends none of their events.
pub register_p2p_tunnel-HasAnnounced :
    (s : Uuid) (name secret : Text) (f : Fresh) (c : TunnelCore)
    → HasAnnounced c
    → Returns (λ r. HasAnnounced r.0) (register_p2p_tunnel s name secret f c)
unfolding register_p2p_tunnel index_tunnel
register_p2p_tunnel-HasAnnounced s name secret f c h =
    Returns-bind _ (check_session_limit s c) _ λ x _.
      Returns-if _ (contains_key name c.p2p_tunnels) _ _ (λ _. tt)
        (λ _. same-HasAnnounced c _ refl refl (λ p. refl) (λ p. refl) h)

pub register_http_tunnel-HasAnnounced :
    (s : Uuid) (req : Option Text) (p : TunnelProtocol) (g : Option GroupSpec) (f : Fresh)
    (c : TunnelCore)
    → HasAnnounced c
    → Returns (λ r. HasAnnounced r.0) (register_http_tunnel s req p g f c)
unfolding register_http_tunnel index_tunnel
register_http_tunnel-HasAnnounced s req pr g f c h =
    Returns-bind _ (check_session_limit s c) _ λ x _.
      Returns-bind _ (choose_subdomain req f.label_id) _ λ sub _.
        Returns-bind _ (upsert_http sub f.now (http_info s sub pr f c) g c.http_routes) _
          λ routes _. same-HasAnnounced c _ refl refl (λ p. refl) (λ p. refl) h

remove_route-HasAnnounced :
    (t : Uuid) (k : TunnelKey) (c : TunnelCore) → HasAnnounced c → HasAnnounced (remove_route t k c)
unfolding remove_route announced tcp_received udp_received
remove_route-HasAnnounced t (TunnelKey.http s) c h =
    same-HasAnnounced c _ refl refl (λ p. refl) (λ p. refl) h
remove_route-HasAnnounced t (TunnelKey.p2p s) c h =
    same-HasAnnounced c _ refl refl (λ p. refl) (λ p. refl) h
remove_route-HasAnnounced t (TunnelKey.tcp q) c h = record {
  tcp = λ p. ground (
    arith,
    h.tcp p,
    get-leave q p t c.tcp_routes,
    is_some-apply_at (drop_member t) (nat_beq q p) (get p c.tcp_routes),
  );
  udp = λ p. ground (arith, h.udp p);
}
remove_route-HasAnnounced t (TunnelKey.udp q) c h = record {
  tcp = λ p. ground (arith, h.tcp p);
  udp = λ p. ground (
    arith,
    h.udp p,
    get-leave q p t c.udp_routes,
    is_some-apply_at (drop_member t) (nat_beq q p) (get p c.udp_routes),
  );
}

pub remove_tunnel-HasAnnounced :
    (t : Uuid) (c : TunnelCore) → HasAnnounced c → HasAnnounced (remove_tunnel t c)
unfolding remove_tunnel
remove_tunnel-HasAnnounced t c h =
    on_some HasAnnounced (get t c.tunnel_index) c _ (λ e. h)
      λ k e.
        remove_route-HasAnnounced t k (unindex t c)
          (same-HasAnnounced c _ refl refl (λ p. refl) (λ p. refl) h)

remove_tunnels-HasAnnounced :
    (ts : List Uuid) (c : TunnelCore) → HasAnnounced c → HasAnnounced (remove_tunnels ts c)
unfolding remove_tunnels
remove_tunnels-HasAnnounced [] c h = h
remove_tunnels-HasAnnounced (t ∷ ts) c h =
    remove_tunnels-HasAnnounced ts (remove_tunnel t c) (remove_tunnel-HasAnnounced t c h)

pub remove_session-HasAnnounced :
    (s : Uuid) (c : TunnelCore) → HasAnnounced c → HasAnnounced (remove_session s c)
unfolding remove_session
remove_session-HasAnnounced s c h =
    on_some HasAnnounced (get s c.sessions) c _ (λ e. h)
      λ session e.
        remove_tunnels-HasAnnounced session.tunnels (record c { sessions = remove s c.sessions })
          (same-HasAnnounced c _ refl refl (λ p. refl) (λ p. refl) h)
