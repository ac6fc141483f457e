-- ===== src/Core/Ports.antt =====
-- Port accounting of core/router.rs: a port of the configured range is either in the pool or routed,
-- never both, whatever is registered and removed.
use rustunnel.Prelude.{
  ℕ, zero, suc, ◌+◌, ◌-◌, ◌≡◌, refl, true, ◌&&◌, Option, none, some, List, arith, if◌then◌else◌,
  nat_beq, leb, ltb, not, is_some, Option-cases, inl, inr, count,
}
use rustunnel.Prelude.Eq.{nat_eq, list_eq, pair_eq}
use rustunnel.Prelude.Map.{Map, get, contains_key, get-empty, get-insert, get-modify}
use rustunnel.Core.Types.{
  Text, Uuid, TunnelProtocol, GroupSpec, TunnelGroup, Error, Returns, Returns-bind, Returns-if,
  Returns-elim, ok, ok_or, no_ports_available,
}
use rustunnel.Core.Members.{new_solo}
use rustunnel.Core.Routes.{get-leave, join, add_member}
use rustunnel.Core.Router.{
  TunnelCore, TunnelKey, check_session_limit, port_stack, port_range, udp_port_range, new,
}
use rustunnel.Core.Router.Register.{
  Fresh, pop_port, to_string, udp_info, index_tunnel, open_tcp, register_http_tunnel,
  register_tcp_tunnel, register_tcp_solo, choose_subdomain, upsert_http, http_info,
  register_tcp_first, register_tcp_join, register_tcp_grouped, register_udp_tunnel,
  register_p2p_tunnel,
}
use rustunnel.Core.Router.Unregister.{unindex, remove_route, remove_tunnel}
use rustunnel.Core.Invariant.{holder, HasSinglePorts, IsIndexed, tcp_uses, udp_uses, key_beq_iff}

-- Every port is used in `c'` as often as in `c`.
pub record SamePorts (c c' : TunnelCore) : Type 0 where
  pub tcp_same : (p : ℕ) → tcp_uses p c' ≡ tcp_uses p c
  pub udp_same : (p : ℕ) → udp_uses p c' ≡ udp_uses p c

-- Opening the port on top of the pool.
open_tcp-SamePorts :
    (s t : Uuid) (port : ℕ) (rest : List ℕ) (group : TunnelGroup) (c : TunnelCore)
    (index : Map (Text × Text) ℕ) (e : Error)
    → HasSinglePorts c
    → ok_or (pop_port c.available_tcp_ports) e ≡ ok (port, rest)
    → SamePorts c (open_tcp s t port rest group (record c { tcp_group_index = index }))
unfolding open_tcp index_tunnel
open_tcp-SamePorts s t port rest group c index e v h = record {
  tcp_same = λ p. ground (arith, v.tcp_single port, get-insert port p group c.tcp_routes);
  udp_same = λ p. refl;
}

join-SamePorts :
    (s t port : ℕ) (m : _) (c : TunnelCore)
    → SamePorts c (
        index_tunnel s t
          (TunnelKey.tcp port)
          (record c { tcp_routes = join port t m c.tcp_routes }))
unfolding index_tunnel join
join-SamePorts s t port m c = record {
  tcp_same = λ p. ground (arith, get-modify port p (add_member t m) c.tcp_routes);
  udp_same = λ p. refl;
}

pub register_tcp_tunnel-SamePorts :
    (s : Uuid) (g : Option GroupSpec) (f : Fresh) (c : TunnelCore)
    → HasSinglePorts c
    → Returns (λ r. SamePorts c r.0) (register_tcp_tunnel s g f c)
unfolding register_tcp_tunnel register_tcp_solo register_tcp_grouped register_tcp_first
    register_tcp_join
register_tcp_tunnel-SamePorts s none f c v = Returns-bind _ (check_session_limit s c) _ λ x _.
    Returns-bind _ (ok_or (pop_port c.available_tcp_ports) no_ports_available) _
      λ (port, rest) e. open_tcp-SamePorts s f.tunnel_id port rest _ c c.tcp_group_index _ v e
register_tcp_tunnel-SamePorts s (some spec) f c v =
    Returns-bind _ (check_session_limit s c) _ λ x _.
      Returns-elim _ (get (spec.group_name, spec.key_hash) c.tcp_group_index) _ _
        (λ _.
          Returns-bind _ (ok_or (pop_port c.available_tcp_ports) no_ports_available) _
            λ (port, rest) e. open_tcp-SamePorts s f.tunnel_id port rest _ c _ _ v e)
        (λ port _.
          Returns-if _ (contains_key port c.tcp_routes) _ _
            (λ _. join-SamePorts s f.tunnel_id port _ c) (λ _. tt))

pub register_udp_tunnel-SamePorts :
    (s : Uuid) (f : Fresh) (c : TunnelCore)
    → HasSinglePorts c
    → Returns (λ r. SamePorts c r.0) (register_udp_tunnel s f c)
unfolding register_udp_tunnel
register_udp_tunnel-SamePorts s f c v = Returns-bind _ (check_session_limit s c) _ λ x _.
    Returns-bind _ (ok_or (pop_port c.available_udp_ports) no_ports_available) _ λ (port, rest) e.
      record {
        tcp_same = λ p. refl;
        udp_same = λ p. ground (
          arith,
          v.udp_single port,
          get-insert port p (new_solo (to_string port) (udp_info s port f c)) c.udp_routes,
        );
      }

pub register_http_tunnel-SamePorts :
    (s : Uuid) (req : Option Text) (protocol : TunnelProtocol) (g : Option GroupSpec) (f : Fresh)
    (c : TunnelCore)
    → Returns (λ r. SamePorts c r.0) (register_http_tunnel s req protocol g f c)
unfolding register_http_tunnel index_tunnel
register_http_tunnel-SamePorts s req protocol g f c =
    Returns-bind _ (check_session_limit s c) _ λ x _.
      Returns-bind _ (choose_subdomain req f.label_id) _ λ sub _.
        Returns-bind _ (upsert_http sub f.now (http_info s sub protocol f c) g c.http_routes) _
          λ r' _. record { tcp_same = λ p. refl; udp_same = λ p. refl }

pub register_p2p_tunnel-SamePorts :
    (s : Uuid) (name secret : Text) (f : Fresh) (c : TunnelCore)
    → Returns (λ r. SamePorts c r.0) (register_p2p_tunnel s name secret f c)
unfolding register_p2p_tunnel index_tunnel
register_p2p_tunnel-SamePorts s name secret f c = Returns-bind _ (check_session_limit s c) _ λ x _.
    Returns-if _ (contains_key name c.p2p_tunnels) _ _ (λ _. tt)
      (λ _. record { tcp_same = λ p. refl; udp_same = λ p. refl })

remove_route-SamePorts :
    (t : Uuid) (k : TunnelKey) (c : TunnelCore)
    → is_some (holder c k t) ≡ true
    → SamePorts c (remove_route t k (unindex t c))
unfolding remove_route
remove_route-SamePorts t (TunnelKey.http s) c h = record {
  tcp_same = λ p. refl;
  udp_same = λ p. refl;
}
remove_route-SamePorts t (TunnelKey.tcp q) c h = record {
  tcp_same = λ p. ground (arith, get-leave q p t c.tcp_routes);
  udp_same = λ p. ground arith;
}
remove_route-SamePorts t (TunnelKey.udp q) c h = record {
  tcp_same = λ p. ground arith;
  udp_same = λ p. ground (arith, get-leave q p t c.udp_routes);
}
remove_route-SamePorts t (TunnelKey.p2p s) c h = record {
  tcp_same = λ p. refl;
  udp_same = λ p. refl;
}

indexed_holder :
    (t : Uuid) (k : TunnelKey) (c : TunnelCore)
    → IsIndexed c
    → get t c.tunnel_index ≡ some k
    → is_some (holder c k t) ≡ true
indexed_holder t k c v e = ground (arith, v.indexed k t, key_beq_iff k k)

pub remove_tunnel-SamePorts :
    (t : Uuid) (c : TunnelCore) → IsIndexed c → SamePorts c (remove_tunnel t c)
unfolding remove_tunnel
remove_tunnel-SamePorts t c v = elim (Option-cases (get t c.tunnel_index)) [
  | inl e ↦ rw (e, remove_tunnel) (record { tcp_same = λ p. refl; udp_same = λ p. refl })
  | inr (k, e) ↦ rw (e, remove_tunnel) (remove_route-SamePorts t k c (indexed_holder t k c v e))
]

count-port_stack :
    (p low n : ℕ) → count p (port_stack low n) ≡ (if leb low p && ltb p (low + n) then 1 else 0)
unfolding port_stack
count-port_stack p low zero = ground arith
count-port_stack p low (suc n) = ground (arith, count-port_stack p low n)

-- At the start every TCP port of the configured range is in the pool once and no other port is; so
-- it is for UDP, where the range 0..=0 stands for no ports.
pub new-uses :
    (tl th ul uh mt mc p : ℕ)
    → (tcp_uses p (new tl th ul uh mt mc) ≡ (if leb tl p && leb p th then 1 else 0))
      × (udp_uses p (new tl th ul uh mt mc)
          ≡ (if leb ul p && leb p uh && not (nat_beq ul 0 && nat_beq uh 0) then 1 else 0))
unfolding new port_range udp_port_range
new-uses tl th ul uh mt mc p = (
  ground (arith, count-port_stack p tl (th + 1 - tl), get-empty {V = TunnelGroup} p),
  ground (arith, count-port_stack p ul (uh + 1 - ul), get-empty {V = TunnelGroup} p),
)

pub SamePorts-IsSingle : (c c' : TunnelCore) → SamePorts c c' → HasSinglePorts c → HasSinglePorts c'
SamePorts-IsSingle c c' e v = record {
  tcp_single = λ p. omega (arith, e.tcp_same p, v.tcp_single p);
  udp_single = λ p. omega (arith, e.udp_same p, v.udp_single p);
}
