-- ===== src/Core/Groups.antt =====
-- The index of TCP groups in core/router.rs: `tcp_group_index` names a port under a group's name and
-- key exactly if that port is routed to a group of that name and key.
use rustunnel.Prelude.{
  ℕ, ◌≡◌, refl, Bool, false, ◌&&◌, Option, none, some, List, arith, if◌then◌else◌, Option-cases,
  inl, inr,
}
use rustunnel.Prelude.Eq.{◌==◌, eq_iff, nat_eq, list_eq, pair_eq, option_beq}
use rustunnel.Prelude.Map.{Map, get, insert, contains_key, get-remove, get-insert, get-modify}
use rustunnel.Core.Types.{
  Text, Uuid, TunnelProtocol, GroupSpec, GroupMember, TunnelGroup, Returns, Returns-bind,
  Returns-if, Returns-elim, ok_or, no_ports_available,
}
use rustunnel.Core.Members.{new_solo, new_with_member}
use rustunnel.Core.Routes.{get-leave, join, add_member}
use rustunnel.Core.Router.{TunnelCore, TunnelKey, check_session_limit, new}
use rustunnel.Core.Router.Register.{
  Fresh, pop_port, index_tunnel, open_tcp, register_http_tunnel, register_tcp_tunnel,
  register_tcp_solo, choose_subdomain, upsert_http, http_info, register_tcp_first,
  register_tcp_join, register_tcp_grouped, register_udp_tunnel, register_p2p_tunnel,
}
use rustunnel.Core.Router.Unregister.{
  unindex, remove_route, remove_tunnel, group_index_key, remove_opt,
}
use rustunnel.Core.Invariant.{HasSinglePorts}
use rustunnel.Core.Invariant.Registered.{popped_port}

abbrev pub carries : Text → Text → Option TunnelGroup → Bool
carries n kh none = false
carries n kh (some g) = g.name == n && option_beq g.key_hash (some kh)

pub record IsGrouped (c : TunnelCore) : Type 0 where
  pub at :
      (n kh : Text) (p : ℕ)
      → option_beq (get (n, kh) c.tcp_group_index) (some p) ≡ carries n kh (get p c.tcp_routes)

open_solo-IsGrouped :
    (s t : Uuid) (port : ℕ) (rest : List ℕ) (name : Text) (info : _) (c : TunnelCore)
    → get port c.tcp_routes ≡ none
    → IsGrouped c
    → IsGrouped (open_tcp s t port rest (new_solo name info) c)
unfolding open_tcp index_tunnel new_solo
open_solo-IsGrouped s t port rest name info c free v = record {
  at = λ n kh p. ground (arith, v.at n kh p, get-insert port p (new_solo name info) c.tcp_routes);
}

open_first-IsGrouped :
    (s t : Uuid) (port : ℕ) (rest : List ℕ) (name key : Text) (m : GroupMember) (c : TunnelCore)
    → get port c.tcp_routes ≡ none
    → get (name, key) c.tcp_group_index ≡ none
    → IsGrouped c
    → IsGrouped (
        open_tcp s t port rest
          (new_with_member name (some key) m)
          (record c { tcp_group_index = insert (name, key) port c.tcp_group_index }))
unfolding open_tcp index_tunnel new_with_member
open_first-IsGrouped s t port rest name key m c free new v = record {
  at = λ n kh p. ground (
    arith,
    v.at n kh p,
    get-insert port p (new_with_member name (some key) m) c.tcp_routes,
    get-insert (name, key) (n, kh) port c.tcp_group_index,
    eq_iff name n,
    eq_iff key kh,
  );
}

join-IsGrouped :
    (s t port : ℕ) (m : GroupMember) (c : TunnelCore)
    → IsGrouped c
    → IsGrouped (
        index_tunnel s t
          (TunnelKey.tcp port)
          (record c { tcp_routes = join port t m c.tcp_routes }))
unfolding index_tunnel join
join-IsGrouped s t port m c v = record {
  at = λ n kh p. ground (arith, v.at n kh p, get-modify port p (add_member t m) c.tcp_routes);
}

-- The entry that goes with a port is that of its group.
get-remove_opt :
    (o : Option TunnelGroup) (index : Map (Text × Text) ℕ) (n kh : Text)
    → get (n, kh) (remove_opt (group_index_key o) index)
      ≡ (if carries n kh o then none else get (n, kh) index)
get-remove_opt none index n kh = refl
get-remove_opt (some g) index n kh = key_of g.key_hash refl
  where
    key_of :
        (k : Option Text)
        → g.key_hash ≡ k
        → get (n, kh) (remove_opt (group_index_key (some g)) index)
          ≡ (if carries n kh (some g) then none else get (n, kh) index)
    key_of none e = ground arith
    key_of (some k) e = ground (arith, get-remove (g.name, k) (n, kh) index)

remove_route-IsGrouped :
    (t : Uuid) (k : TunnelKey) (c : TunnelCore)
    → IsGrouped c
    → IsGrouped (remove_route t k (unindex t c))
unfolding remove_route
remove_route-IsGrouped t (TunnelKey.http s) c v = record { at = v.at }
remove_route-IsGrouped t (TunnelKey.tcp q) c v = record {
  at = λ n kh p. ground (
    arith,
    v.at n kh p,
    v.at n kh q,
    get-leave q p t c.tcp_routes,
    get-remove_opt (get q c.tcp_routes) c.tcp_group_index n kh,
  );
}
remove_route-IsGrouped t (TunnelKey.udp q) c v = record {
  at = λ n kh p. ground (arith, v.at n kh p);
}
remove_route-IsGrouped t (TunnelKey.p2p s) c v = record { at = v.at }

pub register_tcp_tunnel-IsGrouped :
    (s : Uuid) (g : Option GroupSpec) (f : Fresh) (c : TunnelCore)
    → HasSinglePorts c
    → IsGrouped c
    → Returns (λ r. IsGrouped r.0) (register_tcp_tunnel s g f c)
unfolding register_tcp_tunnel register_tcp_solo register_tcp_grouped register_tcp_first
    register_tcp_join
register_tcp_tunnel-IsGrouped s none f c u v = Returns-bind _ (check_session_limit s c) _ λ x _.
    Returns-bind _ (ok_or (pop_port c.available_tcp_ports) no_ports_available) _ λ (port, rest) e.
      open_solo-IsGrouped s f.tunnel_id port rest _ _ c (popped_port c port rest _ u e) v
register_tcp_tunnel-IsGrouped s (some spec) f c u v =
    Returns-bind _ (check_session_limit s c) _ λ x _.
      Returns-elim _ (get (spec.group_name, spec.key_hash) c.tcp_group_index) _ _
        (λ new.
          Returns-bind _ (ok_or (pop_port c.available_tcp_ports) no_ports_available) _
            λ (port, rest) e.
              open_first-IsGrouped s f.tunnel_id port rest _ _ _ c (popped_port c port rest _ u e)
                new v)
        (λ port _.
          Returns-if _ (contains_key port c.tcp_routes) _ _
            (λ _. join-IsGrouped s f.tunnel_id port _ c v) (λ _. tt))

pub register_udp_tunnel-IsGrouped :
    (s : Uuid) (f : Fresh) (c : TunnelCore)
    → IsGrouped c
    → Returns (λ r. IsGrouped r.0) (register_udp_tunnel s f c)
unfolding register_udp_tunnel
register_udp_tunnel-IsGrouped s f c v = Returns-bind _ (check_session_limit s c) _ λ x _.
    Returns-bind _ (ok_or (pop_port c.available_udp_ports) no_ports_available) _
      λ (port, rest) e. record { at = v.at }

pub register_http_tunnel-IsGrouped :
    (s : Uuid) (req : Option Text) (protocol : TunnelProtocol) (g : Option GroupSpec) (f : Fresh)
    (c : TunnelCore)
    → IsGrouped c
    → Returns (λ r. IsGrouped r.0) (register_http_tunnel s req protocol g f c)
unfolding register_http_tunnel index_tunnel
register_http_tunnel-IsGrouped s req protocol g f c v =
    Returns-bind _ (check_session_limit s c) _ λ x _.
      Returns-bind _ (choose_subdomain req f.label_id) _ λ sub _.
        Returns-bind _ (upsert_http sub f.now (http_info s sub protocol f c) g c.http_routes) _
          λ r' _. record { at = v.at }

pub register_p2p_tunnel-IsGrouped :
    (s : Uuid) (name secret : Text) (f : Fresh) (c : TunnelCore)
    → IsGrouped c
    → Returns (λ r. IsGrouped r.0) (register_p2p_tunnel s name secret f c)
unfolding register_p2p_tunnel index_tunnel
register_p2p_tunnel-IsGrouped s name secret f c v =
    Returns-bind _ (check_session_limit s c) _ λ x _.
      Returns-if _ (contains_key name c.p2p_tunnels) _ _ (λ _. tt) (λ _. record { at = v.at })

pub remove_tunnel-IsGrouped :
    (t : Uuid) (c : TunnelCore) → IsGrouped c → IsGrouped (remove_tunnel t c)
unfolding remove_tunnel
remove_tunnel-IsGrouped t c v = elim (Option-cases (get t c.tunnel_index)) [
  | inl e ↦ rw (e, remove_tunnel) v
  | inr (k, e) ↦ rw (e, remove_tunnel) (remove_route-IsGrouped t k c v)
]
