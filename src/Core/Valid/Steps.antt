-- ===== src/Core/Valid/Steps.antt =====
-- The steps that the connections, the edge and the dashboard make on `TunnelCore` (core/router.rs),
-- in any order. A step that fails leaves the state as it is, and is none.
use rustunnel.Prelude.{ℕ, ◌≡◌, Option, none, List, [], ◌∷◌, arith, Option-cases, inl, inr}
use rustunnel.Prelude.Eq.{nat_eq, list_eq, pair_eq}
use rustunnel.Prelude.Map.{get, remove, get-empty}
use rustunnel.Core.Types.{
  Text, Uuid, Instant, TunnelProtocol, TunnelGroup, GroupSpec, SocketAddr, Returns-ok, ok,
}
use rustunnel.Core.Router.{TunnelCore, TunnelKey, P2pPublisher, new, register_session}
use rustunnel.Core.Router.Register.{
  Fresh, register_http_tunnel, register_tcp_tunnel, register_udp_tunnel, register_p2p_tunnel,
}
use rustunnel.Core.Router.Unregister.{remove_tunnel, remove_tunnels, remove_session}
use rustunnel.Core.Router.Health.{set_tunnel_healthy, set_tunnel_unhealthy, pop_zero_healthy_alert}
use rustunnel.Core.Router.Dispatch.{resolve}
use rustunnel.Core.Invariant.{
  IsIndexed, HasSinglePorts, Adds, Adds-IsCoherent, Drops-IsCoherent, Drops-IsIndexed, holder,
}
use rustunnel.Core.Invariant.Registered.{
  register_http_tunnel-Adds, register_tcp_tunnel-Adds, register_udp_tunnel-Adds,
  register_p2p_tunnel-Adds,
}
use rustunnel.Core.Invariant.Removing.{remove_tunnel-Drops}
use rustunnel.Core.Invariant.Sessions.{remove_session-Ends}
use rustunnel.Core.Ports.{
  SamePorts, SamePorts-IsSingle, register_http_tunnel-SamePorts, register_tcp_tunnel-SamePorts,
  register_udp_tunnel-SamePorts, register_p2p_tunnel-SamePorts, remove_tunnel-SamePorts, new-uses,
}
use rustunnel.Core.Groups.{
  IsGrouped, register_http_tunnel-IsGrouped, register_tcp_tunnel-IsGrouped,
  register_udp_tunnel-IsGrouped, register_p2p_tunnel-IsGrouped, remove_tunnel-IsGrouped,
}
use rustunnel.Core.Valid.{IsValid}
use rustunnel.Core.Valid.Reports.{
  holder-sessions, register_session-IsQuiet, set_tunnel_healthy-IsQuiet,
  set_tunnel_unhealthy-IsQuiet, pop_zero_healthy_alert-IsQuiet, resolve-IsQuiet,
}

-- Ids are fresh when they are drawn.
pub data Step : TunnelCore → TunnelCore → Type 0 where
  session_opens :
      (c : TunnelCore) (s : Uuid) (now : Instant) (addr : SocketAddr) (token : Text)
      (db : Option Text) (user : Option Uuid) (tx : ℕ)
      → get s c.sessions ≡ none
      → Step c (register_session s now addr token db user tx c)
  session_closes : (c : TunnelCore) (s : Uuid) → Step c (remove_session s c)
  http_opens :
      (c c' : TunnelCore) (s : Uuid) (req : Option Text) (p : TunnelProtocol) (g : Option GroupSpec)
      (f : Fresh) (t : Uuid) (sub : Text)
      → get f.tunnel_id c.tunnel_index ≡ none
      → register_http_tunnel s req p g f c ≡ ok (c', t, sub)
      → Step c c'
  tcp_opens :
      (c c' : TunnelCore) (s : Uuid) (g : Option GroupSpec) (f : Fresh) (t : Uuid) (port : ℕ)
      → get f.tunnel_id c.tunnel_index ≡ none
      → register_tcp_tunnel s g f c ≡ ok (c', t, port)
      → Step c c'
  udp_opens :
      (c c' : TunnelCore) (s : Uuid) (f : Fresh) (t : Uuid) (port : ℕ)
      → get f.tunnel_id c.tunnel_index ≡ none
      → register_udp_tunnel s f c ≡ ok (c', t, port)
      → Step c c'
  p2p_opens :
      (c c' : TunnelCore) (s : Uuid) (name secret : Text) (f : Fresh) (t : Uuid) (n : Text)
      → get f.tunnel_id c.tunnel_index ≡ none
      → register_p2p_tunnel s name secret f c ≡ ok (c', t, n)
      → Step c c'
  tunnel_closes : (c : TunnelCore) (t : Uuid) → Step c (remove_tunnel t c)
  tunnel_healthy :
      (c : TunnelCore) (t : Uuid) (now : Instant) → Step c (set_tunnel_healthy t now c).0
  tunnel_unhealthy :
      (c : TunnelCore) (t : Uuid) (reason : Text) (now : Instant)
      → Step c (set_tunnel_unhealthy t reason now c).0
  alert_popped :
      (c : TunnelCore) (t : Uuid) (region : Text) → Step c (pop_zero_healthy_alert t region c).0
  dispatched : (c : TunnelCore) (pick : ℕ) (k : TunnelKey) → Step c (resolve pick k c).0

pub data Reach (c : TunnelCore) : TunnelCore → Type 0 where
  here : Reach c c
  next : {d e : TunnelCore} → Reach c d → Step d e → Reach c e

opened-IsValid :
    (s t : Uuid) (k : TunnelKey) (c c' : TunnelCore)
    → get t c.tunnel_index ≡ none
    → IsValid c
    → Adds s t k c c'
    → SamePorts c c'
    → IsGrouped c'
    → IsValid c'
opened-IsValid s t k c c' fresh v a p g = record {
  coherent = Adds-IsCoherent s t k c c' fresh a v.coherent;
  ports = SamePorts-IsSingle c c' p v.ports;
  groups = g;
}

remove_tunnel-IsValid : (t : Uuid) (c : TunnelCore) → IsValid c → IsValid (remove_tunnel t c)
remove_tunnel-IsValid t c v = record {
  coherent = Drops-IsCoherent t c _ (remove_tunnel-Drops t c v.coherent.index) v.coherent;
  ports = SamePorts-IsSingle c _ (remove_tunnel-SamePorts t c v.coherent.index) v.ports;
  groups = remove_tunnel-IsGrouped t c v.groups;
}

-- The part of the invariant that holds also between the removals of a session's tunnels.
record IsTidy (c : TunnelCore) : Type 0 where
  index : IsIndexed c
  ports : HasSinglePorts c
  groups : IsGrouped c

remove_tunnels-IsTidy : (ts : List Uuid) (c : TunnelCore) → IsTidy c → IsTidy (remove_tunnels ts c)
unfolding remove_tunnels
remove_tunnels-IsTidy [] c v = v
remove_tunnels-IsTidy (t ∷ ts) c v = remove_tunnels-IsTidy ts (remove_tunnel t c) (record {
  index = Drops-IsIndexed t c _ (remove_tunnel-Drops t c v.index) v.index;
  ports = SamePorts-IsSingle c _ (remove_tunnel-SamePorts t c v.index) v.ports;
  groups = remove_tunnel-IsGrouped t c v.groups;
})

remove_session-IsTidy : (s : Uuid) (c : TunnelCore) → IsTidy c → IsTidy (remove_session s c)
unfolding remove_session
remove_session-IsTidy s c v = elim (Option-cases (get s c.sessions)) [
  | inl e ↦ rw (e, remove_session) v
  | inr (session, e) ↦
      rw (e, remove_session)
        (remove_tunnels-IsTidy session.tunnels (record c { sessions = remove s c.sessions })
          (record {
            index = record {
              indexed =
                  λ k t. rw (holder-sessions (remove s c.sessions) c k t) (v.index.indexed k t);
            };
            ports = record { tcp_single = v.ports.tcp_single; udp_single = v.ports.udp_single };
            groups = record { at = v.groups.at };
          }))
]

remove_session-IsValid : (s : Uuid) (c : TunnelCore) → IsValid c → IsValid (remove_session s c)
remove_session-IsValid s c v =
    let tidy =
      remove_session-IsTidy s c
        (record { index = v.coherent.index; ports = v.ports; groups = v.groups }) in
    record {
      coherent = (remove_session-Ends s c v.coherent).coherent;
      ports = tidy.ports;
      groups = tidy.groups;
    }

-- Every step of the server keeps the state valid.
pub Step-IsValid : {c c' : TunnelCore} → Step c c' → IsValid c → IsValid c'
Step-IsValid (session_opens c s now addr token db user tx fresh) v =
    (register_session-IsQuiet s now addr token db user tx c fresh).valid v
Step-IsValid (session_closes c s) v = remove_session-IsValid s c v
Step-IsValid (http_opens c c' s req p g f t sub fresh e) v =
    let m = register_http_tunnel s req p g f c in
    opened-IsValid s f.tunnel_id (TunnelKey.http sub) c c' fresh v
      (Returns-ok _ m e (register_http_tunnel-Adds s req p g f c))
      (Returns-ok _ m e (register_http_tunnel-SamePorts s req p g f c))
      (Returns-ok _ m e (register_http_tunnel-IsGrouped s req p g f c v.groups))
Step-IsValid (tcp_opens c c' s g f t port fresh e) v =
    let m = register_tcp_tunnel s g f c in
    opened-IsValid s f.tunnel_id (TunnelKey.tcp port) c c' fresh v
      (Returns-ok _ m e (register_tcp_tunnel-Adds s g f c v.ports))
      (Returns-ok _ m e (register_tcp_tunnel-SamePorts s g f c v.ports))
      (Returns-ok _ m e (register_tcp_tunnel-IsGrouped s g f c v.ports v.groups))
Step-IsValid (udp_opens c c' s f t port fresh e) v =
    let m = register_udp_tunnel s f c in
    opened-IsValid s f.tunnel_id (TunnelKey.udp port) c c' fresh v
      (Returns-ok _ m e (register_udp_tunnel-Adds s f c v.ports))
      (Returns-ok _ m e (register_udp_tunnel-SamePorts s f c v.ports))
      (Returns-ok _ m e (register_udp_tunnel-IsGrouped s f c v.groups))
Step-IsValid (p2p_opens c c' s name secret f t n fresh e) v =
    let m = register_p2p_tunnel s name secret f c in
    opened-IsValid s f.tunnel_id (TunnelKey.p2p name) c c' fresh v
      (Returns-ok _ m e (register_p2p_tunnel-Adds s name secret f c))
      (Returns-ok _ m e (register_p2p_tunnel-SamePorts s name secret f c))
      (Returns-ok _ m e (register_p2p_tunnel-IsGrouped s name secret f c v.groups))
Step-IsValid (tunnel_closes c t) v = remove_tunnel-IsValid t c v
Step-IsValid (tunnel_healthy c t now) v = (set_tunnel_healthy-IsQuiet t now c).valid v
Step-IsValid (tunnel_unhealthy c t reason now) v =
    (set_tunnel_unhealthy-IsQuiet t reason now c).valid v
Step-IsValid (alert_popped c t region) v = (pop_zero_healthy_alert-IsQuiet t region c).valid v
Step-IsValid (dispatched c pick k) v = (resolve-IsQuiet pick k c).valid v

pub Reach-IsValid : {c c' : TunnelCore} → Reach c c' → IsValid c → IsValid c'
Reach-IsValid here v = v
Reach-IsValid (next r st) v = Step-IsValid st (Reach-IsValid r v)

new-holder :
    (tl th ul uh mt mc : ℕ) (k : TunnelKey) (t : Uuid) → holder (new tl th ul uh mt mc) k t ≡ none
unfolding new
new-holder tl th ul uh mt mc (TunnelKey.http n) t = ground (arith, get-empty {V = TunnelGroup} n)
new-holder tl th ul uh mt mc (TunnelKey.tcp p) t = ground (arith, get-empty {V = TunnelGroup} p)
new-holder tl th ul uh mt mc (TunnelKey.udp p) t = ground (arith, get-empty {V = TunnelGroup} p)
new-holder tl th ul uh mt mc (TunnelKey.p2p n) t = ground (arith, get-empty {V = P2pPublisher} n)

new-IsIndexed : (tl th ul uh mt mc : ℕ) → IsIndexed (new tl th ul uh mt mc)
unfolding new
new-IsIndexed tl th ul uh mt mc = record {
  indexed = λ k t. ground (arith, new-holder tl th ul uh mt mc k t, get-empty {V = TunnelKey} t);
}

new-IsGrouped : (tl th ul uh mt mc : ℕ) → IsGrouped (new tl th ul uh mt mc)
unfolding new
new-IsGrouped tl th ul uh mt mc = record {
  at = λ n kh p.
      ground (arith, get-empty {K = Text × Text} {V = ℕ} (n, kh), get-empty {V = TunnelGroup} p);
}

new-IsValid : (tl th ul uh mt mc : ℕ) → IsValid (new tl th ul uh mt mc)
new-IsValid tl th ul uh mt mc = record {
  coherent = record {
    index = new-IsIndexed tl th ul uh mt mc;
    owned = λ k t s h. cc (new-holder tl th ul uh mt mc k t);
  };
  ports = record {
    tcp_single = λ p. ground (arith, new-uses tl th ul uh mt mc p);
    udp_single = λ p. ground (arith, new-uses tl th ul uh mt mc p);
  };
  groups = new-IsGrouped tl th ul uh mt mc;
}

-- From the start on, whatever steps the server makes in whatever order (sessions open and close,
-- tunnels of the four kinds open and close, health reports, alerts, dispatches; ids are fresh when
-- drawn), the reverse index names the key of each routed tunnel and of no other, every routed
-- tunnel belongs to a live session which lists it, no port is both free and routed or free twice,
-- and the index of TCP groups names a port exactly for the group routed there.
pub reachable-IsValid :
    (tl th ul uh mt mc : ℕ) {c : TunnelCore} → Reach (new tl th ul uh mt mc) c → IsValid c
reachable-IsValid tl th ul uh mt mc r = Reach-IsValid r (new-IsValid tl th ul uh mt mc)
