-- ===== src/Control/Handle/Foreign.antt =====
-- Health reports in control/session.rs on tunnels that are not the session's own.
use rustunnel.Prelude.{
  ◌≡◌, ◌≢◌, refl, true, false, Option, none, some, [], arith, Option-cases, inl, inr, is_some,
}
use rustunnel.Prelude.Eq.{eq_refl, nat_eq, list_eq}
use rustunnel.Prelude.Map.{get}
use rustunnel.Core.Types.{Text, Uuid, TunnelInfo, TunnelGroup, GroupMember}
use rustunnel.Core.Router.{TunnelCore, TunnelKey, P2pPublisher}
use rustunnel.Core.Router.Health.{find_in}
use rustunnel.Core.Router.Dispatch.{tunnel_session, info_of_member, info_of_publisher, map_or}
use rustunnel.Core.Routes.{member_in}
use rustunnel.Core.Invariant.{holder, IsIndexed, owner_of, publisher_owner}
use rustunnel.Core.Valid.{IsValid}
use rustunnel.Protocol.{ControlFrame}
use rustunnel.Control.Session.{SessionCtx, Outside, done}
use rustunnel.Control.Handle.{handle_client_message, tunnel_healthy, tunnel_unhealthy, owns}

abbrev session_in : Option TunnelInfo → Option Uuid
session_in = map_or none (λ i. some i.session_id)

member_session :
    (t : Uuid) (o : Option TunnelGroup)
    → session_in (info_of_member (find_in t o)) ≡ owner_of (member_in t o)
member_session t none = refl
member_session t (some g) = at (get t g.members)
  where
    at : (m : Option GroupMember) → session_in (info_of_member m) ≡ owner_of m
    at none = refl
    at (some m) = refl

publisher_session :
    (t : Uuid) (o : Option P2pPublisher)
    → is_some (publisher_owner t o) ≡ true
    → session_in (info_of_publisher o) ≡ publisher_owner t o
publisher_session t none h = refl
publisher_session t (some p) h = ground arith

tunnel_session-none :
    (t : Uuid) (c : TunnelCore) → get t c.tunnel_index ≡ none → tunnel_session t c ≡ none
unfolding tunnel_session
tunnel_session-none t c e = rw (e, tunnel_session) refl

module _ (t : Uuid) (c : TunnelCore) (v : IsIndexed c) where
  tunnel_session-holder :
      (k : TunnelKey) → get t c.tunnel_index ≡ some k → tunnel_session t c ≡ holder c k t
  unfolding tunnel_session
  tunnel_session-holder (TunnelKey.http n) e =
      rw (e, tunnel_session) (member_session t (get n c.http_routes))
  tunnel_session-holder (TunnelKey.tcp n) e =
      rw (e, tunnel_session) (member_session t (get n c.tcp_routes))
  tunnel_session-holder (TunnelKey.udp n) e =
      rw (e, tunnel_session) (member_session t (get n c.udp_routes))
  tunnel_session-holder (TunnelKey.p2p n) e =
      rw (e, tunnel_session)
        (publisher_session t (get n c.p2p_tunnels)
          (ground (arith, v.indexed (TunnelKey.p2p n) t, eq_refl n)))

  -- A tunnel of which the session holds no route is not its own.
  foreign :
      (s : Uuid) → ((k : TunnelKey) → holder c k t ≢ some s) → owns s (tunnel_session t c) ≡ false
  foreign s h = elim (Option-cases (get t c.tunnel_index)) [
    | inl e ↦ rw (tunnel_session-none t c e) refl
    | inr (k, e) ↦ rw (tunnel_session-holder k e) (not_held (holder c k t) (h k))
  ]
    where
      not_held : (o : Option Uuid) → o ≢ some s → owns s o ≡ false
      not_held none n = refl
      not_held (some r) n = ground (arith, n)

-- Reports of health.
pub data Reports (t : Uuid) : ControlFrame → Type 0 where
  up : Reports t (ControlFrame.tunnel_healthy t)
  down : (reason : Text) → Reports t (ControlFrame.tunnel_unhealthy t reason)

-- A health report on a tunnel of which the session holds no route, in a valid state, changes
-- nothing and has no effect.
pub handle_client_message-foreign :
    (ctx : SessionCtx) (frame : ControlFrame) (o : Outside) (c : TunnelCore) (t : Uuid)
    → Reports t frame
    → IsValid c
    → ((k : TunnelKey) → holder c k t ≢ some ctx.session_id)
    → handle_client_message ctx frame o c ≡ done c []
unfolding handle_client_message tunnel_healthy tunnel_unhealthy
handle_client_message-foreign ctx _ o c t up v h =
    rw (foreign t c v.coherent.index ctx.session_id h) refl
handle_client_message-foreign ctx _ o c t (down reason) v h =
    rw (foreign t c v.coherent.index ctx.session_id h) refl
