-- ===== src/Control/Handle.antt =====
-- crates/rustunnel-server/src/control/session.rs: `handle_client_message`, on a frame that was
-- decoded; a message that is no frame changes nothing. And the end of `run_session`.
pub mod Quiet
pub mod Frames
pub mod Foreign
use rustunnel.Prelude.{
  ℕ, Bool, true, false, Option, none, some, List, [], ◌∷◌, ◌++◌, if◌then◌else◌, map,
}
use rustunnel.Prelude.Map.{get}
use rustunnel.Prelude.Eq.{◌==◌, nat_eq}
use rustunnel.Core.Types.{Text, Uuid, Instant, SessionInfo, ZeroHealthyAlert, GroupAlertPayload}
use rustunnel.Core.Router.{TunnelCore}
use rustunnel.Core.Router.Unregister.{remove_tunnel, remove_session}
use rustunnel.Core.Router.Health.{set_tunnel_healthy, set_tunnel_unhealthy, pop_zero_healthy_alert}
use rustunnel.Core.Router.Dispatch.{tunnel_meter, tunnel_session, update_p2p_nat_info}
use rustunnel.Protocol.{ControlFrame, pong}
use rustunnel.Control.Session.{
  SessionCtx, ServerConfig, Effect, reply, audit, tunnel_removed, log_tunnel_unregistered, pong_in,
  zero_healthy_alert, Outside, Handled, done,
}
use rustunnel.Control.Register.{register_tunnel}
use rustunnel.Control.Connect.{p2p_connect}

unfoldable pub unregister_tunnel : Uuid → TunnelCore → Handled
unregister_tunnel t c =
    done (remove_tunnel t c)
      (audit (tunnel_removed t []) ∷ log_tunnel_unregistered (tunnel_meter t c) ∷ [])

abbrev pub operator_alert : Option Text → GroupAlertPayload → List Effect
operator_alert none payload = []
operator_alert (some url) payload = zero_healthy_alert url payload ∷ []

abbrev pub alerts : Option Text → Option ZeroHealthyAlert → List Effect
alerts operator none = []
alerts operator (some a) =
    operator_alert operator a.payload
    ++ map (λ url. zero_healthy_alert url a.payload) a.tenant_webhook_urls

-- Whether the tunnel is of this session.
abbrev pub owns : Uuid → Option Uuid → Bool
owns s none = false
owns s (some owner) = owner == s

abbrev pub alert_popped : SessionCtx → TunnelCore × Option ZeroHealthyAlert → Handled
alert_popped ctx (c, alert) = done c (alerts ctx.config.alert_webhook_url alert)

abbrev pub marked_unhealthy : SessionCtx → Uuid → TunnelCore × Bool → Handled
marked_unhealthy ctx t (c, true) =
    alert_popped ctx (pop_zero_healthy_alert t ctx.config.region_id c)
marked_unhealthy ctx t (c, false) = done c []

unfoldable pub tunnel_healthy : SessionCtx → Uuid → Instant → TunnelCore → Handled
tunnel_healthy ctx t now c =
    if owns ctx.session_id (tunnel_session t c)
    then done (set_tunnel_healthy t now c).0 []
    else done c []

unfoldable pub tunnel_unhealthy : SessionCtx → Uuid → Text → Instant → TunnelCore → Handled
tunnel_unhealthy ctx t reason now c =
    if owns ctx.session_id (tunnel_session t c)
    then marked_unhealthy ctx t (set_tunnel_unhealthy t reason now c)
    else done c []

unfoldable pub handle_client_message : SessionCtx → ControlFrame → Outside → TunnelCore → Handled
handle_client_message ctx (ControlFrame.register_tunnel r) o c = register_tunnel ctx r o c
handle_client_message ctx (ControlFrame.unregister_tunnel t) o c = unregister_tunnel t c
handle_client_message ctx (ControlFrame.p2p_connect request_id name secret) o c =
    p2p_connect ctx request_id name secret o c
handle_client_message ctx (ControlFrame.ping timestamp) o c = done c (reply (pong timestamp) ∷ [])
handle_client_message ctx (ControlFrame.pong timestamp) o c = done c (pong_in timestamp ∷ [])
handle_client_message ctx (ControlFrame.p2p_nat_info t nat_type mapped local) o c =
    done (update_p2p_nat_info t nat_type mapped c) []
handle_client_message ctx (ControlFrame.p2p_punch_result conn_id success addr) o c = done c []
handle_client_message ctx (ControlFrame.p2p_metrics t sent received) o c = done c []
handle_client_message ctx (ControlFrame.tunnel_healthy t) o c = tunnel_healthy ctx t o.fresh.now c
handle_client_message ctx (ControlFrame.tunnel_unhealthy t reason) o c =
    tunnel_unhealthy ctx t reason o.fresh.now c
handle_client_message ctx (ControlFrame.auth token version) o c = done c []
handle_client_message ctx (ControlFrame.auth_ok s version) o c = done c []
handle_client_message ctx (ControlFrame.auth_error why) o c = done c []
handle_client_message ctx (ControlFrame.tunnel_registered r) o c = done c []
handle_client_message ctx (ControlFrame.tunnel_error request_id why) o c = done c []
handle_client_message ctx (ControlFrame.new_connection conn_id addr protocol) o c = done c []
handle_client_message ctx (ControlFrame.data_stream_open conn_id) o c = done c []
handle_client_message ctx (ControlFrame.p2p_connected request_id conn_id) o c = done c []
handle_client_message ctx (ControlFrame.p2p_error request_id why) o c = done c []
handle_client_message ctx (ControlFrame.p2p_punch_instructions conn_id addrs strategy ms) o c =
    done c []

abbrev pub listed : Option SessionInfo → List Uuid
listed none = []
listed (some session) = session.tunnels

abbrev pub log_remaining : TunnelCore → List Uuid → List Effect
log_remaining c [] = []
log_remaining c (t ∷ ts) = log_tunnel_unregistered (tunnel_meter t c) ∷ log_remaining c ts

-- The session ends: its tunnels' counters are logged before they go.
unfoldable pub end_session : Uuid → TunnelCore → TunnelCore × List Effect
end_session s c = (remove_session s c, log_remaining c (listed (get s c.sessions)))
