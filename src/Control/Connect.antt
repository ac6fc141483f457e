-- ===== src/Control/Connect.antt =====
-- crates/rustunnel-server/src/control/session.rs: the handling of `P2pConnect`. The task that waits
-- for both streams and copies between them is the effect `relay`.
use rustunnel.Prelude.{
  ℕ, Bool, not, ◌&&◌, Option, none, some, List, [], ◌∷◌, ◌++◌, if◌then◌else◌, codes,
}
use rustunnel.Prelude.Map.{get, is_empty}
use rustunnel.Prelude.Eq.{◌==◌, list_eq, nat_eq}
use rustunnel.Core.Types.{Text, Uuid, SocketAddr, v4, TunnelProtocol, SessionInfo}
use rustunnel.Core.Router.{TunnelCore, P2pPublisher, register_pending_conn, cancel_pending_conn}
use rustunnel.Core.Router.Dispatch.{
  Strategy, direct_exchange, port_prediction, relay, resolve_p2p, classify_nat_pair,
}
use rustunnel.Protocol.{p2p_error, p2p_connected, p2p_punch_instructions}
use rustunnel.Control.Session.{
  SessionCtx, ControlMessage, new_connection, Effect, reply, tell, Outside, Handled, done,
}

unfoldable pub strategy_text : Strategy → Text
strategy_text direct_exchange = codes "direct_exchange"
strategy_text port_prediction = codes "port_prediction"
strategy_text relay = codes "relay"

-- 0.0.0.0:0
abbrev pub unspecified : SocketAddr
unspecified = record { ip = v4 0; port = 0 }

abbrev pub p2p_opening : Uuid → ControlMessage
p2p_opening conn_id = new_connection conn_id unspecified TunnelProtocol.p2p

-- The subscriber is taken to be behind a cone where the publisher's NAT is known.
abbrev pub sub_nat_assumed : Option Text → Option Text
sub_nat_assumed none = none
sub_nat_assumed (some pub_nat) = some (codes "cone")

abbrev pub instructions : Uuid → List Text → Strategy × Bool → List Effect
instructions conn_id addrs (strategy, attempt_direct) =
    if attempt_direct && not (is_empty addrs)
    then reply (p2p_punch_instructions conn_id addrs (strategy_text strategy) 5_000) ∷ []
    else []

unfoldable pub punch : Outside → P2pPublisher → List Effect
punch o p =
    instructions o.conn_id p.mapped_addrs
      (classify_nat_pair p.nat_type (sub_nat_assumed p.nat_type))

abbrev pub tell_session : Option SessionInfo → ControlMessage → List Effect
tell_session none m = []
tell_session (some session) m = tell session.control_tx m ∷ []

abbrev pub p2p_refuse : Text → Text → TunnelCore → Handled
p2p_refuse request_id why c = done c (reply (p2p_error request_id why) ∷ [])

-- The publisher heard of the connection: the subscriber's side is opened, and the two are bridged.
unfoldable pub bridge : SessionCtx → Text → Outside → P2pPublisher → TunnelCore → Handled
bridge ctx request_id o p c = done (register_pending_conn o.sub_conn_id o.sub_stream_tx c) (
    reply (p2p_connected request_id o.sub_conn_id)
      ∷ tell_session (get ctx.session_id c.sessions) (p2p_opening o.sub_conn_id)
    ++ Effect.relay o.conn_id o.sub_conn_id p.tunnel_info.tunnel_id ∷ [])

abbrev pub before : List Effect → Handled → Handled
before effects h = record h { effects = effects ++ h.effects }

unfoldable pub connect_publisher :
    SessionCtx → Text → Outside → P2pPublisher → ℕ → TunnelCore → Handled
connect_publisher ctx request_id o p publisher_tx c =
    let waiting = register_pending_conn o.conn_id o.pub_stream_tx c in
    before (punch o p) (
      if o.publisher_open
      then before (tell publisher_tx (p2p_opening o.conn_id) ∷ [])
          (bridge ctx request_id o p waiting)
      else p2p_refuse request_id (codes "publisher session is disconnected")
          (cancel_pending_conn o.conn_id waiting))

unfoldable pub connect_resolved :
    SessionCtx → Text → Text → Text → Outside → TunnelCore × Option (P2pPublisher × ℕ) → Handled
connect_resolved ctx request_id name secret o (c, none) =
    p2p_refuse request_id (codes "P2P tunnel '" ++ name ++ codes "' not found") c
connect_resolved ctx request_id name secret o (c, some (p, publisher_tx)) =
    if p.secret_hash == secret
    then connect_publisher ctx request_id o p publisher_tx c
    else p2p_refuse request_id (codes "invalid P2P secret") c

unfoldable pub p2p_connect : SessionCtx → Text → Text → Text → Outside → TunnelCore → Handled
p2p_connect ctx request_id name secret o c =
    if ctx.config.p2p_enabled
    then connect_resolved ctx request_id name secret o (resolve_p2p name c)
    else p2p_refuse request_id (codes "P2P tunnels are not enabled on this server") c
