-- ===== src/Control/Loop.antt =====
-- crates/rustunnel-server/src/control/session.rs, one turn of `main_loop`. The yamux driver is asked to
-- open a stream by an effect; its pipe, made anew when it exits, is a number. How an address prints is
-- a parameter.
pub mod Quiet
use rustunnel.Prelude.{ℕ, Bool, true, false, Option, none, some, List, [], ◌∷◌, if◌then◌else◌}
use rustunnel.Core.Types.{Text, Uuid, SocketAddr, TunnelProtocol}
use rustunnel.Core.Router.{TunnelCore, cancel_pending_conn, set_data_pipe}
use rustunnel.Protocol.{ControlFrame, ping}
use rustunnel.Control.Session.{
  SessionCtx, ControlMessage, shutdown, Effect, reply, open_stream, Outside, Handled, done,
}
use rustunnel.Control.Handle.{handle_client_message}

-- What wakes the loop: a ping that is due, or the end of the heartbeat; the peer's closing, an error
-- of the socket, a message with the frame that it decodes to, if it does; a message of the router, or
-- the end of its channel, and whether the driver still takes requests; the driver's exit.
pub data LoopEvent : Type 0 where
  ping_out : Option ℕ → LoopEvent
  peer_closed socket_error : LoopEvent
  message : Option ControlFrame → LoopEvent
  control : Option ControlMessage → (driver_takes : Bool) → LoopEvent
  driver_exited : (pipe : ℕ) → LoopEvent

-- The loop returns.
abbrev pub leaves : TunnelCore → Handled
leaves c = record { core = c; effects = []; goes_on = false }

abbrev pub on_ping : TunnelCore → Option ℕ → Handled
on_ping c none = leaves c
on_ping c (some timestamp) = done c (reply (ping timestamp) ∷ [])

abbrev pub on_message : SessionCtx → Outside → TunnelCore → Option ControlFrame → Handled
on_message ctx o c none = done c []
on_message ctx o c (some frame) = handle_client_message ctx frame o c

abbrev pub open_connection :
    (to_string : SocketAddr → Text)
    → Uuid
    → SocketAddr
    → TunnelProtocol
    → Bool
    → TunnelCore
    → Handled
open_connection to_string conn_id client_addr protocol true c = done c (
    open_stream conn_id
    ∷ reply (ControlFrame.new_connection conn_id (to_string client_addr) protocol)
    ∷ [])
open_connection to_string conn_id client_addr protocol false c =
    done (cancel_pending_conn conn_id c) []

abbrev pub on_control :
    (to_string : SocketAddr → Text) → Option ControlMessage → Bool → TunnelCore → Handled
on_control to_string none driver_takes c = leaves c
on_control to_string (some shutdown) driver_takes c = leaves c
on_control to_string (some (ControlMessage.new_connection conn_id addr protocol)) driver_takes c =
    open_connection to_string conn_id addr protocol driver_takes c

unfoldable pub loop_turn :
    (to_string : SocketAddr → Text) → SessionCtx → LoopEvent → Outside → TunnelCore → Handled
loop_turn to_string ctx (ping_out timestamp) o c = on_ping c timestamp
loop_turn to_string ctx peer_closed o c = leaves c
loop_turn to_string ctx socket_error o c = leaves c
loop_turn to_string ctx (message frame) o c = on_message ctx o c frame
loop_turn to_string ctx (control m driver_takes) o c = on_control to_string m driver_takes c
loop_turn to_string ctx (driver_exited pipe) o c = done (set_data_pipe ctx.session_id pipe c) []
