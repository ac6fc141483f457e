-- ===== src/Control/Loop/Quiet.antt =====
-- What one turn of `main_loop` (crates/rustunnel-server/src/control/session.rs) does to the tunnels.
use rustunnel.Prelude.{ℕ, ◌≡◌, refl, ◌∙◌, Bool, true, false, Option, none, some, arith, nat_beq}
use rustunnel.Prelude.Eq.{nat_eq, list_eq}
use rustunnel.Prelude.Map.{get, modify, get-modify, apply_at}
use rustunnel.Core.Types.{Text, Uuid, SocketAddr, SessionInfo}
use rustunnel.Core.Router.{TunnelCore, set_data_pipe}
use rustunnel.Core.Invariant.{lists}
use rustunnel.Core.Valid.{IsValid}
use rustunnel.Core.Valid.Gentle.{IsQuiet, stays-IsQuiet, owners-IsQuiet}
use rustunnel.Core.Valid.Reports.{holder-sessions}
use rustunnel.Control.Session.{SessionCtx, ControlMessage, new_connection, shutdown, Outside}
use rustunnel.Control.Handle.Quiet.{cancel_pending_conn-IsQuiet}
use rustunnel.Control.Handle.Frames.{unregisters, handle_client_message-Spares}
use rustunnel.Control.Loop.{
  LoopEvent, ping_out, peer_closed, socket_error, message, control, driver_exited, loop_turn,
  on_control,
}
use rustunnel.Core.Invariant.{holder}
use rustunnel.Core.Router.{TunnelKey}

abbrev pub set_pipe : ℕ → SessionInfo → SessionInfo
set_pipe pipe s = record s { data_pipe = some pipe }

lists-set_pipe :
    (pipe u : ℕ) (b : Bool) (o : Option SessionInfo)
    → lists u o ≡ true
    → lists u (apply_at (set_pipe pipe) b o) ≡ true
lists-set_pipe pipe u b none h = h
lists-set_pipe pipe u true (some s) h = h
lists-set_pipe pipe u false (some s) h = h

set_data_pipe-IsQuiet : (s : Uuid) (pipe : ℕ) (c : TunnelCore) → IsQuiet c (set_data_pipe s pipe c)
unfolding set_data_pipe
set_data_pipe-IsQuiet s pipe c =
    owners-IsQuiet c _
      (record {
        index = λ u. refl;
        holds = holder-sessions (modify s (set_pipe pipe) c.sessions) c;
        listed = λ r u l. ground (
          arith,
          get-modify s r (set_pipe pipe) c.sessions,
          lists-set_pipe pipe u (nat_beq s r) (get r c.sessions) l,
        );
      })
      (λ v. record { tcp_single = v.tcp_single; udp_single = v.udp_single })
      (λ v. record { at = v.at })

on_control-IsQuiet :
    (to_string : SocketAddr → Text) (m : Option ControlMessage) (takes : Bool) (c : TunnelCore)
    → IsQuiet c (on_control to_string m takes c).core
on_control-IsQuiet to_string none takes c = stays-IsQuiet c
on_control-IsQuiet to_string (some shutdown) takes c = stays-IsQuiet c
on_control-IsQuiet to_string (some (new_connection id addr p)) true c = stays-IsQuiet c
on_control-IsQuiet to_string (some (new_connection id addr p)) false c =
    cancel_pending_conn-IsQuiet id c

-- Whether an event brings a frame that asks to take a tunnel down.
abbrev pub takes_down : LoopEvent → Uuid → Bool
takes_down (message (some frame)) t = unregisters frame t
takes_down _ t = false

-- The state stays valid, and a tunnel that is up stays up unless it is taken down.
pub record TurnSpares (event : LoopEvent) (c c' : TunnelCore) : Type 0 where
  pub valid : IsValid c'
  pub spared :
      (k : TunnelKey) (t s : Uuid)
      → holder c k t ≡ some s
      → takes_down event t ≡ false
      → holder c' k t ≡ some s

quiet-TurnSpares :
    (event : LoopEvent) {c c' : TunnelCore} → IsValid c → IsQuiet c c' → TurnSpares event c c'
quiet-TurnSpares event v q = record {
  valid = q.valid v;
  spared = λ k t s h n. q.owners.holds k t ∙ h;
}

pub loop_turn-TurnSpares :
    (to_string : SocketAddr → Text) (ctx : SessionCtx) (event : LoopEvent) (o : Outside)
    (c : TunnelCore)
    → get o.fresh.tunnel_id c.tunnel_index ≡ none
    → IsValid c
    → TurnSpares event c (loop_turn to_string ctx event o c).core
unfolding loop_turn
loop_turn-TurnSpares to_string ctx (ping_out none) o c fresh v =
    quiet-TurnSpares _ v (stays-IsQuiet c)
loop_turn-TurnSpares to_string ctx (ping_out (some ts)) o c fresh v =
    quiet-TurnSpares _ v (stays-IsQuiet c)
loop_turn-TurnSpares to_string ctx peer_closed o c fresh v = quiet-TurnSpares _ v (stays-IsQuiet c)
loop_turn-TurnSpares to_string ctx socket_error o c fresh v = quiet-TurnSpares _ v (stays-IsQuiet c)
loop_turn-TurnSpares to_string ctx (message none) o c fresh v =
    quiet-TurnSpares _ v (stays-IsQuiet c)
loop_turn-TurnSpares to_string ctx (message (some frame)) o c fresh v =
    let w = handle_client_message-Spares ctx frame o c fresh v in
    record { valid = w.valid; spared = w.spared }
loop_turn-TurnSpares to_string ctx (control m takes) o c fresh v =
    quiet-TurnSpares _ v (on_control-IsQuiet to_string m takes c)
loop_turn-TurnSpares to_string ctx (driver_exited pipe) o c fresh v =
    quiet-TurnSpares _ v (set_data_pipe-IsQuiet ctx.session_id pipe c)
