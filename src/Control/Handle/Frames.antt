-- ===== src/Control/Handle/Frames.antt =====
-- What a frame from a client can do to the state of the server (control/session.rs).
use rustunnel.Prelude.{
  ◌≡◌, ◌≢◌, sym, ◌∙◌, Bool, true, false, Option, none, some, arith, nat_beq, contains,
}
use rustunnel.Prelude.Eq.{nat_eq, list_eq}
use rustunnel.Prelude.Map.{get}
use mathlib.Core.Path.{subst}
use rustunnel.Core.Types.{Uuid, SessionInfo}
use rustunnel.Core.Router.{TunnelCore, TunnelKey}
use rustunnel.Core.Invariant.{holder, Adds, IsIndexed, lists}
use rustunnel.Core.Invariant.Removing.{remove_tunnel-Drops}
use rustunnel.Core.Invariant.Sessions.{remove_session-Ends, tunnels_of}
use rustunnel.Core.Valid.{IsValid}
use rustunnel.Core.Valid.Gentle.{IsQuiet, stays-IsQuiet}
use rustunnel.Core.Valid.Steps.{Step-IsValid, tunnel_closes}
use rustunnel.Protocol.{ControlFrame, RegisterTunnel}
use rustunnel.Control.Session.{SessionCtx, Outside, Handled}
use rustunnel.Control.Register.Heard.{Answered, opened, unchanged, broken_off}
use rustunnel.Control.Register.Answers.{register_tunnel-Answered}
use rustunnel.Control.Handle.{handle_client_message, unregister_tunnel, end_session}
use rustunnel.Control.Handle.Quiet.{
  p2p_connect-IsQuiet, update_p2p_nat_info-IsQuiet, tunnel_healthy-IsQuiet,
  tunnel_unhealthy-IsQuiet,
}

-- Whether a frame asks to take a tunnel down.
abbrev pub unregisters : ControlFrame → Uuid → Bool
unregisters (ControlFrame.unregister_tunnel t) u = nat_beq t u
unregisters _ u = false

-- The state stays valid, and a tunnel that is up stays up, for its session and under its key,
-- unless the frame asks to take it down.
pub record Spares (frame : ControlFrame) (c c' : TunnelCore) : Type 0 where
  pub valid : IsValid c'
  pub spared :
      (k : TunnelKey) (t s : Uuid)
      → holder c k t ≡ some s
      → unregisters frame t ≡ false
      → holder c' k t ≡ some s

quiet-Spares :
    (frame : ControlFrame) {c c' : TunnelCore} → IsValid c → IsQuiet c c' → Spares frame c c'
quiet-Spares frame v q = record { valid = q.valid v; spared = λ k t s h n. q.owners.holds k t ∙ h }

same-Spares : (frame : ControlFrame) {c c' : TunnelCore} → IsValid c → c' ≡ c → Spares frame c c'
same-Spares frame {c} v e = subst (Spares frame c) (sym e) (quiet-Spares frame v (stays-IsQuiet c))

routes_stay :
    (s t : Uuid) (key : TunnelKey) (c c' : TunnelCore)
    → get t c.tunnel_index ≡ none
    → IsIndexed c
    → Adds s t key c c'
    → (k : TunnelKey) (u r : Uuid) → holder c k u ≡ some r
    → holder c' k u ≡ some r
routes_stay s t key c c' fresh v a k u r h = ground (arith, a.holds k u, v.indexed k u)

answered-Spares :
    (frame : ControlFrame) (s : Uuid) (r : RegisterTunnel) (o : Outside) (c : TunnelCore)
    (h : Handled)
    → get o.fresh.tunnel_id c.tunnel_index ≡ none
    → IsValid c
    → Answered s r o.fresh c h
    → Spares frame c h.core
answered-Spares frame s r o c h fresh v (opened key told a st _ _ _ _) = record {
  valid = Step-IsValid st v;
  spared = λ k t owner held _.
      routes_stay s o.fresh.tunnel_id key c h.core fresh v.coherent.index a k t owner held;
}
answered-Spares frame s r o c h fresh v (unchanged why e _ _) = same-Spares frame v e
answered-Spares frame s r o c h fresh v (broken_off e _ _) = same-Spares frame v e

unregister-Spares :
    (t : Uuid) (c : TunnelCore)
    → IsValid c
    → Spares (ControlFrame.unregister_tunnel t) c (unregister_tunnel t c).core
unfolding unregister_tunnel
unregister-Spares t c v = record {
  valid = Step-IsValid (tunnel_closes c t) v;
  spared = λ k u s h n. ground (arith, (remove_tunnel-Drops t c v.coherent.index).holds k u);
}

-- Whatever frame a client sends, a valid state of the server stays valid, and a tunnel that is up
-- stays up, under its key and for its session, unless the frame is an `UnregisterTunnel` of that
-- tunnel; where the id that the handler draws for a new tunnel is not in use.
pub handle_client_message-Spares :
    (ctx : SessionCtx) (frame : ControlFrame) (o : Outside) (c : TunnelCore)
    → get o.fresh.tunnel_id c.tunnel_index ≡ none
    → IsValid c
    → Spares frame c (handle_client_message ctx frame o c).core
unfolding handle_client_message
handle_client_message-Spares ctx (ControlFrame.register_tunnel r) o c fresh v =
    answered-Spares _ ctx.session_id r o c _ fresh v (register_tunnel-Answered ctx r o c fresh v)
handle_client_message-Spares ctx (ControlFrame.unregister_tunnel t) o c fresh v =
    unregister-Spares t c v
handle_client_message-Spares ctx (ControlFrame.p2p_connect req name secret) o c fresh v =
    quiet-Spares _ v (p2p_connect-IsQuiet ctx req name secret o c)
handle_client_message-Spares ctx (ControlFrame.p2p_nat_info t nat mapped local) o c fresh v =
    quiet-Spares _ v (update_p2p_nat_info-IsQuiet t nat mapped c)
handle_client_message-Spares ctx (ControlFrame.tunnel_healthy t) o c fresh v =
    quiet-Spares _ v (tunnel_healthy-IsQuiet ctx t o.fresh.now c)
handle_client_message-Spares ctx (ControlFrame.tunnel_unhealthy t reason) o c fresh v =
    quiet-Spares _ v (tunnel_unhealthy-IsQuiet ctx t reason o.fresh.now c)
handle_client_message-Spares ctx _ o c fresh v = quiet-Spares _ v (stays-IsQuiet c)

ended-none :
    (b : Bool) (o : Option SessionInfo) (t : Uuid)
    → lists t o ≡ true
    → contains t (tunnels_of o) ≡ true
ended-none b none t h = cc
ended-none b (some session) t h = h

-- When a session has ended, in a valid state, it holds no tunnel under any key.
pub end_session-releases :
    (s : Uuid) (c : TunnelCore) (k : TunnelKey) (t : Uuid)
    → IsValid c
    → holder (end_session s c).0 k t ≢ some s
unfolding end_session
end_session-releases s c k t v h =
    let e = remove_session-Ends s c v.coherent in
    ground (arith, e.holds k t, v.coherent.owned k t s, ended-none true (get s c.sessions) t)
