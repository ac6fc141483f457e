-- ===== src/Control/Server.antt =====
-- The server while its sessions run (crates/rustunnel-server/src/control/session.rs, `run_session`):
-- handshakes, turns of the sessions' loops, ends of sessions and the edge's look-ups, of any clients and in any order.
use rustunnel.Prelude.{ℕ, ◌≡◌, ◌∙◌, Bool, true, false, not, none, some, arith, contains}
use rustunnel.Prelude.Eq.{nat_eq}
use rustunnel.Prelude.Map.{get}
use rustunnel.Core.Types.{Text, Uuid, SocketAddr}
use rustunnel.Core.Router.{TunnelCore, TunnelKey}
use rustunnel.Core.Router.Dispatch.{resolve}
use rustunnel.Core.Invariant.{holder}
use rustunnel.Core.Invariant.Sessions.{remove_session-Ends, tunnels_of}
use rustunnel.Core.Valid.{IsValid}
use rustunnel.Core.Valid.Gentle.{IsQuiet}
use rustunnel.Core.Valid.Reports.{resolve-IsQuiet}
use rustunnel.Core.Valid.Steps.{Step-IsValid, session_closes}
use rustunnel.Protocol.{ControlFrame}
use rustunnel.Control.Session.{SessionCtx, ServerConfig, Outside}
use rustunnel.Control.Handle.{end_session}
use rustunnel.Control.Loop.{LoopEvent, loop_turn}
use rustunnel.Control.Loop.Quiet.{takes_down, loop_turn-TurnSpares}
use rustunnel.Control.Auth.{Attempt, frame, auth_handshake}
use rustunnel.Control.Auth.Guard.{auth_frame-Guards}
use rustunnel.Limits.AuthFailure.{AuthFailureLimiter}

-- Ids are fresh when they are drawn.
pub data ServerStep : TunnelCore → TunnelCore → Type 0 where
  connects :
      (digest : Text → Text) (config : ServerConfig) (a : Attempt) (token version : Text)
      (c : TunnelCore) (l : AuthFailureLimiter)
      → get a.session_id c.sessions ≡ none
      → ServerStep c
          (auth_handshake digest config a (frame (ControlFrame.auth token version)) c l).core
  turns :
      (to_string : SocketAddr → Text) (ctx : SessionCtx) (event : LoopEvent) (o : Outside)
      (c : TunnelCore)
      → get o.fresh.tunnel_id c.tunnel_index ≡ none
      → ServerStep c (loop_turn to_string ctx event o c).core
  disconnects : (s : Uuid) (c : TunnelCore) → ServerStep c (end_session s c).0
  routes : (pick : ℕ) (k : TunnelKey) (c : TunnelCore) → ServerStep c (resolve pick k c).0

-- Whether a step neither asks to take a tunnel down nor ends a session that lists it.
abbrev pub spares : {c d : TunnelCore} → ServerStep c d → Uuid → Bool
spares (connects digest config a token version c l fresh) t = true
spares (turns to_string ctx event o c fresh) t = not (takes_down event t)
spares (disconnects s c) t = not (contains t (tunnels_of (get s c.sessions)))
spares (routes pick k c) t = true

-- Runs of the server whose steps all spare a tunnel.
pub data Uninterrupted (t : Uuid) (c : TunnelCore) : TunnelCore → Type 0 where
  here : Uninterrupted t c c
  next :
      {d e : TunnelCore}
      → Uninterrupted t c d
      → (st : ServerStep d e) → spares st t ≡ true
      → Uninterrupted t c e

-- The state is valid, and the tunnel is up as it was.
pub record StaysUp (k : TunnelKey) (t s : Uuid) (c : TunnelCore) : Type 0 where
  pub valid : IsValid c
  pub up : holder c k t ≡ some s

disconnects-StaysUp :
    (k : TunnelKey) (t s r : Uuid) (c : TunnelCore)
    → contains t (tunnels_of (get r c.sessions)) ≡ false
    → StaysUp k t s c
    → StaysUp k t s (end_session r c).0
unfolding end_session
disconnects-StaysUp k t s r c e v = record {
  valid = Step-IsValid (session_closes c r) v.valid;
  up = ground (arith, (remove_session-Ends r c v.valid.coherent).holds k t, v.up, e);
}

connects-StaysUp :
    (k : TunnelKey) (t s : Uuid) (c d : TunnelCore)
    → IsQuiet c d
    → StaysUp k t s c
    → StaysUp k t s d
connects-StaysUp k t s c d q v = record { valid = q.valid v.valid; up = q.owners.holds k t ∙ v.up }

step-StaysUp :
    (k : TunnelKey) (t s : Uuid) {c d : TunnelCore} (st : ServerStep c d)
    → spares st t ≡ true
    → StaysUp k t s c
    → StaysUp k t s d
step-StaysUp k t s (connects digest config a token version c l fresh) e v =
    connects-StaysUp k t s c _ ((auth_frame-Guards digest config a token version c l).quiet fresh) v
step-StaysUp k t s (turns to_string ctx event o c fresh) e v =
    let w = loop_turn-TurnSpares to_string ctx event o c fresh v.valid in
    record { valid = w.valid; up = w.spared k t s v.up (ground (arith, e)) }
step-StaysUp k t s (disconnects r c) e v = disconnects-StaysUp k t s r c (ground (arith, e)) v
step-StaysUp k t s (routes pick key c) e v =
    connects-StaysUp k t s c _ (resolve-IsQuiet pick key c) v

-- A tunnel that is up in a valid state stays up, under its key and for its session, and the state
-- stays valid, through any run of handshakes, turns of the sessions' loops, ends of sessions and
-- look-ups of the edge, of any clients and in any order, in which no frame asks to take it down
-- and no session that lists it ends; where ids are not in use when they are drawn.
pub Uninterrupted-StaysUp :
    (k : TunnelKey) (t s : Uuid) (c d : TunnelCore)
    → Uninterrupted t c d
    → StaysUp k t s c
    → StaysUp k t s d
Uninterrupted-StaysUp k t s c _ here v = v
Uninterrupted-StaysUp k t s c _ (next r st e) v =
    step-StaysUp k t s st e (Uninterrupted-StaysUp k t s c _ r v)
