-- ===== src/Edge/Listeners/CaughtUp.antt =====
-- A listener manager that has handled the events it was sent listens on the routed ports and no
-- others (edge/tcp.rs and edge/udp.rs, over core/router.rs).
use rustunnel.Prelude.{
  ℕ, ◌≡◌, refl, ap, sym, ◌∙◌, Bool, false, List, [], ◌∷◌, ◌++◌, map, is_some, arith,
}
use mathlib.Core.List.{map-append}
use rustunnel.Prelude.Eq.{nat_eq}
use rustunnel.Prelude.Map.{Map, contains_key, get-empty}
use rustunnel.Core.Types.{TunnelGroup, TcpTunnelEvent}
use rustunnel.Core.Router.{TunnelCore, new}
use rustunnel.Core.Valid.Steps.{Reach}
use rustunnel.Edge.Listeners.{
  Received, registered, unregistered, lagged, closed, Listeners, ports, resync_listeners,
}
use rustunnel.Edge.Listeners.Events.{tcp_received, HasAnnounced}
use rustunnel.Edge.Listeners.Reports.{Step-HasAnnounced}
use rustunnel.Edge.Listeners.Follow.{
  announced, announced-append, follow, has_listener, has_listener-follow, has_listener-resync,
  contains-ports,
}

new-HasAnnounced : (tl th ul uh mt mc : ℕ) → HasAnnounced (new tl th ul uh mt mc)
unfolding new announced
new-HasAnnounced tl th ul uh mt mc = record {
  tcp = λ p. sym (ap is_some (get-empty {V = TunnelGroup} p));
  udp = λ p. sym (ap is_some (get-empty {V = TunnelGroup} p));
}

Reach-HasAnnounced : {c c' : TunnelCore} → Reach c c' → HasAnnounced c → HasAnnounced c'
Reach-HasAnnounced Reach.here h = h
Reach-HasAnnounced (Reach.next r st) h = Step-HasAnnounced st (Reach-HasAnnounced r h)

announced_again :
    (b : Bool) (p : ℕ) (es : List Received) → announced (announced b p es) p es ≡ announced b p es
unfolding announced
announced_again b p [] = refl
announced_again b p (registered q ∷ es) = ground (arith, announced_again b p es)
announced_again b p (unregistered q ∷ es) = ground (arith, announced_again b p es)
announced_again b p (lagged ∷ es) = refl
announced_again b p (closed ∷ es) = refl

-- A resync that has seen the events `seen` of all `seen ++ lost`, and events after it: those still
-- in the channel are followed from where the resync left off.
followed :
    (p : ℕ) (routes routes' : Map ℕ TunnelGroup) (sent seen lost : List Received) (ls : Listeners)
    → announced false p (seen ++ lost) ≡ contains_key p routes
    → announced false p (sent ++ (seen ++ lost)) ≡ contains_key p routes'
    → has_listener p (follow (sent ++ seen) (resync_listeners (ports routes) ls))
      ≡ contains_key p routes'
followed p routes routes' sent seen lost ls before after =
    let start : has_listener p (resync_listeners (ports routes) ls)
        ≡ announced (announced false p lost) p seen =
      has_listener-resync p (ports routes) ls
      ∙ contains-ports p routes
      ∙ sym before
      ∙ announced-append false p seen lost in
    has_listener-follow p (sent ++ seen) (resync_listeners (ports routes) ls)
    ∙ announced-append (has_listener p (resync_listeners (ports routes) ls)) p sent seen
    ∙ ap (λ (b : Bool). announced b p sent)
        (ap (λ (b : Bool). announced b p seen) start
          ∙ announced_again (announced false p lost) p seen)
    ∙ ap (λ (b : Bool). announced b p sent) (sym (announced-append false p seen lost))
    ∙ sym (announced-append false p sent (seen ++ lost))
    ∙ after

-- A listener manager that has lost events and resyncs, in a state that is reached from the start,
-- and then handles the events that it had not lost and those that were sent after, listens on a
-- TCP port exactly if it is routed in the state that sent the last of them.
pub listeners_caught_up :
    (tl th ul uh mt mc : ℕ) {c c' : TunnelCore} (ls : Listeners) (p : ℕ)
    (sent seen lost : List TcpTunnelEvent)
    → Reach (new tl th ul uh mt mc) c
    → Reach c c'
    → c.tcp_events ≡ seen ++ lost
    → c'.tcp_events ≡ sent ++ c.tcp_events
    → has_listener p
        (follow (map tcp_received (sent ++ seen)) (resync_listeners (ports c.tcp_routes) ls))
      ≡ contains_key p c'.tcp_routes
listeners_caught_up tl th ul uh mt mc {c} {c'} ls p sent seen lost r r' e e' =
    let before = Reach-HasAnnounced r (new-HasAnnounced tl th ul uh mt mc) in
    let after = Reach-HasAnnounced r' before in
    rw (map-append tcp_received sent seen) (
      followed p c.tcp_routes c'.tcp_routes (map tcp_received sent) (map tcp_received seen)
        (map tcp_received lost) ls
        (sym (ap (announced false p) (ap (map tcp_received) e ∙ map-append tcp_received seen lost))
          ∙ before.tcp p)
        (sym (
            ap (announced false p) (
              ap (map tcp_received) (e' ∙ ap (◌++◌ sent) e)
              ∙ map-append tcp_received sent (seen ++ lost)
              ∙ ap (◌++◌ (map tcp_received sent)) (map-append tcp_received seen lost)))
          ∙ after.tcp p))
