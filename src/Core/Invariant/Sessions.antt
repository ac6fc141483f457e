-- ===== src/Core/Invariant/Sessions.antt =====
-- `remove_session` of core/router.rs takes out all the tunnels of the session and nothing else.
use rustunnel.Prelude.{
  ◌≡◌, refl, ◌∙◌, true, Option, none, some, List, [], ◌∷◌, arith, if◌then◌else◌, nat_beq,
  Option-cases, inl, inr, contains,
}
use rustunnel.Prelude.Eq.{nat_eq, list_eq}
use rustunnel.Prelude.Map.{get, remove, get-remove}
use rustunnel.Core.Types.{Uuid, SessionInfo}
use rustunnel.Core.Router.{TunnelCore, TunnelKey}
use rustunnel.Core.Router.Unregister.{remove_tunnel, remove_tunnels, remove_session}
use rustunnel.Core.Invariant.{holder, lists, IsIndexed, IsCoherent, Drops-IsIndexed}
use rustunnel.Core.Invariant.Removing.{remove_tunnel-Drops}

-- `c'` is `c` without the tunnels of a list.
pub record DropsAll (ts : List Uuid) (c c' : TunnelCore) : Type 0 where
  pub index :
      (u : Uuid) → get u c'.tunnel_index ≡ (if contains u ts then none else get u c.tunnel_index)
  pub holds :
      (j : TunnelKey) (u : Uuid) → holder c' j u ≡ (if contains u ts then none else holder c j u)
  pub sessions : (r : Uuid) → get r c'.sessions ≡ get r c.sessions
  pub indexed : IsIndexed c'

remove_tunnels-DropsAll :
    (ts : List Uuid) (c : TunnelCore) → IsIndexed c → DropsAll ts c (remove_tunnels ts c)
unfolding remove_tunnels
remove_tunnels-DropsAll [] c v = record {
  index = λ u. refl;
  holds = λ j u. refl;
  sessions = λ r. refl;
  indexed = v;
}
remove_tunnels-DropsAll (t ∷ ts) c v =
    let d = remove_tunnel-Drops t c v in
    let rest = remove_tunnels-DropsAll ts (remove_tunnel t c) (Drops-IsIndexed t c _ d v) in
    record {
      index = λ u. ground (arith, d.index u, rest.index u);
      holds = λ j u. ground (arith, d.holds j u, rest.holds j u);
      sessions = λ r. rest.sessions r ∙ d.sessions r;
      indexed = rest.indexed;
    }

abbrev pub tunnels_of : Option SessionInfo → List Uuid
tunnels_of none = []
tunnels_of (some s) = s.tunnels

without_session : Uuid → TunnelCore → TunnelCore
without_session s c = record c { sessions = remove s c.sessions }

-- Taking the session itself out changes no route.
without_session-routes :
    (s : Uuid) (c : TunnelCore) (j : TunnelKey) (u : Uuid)
    → holder (without_session s c) j u ≡ holder c j u
unfolding without_session
without_session-routes s c (TunnelKey.http n) u = refl
without_session-routes s c (TunnelKey.tcp p) u = refl
without_session-routes s c (TunnelKey.udp p) u = refl
without_session-routes s c (TunnelKey.p2p n) u = refl

-- `remove_session` of a coherent state: the session is gone, its tunnels are gone from the index
-- and the routes, all else is as before, and the state is coherent again.
pub record Ends (s : Uuid) (c c' : TunnelCore) : Type 0 where
  pub gone : (r : Uuid) → get r c'.sessions ≡ (if nat_beq s r then none else get r c.sessions)
  pub holds :
      (j : TunnelKey) (u : Uuid)
      → holder c' j u ≡ (if contains u (tunnels_of (get s c.sessions)) then none else holder c j u)
  pub coherent : IsCoherent c'

without_session-IsIndexed :
    (s : Uuid) (c : TunnelCore) → IsIndexed c → IsIndexed (without_session s c)
without_session-IsIndexed s c v = record {
  indexed = λ j u. rw (without_session-routes s c j u) (unfold without_session in v.indexed j u);
}

without_session-sessions :
    (s r : Uuid) (c : TunnelCore)
    → get r (without_session s c).sessions ≡ (if nat_beq s r then none else get r c.sessions)
unfolding without_session
without_session-sessions s r c = get-remove s r c.sessions

module _ (s : Uuid) (session : SessionInfo) (c c' : TunnelCore) where
  owned_after :
      get s c.sessions ≡ some session
      → IsCoherent c
      → DropsAll session.tunnels (without_session s c) c'
      → (j : TunnelKey) (u r : Uuid) → holder c' j u ≡ some r
      → lists u (get r c'.sessions) ≡ true
  owned_after e v d j u r h = ground (
    arith,
    d.holds j u,
    d.sessions r,
    v.owned j u r,
    without_session-routes s c j u,
    without_session-sessions s r c,
  )

  live-Ends :
      get s c.sessions ≡ some session
      → IsCoherent c
      → DropsAll session.tunnels (without_session s c) c'
      → Ends s c c'
  live-Ends e v d = record {
    gone = λ r. d.sessions r ∙ without_session-sessions s r c;
    holds = λ j u. ground (arith, d.holds j u, without_session-routes s c j u);
    coherent = record { index = d.indexed; owned = owned_after e v d };
  }

-- In a coherent state `remove_session` takes out the session and exactly the tunnels that it
-- lists, leaves every other session and the holder of every other route as it was, and the state
-- is coherent again.
pub remove_session-Ends : (s : Uuid) (c : TunnelCore) → IsCoherent c → Ends s c (remove_session s c)
unfolding remove_session without_session
remove_session-Ends s c v = elim (Option-cases (get s c.sessions)) [
  | inl e ↦
      rw (e, remove_session)
        (record { gone = λ r. ground arith; holds = λ j u. rw e refl; coherent = v })
  | inr (session, e) ↦
      rw (e, remove_session)
        (live-Ends s session c _ e v
          (remove_tunnels-DropsAll session.tunnels _ (without_session-IsIndexed s c v.index)))
]
