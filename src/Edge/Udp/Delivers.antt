-- ===== src/Edge/Udp/Delivers.antt =====
-- Where a datagram goes (edge/udp.rs).
use rustunnel.Prelude.{
  ℕ, ◌≡◌, ◌≤◌, ◌<◌, ◌++◌, Bool, true, false, length, none, some, [], ◌∷◌, if◌then◌else◌,
}
use rustunnel.Prelude.Eq.{◌==◌, nat_eq}
use rustunnel.Prelude.Map.{Map, get}
use rustunnel.Core.Types.{Text, SocketAddr, TunnelInfo, TunnelGroup, SessionInfo}
use rustunnel.Core.Router.{TunnelCore, TunnelKey}
use rustunnel.Core.Router.Health.{group_at}
use rustunnel.Core.Router.Dispatch.{resolve, count_request_of}
use rustunnel.Core.Dispatching.{Serves, Unroutable}
use rustunnel.Edge.Streams.{Outside}
use rustunnel.Edge.Streams.Permits.{KeepsPermits, IsExhausted, TakesOne}
use rustunnel.Edge.Udp.Ports.{addr_eq, UdpSession, UdpPort, Task, Listened}

-- What the queue of a session holds once a datagram was offered to it: one more at its end, or the
-- same if the session has ended or 64 are waiting.
pub data Offered (d : Text) (s s' : UdpSession) : Type 0 where
  queued :
      s.closed ≡ false
      → length s.queue < 64
      → s'.closed ≡ false
      → s'.queue ≡ s.queue ++ d ∷ []
      → Offered d s s'
  ended : s.closed ≡ true → s' ≡ s → Offered d s s'
  full : 64 ≤ length s.queue → s' ≡ s → Offered d s s'

-- The member that the pick resolves to, which is healthy, in the group under the key, and whose
-- session is live.
pub record Routed (pick : ℕ) (k : TunnelKey) (c : TunnelCore) (i : TunnelInfo) (owner : SessionInfo)
    : Type 0 where
  pub picked : (resolve pick k c).1 ≡ some (count_request_of i, owner.control_tx)
  pub group : TunnelGroup
  pub at_key : group_at k c ≡ some group
  pub serves : Serves i group.members
  pub live : get i.session_id c.sessions ≡ some owner

-- What a datagram of `peer` has done, and when.
pub data Delivers (peer : SocketAddr) (d : Text) (o : Outside) (allowed : Bool) (ps : UdpPort)
    (c : TunnelCore) (r : Listened) : Type 0 where
  refused :
      allowed ≡ false
      → r.ports ≡ ps
      → r.core ≡ c
      → r.started ≡ none
      → Delivers peer d o allowed ps c r
  known :
      (s s' : UdpSession)
      → allowed ≡ true
      → get peer ps.sessions ≡ some s
      → Offered d s s'
      → ((q : SocketAddr)
          → get q r.ports.sessions ≡ (if peer == q then some s' else get q ps.sessions))
      → r.core ≡ c
      → r.started ≡ none
      → Delivers peer d o allowed ps c r
  unrouted :
      allowed ≡ true
      → get peer ps.sessions ≡ none
      → (resolve o.pick (TunnelKey.udp ps.port) c).1 ≡ none
      → Unroutable (TunnelKey.udp ps.port) c
      → r.ports ≡ ps
      → r.core ≡ c
      → r.started ≡ none
      → Delivers peer d o allowed ps c r
  exhausted :
      (i : TunnelInfo) (owner : SessionInfo)
      → allowed ≡ true
      → get peer ps.sessions ≡ none
      → Routed o.pick (TunnelKey.udp ps.port) c i owner
      → IsExhausted (TunnelKey.udp ps.port) i c
      → r.ports ≡ ps
      → KeepsPermits c r.core
      → r.started ≡ none
      → Delivers peer d o allowed ps c r
  opens :
      (task : Task) (i : TunnelInfo) (owner : SessionInfo)
      → allowed ≡ true
      → get peer ps.sessions ≡ none
      → Routed o.pick (TunnelKey.udp ps.port) c i owner
      → ¬ IsExhausted (TunnelKey.udp ps.port) i c
      → r.started ≡ some task
      → task.peer ≡ peer
      → task.info ≡ count_request_of i
      → task.control_tx ≡ owner.control_tx
      → task.conn_id ≡ o.conn_id
      → ((q : SocketAddr)
          → get q r.ports.sessions ≡ (
              if peer == q
              then some (record { queue = d ∷ []; closed = false })
              else get q ps.sessions))
      → TakesOne (TunnelKey.udp ps.port) i c r.core
      → Delivers peer d o allowed ps c r
