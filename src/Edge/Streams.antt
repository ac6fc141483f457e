-- ===== src/Edge/Streams.antt =====
-- What the three edges (crates/rustunnel-server/src/edge) share: the permits of a tunnel's
-- connection semaphore, its transfer meter and the wait for a data stream. A permit that is out is
-- one less on the semaphore, which all clones of the tunnel's info share.
pub mod Permits
pub mod Clean
use rustunnel.Prelude.{ℕ, ◌+◌, ◌-◌, Bool, Option, none, some, List, [], ◌∷◌, if◌then◌else◌, nat_beq}
use rustunnel.Core.Types.{Uuid, Instant, TunnelInfo, GroupMember}
use rustunnel.Core.Members.{add_transfer}
use rustunnel.Core.Router.{TunnelCore, TunnelKey}
use rustunnel.Core.Router.Health.{group_at, change_group, on_member, find_in}

-- How the wait for the data stream of a connection ends.
pub data StreamOutcome : Type 0 where
  opened : (stream : ℕ) → StreamOutcome
  dropped timed_out : StreamOutcome

-- What a connection takes from outside: the clock, the random pick, the id that it draws, the
-- channel that it makes, whether the session still listens, what the other tasks do to the state
-- while it waits for the stream and while it is served, and how the wait ends.
pub record Outside : Type 0 where
  pub now : Instant
  pub pick : ℕ
  pub conn_id : Uuid
  pub stream_tx : ℕ
  pub session_open : Bool
  pub waiting : TunnelCore → TunnelCore
  pub outcome : StreamOutcome
  pub serving : TunnelCore → TunnelCore

abbrev pub semaphore_of : Option GroupMember → Option ℕ
semaphore_of none = none
semaphore_of (some m) = some m.info.conn_semaphore

-- The permits that are left on the semaphore of a tunnel.
abbrev pub permits : TunnelKey → Uuid → TunnelCore → Option ℕ
permits k t c = semaphore_of (find_in t (group_at k c))

abbrev pub count_or : ℕ → Option ℕ → ℕ
count_or d none = d
count_or d (some n) = n

-- The same for a clone of a tunnel's info, which may outlive the tunnel.
abbrev pub available : TunnelKey → TunnelInfo → TunnelCore → ℕ
available k info c = count_or info.conn_semaphore (permits k info.tunnel_id c)

abbrev pub taken : GroupMember → GroupMember
taken m = record m { info = record m.info { conn_semaphore = m.info.conn_semaphore - 1 } }

abbrev pub given : GroupMember → GroupMember
given m = record m { info = record m.info { conn_semaphore = m.info.conn_semaphore + 1 } }

unfoldable pub take_permit : TunnelKey → Uuid → TunnelCore → TunnelCore
take_permit k t c = change_group k (on_member t taken) c

unfoldable pub give_permit : TunnelKey → Uuid → TunnelCore → TunnelCore
give_permit k t c = change_group k (on_member t given) c

-- Bytes added through the meter of a tunnel, which its clones share.
abbrev pub metered : ℕ → ℕ → GroupMember → GroupMember
metered inbound outbound m = record m { info = add_transfer inbound outbound m.info }

unfoldable pub meter_add : TunnelKey → Uuid → ℕ → ℕ → TunnelCore → TunnelCore
meter_add k t inbound outbound c = change_group k (on_member t (metered inbound outbound)) c
