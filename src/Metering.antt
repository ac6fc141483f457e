-- ===== src/Metering.antt =====
-- crates/rustunnel-server/src/db/metering.rs and `log_tunnel_registered` of db/mod.rs: the counters
-- of tunnels in the table `tunnel_log`. A statement is a function on the table's rows; its clock is an
-- argument. The counters of a row are BIGINT columns, which are never negative here.
pub mod Grows
pub mod Closes
pub mod Swap
use rustunnel.Prelude.{
  ℕ, ◌+◌, ◌-◌, ◌^◌, min, max, Bool, true, false, not, ◌&&◌, Option, none, some, List, [], ◌∷◌, ◌++◌,
  if◌then◌else◌, ltb, nat_beq, is_some,
}
use rustunnel.Prelude.Eq.{◌==◌, list_eq, option_eq, nat_eq}
use rustunnel.Core.Types.{Text, Uuid, Instant}
use rustunnel.Core.Members.{LiveTunnelMeter}
use rustunnel.Core.Router.{TunnelCore}
use rustunnel.Core.Router.Dispatch.{live_tunnel_meters}

-- The columns that the statements read and write.
pub record TunnelLogRow : Type 0 where
  pub tunnel_id : Uuid
  pub region_id : Option Text
  pub unregistered_at : Option Instant
  pub request_count : ℕ
  pub bytes_in : ℕ
  pub bytes_out : ℕ
  pub bytes_proxied : ℕ

abbrev pub Table : Type 0
Table = List TunnelLogRow

abbrev pub i64_max : ℕ
i64_max = 2 ^ 63 - 1

unfoldable pub as_i64 : ℕ → ℕ
as_i64 v = min v i64_max

unfoldable pub new_row : Uuid → Text → TunnelLogRow
new_row tunnel_id region_id = record {
  tunnel_id = tunnel_id;
  region_id = some region_id;
  unregistered_at = none;
  request_count = 0;
  bytes_in = 0;
  bytes_out = 0;
  bytes_proxied = 0;
}

-- The insertion of a row when a tunnel is registered.
unfoldable pub log_tunnel_registered : Uuid → Text → Table → Table
unfolding new_row
log_tunnel_registered tunnel_id region_id rows = rows ++ new_row tunnel_id region_id ∷ []

abbrev pub is_open : TunnelLogRow → Bool
is_open row = not (is_some row.unregistered_at)

abbrev pub is_of : Uuid → TunnelLogRow → Bool
is_of tunnel_id row = nat_beq row.tunnel_id tunnel_id && is_open row

-- The columns after `GREATEST` with a snapshot.
unfoldable pub greatest : LiveTunnelMeter → TunnelLogRow → TunnelLogRow
unfolding as_i64
greatest m row = record row {
  request_count = max row.request_count (as_i64 m.request_count);
  bytes_in = max row.bytes_in (as_i64 m.bytes_in);
  bytes_out = max row.bytes_out (as_i64 m.bytes_out);
  bytes_proxied = max row.bytes_in (as_i64 m.bytes_in) + max row.bytes_out (as_i64 m.bytes_out);
}

unfoldable pub closing : LiveTunnelMeter → Instant → TunnelLogRow → TunnelLogRow
unfolding greatest
closing m now row = record (greatest m row) { unregistered_at = some now }

-- A sum over the range of BIGINT makes the statement fail.
abbrev pub in_range : TunnelLogRow → Bool
in_range row = not (ltb i64_max row.bytes_proxied)

-- `UPDATE ... SET ... WHERE`, without the check of the range, and the number of rows it is on.
unfoldable pub update : (TunnelLogRow → Bool) → (TunnelLogRow → TunnelLogRow) → Table → Table
update test write [] = []
update test write (row ∷ rows) =
    let rest = update test write rows in (if test row then write row else row) ∷ rest

unfoldable pub affected : (TunnelLogRow → Bool) → Table → ℕ
affected test [] = 0
affected test (row ∷ rows) = let n = affected test rows in if test row then n + 1 else n

unfoldable pub all_in_range : (TunnelLogRow → Bool) → (TunnelLogRow → TunnelLogRow) → Table → Bool
all_in_range test write [] = true
all_in_range test write (row ∷ rows) =
    (if test row then in_range (write row) else true) && all_in_range test write rows

-- The table after a statement, and the number of rows, or none if it has failed, which leaves the
-- table as it was.
unfoldable pub execute :
    (TunnelLogRow → Bool) → (TunnelLogRow → TunnelLogRow) → Table → Table × Option ℕ
unfolding update affected all_in_range
execute test write rows =
    if all_in_range test write rows
    then (update test write rows, some (affected test rows))
    else (rows, none)

unfoldable pub flush_tunnel_meters : LiveTunnelMeter → Table → Table × Option ℕ
unfolding execute
flush_tunnel_meters m rows = execute (is_of m.tunnel_id) (greatest m) rows

unfoldable pub log_tunnel_unregistered : LiveTunnelMeter → Instant → Table → Table × Option ℕ
unfolding execute
log_tunnel_unregistered m now rows = execute (is_of m.tunnel_id) (closing m now) rows

abbrev pub stale_in : Text → TunnelLogRow → Bool
stale_in region row = is_open row && row.region_id == some region

abbrev pub closed_at : Instant → TunnelLogRow → TunnelLogRow
closed_at now row = record row { unregistered_at = some now }

unfoldable pub close_stale_tunnels : Text → Instant → Table → Table × Option ℕ
unfolding update affected
close_stale_tunnels region now rows =
    (update (stale_in region) (closed_at now) rows, some (affected (stale_in region) rows))

abbrev add_rows : Option ℕ → Option ℕ → Option ℕ
add_rows none n = none
add_rows (some m) none = none
add_rows (some m) (some n) = some (m + n)

-- The loop ends at the first statement that fails; what was written before stays.
unfoldable pub flush_all : List LiveTunnelMeter → Table → Table × Option ℕ
flush_all [] rows = (rows, some 0)
flush_all (m ∷ ms) rows =
    let (rows', n) = flush_tunnel_meters m rows in
    elim n [
      | none ↦ (rows', none)
      | some k ↦ let (rows'', total) = flush_all ms rows' in (rows'', add_rows (some k) total)
    ]

unfoldable pub flush_live_meters : TunnelCore → Table → Table × Option ℕ
unfolding flush_all
flush_live_meters c rows = flush_all (live_tunnel_meters c) rows

-- The flush and the close of one tunnel.
unfoldable pub flush_and_close : LiveTunnelMeter → Instant → Table → Table × Option ℕ
unfolding log_tunnel_unregistered
flush_and_close m now rows =
    let (rows', flushed) = flush_tunnel_meters m rows in
    elim flushed [ none ↦ (rows', none) | some k ↦ log_tunnel_unregistered m now rows' ]

unfoldable pub close_all : List LiveTunnelMeter → Instant → Table → Table × Option ℕ
unfolding flush_and_close
close_all [] now rows = (rows, some 0)
close_all (m ∷ ms) now rows =
    let (rows', n) = flush_and_close m now rows in
    elim n [
      | none ↦ (rows', none)
      | some k ↦ let (rows'', total) = close_all ms now rows' in (rows'', add_rows (some 1) total)
    ]

unfoldable pub flush_and_close_live_meters : TunnelCore → Instant → Table → Table × Option ℕ
unfolding close_all
flush_and_close_live_meters c now rows = close_all (live_tunnel_meters c) now rows
