-- ===== src/Metering/Grows.antt =====
-- What the statements on `tunnel_log` (db/metering.rs) do to a row, in whatever order they come.
use rustunnel.Prelude.{
  ℕ, ◌+◌, ◌≤◌, ◌≡◌, ◌∙◌, ap, Bool, true, false, Option, List, [], ◌∷◌, arith, Bool-cases, inl, inr,
}
use rustunnel.Core.Types.{Text, Instant}
use rustunnel.Core.Members.{LiveTunnelMeter}
use rustunnel.Core.Router.{TunnelCore}
use rustunnel.Core.Router.Dispatch.{live_tunnel_meters}
use rustunnel.Prelude.Branches.{on_some}
use rustunnel.Metering.{
  TunnelLogRow, Table, is_open, is_of, greatest, closing, update, all_in_range, execute,
  flush_tunnel_meters, log_tunnel_unregistered, stale_in, closed_at, close_stale_tunnels, flush_all,
  flush_live_meters, flush_and_close, close_all, flush_and_close_live_meters,
}

-- One row before and after: a closed row stays as it is, no counter falls, the tunnel and the region
-- are kept, and so is the sum of the two directions.
pub record RowGrows (a b : TunnelLogRow) : Type 0 where
  pub sealed : is_open a ≡ false → b ≡ a
  pub tunnel : b.tunnel_id ≡ a.tunnel_id
  pub region : b.region_id ≡ a.region_id
  pub requests : a.request_count ≤ b.request_count
  pub inbound : a.bytes_in ≤ b.bytes_in
  pub outbound : a.bytes_out ≤ b.bytes_out
  pub sums : a.bytes_proxied ≡ a.bytes_in + a.bytes_out → b.bytes_proxied ≡ b.bytes_in + b.bytes_out

-- The same rows, each grown.
pub data Grows : Table → Table → Type 0 where
  nil : Grows [] []
  cons : (a b : TunnelLogRow) (xs ys : Table) → RowGrows a b → Grows xs ys → Grows (a ∷ xs) (b ∷ ys)

row_stays : (a : TunnelLogRow) → RowGrows a a
row_stays a = ground arith

row_chain : (a b c : TunnelLogRow) → RowGrows a b → RowGrows b c → RowGrows a c
row_chain a b c p q = record {
  sealed = λ e. q.sealed (ap is_open (p.sealed e) ∙ e) ∙ p.sealed e;
  tunnel = q.tunnel ∙ p.tunnel;
  region = q.region ∙ p.region;
  requests = omega (arith, p.requests, q.requests);
  inbound = omega (arith, p.inbound, q.inbound);
  outbound = omega (arith, p.outbound, q.outbound);
  sums = λ e. q.sums (p.sums e);
}

pub stays-Grows : (rows : Table) → Grows rows rows
stays-Grows [] = nil
stays-Grows (a ∷ rows) = cons a a rows rows (row_stays a) (stays-Grows rows)

pub chain-Grows : {a b c : Table} → Grows a b → Grows b c → Grows a c
chain-Grows nil nil = nil
chain-Grows (cons a b xs ys p ps) (cons _ c _ zs q qs) =
    cons a c xs zs (row_chain a b c p q) (chain-Grows ps qs)

update-Grows :
    (test : TunnelLogRow → Bool) (write : TunnelLogRow → TunnelLogRow) (rows : Table)
    → ((row : TunnelLogRow) → test row ≡ true → RowGrows row (write row))
    → Grows rows (update test write rows)
unfolding update
update-Grows test write [] h = nil
update-Grows test write (row ∷ rows) h = elim (Bool-cases (test row)) [
  | inl e ↦ rw e (cons row (write row) rows _ (h row e) (update-Grows test write rows h))
  | inr e ↦ rw e (cons row row rows _ (row_stays row) (update-Grows test write rows h))
]

execute-Grows :
    (test : TunnelLogRow → Bool) (write : TunnelLogRow → TunnelLogRow) (rows : Table)
    → ((row : TunnelLogRow) → test row ≡ true → RowGrows row (write row))
    → Grows rows (execute test write rows).0
unfolding execute
execute-Grows test write rows h = elim (Bool-cases (all_in_range test write rows)) [
  | inl e ↦ rw e (update-Grows test write rows h)
  | inr e ↦ rw e (stays-Grows rows)
]

pub flush-Grows : (m : LiveTunnelMeter) (rows : Table) → Grows rows (flush_tunnel_meters m rows).0
unfolding flush_tunnel_meters greatest
flush-Grows m rows = execute-Grows (is_of m.tunnel_id) (greatest m) rows λ row e. ground arith

pub close-Grows :
    (m : LiveTunnelMeter) (now : Instant) (rows : Table)
    → Grows rows (log_tunnel_unregistered m now rows).0
unfolding log_tunnel_unregistered closing greatest
close-Grows m now rows =
    execute-Grows (is_of m.tunnel_id) (closing m now) rows λ row e. ground arith

close_stale-Grows :
    (region : Text) (now : Instant) (rows : Table)
    → Grows rows (close_stale_tunnels region now rows).0
unfolding close_stale_tunnels
close_stale-Grows region now rows =
    update-Grows (stale_in region) (closed_at now) rows λ row e. ground arith

flush_all-Grows : (ms : List LiveTunnelMeter) (rows : Table) → Grows rows (flush_all ms rows).0
unfolding flush_all
flush_all-Grows [] rows = stays-Grows rows
flush_all-Grows (m ∷ ms) rows =
    on_some (λ (r : Table × Option ℕ). Grows rows r.0) (flush_tunnel_meters m rows).1 _ _
      (λ e. flush-Grows m rows)
      λ k e. chain-Grows (flush-Grows m rows) (flush_all-Grows ms (flush_tunnel_meters m rows).0)

pub flush_and_close-Grows :
    (m : LiveTunnelMeter) (now : Instant) (rows : Table) → Grows rows (flush_and_close m now rows).0
unfolding flush_and_close
flush_and_close-Grows m now rows =
    on_some (λ (r : Table × Option ℕ). Grows rows r.0) (flush_tunnel_meters m rows).1 _ _
      (λ e. flush-Grows m rows)
      λ k e. chain-Grows (flush-Grows m rows) (close-Grows m now (flush_tunnel_meters m rows).0)

pub close_all-Grows :
    (ms : List LiveTunnelMeter) (now : Instant) (rows : Table)
    → Grows rows (close_all ms now rows).0
unfolding close_all
close_all-Grows [] now rows = stays-Grows rows
close_all-Grows (m ∷ ms) now rows =
    on_some (λ (r : Table × Option ℕ). Grows rows r.0) (flush_and_close m now rows).1 _ _
      (λ e. flush_and_close-Grows m now rows)
      λ k e.
        chain-Grows (flush_and_close-Grows m now rows)
          (close_all-Grows ms now (flush_and_close m now rows).0)

-- What the sessions, the periodic flush, the start and the shutdown write.
pub data Write : Type 0 where
  flush : LiveTunnelMeter → Write
  close : LiveTunnelMeter → Instant → Write
  close_stale : (region : Text) → Instant → Write
  flush_live : TunnelCore → Write
  shut_down : TunnelCore → Instant → Write

unfoldable pub write_one : Write → Table → Table
write_one (flush m) rows = (flush_tunnel_meters m rows).0
write_one (close m now) rows = (log_tunnel_unregistered m now rows).0
write_one (close_stale region now) rows = (close_stale_tunnels region now rows).0
write_one (flush_live c) rows = (flush_live_meters c rows).0
write_one (shut_down c now) rows = (flush_and_close_live_meters c now rows).0

unfoldable pub write_all : List Write → Table → Table
unfolding write_one
write_all [] rows = rows
write_all (w ∷ ws) rows = write_all ws (write_one w rows)

write_one-Grows : (w : Write) (rows : Table) → Grows rows (write_one w rows)
unfolding write_one flush_live_meters flush_and_close_live_meters
write_one-Grows (flush m) rows = flush-Grows m rows
write_one-Grows (close m now) rows = close-Grows m now rows
write_one-Grows (close_stale region now) rows = close_stale-Grows region now rows
write_one-Grows (flush_live c) rows = flush_all-Grows (live_tunnel_meters c) rows
write_one-Grows (shut_down c now) rows = close_all-Grows (live_tunnel_meters c) now rows

-- Whatever the sessions, the periodic flush, the start and the shutdown write to tunnel_log, in
-- whatever order, each row keeps its tunnel and its region, no counter of it falls, a row that is
-- closed stays as it is, and where the proxied bytes were the sum of both directions they still
-- are.
pub write_all-Grows : (ws : List Write) (rows : Table) → Grows rows (write_all ws rows)
unfolding write_all
write_all-Grows [] rows = stays-Grows rows
write_all-Grows (w ∷ ws) rows =
    chain-Grows (write_one-Grows w rows) (write_all-Grows ws (write_one w rows))
