-- ===== src/Metering/Closes.antt =====
-- What a shutdown and a late flush leave in `tunnel_log` (db/metering.rs).
use rustunnel.Prelude.{
  ℕ, suc, ◌≡◌, false, Option, some, List, [], ◌∷◌, arith, Bool-cases, Option-cases, inl, inr,
  length,
}
use rustunnel.Core.Types.{Uuid, Instant}
use rustunnel.Core.Members.{LiveTunnelMeter}
use rustunnel.Core.Router.{TunnelCore}
use rustunnel.Core.Router.Dispatch.{live_tunnel_meters}
use rustunnel.Prelude.Branches.{on_some}
use rustunnel.Metering.{
  Table, is_of, greatest, closing, update, all_in_range, execute, flush_tunnel_meters,
  log_tunnel_unregistered, flush_and_close, close_all, flush_and_close_live_meters,
}
use rustunnel.Metering.Grows.{Grows, nil, cons, close_all-Grows}

-- No open row is left of a tunnel.
abbrev pub IsClosed : Uuid → Table → Type 0
IsClosed id [] = Unit
IsClosed id (row ∷ rows) = (is_of id row ≡ false) × IsClosed id rows

abbrev pub AllClosed : List LiveTunnelMeter → Table → Type 0
AllClosed [] rows = Unit
AllClosed (m ∷ ms) rows = IsClosed m.tunnel_id rows × AllClosed ms rows

grown_rows-IsClosed :
    (id : Uuid) {rows rows' : Table} → Grows rows rows' → IsClosed id rows → IsClosed id rows'
grown_rows-IsClosed id nil h = h
grown_rows-IsClosed id (cons a b xs ys g gs) (e, h) =
    (ground (arith, g.sealed, g.tunnel), grown_rows-IsClosed id gs h)

update-IsClosed :
    (m : LiveTunnelMeter) (now : Instant) (rows : Table)
    → IsClosed m.tunnel_id (update (is_of m.tunnel_id) (closing m now) rows)
unfolding update closing greatest
update-IsClosed m now [] = tt
update-IsClosed m now (row ∷ rows) = (ground arith, update-IsClosed m now rows)

log_tunnel_unregistered-IsClosed :
    (m : LiveTunnelMeter) (now : Instant) (rows : Table) {n : ℕ}
    → (log_tunnel_unregistered m now rows).1 ≡ some n
    → IsClosed m.tunnel_id (log_tunnel_unregistered m now rows).0
unfolding log_tunnel_unregistered execute
log_tunnel_unregistered-IsClosed m now rows e =
    elim (Bool-cases (all_in_range (is_of m.tunnel_id) (closing m now) rows)) [
      | inl t ↦ rw t (update-IsClosed m now rows)
      | inr t ↦ absurd (ground arith)
    ]

-- What holds if a statement has not failed.
abbrev IfDone : (Table → ℕ → Type 0) → Table × Option ℕ → Type 0
IfDone P r = (n : ℕ) → r.1 ≡ some n → P r.0 n

flush_and_close-IsClosed :
    (m : LiveTunnelMeter) (now : Instant) (rows : Table)
    → IfDone (λ t n. IsClosed m.tunnel_id t) (flush_and_close m now rows)
unfolding flush_and_close
flush_and_close-IsClosed m now rows =
    on_some (IfDone (λ t n. IsClosed m.tunnel_id t)) (flush_tunnel_meters m rows).1 _ _
      (λ none_done n e. cc)
      λ k flushed n e. log_tunnel_unregistered-IsClosed m now (flush_tunnel_meters m rows).0 e

close_all-AllClosed :
    (ms : List LiveTunnelMeter) (now : Instant) (rows : Table)
    → IfDone (λ t n. AllClosed ms t × (n ≡ length ms)) (close_all ms now rows)
unfolding close_all
close_all-AllClosed [] now rows = λ n e. (tt, ground arith)
close_all-AllClosed (m ∷ ms) now rows =
    let first = flush_and_close m now rows in
    on_some (IfDone (λ t n. AllClosed (m ∷ ms) t × (n ≡ suc (length ms)))) first.1 _ _
      (λ none_done n e. cc)
      λ k done n e. elim (Option-cases (close_all ms now first.0).1) [
        | inl failed ↦ absurd (ground arith)
        | inr (rest, er) ↦
            let (closed, count) = close_all-AllClosed ms now first.0 rest er in
            (
              (
                grown_rows-IsClosed m.tunnel_id (close_all-Grows ms now first.0)
                    (flush_and_close-IsClosed m now rows k done),
                closed,
              ),
              ground arith,
            )
      ]

-- If no statement of the shutdown's flush has failed, it has closed every open row of every tunnel
-- of the server, and reports their number.
pub flush_and_close_live_meters-AllClosed :
    (c : TunnelCore) (now : Instant) (rows : Table) {n : ℕ}
    → (flush_and_close_live_meters c now rows).1 ≡ some n
    → AllClosed (live_tunnel_meters c) (flush_and_close_live_meters c now rows).0
      × (n ≡ length (live_tunnel_meters c))
unfolding flush_and_close_live_meters
flush_and_close_live_meters-AllClosed c now rows {n} e =
    close_all-AllClosed (live_tunnel_meters c) now rows n e
