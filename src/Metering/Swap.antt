-- ===== src/Metering/Swap.antt =====
-- Snapshots of counters can be flushed to `tunnel_log` (db/metering.rs) in any order.
use rustunnel.Prelude.{
  ℕ, ◌^◌, ◌<◌, ◌≡◌, refl, ap, Bool, true, false, [], ◌∷◌, if◌then◌else◌, arith, Bool-cases, inl,
  inr,
}
use rustunnel.Core.Types.{Uuid}
use rustunnel.Core.Members.{LiveTunnelMeter}
use rustunnel.Metering.{
  TunnelLogRow, Table, as_i64, is_of, greatest, update, all_in_range, execute, flush_tunnel_meters,
}

-- Byte counts so small that no sum of two leaves BIGINT.
abbrev pub small : ℕ
small = 2 ^ 62

abbrev pub IsSmall : LiveTunnelMeter → Type 0
IsSmall m = (m.bytes_in < small) × (m.bytes_out < small)

abbrev pub AllSmall : Table → Type 0
AllSmall [] = Unit
AllSmall (row ∷ rows) = (row.bytes_in < small) × (row.bytes_out < small) × AllSmall rows

small-in_range :
    (m : LiveTunnelMeter) (id : Uuid) (rows : Table)
    → IsSmall m
    → AllSmall rows
    → all_in_range (is_of id) (greatest m) rows ≡ true
unfolding all_in_range greatest as_i64
small-in_range m id [] s h = refl
small-in_range m id (row ∷ rows) s (i, o, h) =
    rw (small-in_range m id rows s h)
      (elim (Bool-cases (is_of id row)) [ inl e ↦ rw e (ground arith) | inr e ↦ rw e refl ])

updated-AllSmall :
    (m : LiveTunnelMeter) (id : Uuid) (rows : Table)
    → IsSmall m
    → AllSmall rows
    → AllSmall (update (is_of id) (greatest m) rows)
unfolding update greatest as_i64
updated-AllSmall m id [] s h = tt
updated-AllSmall m id (row ∷ rows) s (i, o, h) = elim (Bool-cases (is_of id row)) [
  | inl e ↦ rw e (ground arith, ground arith, updated-AllSmall m id rows s h)
  | inr e ↦ rw e (i, o, updated-AllSmall m id rows s h)
]

flush_small :
    (m : LiveTunnelMeter) (rows : Table)
    → IsSmall m
    → AllSmall rows
    → (flush_tunnel_meters m rows).0 ≡ update (is_of m.tunnel_id) (greatest m) rows
unfolding flush_tunnel_meters execute
flush_small m rows s h = rw (small-in_range m m.tunnel_id rows s h) refl

greatest_swap :
    (m m' : LiveTunnelMeter) (row : TunnelLogRow)
    → greatest m (greatest m' row) ≡ greatest m' (greatest m row)
unfolding greatest as_i64
greatest_swap m m' row = ground arith

write_swap :
    (m m' : LiveTunnelMeter) (row : TunnelLogRow) (b b' : Bool)
    → (if b
        then greatest m (if b' then greatest m' row else row)
        else (if b' then greatest m' row else row))
      ≡ (if b'
          then greatest m' (if b then greatest m row else row)
          else (if b then greatest m row else row))
write_swap m m' row true true = greatest_swap m m' row
write_swap m m' row true false = refl
write_swap m m' row false true = refl
write_swap m m' row false false = refl

-- A write of the counters leaves the tests as they were.
same_test :
    (m : LiveTunnelMeter) (id : Uuid) (row : TunnelLogRow) (b : Bool)
    → is_of id (if b then greatest m row else row) ≡ is_of id row
unfolding greatest
same_test m id row true = refl
same_test m id row false = refl

updated_swap :
    (m m' : LiveTunnelMeter) (i j : Uuid) (rows : Table)
    → update (is_of i) (greatest m) (update (is_of j) (greatest m') rows)
      ≡ update (is_of j) (greatest m') (update (is_of i) (greatest m) rows)
unfolding update
updated_swap m m' i j [] = refl
updated_swap m m' i j (row ∷ rows) =
    rw
      (
        same_test m' i row (is_of j row),
        same_test m j row (is_of i row),
        updated_swap m m' i j rows,
      )
      (ap
        (λ (r : TunnelLogRow).
          r ∷ update (is_of j) (greatest m') (update (is_of i) (greatest m) rows))
        (write_swap m m' row (is_of i row) (is_of j row)))

-- Two snapshots of counters, of one tunnel or of two, leave the same table in whichever order they
-- are flushed, if every byte count is below 2 ^ 62.
pub flush_swap :
    (m m' : LiveTunnelMeter) (rows : Table)
    → IsSmall m
    → IsSmall m'
    → AllSmall rows
    → (flush_tunnel_meters m (flush_tunnel_meters m' rows).0).0
      ≡ (flush_tunnel_meters m' (flush_tunnel_meters m rows).0).0
flush_swap m m' rows s s' h =
    rw
      (
        flush_small m rows s h,
        flush_small m' rows s' h,
        flush_small m (update (is_of m'.tunnel_id) (greatest m') rows) s
            (updated-AllSmall m' m'.tunnel_id rows s' h),
        flush_small m' (update (is_of m.tunnel_id) (greatest m) rows) s'
            (updated-AllSmall m m.tunnel_id rows s h),
      )
      (updated_swap m m' m.tunnel_id m'.tunnel_id rows)
