-- ===== src/Core/Members/Transfer.antt =====
-- Transfer counters of a tunnel (core/tunnel.rs).
use rustunnel.Prelude.{ℕ, ◌+◌, ◌<◌, ◌≡◌, List, [], ◌∷◌, arith}
use rustunnel.Core.Types.{TunnelInfo}
use rustunnel.Core.Members.{u64_mod, add_transfer, bytes_proxied, meter_snapshot}

-- The transfers that one tunnel's proxy tasks report, in the order in which they are added.
unfoldable pub add_transfers : List (ℕ × ℕ) → TunnelInfo → TunnelInfo
add_transfers [] t = t
add_transfers ((inbound, outbound) ∷ ts) t = add_transfers ts (add_transfer inbound outbound t)

unfoldable pub total_in : List (ℕ × ℕ) → ℕ
total_in [] = 0
total_in ((inbound, outbound) ∷ ts) = inbound + total_in ts

unfoldable pub total_out : List (ℕ × ℕ) → ℕ
total_out [] = 0
total_out ((inbound, outbound) ∷ ts) = outbound + total_out ts

add_transfer-exact :
    (i o : ℕ) (t : TunnelInfo)
    → t.bytes_proxied ≡ t.bytes_in + t.bytes_out
    → t.bytes_in + t.bytes_out + (i + o) < u64_mod
    → ((add_transfer i o t).bytes_in ≡ t.bytes_in + i)
      × ((add_transfer i o t).bytes_out ≡ t.bytes_out + o)
      × ((add_transfer i o t).bytes_proxied ≡ t.bytes_in + i + (t.bytes_out + o))
unfolding add_transfer
add_transfer-exact i o t h b = ground arith

-- For a tunnel whose combined counter is the sum of the two directions, as long as the sum with
-- all transfers stays below 2 ^ 64 the two directional counters are exact and the combined counter
-- is still their sum, as the snapshot gives it.
pub add_transfers-exact :
    (ts : List (ℕ × ℕ)) (t : TunnelInfo)
    → t.bytes_proxied ≡ t.bytes_in + t.bytes_out
    → t.bytes_in + t.bytes_out + (total_in ts + total_out ts) < u64_mod
    → ((add_transfers ts t).bytes_in ≡ t.bytes_in + total_in ts)
      × ((add_transfers ts t).bytes_out ≡ t.bytes_out + total_out ts)
      × ((add_transfers ts t).bytes_proxied ≡ bytes_proxied (meter_snapshot (add_transfers ts t)))
unfolding add_transfers total_in total_out bytes_proxied meter_snapshot
add_transfers-exact [] t h b = ground arith
add_transfers-exact ((i, o) ∷ ts) t h b =
    ground (arith, add_transfer-exact i o t, add_transfers-exact ts (add_transfer i o t))
