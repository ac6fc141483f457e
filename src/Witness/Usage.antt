-- ===== src/Witness/Usage.antt =====
-- The theorems on the counters, on the reconnection and on STUN at concrete rows, rounds and bytes.
use rustunnel.Prelude.{◌≡◌, refl, ◌*◌, false, none, some, [], ◌∷◌, List, arith, codes, length}
use rustunnel.Prelude.Eq.{nat_eq}
use rustunnel.Prelude.Map.{get, insert, modify, remove}
use rustunnel.Core.Types.{Text}
use rustunnel.Core.Router.{
  new, register_session, port_range, port_stack, udp_port_range, check_session_limit,
  add_tunnel_to_session,
}
use rustunnel.Core.Router.Register.{open_tcp, index_tunnel, register_tcp_solo, register_tcp_tunnel}
use rustunnel.Core.Router.Dispatch.{live_tunnel_meters, route_meters, publisher_meters}
use rustunnel.Core.Members.{LiveTunnelMeter, new_session, new_solo, new_info, meter_snapshot}
use rustunnel.Metering.{
  Table, as_i64, greatest, closing, update, affected, all_in_range, execute, flush_tunnel_meters,
  log_tunnel_unregistered, flush_and_close, close_all, flush_and_close_live_meters,
  log_tunnel_registered, new_row,
}
use rustunnel.Metering.Grows.{Write, flush, close, close_stale, write_all, Grows, write_all-Grows}
use rustunnel.Metering.Closes.{AllClosed, flush_and_close_live_meters-AllClosed}
use rustunnel.Metering.Swap.{flush_swap}
use rustunnel.Client.Reconnect.{connection, auth, Round, second, run_with_reconnect, new_retry}
use rustunnel.Client.Reconnect.Delays.{IsJitter, IsRising, run_with_reconnect-IsRising}
use rustunnel.Client.Stun.{found, parse_response}
use rustunnel.Client.Stun.Mapped.{
  Endpoint, answer, addr_of, Ends, parse_response-answer, parse_response-Ends,
}
use rustunnel.Client.Stun.{probe_nat}
use rustunnel.Client.Stun.Kinds.{Fits, probe_nat-Fits}
use rustunnel.Witness.States.{with_tcp, client}

-- Two open rows, of the tunnels 2 and 3.
abbrev rows : Table
rows = log_tunnel_registered 3 (codes "eu") (log_tunnel_registered 2 (codes "eu") [])

abbrev newer : LiveTunnelMeter
newer = record { tunnel_id = 2; request_count = 5; bytes_in = 100; bytes_out = 40 }

abbrev older : LiveTunnelMeter
older = record { tunnel_id = 2; request_count = 3; bytes_in = 90; bytes_out = 40 }

-- The last flush comes after the close.
abbrev writes : List Write
writes = flush older ∷ close newer 50 ∷ flush older ∷ close_stale (codes "eu") 60 ∷ []

write_all-Grows_example : Grows rows (write_all writes rows)
write_all-Grows_example = write_all-Grows writes rows

closed_one : (flush_and_close_live_meters with_tcp 50 rows).1 ≡ some 1
unfolding flush_and_close_live_meters close_all flush_and_close flush_tunnel_meters
    log_tunnel_unregistered execute update affected all_in_range greatest closing as_i64
    live_tunnel_meters route_meters publisher_meters log_tunnel_registered new_row get insert modify
    remove new port_range udp_port_range port_stack register_session check_session_limit
    register_tcp_tunnel register_tcp_solo open_tcp index_tunnel add_tunnel_to_session new_session
    new_solo new_info meter_snapshot
closed_one = refl

flush_and_close_live_meters-AllClosed_example :
    AllClosed (live_tunnel_meters with_tcp) (flush_and_close_live_meters with_tcp 50 rows).0
    × (1 ≡ length (live_tunnel_meters with_tcp))
flush_and_close_live_meters-AllClosed_example =
    flush_and_close_live_meters-AllClosed with_tcp 50 rows closed_one

flush_swap_example :
    (flush_tunnel_meters newer (flush_tunnel_meters older rows).0).0
    ≡ (flush_tunnel_meters older (flush_tunnel_meters newer rows).0).0
unfolding log_tunnel_registered new_row
flush_swap_example =
    flush_swap newer older rows (omega arith, omega arith) (omega arith, omega arith)
      (omega arith, omega arith, (omega arith, omega arith, tt))

abbrev refused : Round
refused = record {
  shutdown_requested = false;
  shutdown_in_wait = false;
  jitter_factor = 1_100_000;
  outcome = some (connection (codes "refused"));
}

abbrev rejected : Round
rejected = record refused { outcome = some (auth (codes "revoked")) }

run_with_reconnect-IsRising_example :
    IsRising (1 * second) (run_with_reconnect (refused ∷ refused ∷ rejected ∷ []) new_retry).0
run_with_reconnect-IsRising_example =
    run_with_reconnect-IsRising (refused ∷ refused ∷ rejected ∷ []) new_retry
      (jitter, (jitter, (jitter, tt))) (omega arith)
  where
    jitter : IsJitter 1_100_000
    jitter = (omega arith, omega arith)

abbrev asked : Text
asked = 1 ∷ 2 ∷ 3 ∷ 4 ∷ 5 ∷ 6 ∷ 7 ∷ 8 ∷ 9 ∷ 10 ∷ 11 ∷ 12 ∷ []

abbrev home : Endpoint
home = record { a = 203; b = 0; c = 113; d = 9; p = 200; q = 7 }

parse_response-answer_example :
    parse_response asked (answer asked home) ≡ some (found (some (addr_of home)))
parse_response-answer_example =
    parse_response-answer asked home refl
      (omega arith, omega arith, omega arith, omega arith, omega arith, omega arith)

-- A response without attributes.
parse_response-Ends_example :
    Ends (parse_response asked (1 ∷ 1 ∷ 0 ∷ 0 ∷ 33 ∷ 18 ∷ 164 ∷ 66 ∷ asked))
parse_response-Ends_example =
    parse_response-Ends asked (1 ∷ 1 ∷ 0 ∷ 0 ∷ 33 ∷ 18 ∷ 164 ∷ 66 ∷ asked) (omega arith)

-- Both servers see the client at its own address.
probe_nat-Fits_example : Fits (probe_nat (some client) none (λ server. some client) [])
probe_nat-Fits_example = probe_nat-Fits (some client) none (λ server. some client) []
