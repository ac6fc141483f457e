-- ===== src/Edge/Udp.antt =====
-- crates/rustunnel-server/src/edge/udp.rs: the datagrams of a UDP tunnel in its data stream, each
-- after its length in four bytes.
pub mod Framing
pub mod Whole
pub mod Session
pub mod Ports
pub mod Clean
pub mod Delivers
use rustunnel.Prelude.{
  ℕ, zero, suc, ◌+◌, ◌*◌, ◌/◌, ◌%◌, ◌^◌, Bool, true, false, List, [], ◌∷◌, ◌++◌, if◌then◌else◌, ltb,
  length, take, drop,
}
use rustunnel.Core.Types.{Text}
use rustunnel.Core.Members.{u64_mod}

abbrev pub max_datagram_size : ℕ
max_datagram_size = 65535

-- `u32::to_be_bytes`
unfoldable pub to_be_bytes : ℕ → Text
to_be_bytes n = n / 16_777_216 % 256 ∷ (n / 65_536 % 256) ∷ (n / 256 % 256) ∷ (n % 256) ∷ []

-- What is written for one datagram; `data.len() as u32`.
unfoldable pub frame : Text → Text
unfolding to_be_bytes
frame datagram = to_be_bytes (length datagram % 2 ^ 32) ++ datagram

-- A read of one frame from the bytes that are there: the datagram and the bytes after it, too few
-- bytes, or a length over the limit.
pub data Read : Type 0 where
  datagram : (payload rest : Text) → Read
  short too_large : Read

abbrev payload_of : ℕ → Text → Read
payload_of len s =
    if ltb max_datagram_size len
    then too_large
    else if ltb (length s) len
    then short
    else datagram (take len s) (drop len s)

unfoldable pub read_framed_datagram : Text → Read
read_framed_datagram (a ∷ b ∷ c ∷ d ∷ s) = payload_of (a * 16_777_216 + b * 65_536 + c * 256 + d) s
read_framed_datagram (a ∷ b ∷ c ∷ []) = short
read_framed_datagram (a ∷ b ∷ []) = short
read_framed_datagram (a ∷ []) = short
read_framed_datagram [] = short

-- How the reads of the bytes that are there end: the next read has taken what is left and waits, or
-- a read has failed.
pub data Ended : Type 0 where
  waits : (taken : Text) → Ended
  fails : Ended

abbrev cons_read : Text → List Text × Ended → List Text × Ended
cons_read d (ds, e) = (d ∷ ds, e)

-- Reads, one after another, as long as a whole frame is there.
unfoldable pub read_all : ℕ → Text → List Text × Ended
unfolding read_framed_datagram
read_all zero s = ([], waits s)
read_all (suc fuel) s = elim (read_framed_datagram s) [
  | datagram payload rest ↦ cons_read payload (read_all fuel rest)
  | short ↦ ([], waits s)
  | too_large ↦ ([], fails)
]

-- Each frame has four bytes at least.
unfoldable pub read_frames : Text → List Text × Ended
unfolding read_all
read_frames s = read_all (suc (length s)) s

-- A turn of the loop's `select!`: a datagram from the public socket and whether it could be written,
-- bytes on the stream, silence, or the end of a channel or of the stream.
pub data Turn : Type 0 where
  inbound : (datagram : Text) (written : Bool) → Turn
  arrived : (bytes : Text) → Turn
  idle closed : Turn

-- The loop's state: the bytes that the read under way has taken, what went to the stream and to the
-- peer, and the counters; it is over once `running` is false.
pub record Bridge : Type 0 where
  pub partial : Text
  pub to_stream : Text
  pub to_peer : List Text
  pub bytes_in : ℕ
  pub bytes_out : ℕ
  pub running : Bool

abbrev pub new_bridge : Bridge
new_bridge = record {
  partial = [];
  to_stream = [];
  to_peer = [];
  bytes_in = 0;
  bytes_out = 0;
  running = true;
}

-- The datagrams go to the peer one by one; the loop ends at one that cannot be sent.
unfoldable pub send_all : (Text → Bool) → List Text → Bridge → Bridge
send_all sendable [] b = b
send_all sendable (d ∷ ds) b = elim (sendable d) [
  | true ↦
      send_all sendable ds
        (record b { to_peer = b.to_peer ++ d ∷ []; bytes_out = (b.bytes_out + length d) % u64_mod })
  | false ↦ record b { running = false }
]

abbrev pub after_reads : Ended → Bridge → Bridge
after_reads (waits taken) b = record b { partial = taken }
after_reads fails b = record b { partial = []; running = false }

abbrev pub received : (Text → Bool) → List Text × Ended → Bridge → Bridge
received sendable (ds, e) b = after_reads e (send_all sendable ds b)

-- The branch that is taken drops the read that the other branch has under way.
unfoldable pub on_turn : (Text → Bool) → Turn → Bridge → Bridge
unfolding frame read_frames send_all
on_turn sendable (inbound d true) b = record b {
  partial = [];
  to_stream = b.to_stream ++ frame d;
  bytes_in = (b.bytes_in + length d) % u64_mod;
}
on_turn sendable (inbound d false) b = record b { partial = []; running = false }
on_turn sendable (arrived bytes) b = received sendable (read_frames (b.partial ++ bytes)) b
on_turn sendable idle b = record b { partial = []; running = false }
on_turn sendable closed b = record b { partial = []; running = false }

unfoldable pub bridge : (Text → Bool) → List Turn → Bridge → Bridge
unfolding on_turn
bridge sendable [] b = b
bridge sendable (t ∷ ts) b = bridge sendable ts (if b.running then on_turn sendable t b else b)
