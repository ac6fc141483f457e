-- ===== src/Edge/Udp/Framing.antt =====
-- The framing of datagrams (edge/udp.rs): what is written is read back, however the stream is cut.
pub mod Reads
use rustunnel.Prelude.{
  ℕ, zero, suc, ◌+◌, ◌*◌, ◌/◌, ◌%◌, ◌^◌, ◌≤◌, ◌<◌, ◌≡◌, refl, ap, sym, ◌∙◌, Bool, true, false, List,
  [], ◌∷◌, ◌++◌, arith, ltb, length, length-append, take, drop, take-length, drop-length,
  if◌then◌else◌, Bool-cases, inl, inr,
}
use mathlib.Core.List.{append_assoc}
use rustunnel.Core.Types.{Text}
use rustunnel.Edge.Udp.{
  max_datagram_size, to_be_bytes, frame, Read, datagram, short, too_large, payload_of,
  read_framed_datagram,
}

be_value :
    (n : ℕ)
    → n < 2 ^ 32
    → n / 16_777_216 % 256 * 16_777_216 + n / 65_536 % 256 * 65_536 + n / 256 % 256 * 256 + n % 256
      ≡ n
be_value n h = omega arith

payload_of-append :
    (s rest : Text)
    → length s ≤ max_datagram_size
    → payload_of (length s) (s ++ rest) ≡ datagram s rest
payload_of-append s rest h =
    ground (arith, length-append s rest, take-length s rest, drop-length s rest)

-- A frame is read back, and what follows it is left.
pub read-frame :
    (d rest : Text)
    → length d ≤ max_datagram_size
    → read_framed_datagram (frame d ++ rest) ≡ datagram d rest
unfolding frame read_framed_datagram to_be_bytes
read-frame d rest h =
    let small : length d % 2 ^ 32 ≡ length d = omega arith in
    rw (small, be_value (length d) (omega arith)) (payload_of-append d rest h)
