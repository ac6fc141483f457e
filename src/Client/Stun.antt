-- ===== src/Client/Stun.antt =====
-- crates/rustunnel-client/src/stun.rs: the request to a STUN server, the reading of its response and
-- the kind of NAT that two responses show. What a server answers is an argument.
pub mod Kinds
pub mod Mapped
use rustunnel.Prelude.{
  ℕ, zero, suc, ◌+◌, ◌-◌, ◌*◌, ◌/◌, ◌%◌, ◌^◌, min, Bool, true, false, not, ◌&&◌, ◌||◌, Option, none,
  some, List, [], ◌∷◌, ◌++◌, if◌then◌else◌, leb, ltb, nat_beq, length, take, drop, contains, codes,
}
use Prim.Native.Nat.{bit_xor}
use rustunnel.Prelude.Eq.{◌==◌, list_eq, nat_eq, option_eq}
use rustunnel.Core.Types.{Text, IpAddr, v4, v6, ip_eq, SocketAddr}
use rustunnel.Edge.Udp.Ports.{addr_eq}

-- 0x2112A442
abbrev pub magic_cookie : Text
magic_cookie = 33 ∷ 18 ∷ 164 ∷ 66 ∷ []

pub data NatType : Type 0 where
  open_nat cone symmetric unknown : NatType

unfoldable pub nat_str : NatType → Text
nat_str open_nat = codes "open"
nat_str cone = codes "cone"
nat_str symmetric = codes "symmetric"
nat_str unknown = codes "unknown"

pub record StunResult : Type 0 where
  pub nat_type : NatType
  pub mapped_addrs : List SocketAddr
  pub local_addrs : List SocketAddr

unfoldable pub binding_request : Text → Text
binding_request tx_id = 0 ∷ 1 ∷ 0 ∷ 0 ∷ (magic_cookie ++ tx_id)

-- Bytes as one number, the first the most significant.
unfoldable pub from_be_bytes : ℕ → Text → ℕ
from_be_bytes acc [] = acc
from_be_bytes acc (b ∷ bs) = from_be_bytes (acc * 256 + b) bs

-- Byte by byte; what stands past the shorter text is left as it is.
unfoldable pub xor_bytes : Text → Text → Text
xor_bytes [] key = []
xor_bytes (b ∷ bs) [] = b ∷ bs
xor_bytes (b ∷ bs) (k ∷ key) = bit_xor b k ∷ xor_bytes bs key

abbrev pub port_of : Text → ℕ
port_of bytes = from_be_bytes 0 (xor_bytes bytes magic_cookie)

abbrev pub v4_of : Text → ℕ → SocketAddr
v4_of bytes port = record { ip = v4 (from_be_bytes 0 (xor_bytes bytes magic_cookie)); port = port }

abbrev pub v6_of : Text → Text → ℕ → SocketAddr
v6_of tx_id bytes port = record {
  ip = v6 (from_be_bytes 0 (xor_bytes bytes (magic_cookie ++ tx_id)));
  port = port;
}

-- A reserved byte, the family, the port, the address.
unfoldable pub parse_xor_mapped_address : Text → Text → Option SocketAddr
unfolding xor_bytes from_be_bytes
parse_xor_mapped_address tx_id (reserved ∷ family ∷ p ∷ q ∷ a ∷ b ∷ c ∷ d ∷ rest) =
    let port = port_of (p ∷ q ∷ []) in
    if nat_beq family 1
    then some (v4_of (a ∷ b ∷ c ∷ d ∷ []) port)
    else if nat_beq family 2 && leb 12 (length rest)
    then some (v6_of tx_id (a ∷ b ∷ c ∷ d ∷ take 12 rest) port)
    else none
parse_xor_mapped_address tx_id _ = none

-- What the attributes of a response give. A slice past the end of the buffer is a panic.
pub data Parsed : Type 0 where
  found : Option SocketAddr → Parsed
  missing panics : Parsed

-- The buffer's 512 bytes: what was received and the zeros after it.
abbrev pub buffer_size : ℕ
buffer_size = 512

abbrev pub byte_at : Text → ℕ → ℕ
byte_at [] i = 0
byte_at (b ∷ bs) zero = b
byte_at (b ∷ bs) (suc i) = byte_at bs i

abbrev pub u16_at : Text → ℕ → ℕ
u16_at buf i = byte_at buf i * 256 + byte_at buf (i + 1)

-- `(len + 3) & !3`
abbrev pub padded : ℕ → ℕ
padded len = (len + 3) / 4 * 4

unfoldable pub slice : Text → ℕ → ℕ → Text
slice buf start zero = []
slice buf start (suc n) = byte_at buf start ∷ slice buf (start + 1) n

abbrev pub mapped_at : Text → Text → ℕ → ℕ → Parsed
mapped_at tx_id buf start len =
    if ltb buffer_size (start + len)
    then panics
    else found (parse_xor_mapped_address tx_id (slice buf start len))

-- The loop over the attributes; each round goes on by four bytes at least.
unfoldable pub parse_attributes : ℕ → Text → Text → (attr_end pos : ℕ) → Option Parsed
unfolding parse_xor_mapped_address
parse_attributes zero tx_id buf attr_end pos = none
parse_attributes (suc fuel) tx_id buf attr_end pos =
    let attr_len = u16_at buf (pos + 2) in
    let rest = parse_attributes fuel tx_id buf attr_end (pos + 4 + padded attr_len) in
    if not (leb (pos + 4) attr_end)
    then some missing
    else if nat_beq (u16_at buf pos) 32
    then some (mapped_at tx_id buf (pos + 4) attr_len)
    else rest

unfoldable pub is_response : Text → Text → Bool
is_response tx_id buf =
    nat_beq (u16_at buf 0) 257
    && take 4 (drop 4 buf) == magic_cookie
    && take 12 (drop 8 buf) == tx_id

-- The reading of the first 512 bytes of a datagram.
unfoldable pub parse_response : Text → Text → Option Parsed
unfolding parse_attributes
parse_response tx_id buf =
    if ltb (length buf) 20
    then some missing
    else if not (is_response tx_id buf)
    then some missing
    else parse_attributes 256 tx_id buf (min (20 + u16_at buf 2) (length buf)) 20

abbrev some_addr : Option SocketAddr → List SocketAddr → List SocketAddr
some_addr none addrs = addrs
some_addr (some a) addrs = if contains a addrs then addrs else addrs ++ a ∷ []

abbrev any_ip : IpAddr → List SocketAddr → Bool
any_ip ip [] = false
any_ip ip (l ∷ ls) = l.ip == ip || any_ip ip ls

unfoldable pub classify : List SocketAddr → Option SocketAddr → Option SocketAddr → NatType
classify local_addrs (some a) (some b) =
    if any_ip a.ip local_addrs then open_nat else if a == b then cone else symmetric
classify local_addrs (some a) none = cone
classify local_addrs none (some b) = cone
classify local_addrs none none = unknown

unfoldable pub default_stun_servers : Text × Text
default_stun_servers = (codes "stun.l.google.com:19302", codes "stun1.l.google.com:19302")

-- The two servers that are asked.
unfoldable pub servers : List Text → Text × Text
unfolding default_stun_servers
servers [] = default_stun_servers
servers (s ∷ []) = (s, default_stun_servers.1)
servers (s ∷ t ∷ rest) = (s, t)

abbrev pub or_local : SocketAddr → Option (List SocketAddr) → List SocketAddr
or_local local none = local ∷ []
or_local local (some addrs) = addrs

-- `bound` is the socket's address, none if it could not be bound; `found_local` what
-- `get_local_addrs` gives; `ask` what a server's response is read as.
unfoldable pub probe_nat :
    (bound : Option SocketAddr) (found_local : Option (List SocketAddr))
    → (ask : Text → Option SocketAddr) → List Text
    → StunResult
unfolding classify servers
probe_nat none found_local ask stun_servers = record {
  nat_type = unknown;
  mapped_addrs = [];
  local_addrs = [];
}
probe_nat (some local) found_local ask stun_servers =
    let mapped1 = ask (servers stun_servers).0 in
    let mapped2 = ask (servers stun_servers).1 in
    let local_addrs = or_local local found_local in
    record {
      nat_type = classify local_addrs mapped1 mapped2;
      mapped_addrs = some_addr mapped2 (some_addr mapped1 []);
      local_addrs = local_addrs;
    }
