-- ===== src/Client/Stun/Kinds.antt =====
-- What the kind of a NAT (stun.rs) says of the addresses that were found.
use rustunnel.Prelude.{
  ◌≡◌, refl, true, false, Option, none, some, List, [], ◌∷◌, Bool-cases, inl, inr,
}
use rustunnel.Prelude.Eq.{◌==◌}
use rustunnel.Core.Types.{Text, ip_eq, SocketAddr}
use rustunnel.Edge.Udp.Ports.{addr_eq}
use rustunnel.Client.Stun.{
  open_nat, cone, symmetric, unknown, StunResult, some_addr, any_ip, classify, servers, or_local,
  probe_nat,
}

-- The kinds by the answers: none, one address, two addresses, or an address of this machine.
abbrev pub Fits : StunResult → Type 0
Fits r = elim r.nat_type as (λ _. Type 0) [
  | unknown ↦ r.mapped_addrs ≡ []
  | cone ↦ (a : SocketAddr) × (r.mapped_addrs ≡ a ∷ [])
  | symmetric ↦
      (a : SocketAddr) × (b : SocketAddr) × (r.mapped_addrs ≡ a ∷ b ∷ [])
      × ((a == b) ≡ false)
      × (any_ip a.ip r.local_addrs ≡ false)
  | open_nat ↦
      (a : SocketAddr) × (more : List SocketAddr) × (r.mapped_addrs ≡ a ∷ more)
      × (any_ip a.ip r.local_addrs ≡ true)
]

-- The same, for the two answers.
answers-Fits :
    (local_addrs : List SocketAddr) (x y : Option SocketAddr)
    → Fits (record {
      nat_type = classify local_addrs x y;
      mapped_addrs = some_addr y (some_addr x []);
      local_addrs = local_addrs;
    })
unfolding classify
answers-Fits local_addrs none none = refl
answers-Fits local_addrs none (some b) = (b, refl)
answers-Fits local_addrs (some a) none = (a, refl)
answers-Fits local_addrs (some a) (some b) = elim (Bool-cases (any_ip a.ip local_addrs)) [
  | inl own ↦ elim (Bool-cases (a == b)) [
    | inl e ↦ rw (own, e) (a, [], refl, own)
    | inr e ↦ rw (own, e) (a, b ∷ [], refl, own)
  ]
  | inr other ↦ elim (Bool-cases (a == b)) [
    | inl e ↦ rw (other, e) (a, refl)
    | inr e ↦ rw (other, e) (a, b, refl, e, other)
  ]
]

-- A probe finds an unknown kind of NAT only with no mapped address, a cone with just one, a
-- symmetric NAT with two different ones of which the first is not of this machine, and no NAT only
-- where the first one is.
pub probe_nat-Fits :
    (bound : Option SocketAddr) (found_local : Option (List SocketAddr))
    (ask : Text → Option SocketAddr) (stun_servers : List Text)
    → Fits (probe_nat bound found_local ask stun_servers)
unfolding probe_nat classify
probe_nat-Fits none found_local ask stun_servers = refl
probe_nat-Fits (some local) found_local ask stun_servers =
    answers-Fits (or_local local found_local) (ask (servers stun_servers).0)
      (ask (servers stun_servers).1)
