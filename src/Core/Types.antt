-- ===== src/Core/Types.antt =====
-- crates/rustunnel-server/src/core/tunnel.rs and error.rs: the data of the routing core.
-- A string is the list of its UTF-8 bytes; a Uuid is its 128-bit number; an instant is a number of
-- nanoseconds; a control channel is its number. Atomics and locks are plain fields.
use rustunnel.Prelude.{
  ℕ, ◌≡◌, refl, ◌↔◌, Bool, true, false, Option, none, some, List, [], arith, nat_beq, if◌then◌else◌,
}
use mathlib.Core.Path.{subst}
use rustunnel.Prelude.Eq.{Eq}
use rustunnel.Prelude.Map.{Map}

abbrev pub Text : Type 0
Text = List ℕ

abbrev pub Uuid : Type 0
Uuid = ℕ

abbrev pub Instant : Type 0
Instant = ℕ

pub data IpAddr : Type 0 where
  v4 v6 : ℕ → IpAddr

abbrev pub ip_beq : IpAddr → IpAddr → Bool
ip_beq (v4 a) (v4 b) = nat_beq a b
ip_beq (v4 a) (v6 b) = false
ip_beq (v6 a) (v4 b) = false
ip_beq (v6 a) (v6 b) = nat_beq a b

pub ip_beq_iff : (a b : IpAddr) → (ip_beq a b ≡ true) ↔ (a ≡ b)
ip_beq_iff (v4 a) b = ground arith
ip_beq_iff (v6 a) b = ground arith

instance abbrev pub ip_eq : Eq IpAddr
ip_eq = record { same = ip_beq; same_iff = ip_beq_iff }

pub record SocketAddr : Type 0 where
  pub ip : IpAddr
  pub port : ℕ

pub data TunnelProtocol : Type 0 where
  http https tcp udp p2p : TunnelProtocol

abbrev pub protocol_beq : TunnelProtocol → TunnelProtocol → Bool
protocol_beq http http = true
protocol_beq https https = true
protocol_beq tcp tcp = true
protocol_beq udp udp = true
protocol_beq p2p p2p = true
protocol_beq _ _ = false

pub protocol_beq_iff : (a b : TunnelProtocol) → (protocol_beq a b ≡ true) ↔ (a ≡ b)
protocol_beq_iff http b = ground arith
protocol_beq_iff https b = ground arith
protocol_beq_iff tcp b = ground arith
protocol_beq_iff udp b = ground arith
protocol_beq_iff p2p b = ground arith

instance abbrev pub protocol_eq : Eq TunnelProtocol
protocol_eq = record { same = protocol_beq; same_iff = protocol_beq_iff }

pub data HealthCheckKind : Type 0 where
  tcp http : HealthCheckKind

pub record HealthCheckSpec : Type 0 where
  pub kind : HealthCheckKind
  pub interval_secs : ℕ
  pub timeout_secs : ℕ
  pub max_failed : ℕ
  pub http_path : Option Text
  pub http_expect_2xx : Bool
  pub alert_webhook_url : Option Text

pub record HealthEvent : Type 0 where
  pub at : Instant
  pub healthy : Bool
  pub reason : Text

pub data TcpTunnelEvent : Type 0 where
  registered : Uuid → ℕ → TcpTunnelEvent
  unregistered : ℕ → TcpTunnelEvent

pub data UdpTunnelEvent : Type 0 where
  registered : Uuid → ℕ → UdpTunnelEvent
  unregistered : ℕ → UdpTunnelEvent

pub record TunnelInfo : Type 0 where
  pub session_id : Uuid
  pub tunnel_id : Uuid
  pub protocol : TunnelProtocol
  pub subdomain : Option Text
  pub assigned_port : Option ℕ
  pub created_at : Instant
  pub request_count : ℕ
  pub bytes_in : ℕ
  pub bytes_out : ℕ
  pub bytes_proxied : ℕ
  pub conn_semaphore : ℕ

pub record GroupMember : Type 0 where
  pub info : TunnelInfo
  pub healthy : Bool
  pub health_spec : Option HealthCheckSpec
  pub consecutive_failures : ℕ
  pub total_health_failures : ℕ
  pub health_events : List HealthEvent

pub record TunnelGroup : Type 0 where
  pub name : Text
  pub key_hash : Option Text
  pub members : Map Uuid GroupMember
  pub zero_healthy_alerted : Bool

pub record GroupAlertPayload : Type 0 where
  pub region_id : Text
  pub protocol : Text
  pub label : Text
  pub group_name : Text
  pub key_hash_short : Text
  pub member_count : ℕ

pub record ZeroHealthyAlert : Type 0 where
  pub payload : GroupAlertPayload
  pub tenant_webhook_urls : List Text

pub record GroupEvent : Type 0 where
  pub protocol : Text
  pub label : Text
  pub tunnel_id : Uuid
  pub healthy : Bool
  pub reason : Text
  pub healthy_count : ℕ
  pub member_count : ℕ

pub record GroupSpec : Type 0 where
  pub group_name : Text
  pub key_hash : Text
  pub health_check : Option HealthCheckSpec

pub record SessionInfo : Type 0 where
  pub client_addr : SocketAddr
  pub auth_token_id : Text
  pub db_token_id : Option Text
  pub user_id : Option Uuid
  pub control_tx : ℕ
  pub tunnels : List Uuid
  pub connected_at : Instant
  pub last_heartbeat : Instant
  pub data_pipe : Option ℕ

-- The messages that `Error::Tunnel` is built with, as data.
pub data TunnelFault : Type 0 where
  subdomain_length subdomain_hyphen subdomain_charset : Text → TunnelFault
  subdomain_in_use group_key_mismatch : Text → TunnelFault
  protocol_mismatch : Text → Option TunnelProtocol → TunnelProtocol → TunnelFault
  stale_group_index : ℕ → TunnelFault
  p2p_name_in_use : Text → TunnelFault

pub data Error : Type 0 where
  tunnel : TunnelFault → Error
  no_ports_available : Error
  session_not_found : Uuid → Error
  limit_exceeded : Uuid → ℕ → ℕ → Error

pub data Result {μ} (V : Type μ) : Type μ where
  ok : V → Result V
  err : Error → Result V

-- The `?` operator: an error ends the function.
infixl 5 ◌>>=◌
abbrev pub ◌>>=◌ {μ ν} : {V : Type μ} {W : Type ν} → Result V → (V → Result W) → Result W
err e >>= next = err e
ok v >>= next = next v

infixl 5 ◌>>◌
abbrev pub ◌>>◌ {ν} : {W : Type ν} → Result (Unit {0}) → Result W → Result W
m >> next = m >>= λ done. next

abbrev pub ok_or {ℓ} : {A : Type ℓ} → Option A → Error → Result A
ok_or none e = err e
ok_or (some a) e = ok a

-- `entry(k).or_default()` of a table of deques.
abbrev pub or_default {ℓ} : {A : Type ℓ} → Option (List A) → List A
or_default none = []
or_default (some xs) = xs

-- What holds of the value that a fallible step returns, if it returns one.
abbrev pub Returns {ℓ κ} : {A : Type ℓ} → (A → Type κ) → Result A → Type κ
Returns P (ok a) = P a
Returns P (err e) = Unit

pub Returns-bind {ℓ κ μ} :
    {A : Type ℓ} {B : Type κ} (P : B → Type μ) (m : Result A) (f : A → Result B)
    → ((a : A) → m ≡ ok a → Returns P (f a))
    → Returns P (m >>= f)
Returns-bind P (ok a) f h = h a refl
Returns-bind P (err e) f h = tt

pub Returns-ok {ℓ κ} :
    {A : Type ℓ} (P : A → Type κ) (m : Result A) {a : A} → m ≡ ok a → Returns P m → P a
Returns-ok P m e h = subst (Returns P) e h

pub Returns-if {ℓ κ} :
    {A : Type ℓ} (P : A → Type κ) (b : Bool) (m n : Result A)
    → (b ≡ true → Returns P m)
    → (b ≡ false → Returns P n)
    → Returns P (if b then m else n)
Returns-if P true m n f g = f refl
Returns-if P false m n f g = g refl

pub Returns-elim {ℓ κ μ} :
    {A : Type ℓ} {B : Type κ} (P : B → Type μ) (o : Option A) (n : Result B) (f : A → Result B)
    → (o ≡ none → Returns P n)
    → ((a : A) → o ≡ some a → Returns P (f a))
    → Returns P (elim o [ none ↦ n | some a ↦ f a ])
Returns-elim P none n f h k = h refl
Returns-elim P (some a) n f h k = k a refl

pub Returns-both {ℓ κ μ ν} :
    {A : Type ℓ} (P : A → Type κ) (Q : A → Type μ) (R : A → Type ν) (m : Result A)
    → ((a : A) → P a → Q a → R a)
    → Returns P m
    → Returns Q m
    → Returns R m
Returns-both P Q R (ok a) h p q = h a p q
Returns-both P Q R (err e) h p q = tt

pub Returns-const {ℓ κ} : {A : Type ℓ} (P : Type κ) (m : Result A) → P → Returns (λ _. P) m
Returns-const P (ok a) p = p
Returns-const P (err e) p = tt
