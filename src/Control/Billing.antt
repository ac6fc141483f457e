-- ===== src/Control/Billing.antt =====
-- crates/rustunnel-server/src/billing.rs: the limits of the free plan and what a client is told of
-- them. A query is its outcome, none if the database fails; a query that the code does not make is
-- not looked at.
pub mod Gate
use rustunnel.Prelude.{
  ℕ, zero, suc, ◌+◌, ◌-◌, ◌*◌, ◌/◌, ◌^◌, min, Bool, true, false, not, ◌&&◌, ◌||◌, Option, none,
  some, List, [], ◌∷◌, ◌++◌, if◌then◌else◌, leb, ltb, codes, is_some,
}
use rustunnel.Prelude.Text.{decimal, trim_start, trim_end, lowercase}
use rustunnel.Prelude.Eq.{◌==◌, list_eq, nat_eq}
use rustunnel.Core.Types.{Text}
use rustunnel.Prelude.Map.{is_empty}

-- `i32` and `i64`: `pos n` is n, `negsuc n` is - n - 1.
pub data ℤ : Type 0 where
  pos negsuc : ℕ → ℤ

abbrev pub int_leb : ℤ → ℤ → Bool
int_leb (pos a) (pos b) = leb a b
int_leb (pos a) (negsuc b) = false
int_leb (negsuc a) (pos b) = true
int_leb (negsuc a) (negsuc b) = leb b a

unfoldable pub int_string : ℤ → Text
int_string (pos n) = decimal 20 n
int_string (negsuc n) = 45 ∷ decimal 20 (n + 1)

abbrev pub bytes_per_gb : ℕ
bytes_per_gb = 1_073_741_824

abbrev pub bandwidth_warn_percent : ℕ
bandwidth_warn_percent = 80

pub data Surface : Type 0 where
  cli mcp : Surface

unfoldable pub parse_surface : Option Text → Surface
parse_surface none = cli
parse_surface (some raw) = if lowercase (trim_end (trim_start raw)) == codes "mcp" then mcp else cli

unfoldable pub surface_str : Surface → Text
surface_str cli = codes "cli"
surface_str mcp = codes "mcp"

pub data HobbyReason : Type 0 where
  tunnel_limit : (limit : ℤ) → HobbyReason
  custom_subdomain : HobbyReason
  bandwidth : (percent : ℕ) (limit_gb : ℤ) → HobbyReason

unfoldable pub code : HobbyReason → Text
code (tunnel_limit limit) = codes "tunnel_limit"
code custom_subdomain = codes "custom_subdomain"
code (bandwidth percent limit_gb) = codes "bandwidth"

unfoldable pub utm_content : HobbyReason → Text
utm_content (tunnel_limit limit) = codes "tunnel_limit"
utm_content custom_subdomain = codes "subdomain"
utm_content (bandwidth percent limit_gb) = codes "bandwidth"

unfoldable pub upgrade_url : HobbyReason → Surface → Text
upgrade_url reason surface =
    codes "https://rustunnel.com/dashboard/billing?upgrade=1&utm_source="
    ++ surface_str surface
    ++ codes "&utm_campaign=hobby_limit&utm_content="
    ++ utm_content reason

unfoldable pub body : HobbyReason → Text
body (tunnel_limit limit) =
    codes "Hobby plan limit: "
    ++ int_string limit
    ++ codes " concurrent tunnels. Pay-as-you-go removes the cap ($3/mo min)."
body custom_subdomain =
    codes "Hobby plan limit: custom subdomains need Pay-as-you-go ($3/mo min, $0.10/GB)."
body (bandwidth percent limit_gb) =
    if leb 100 percent
    then codes "Hobby plan: "
      ++ int_string limit_gb
      ++ codes " GB/mo included bandwidth used. Pay-as-you-go is $0.10/GB ($3/mo min)."
    else codes "Hobby plan: "
      ++ decimal 20 percent
      ++ codes "% of "
      ++ int_string limit_gb
      ++ codes " GB/mo used. Pay-as-you-go is $0.10/GB ($3/mo min)."

unfoldable pub message : HobbyReason → Surface → Text
message reason surface = body reason ++ 10 ∷ codes "Upgrade: " ++ upgrade_url reason surface

pub record HobbyGate : Type 0 where
  pub block : Option HobbyReason
  pub notice : Option HobbyReason

abbrev pub open_gate : HobbyGate
open_gate = record { block = none; notice = none }

abbrev pub limit_reached : ℤ → Option ℤ → Bool
limit_reached open_tunnels none = false
limit_reached open_tunnels (some limit) = int_leb limit open_tunnels

abbrev pub asks_subdomain : Option Text → Bool
asks_subdomain none = false
asks_subdomain (some s) = not (is_empty s)

abbrev tunnels_blocked : ℤ → Option ℤ → Option HobbyReason → Option HobbyReason
tunnels_blocked open_tunnels none next = next
tunnels_blocked open_tunnels (some limit) next =
    if int_leb limit open_tunnels then some (tunnel_limit limit) else next

unfoldable pub blocking_limit : Option ℤ → ℤ → Bool → Option Text → Option HobbyReason
blocking_limit max_tunnels open_tunnels allow_custom_subdomains requested_subdomain =
    tunnels_blocked open_tunnels max_tunnels (
      if not allow_custom_subdomains && asks_subdomain requested_subdomain
      then some custom_subdomain
      else none)

-- `u32::try_from(percent).unwrap_or(u32::MAX)`
abbrev pub saturate_u32 : ℕ → ℕ
saturate_u32 n = if ltb n (2 ^ 32) then n else 2 ^ 32 - 1

-- The percentage of a positive cap, with the saturating products of `i64` and `u128`.
unfoldable pub percent_used : ℕ → ℕ → ℕ
percent_used used gb = min (used * 100) (2 ^ 128 - 1) / min (gb * bytes_per_gb) (2 ^ 63 - 1)

abbrev warn : ℕ → ℕ → Option HobbyReason
warn percent gb =
    if ltb percent bandwidth_warn_percent
    then none
    else some (bandwidth (saturate_u32 percent) (pos gb))

unfoldable pub bandwidth_warning : ℤ → Option ℤ → Option HobbyReason
bandwidth_warning used none = none
bandwidth_warning used (some (negsuc n)) = none
bandwidth_warning used (some (pos zero)) = none
bandwidth_warning (negsuc u) (some (pos (suc n))) = none
bandwidth_warning (pos zero) (some (pos (suc n))) = none
bandwidth_warning (pos (suc u)) (some (pos (suc n))) = warn (percent_used (suc u) (suc n)) (suc n)

pub record Plan : Type 0 where
  pub max_tunnels : Option ℤ
  pub allow_custom_subdomains : Bool
  pub bandwidth_limit_gb : Option ℤ
  pub billing_model : Text

abbrev pub gate_from : Option HobbyReason → Option HobbyReason → HobbyGate
gate_from (some reason) notice = record { block = some reason; notice = none }
gate_from none notice = record { block = none; notice = notice }

unfoldable pub gate_for_plan : Plan → ℤ → Option Text → ℤ → HobbyGate
gate_for_plan plan open_tunnels requested_subdomain used_bytes =
    if plan.billing_model == codes "free"
    then gate_from
        (blocking_limit plan.max_tunnels open_tunnels plan.allow_custom_subdomains
          requested_subdomain)
        (bandwidth_warning used_bytes plan.bandwidth_limit_gb)
    else open_gate

-- The outcomes of the three queries for a user.
pub record Queries : Type 0 where
  pub active_plan : Option (Option Plan)
  pub open_tunnels : Option ℤ
  pub month_bytes : Option ℤ

-- A cap that is not set, and a sum that fails, count as no bytes.
abbrev pub used_under : Option ℤ → Option ℤ → ℤ
used_under none month_bytes = pos 0
used_under (some cap) none = pos 0
used_under (some cap) (some used) = used

abbrev gate_counted : Queries → Plan → Option Text → ℤ → HobbyGate
gate_counted q plan requested open_tunnels =
    elim (blocking_limit plan.max_tunnels open_tunnels plan.allow_custom_subdomains requested) [
      | some reason ↦ record { block = some reason; notice = none }
      | none ↦
          gate_for_plan plan open_tunnels requested
            (used_under plan.bandwidth_limit_gb q.month_bytes)
    ]

abbrev gate_free : Queries → Plan → Option Text → Option HobbyGate
gate_free q plan requested = elim q.open_tunnels [
  | none ↦ none
  | some open_tunnels ↦ some (gate_counted q plan requested open_tunnels)
]

-- None where the plan or the count cannot be read.
unfoldable pub evaluate_hobby_limits : Queries → Option Text → Option HobbyGate
evaluate_hobby_limits q requested = elim q.active_plan [
  | none ↦ none
  | some none ↦ some open_gate
  | some (some plan) ↦
      if plan.billing_model == codes "free" then gate_free q plan requested else some open_gate
]
