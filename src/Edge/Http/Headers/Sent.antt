-- ===== src/Edge/Http/Headers/Sent.antt =====
-- The headers that a tunnel gets (edge/http.rs), name by name.
use rustunnel.Prelude.{
  ◌≡◌, refl, ◌∙◌, ap, Bool, true, false, ◌&&◌, none, some, List, [], ◌∷◌, ◌++◌, if◌then◌else◌,
  codes, contains, arith, inl, inr, Bool-cases,
}
use mathlib.Core.Path.{subst}
use rustunnel.Prelude.Eq.{◌==◌, list_eq, nat_eq, eq_iff}
use rustunnel.Prelude.Map.{get, insert, remove, get-insert, get-remove}
use rustunnel.Core.Types.{Text, IpAddr}
use rustunnel.Edge.Http.{ForwardScheme, http, https, as_str, Libraries, HeaderMap}
use rustunnel.Edge.Http.Headers.{
  hop_by_hop, remove_all, remove_hop_by_hop, insert_value, forwarded_for, set_forwarded_headers,
  forward_headers,
}

get-insert_value :
    (is_value : Text → Bool) (name v n : Text) (headers : HeaderMap)
    → get n (insert_value is_value name v headers)
      ≡ (if is_value v && name == n then some v else get n headers)
unfolding insert_value
get-insert_value is_value name v n headers = by_test (is_value v)
  where
    by_test :
        (b : Bool)
        → get n (if b then insert name v headers else headers)
          ≡ (if b && name == n then some v else get n headers)
    by_test true = get-insert name n v headers
    by_test false = refl

get-remove_all :
    (names : List Text) (n : Text) (headers : HeaderMap)
    → get n (remove_all names headers) ≡ (if contains n names then none else get n headers)
unfolding remove_all
get-remove_all [] n headers = refl
get-remove_all (name ∷ names) n headers =
    ground (arith, get-remove_all names n (remove name headers), get-remove name n headers)

get-forward_headers :
    (lib : Libraries) (peer : IpAddr) (scheme : ForwardScheme) (host : Text) (headers : HeaderMap)
    (n : Text)
    → get n (forward_headers lib peer scheme host headers) ≡ (
        if lib.is_value host && codes "x-forwarded-host" == n
        then some host
        else if codes "x-forwarded-proto" == n
        then some (as_str scheme)
        else if lib.is_value (forwarded_for lib peer headers) && codes "x-forwarded-for" == n
        then some (forwarded_for lib peer headers)
        else if contains n hop_by_hop
        then none
        else get n headers)
unfolding forward_headers set_forwarded_headers remove_hop_by_hop
get-forward_headers lib peer scheme host headers n =
    rw
      (
        get-insert_value,
        get-insert,
        get-insert_value,
        get-remove_all hop_by_hop n headers,
        get-remove_all hop_by_hop (codes "x-forwarded-for") headers,
      )
      refl

-- The names that RFC 2616 and its practice keep to one connection.
pub data IsHopByHop : Text → Type 0 where
  connection : IsHopByHop (codes "connection")
  keep_alive : IsHopByHop (codes "keep-alive")
  proxy_authenticate : IsHopByHop (codes "proxy-authenticate")
  proxy_authorization : IsHopByHop (codes "proxy-authorization")
  te : IsHopByHop (codes "te")
  trailers : IsHopByHop (codes "trailers")
  transfer_encoding : IsHopByHop (codes "transfer-encoding")
  upgrade : IsHopByHop (codes "upgrade")

pub data IsForwarded : Text → Type 0 where
  chain : IsForwarded (codes "x-forwarded-for")
  proto : IsForwarded (codes "x-forwarded-proto")
  host : IsForwarded (codes "x-forwarded-host")

-- A header that is set where its value can stand in one, and else is as the client sent it.
abbrev pub IsOverwritten : (Text → Bool) → Text → Text → HeaderMap → HeaderMap → Type 0
IsOverwritten is_value name v headers sent =
    get name sent ≡ (if is_value v then some v else get name headers)

-- The headers that are sent on, by name.
pub record Forwards (lib : Libraries) (peer : IpAddr) (scheme : ForwardScheme)
    (original_host : Text) (headers sent : HeaderMap) : Type 0 where
  pub host_set : IsOverwritten lib.is_value (codes "x-forwarded-host") original_host headers sent
  pub plain : scheme ≡ http → get (codes "x-forwarded-proto") sent ≡ some (codes "http")
  pub secure : scheme ≡ https → get (codes "x-forwarded-proto") sent ≡ some (codes "https")
  pub first :
      get (codes "x-forwarded-for") headers ≡ none
      → IsOverwritten lib.is_value (codes "x-forwarded-for") (lib.ip_string peer) headers sent
  pub appended :
      (v : Text)
      → get (codes "x-forwarded-for") headers ≡ some v
      → lib.is_str v ≡ true
      → IsOverwritten lib.is_value
          (codes "x-forwarded-for")
          (v ++ codes ", " ++ lib.ip_string peer)
          headers
          sent
  pub unreadable :
      (v : Text)
      → get (codes "x-forwarded-for") headers ≡ some v
      → lib.is_str v ≡ false
      → IsOverwritten lib.is_value (codes "x-forwarded-for") (lib.ip_string peer) headers sent
  pub withheld : (n : Text) → IsHopByHop n → get n sent ≡ none
  pub passed : (n : Text) → ¬ IsHopByHop n → ¬ IsForwarded n → get n sent ≡ get n headers

abbrev AllOf : (Text → Type 0) → List Text → Type 0
AllOf P [] = Unit
AllOf P (x ∷ xs) = P x × AllOf P xs

contains-AllOf :
    (P : Text → Type 0) (n : Text) (names : List Text)
    → AllOf P names
    → contains n names ≡ true
    → P n
contains-AllOf P n [] all h = absurd (ground arith)
contains-AllOf P n (x ∷ xs) (p, ps) h = elim (Bool-cases (x == n)) [
  | inl e ↦ subst P ((eq_iff x n).0 e) p
  | inr e ↦ contains-AllOf P n xs ps (ground (arith, e))
]

contains-IsHopByHop : (n : Text) → contains n hop_by_hop ≡ true → IsHopByHop n
contains-IsHopByHop n = contains-AllOf IsHopByHop n hop_by_hop (
  connection,
  (
    keep_alive,
    (
      proxy_authenticate,
      (proxy_authorization, (te, (trailers, (transfer_encoding, (upgrade, tt))))),
    ),
  ),
)

-- None of the names that are set.
abbrev IsOther : Text → Type 0
IsOther n =
    ((codes "x-forwarded-host" == n) ≡ false)
    × ((codes "x-forwarded-proto" == n) ≡ false)
    × ((codes "x-forwarded-for" == n) ≡ false)

IsHopByHop-IsOther : {n : Text} → IsHopByHop n → IsOther n
IsHopByHop-IsOther connection = (refl, refl, refl)
IsHopByHop-IsOther keep_alive = (refl, refl, refl)
IsHopByHop-IsOther proxy_authenticate = (refl, refl, refl)
IsHopByHop-IsOther proxy_authorization = (refl, refl, refl)
IsHopByHop-IsOther te = (refl, refl, refl)
IsHopByHop-IsOther trailers = (refl, refl, refl)
IsHopByHop-IsOther transfer_encoding = (refl, refl, refl)
IsHopByHop-IsOther upgrade = (refl, refl, refl)

apart : (x n : Text) → IsForwarded x → ¬ IsForwarded n → (x == n) ≡ false
apart x n set own = elim (Bool-cases (x == n)) [
  | inl e ↦ absurd (own (subst IsForwarded ((eq_iff x n).0 e) set))
  | inr e ↦ e
]

get-other :
    (lib : Libraries) (peer : IpAddr) (scheme : ForwardScheme) (named : Text) (headers : HeaderMap)
    (n : Text)
    → IsOther n
    → get n (forward_headers lib peer scheme named headers)
      ≡ (if contains n hop_by_hop then none else get n headers)
get-other lib peer scheme named headers n (h, p, f) =
    ground (arith, get-forward_headers lib peer scheme named headers n, h, p, f)

IsHopByHop-contains : {n : Text} → IsHopByHop n → contains n hop_by_hop ≡ true
IsHopByHop-contains connection = refl
IsHopByHop-contains keep_alive = refl
IsHopByHop-contains proxy_authenticate = refl
IsHopByHop-contains proxy_authorization = refl
IsHopByHop-contains te = refl
IsHopByHop-contains trailers = refl
IsHopByHop-contains transfer_encoding = refl
IsHopByHop-contains upgrade = refl

not_listed : (n : Text) → ¬ IsHopByHop n → contains n hop_by_hop ≡ false
not_listed n end_to_end = elim (Bool-cases (contains n hop_by_hop)) [
  | inl e ↦ absurd (end_to_end (contains-IsHopByHop n e))
  | inr e ↦ e
]

-- The tunnel gets the Host of the request as `x-forwarded-host`; `http` or `https`, by the scheme,
-- as `x-forwarded-proto`; as `x-forwarded-for` the address of the peer, behind the chain that the
-- client sent and a comma if this chain can be read; nothing under the eight hop-by-hop names; and
-- under any other name what the client sent. A host or a chain that cannot stand in a header is
-- left out, and the client's stays.
pub forward_headers-Forwards :
    (lib : Libraries) (peer : IpAddr) (scheme : ForwardScheme) (named : Text) (headers : HeaderMap)
    → Forwards lib peer scheme named headers (forward_headers lib peer scheme named headers)
unfolding as_str
forward_headers-Forwards lib peer scheme named headers =
    let got = get-forward_headers lib peer scheme named headers in
    let at_host = got (codes "x-forwarded-host") in
    let at_proto = got (codes "x-forwarded-proto") in
    let at_chain = got (codes "x-forwarded-for") in
    record {
      host_set = ground (arith, at_host);
      plain = λ e. ground (arith, at_proto);
      secure = λ e. ground (arith, at_proto);
      first = λ e. ground (arith, at_chain);
      appended = λ v e r. ground (arith, at_chain);
      unreadable = λ v e r. ground (arith, at_chain);
      withheld = λ n hop.
          get-other lib peer scheme named headers n (IsHopByHop-IsOther hop)
          ∙ ap (λ b. if b then none else get n headers) (IsHopByHop-contains hop);
      passed = λ n end_to_end own.
          get-other lib peer scheme named headers n (
            apart (codes "x-forwarded-host") n host own,
            apart (codes "x-forwarded-proto") n proto own,
            apart (codes "x-forwarded-for") n chain own,
          )
          ∙ ap (λ b. if b then none else get n headers) (not_listed n end_to_end);
    }
