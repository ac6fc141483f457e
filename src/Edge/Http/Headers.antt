-- ===== src/Edge/Http/Headers.antt =====
-- crates/rustunnel-server/src/edge/http.rs: the headers that a tunnel gets with a request.
pub mod Sent
use rustunnel.Prelude.{
  ◌≡◌, refl, ◌∙◌, ap, Bool, true, false, ◌&&◌, Option, none, some, List, [], ◌∷◌, ◌++◌,
  if◌then◌else◌, codes, contains, arith, ◌⊎◌, inl, inr, Bool-cases,
}
use mathlib.Core.Path.{subst}
use rustunnel.Prelude.Eq.{◌==◌, list_eq, nat_eq, eq_iff}
use rustunnel.Prelude.Map.{get, insert, remove, get-insert, get-remove}
use rustunnel.Core.Types.{Text, IpAddr}
use rustunnel.Edge.Http.{ForwardScheme, http, https, as_str, Libraries, HeaderMap, str_header}

abbrev pub hop_by_hop : List Text
hop_by_hop =
    codes "connection"
    ∷ codes "keep-alive"
    ∷ codes "proxy-authenticate"
    ∷ codes "proxy-authorization"
    ∷ codes "te"
    ∷ codes "trailers"
    ∷ codes "transfer-encoding"
    ∷ codes "upgrade"
    ∷ []

unfoldable pub remove_all : List Text → HeaderMap → HeaderMap
remove_all [] headers = headers
remove_all (name ∷ names) headers = remove_all names (remove name headers)

unfoldable pub remove_hop_by_hop : HeaderMap → HeaderMap
remove_hop_by_hop headers = remove_all hop_by_hop headers

-- The chain so far, if it is readable, and the peer at its end.
abbrev pub append_peer : Option Text → Text → Text
append_peer none peer_ip = peer_ip
append_peer (some existing) peer_ip = existing ++ codes ", " ++ peer_ip

-- `if let Ok(v) = HeaderValue::from_str(v)`, an insertion.
unfoldable pub insert_value : (Text → Bool) → Text → Text → HeaderMap → HeaderMap
insert_value is_value name v headers = if is_value v then insert name v headers else headers

abbrev pub forwarded_for : Libraries → IpAddr → HeaderMap → Text
forwarded_for lib peer headers =
    append_peer (str_header lib.is_str (codes "x-forwarded-for") headers) (lib.ip_string peer)

unfoldable pub set_forwarded_headers :
    Libraries → IpAddr → ForwardScheme → Text → HeaderMap → HeaderMap
set_forwarded_headers lib peer scheme original_host headers =
    let chained =
      insert_value lib.is_value (codes "x-forwarded-for") (forwarded_for lib peer headers)
        headers in
    insert_value lib.is_value (codes "x-forwarded-host") original_host
      (insert (codes "x-forwarded-proto") (as_str scheme) chained)

-- The headers of the request that `forward_http` sends on.
unfoldable pub forward_headers : Libraries → IpAddr → ForwardScheme → Text → HeaderMap → HeaderMap
forward_headers lib peer scheme original_host headers =
    set_forwarded_headers lib peer scheme original_host (remove_hop_by_hop headers)
