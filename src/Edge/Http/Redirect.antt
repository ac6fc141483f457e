-- ===== src/Edge/Http/Redirect.antt =====
-- crates/rustunnel-server/src/edge/http.rs, `redirect_to_https`: where a plain request is sent.
use rustunnel.Prelude.{
  ℕ, ◌≡◌, ◌≢◌, arith, refl, sym, ap, ◌∙◌, ◌⊎◌, inl, inr, Bool, true, not, ◌&&◌, Option, none, some,
  [], ◌∷◌, ◌++◌, if◌then◌else◌, nat_beq, codes, all, is_some, Bool-cases, Option-cases,
}
use rustunnel.Prelude.Text.{decimal}
use rustunnel.Prelude.Eq.{◌==◌, list_eq, nat_eq, eq_iff}
use mathlib.Core.List.{append-nil}
use rustunnel.Prelude.Branches.{on_if}
use rustunnel.Prelude.Map.{get}
use rustunnel.Core.Types.{Text}
use rustunnel.Edge.Hosts.{before_colon, strip_suffix, sanitize_host, is_host_byte, dot, colon}
use rustunnel.Edge.Hosts.Laws.{
  HasNoColon, before_colon-append, strip_suffix-some, sanitize_host-safe,
}
use rustunnel.Edge.Http.{Request, Response, str_header, text_or}

abbrev pub ends_with : Text → Text → Bool
ends_with suffix s = is_some (strip_suffix suffix s)

-- The name of a sanitised host, or the domain for a host outside it.
unfoldable pub own_name : Text → Text → Text
own_name domain host =
    if not (before_colon host == domain) && not (ends_with (dot ∷ domain) (before_colon host))
    then domain
    else before_colon host

unfoldable pub authority : Text → ℕ → Text
authority name https_port =
    if nat_beq https_port 443 then name else name ++ colon ∷ decimal 5 https_port

unfoldable pub redirect_to_https : (Text → Bool) → Request → Text → ℕ → Response
redirect_to_https is_str req domain https_port =
    let raw_host = text_or domain (str_header is_str (codes "host") req.headers) in
    let name = own_name domain (text_or domain (sanitize_host raw_host)) in
    record {
      status = 308;
      headers =
          (
            codes "location",
            codes "https://" ++ authority name https_port ++ text_or (codes "/") req.path_and_query,
          )
          ∷ [];
      body = [];
    }

abbrev pub IsOwnName : Text → Text → Type 0
IsOwnName domain name =
    (name ≡ domain) ⊎ ((sub : Text) × (name ≡ sub ++ dot ∷ domain) × (all is_host_byte name ≡ true))

own_name-IsOwnName :
    (domain host : Text)
    → (before_colon host ≡ domain) ⊎ (all is_host_byte (before_colon host) ≡ true)
    → IsOwnName domain (own_name domain host)
unfolding own_name
own_name-IsOwnName domain host (inl e) = rw (e, (eq_iff domain domain).1 refl) (inl refl)
own_name-IsOwnName domain host (inr safe) = elim (Bool-cases (before_colon host == domain)) [
  | inl same ↦ rw same (inl ((eq_iff (before_colon host) domain).0 same))
  | inr other ↦ elim (Option-cases (strip_suffix (dot ∷ domain) (before_colon host))) [
    | inl out ↦ rw (other, out) (inl refl)
    | inr (sub, within) ↦
        rw (other, within)
          (inr (sub, strip_suffix-some (dot ∷ domain) (before_colon host) within, safe))
  ]
]

sanitized-IsOwnName :
    (domain raw : Text) (o : Option Text)
    → HasNoColon domain
    → sanitize_host raw ≡ o
    → IsOwnName domain (own_name domain (text_or domain o))
sanitized-IsOwnName domain raw none h e =
    own_name-IsOwnName domain domain
      (inl (ap before_colon (sym (append-nil domain)) ∙ before_colon-append domain [] h tt))
sanitized-IsOwnName domain raw (some host) h e =
    own_name-IsOwnName domain host (inr (sanitize_host-safe raw e))

-- A name, and the port after a colon, the byte 58, unless it is that of https.
abbrev pub IsAuthority : Text → ℕ → Text → Type 0
IsAuthority name https_port text =
    ((https_port ≡ 443) × (text ≡ name))
    ⊎ ((https_port ≢ 443) × (text ≡ name ++ 58 ∷ decimal 5 https_port))

authority-IsAuthority :
    (name : Text) (https_port : ℕ) → IsAuthority name https_port (authority name https_port)
unfolding authority
authority-IsAuthority name https_port =
    on_if (IsAuthority name https_port) (nat_beq https_port 443) name
      (name ++ colon ∷ decimal 5 https_port) (λ e. inl (ground arith, refl))
      λ e. inr (ground arith, refl)

-- Whatever the Host header is, the redirect is a 308 to `https://`, a name, a colon and the port
-- if this is not 443, and the path of the request, where the name is the server's domain, or a
-- subdomain of it of letters, digits, hyphens and dots. The server's domain has no colon.
pub redirect_to_https-IsOwnName :
    (is_str : Text → Bool) (req : Request) (domain : Text) (https_port : ℕ)
    → HasNoColon domain
    → (name : Text) × (target : Text) × IsOwnName domain name
      × IsAuthority name https_port target
      × ((redirect_to_https is_str req domain https_port).status ≡ 308)
      × (get (codes "location") (redirect_to_https is_str req domain https_port).headers
          ≡ some (codes "https://" ++ target ++ text_or (codes "/") req.path_and_query))
unfolding redirect_to_https get
redirect_to_https-IsOwnName is_str req domain https_port h =
    let raw_host = text_or domain (str_header is_str (codes "host") req.headers) in
    let name = own_name domain (text_or domain (sanitize_host raw_host)) in
    (
      name,
      authority name https_port,
      sanitized-IsOwnName domain raw_host _ h refl,
      authority-IsAuthority name https_port,
      refl,
      refl,
    )
