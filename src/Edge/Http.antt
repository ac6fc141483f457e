-- ===== src/Edge/Http.antt =====
-- crates/rustunnel-server/src/edge/http.rs: what the HTTP edge reads and answers. A header map is a
-- keyed table of lowercase names. The crate http's tests on header values and the standard
-- library's text of an address are parameters.
pub mod Redirect
pub mod Headers
pub mod Proxy
pub mod Requests
use rustunnel.Prelude.{ℕ, Bool, Option, none, some, [], ◌∷◌, ◌++◌, if◌then◌else◌, codes}
use rustunnel.Prelude.Eq.{list_eq, nat_eq}
use rustunnel.Prelude.Map.{Map, get, insert}
use rustunnel.Core.Types.{Text, IpAddr}

pub data PlainHttpMode : Type 0 where
  redirect proxy : PlainHttpMode

pub data ForwardScheme : Type 0 where
  http https : ForwardScheme

unfoldable pub as_str : ForwardScheme → Text
as_str http = codes "http"
as_str https = codes "https"

-- Whether `HeaderValue::to_str` and `HeaderValue::from_str` succeed, and the text of an address.
pub record Libraries : Type 0 where
  pub is_str : Text → Bool
  pub is_value : Text → Bool
  pub ip_string : IpAddr → Text

abbrev pub HeaderMap : Type 0
HeaderMap = Map Text Text

pub record Request : Type 0 where
  pub method : Text
  pub path_and_query : Option Text
  pub headers : HeaderMap

pub record Response : Type 0 where
  pub status : ℕ
  pub headers : HeaderMap
  pub body : Text

abbrev pub if_str : (Text → Bool) → Option Text → Option Text
if_str is_str none = none
if_str is_str (some v) = if is_str v then some v else none

-- `headers().get(name).and_then(|v| v.to_str().ok())`
abbrev pub str_header : (Text → Bool) → Text → HeaderMap → Option Text
str_header is_str name headers = if_str is_str (get name headers)

abbrev pub text_or : Text → Option Text → Text
text_or d none = d
text_or d (some s) = s

unfoldable pub err_response : ℕ → Text → Response
err_response status msg = record {
  status = status;
  headers = (codes "content-type", codes "text/plain; charset=utf-8") ∷ [];
  body = msg;
}

-- The page names the subdomain as it stands in the Host header.
unfoldable pub gateway_error : Text → Response
gateway_error subdomain = record {
  status = 502;
  headers = (codes "content-type", codes "text/html; charset=utf-8") ∷ [];
  body =
      codes
        "<!DOCTYPE html>\n<html lang=\"en\">\n<head><meta charset=\"utf-8\"><title>Tunnel Not Found "
      ++ (226 ∷ 128 ∷ 148 ∷ [])
      ++ codes
          " rustunnel</title></head>\n<body style=\"font-family:sans-serif;max-width:600px;margin:4rem auto;color:#333\">\n  <h1>502 Bad Gateway</h1>\n  <p>No tunnel is registered for <strong>"
      ++ subdomain
      ++ codes
          "</strong>.</p>\n  <p>Make sure your <code>rustunnel-client</code> is running and authenticated.</p>\n</body>\n</html>";
}
