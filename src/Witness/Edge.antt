-- ===== src/Witness/Edge.antt =====
-- The theorems on the edge at concrete requests, connections and datagrams.
use rustunnel.Prelude.{◌≡◌, refl, true, ◌⊎◌, ◌↔◌, none, some, [], ◌∷◌, ◌++◌, codes}
use rustunnel.Prelude.Eq.{list_eq, nat_eq}
use rustunnel.Prelude.Map.{get, get-remove}
use rustunnel.Core.Types.{Text}
use rustunnel.Core.Router.{cancel_pending_conn}
use rustunnel.Control.Handle.Quiet.{cancel_pending_conn-IsQuiet}
use rustunnel.Limits.IpRate
use rustunnel.Limits.TokenBucket
use rustunnel.Edge.Hosts.{extract_subdomain}
use rustunnel.Edge.Hosts.Laws.{HasNoColon, IsHostOf, extract_subdomain_iff}
use rustunnel.Edge.Streams.{Outside, StreamOutcome}
use rustunnel.Edge.Streams.Permits.{cancel_pending_conn-KeepsPermits}
use rustunnel.Edge.Streams.Clean.{IsClean, IsFair, stays-IsClean}
use rustunnel.Edge.Http.{ForwardScheme, proxy, Libraries, HeaderMap, Request, text_or}
use rustunnel.Edge.Http.Redirect.{
  IsOwnName, IsAuthority, redirect_to_https, redirect_to_https-IsOwnName,
}
use rustunnel.Edge.Http.Headers.{forward_headers}
use rustunnel.Edge.Http.Headers.Sent.{Forwards, forward_headers-Forwards}
use rustunnel.Edge.Http.Proxy.{ProxyCtx, written, been_read, replied, HttpOutside, EdgeState}
use rustunnel.Edge.Http.Requests.{Incoming, proxy_request}
use rustunnel.Edge.Http.Requests.Settled.{proxy_request-IsClean}
use rustunnel.Edge.Http.Requests.Reaches.{Unheard, Reaches, proxy_request-Reaches}
use rustunnel.Witness.States.{client, with_http}

abbrev domain : Text
domain = codes "t.io"

-- One request of a peer to web.t.io, on an edge that reads all header values.
abbrev lib : Libraries
lib = record { is_str = λ v. true; is_value = λ v. true; ip_string = λ ip. codes "1.2.3.4" }

abbrev ctx : ProxyCtx
ctx = record {
  domain = domain;
  rate_limit_rps = 10;
  request_body_max_bytes = 1000;
  plain_http_mode = proxy;
  https_port = 443;
  capturing = true;
}

abbrev request : Request
request = record {
  method = codes "GET";
  path_and_query = some (codes "/a");
  headers = (codes "host", codes "web.t.io") ∷ (codes "te", codes "gzip") ∷ [];
}

abbrev incoming : Incoming
incoming = record {
  lib = lib;
  ctx = ctx;
  scheme = ForwardScheme.https;
  peer = client;
  req = request;
}

-- The client opens the stream 5 for the connection 77.
abbrev outside : StreamOutcome → Outside
outside outcome = record {
  now = 5;
  pick = 0;
  conn_id = 77;
  stream_tx = 8;
  session_open = true;
  waiting = cancel_pending_conn 77;
  outcome = outcome;
  serving = λ c. c;
}

abbrev http_outside : HttpOutside
http_outside = record {
  stream = outside (StreamOutcome.opened 5);
  polls = written 100 ∷ been_read 300 ∷ [];
  reply = replied (record { status = 200; headers = []; body = codes "hello" }) (5 ∷ []);
  duration_ms = 3;
  captured_at = 9;
}

abbrev edge : EdgeState
edge = record { core = with_http none; ip_limiter = IpRate.new 10; rate_limiter = TokenBucket.new }

outside-IsFair : (outcome : StreamOutcome) → IsFair (outside outcome)
unfolding cancel_pending_conn
outside-IsFair outcome = record {
  quiet = cancel_pending_conn-IsQuiet 77;
  permits = cancel_pending_conn-KeepsPermits 77;
  settles = λ h c. get-remove 77 77 c.pending_conns;
  serves = stays-IsClean 77;
}

domain-HasNoColon : HasNoColon domain
domain-HasNoColon = (refl, (refl, (refl, (refl, tt))))

proxy_request-Reaches_example :
    Unheard (proxy_request incoming http_outside edge)
    ⊎ Reaches incoming http_outside edge (proxy_request incoming http_outside edge)
proxy_request-Reaches_example = proxy_request-Reaches incoming http_outside edge domain-HasNoColon

proxy_request-IsClean_example :
    IsClean 77 (with_http none) (proxy_request incoming http_outside edge).state.core
proxy_request-IsClean_example =
    proxy_request-IsClean incoming http_outside edge (outside-IsFair (StreamOutcome.opened 5))

extract_subdomain_iff_example :
    (extract_subdomain (codes "web.t.io:443") domain ≡ some (codes "web"))
    ↔ (IsHostOf (codes "web.t.io:443") (codes "web") domain × HasNoColon (codes "web"))
extract_subdomain_iff_example =
    extract_subdomain_iff (codes "web.t.io:443") (codes "web") domain domain-HasNoColon

redirect_to_https-IsOwnName_example :
    (name : Text) × (target : Text) × IsOwnName domain name
    × IsAuthority name 8443 target
    × ((redirect_to_https lib.is_str request domain 8443).status ≡ 308)
    × (get (codes "location") (redirect_to_https lib.is_str request domain 8443).headers
        ≡ some (codes "https://" ++ target ++ text_or (codes "/") request.path_and_query))
redirect_to_https-IsOwnName_example =
    redirect_to_https-IsOwnName lib.is_str request domain 8443 domain-HasNoColon

-- Headers that a proxy in front has relayed.
abbrev relayed : HeaderMap
relayed =
    (codes "x-forwarded-for", codes "9.9.9.9")
    ∷ (codes "te", codes "trailers")
    ∷ (codes "accept", codes "*/*")
    ∷ []

forward_headers-Forwards_example :
    Forwards lib client.ip ForwardScheme.https
      (codes "web.t.io")
      relayed
      (forward_headers lib client.ip ForwardScheme.https (codes "web.t.io") relayed)
forward_headers-Forwards_example =
    forward_headers-Forwards lib client.ip ForwardScheme.https (codes "web.t.io") relayed
