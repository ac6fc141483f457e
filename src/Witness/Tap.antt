-- ===== src/Witness/Tap.antt =====
-- The properties of the tap at concrete buffers.
use rustunnel.Prelude.{◌≡◌, true, some, List, [], ◌∷◌, ◌++◌, codes, arith}
use rustunnel.Core.Types.{Text}
use rustunnel.Client.Tap.{at_state, size, empty_body, feed_chunked}
use rustunnel.Client.Tap.Splits.{then_feed, feed_chunked-split}
use rustunnel.Client.Tap.Head.{Libraries}
use rustunnel.Client.Tap.State.{Clocks, new}
use rustunnel.Client.Tap.Returns.{
  GivesBounded, Observation, request_bytes, response_bytes, closed, observe_all,
  observe_all-GivesBounded,
}

-- A parser that takes every head for a chunked POST and a chunked answer.
abbrev lib : Libraries
lib = record {
  is_utf8 = λ s. true;
  from_utf8_lossy = λ s. s;
  parse_request = λ h.
      some
        (some (codes "POST"), some (codes "/"), (codes "Transfer-Encoding", codes "chunked") ∷ []);
  parse_response = λ h. some (some 200, (codes "Content-Length", codes "2") ∷ []);
}

abbrev clocks : Clocks
clocks = record { utc_now = 5; now = 7 }

abbrev traffic : List Observation
traffic =
    request_bytes clocks
      (codes "POST / HTTP/1.1" ++ 13 ∷ 10 ∷ 13 ∷ 10 ∷ codes "2" ++ 13 ∷ 10 ∷ codes "a")
    ∷ request_bytes clocks (codes "b" ++ 13 ∷ 10 ∷ codes "0" ++ 13 ∷ 10 ∷ 13 ∷ 10 ∷ [])
    ∷ response_bytes clocks (codes "HTTP/1.1 200 OK" ++ 10 ∷ 10 ∷ codes "ok")
    ∷ closed clocks
    ∷ []

observe_all-GivesBounded_example :
    GivesBounded (observe_all lib traffic (new (codes "web") 1 (codes "10.0.0.1")))
observe_all-GivesBounded_example =
    observe_all-GivesBounded lib traffic (codes "web") 1 (codes "10.0.0.1")

abbrev whole : Text
whole = codes "2" ++ 13 ∷ 10 ∷ codes "a"

abbrev rest : Text
rest = codes "b" ++ 13 ∷ 10 ∷ codes "0" ++ 13 ∷ 10 ∷ 13 ∷ 10 ∷ []

feed_chunked-split_example :
    feed_chunked (λ s. true) 20 (at_state size []) (some empty_body) 0 (whole ++ rest)
    ≡ then_feed
        (λ s. true)
        20
        rest
        (feed_chunked (λ s. true) 20 (at_state size []) (some empty_body) 0 whole)
feed_chunked-split_example =
    feed_chunked-split (λ s. true) 20 20 20 (at_state size []) (some empty_body) 0 whole rest tt
      (omega arith) (omega arith) (omega arith)
