-- ===== src/Client/Tap/Returns.antt =====
-- The tap of crates/rustunnel-client/src/inspect/tap.rs never hangs, and what it keeps is bounded.
pub mod Turns
pub mod Requests
pub mod Responses
use rustunnel.Prelude.{
  ℕ, zero, suc, ◌≡◌, refl, sym, ap, ◌∙◌, ◌+◌, ◌*◌, ◌≤◌, ◌<◌, Bool, true, false, Option, none, some,
  List, [], ◌∷◌, ◌++◌, arith, if◌then◌else◌, length,
}
use mathlib.Core.Path.{subst}
use rustunnel.Core.Types.{Text, Uuid}
use rustunnel.Client.Tap.Head.{Libraries}
use rustunnel.Client.Tap.State.{
  Mode, head, body, passthrough, TapState, Clocks, Loop, again, return, max_pending, finish,
  finish_at, new, is_passthrough, enough_fuel, set_request, set_response, parser, complete_exchange,
}
use rustunnel.Client.Tap.Answers.{response_turn, response_loop, feed_response}
use rustunnel.Client.Tap.Requests.{request_turn, request_loop, feed_request}
use rustunnel.Client.Tap.{until_eof, length_left, chunked}
use rustunnel.Client.Tap.Returns.Turns.{
  LiveMode, BoundedParser, IsBounded, InRequest, InResponse, measure, in_body, in_body-le,
  RequestTurns, ResponseTurns, complete_exchange-Shrinks,
}
use rustunnel.Client.Tap.Returns.Requests.{request_turn-RequestTurns}
use rustunnel.Client.Tap.Returns.Responses.{response_turn-ResponseTurns}

-- A step gives a state, and what it keeps is bounded.
abbrev pub GivesBounded : Option TapState → Type 0
GivesBounded none = ⊥
GivesBounded (some t) = IsBounded t

request_loop-GivesBounded :
    (lib : Libraries) (k : Clocks) (fuel : ℕ) (t : TapState)
    → InRequest t
    → measure t.request < fuel
    → GivesBounded (request_loop lib k fuel t)
unfolding request_loop
request_loop-GivesBounded lib k zero t v h = absurd (omega arith)
request_loop-GivesBounded lib k (suc fuel) t v h =
    next (request_turn lib k t.request.mode t.request.buffer t)
      (request_turn-RequestTurns lib k t v.queued t.request.mode t.request.buffer v.live v.response)
      (λ t2. request_loop-GivesBounded lib k fuel t2)
  where
    next :
        (o : Option Loop)
        → RequestTurns (measure t.request) o
        → ((t2 : TapState)
            → InRequest t2
            → measure t2.request < fuel
            → GivesBounded (request_loop lib k fuel t2))
        → GivesBounded (elim o as (λ x. Option TapState) [
          | none ↦ none
          | some (again t') ↦ request_loop lib k fuel t'
          | some (return t') ↦ some t'
        ])
    next none w rest = elim w [ ]
    next (some (again t')) (w, less) rest = rest t' w (omega (arith, less, h))
    next (some (return t')) w rest = w

response_loop-GivesBounded :
    (lib : Libraries) (k : Clocks) (fuel : ℕ) (t : TapState)
    → InResponse t
    → measure t.response < fuel
    → GivesBounded (response_loop lib k fuel t)
unfolding response_loop
response_loop-GivesBounded lib k zero t v h = absurd (omega arith)
response_loop-GivesBounded lib k (suc fuel) t v h =
    next (response_turn lib k t.response.mode t.response.buffer t)
      (response_turn-ResponseTurns lib k t v.queued v.request t.response.mode t.response.buffer
        v.live)
      (λ t2. response_loop-GivesBounded lib k fuel t2)
  where
    next :
        (o : Option Loop)
        → ResponseTurns (measure t.response) o
        → ((t2 : TapState)
            → InResponse t2
            → measure t2.response < fuel
            → GivesBounded (response_loop lib k fuel t2))
        → GivesBounded (elim o as (λ x. Option TapState) [
          | none ↦ none
          | some (again t') ↦ response_loop lib k fuel t'
          | some (return t') ↦ some t'
        ])
    next none w rest = elim w [ ]
    next (some (again t')) (w, less) rest = rest t' w (omega (arith, less, h))
    next (some (return t')) w rest = w

if-GivesBounded :
    (b : Bool) (x y : Option TapState)
    → GivesBounded x
    → GivesBounded y
    → GivesBounded (if b then x else y)
if-GivesBounded true x y p q = p
if-GivesBounded false x y p q = q

feed_request-GivesBounded :
    (lib : Libraries) (k : Clocks) (bytes : Text) (t : TapState)
    → IsBounded t
    → GivesBounded (feed_request lib k bytes t)
unfolding feed_request
feed_request-GivesBounded lib k bytes t v = if-GivesBounded (is_passthrough t.request.mode) _ _ v (
    request_loop-GivesBounded lib k _ _
      (record { queued = v.queued; live = v.request.live; response = v.response })
      (omega (arith, in_body-le t.request.mode)))

feed_response-GivesBounded :
    (lib : Libraries) (k : Clocks) (bytes : Text) (t : TapState)
    → IsBounded t
    → GivesBounded (feed_response lib k bytes t)
unfolding feed_response
feed_response-GivesBounded lib k bytes t v =
    if-GivesBounded (is_passthrough t.response.mode) _ _ v (
      response_loop-GivesBounded lib k _ _
        (record { queued = v.queued; live = v.response.live; request = v.request })
        (omega (arith, in_body-le t.response.mode)))

completed-IsBounded : (k : Clocks) (t : TapState) → IsBounded t → IsBounded (complete_exchange k t)
completed-IsBounded k t v =
    let s = complete_exchange-Shrinks k t in
    record {
      queued = omega (arith, v.queued, s.shorter);
      request = subst BoundedParser (sym s.request) v.request;
      response = subst BoundedParser (sym s.response) v.response;
    }

finish-IsBounded : (k : Clocks) (t : TapState) → IsBounded t → IsBounded (finish k t)
unfolding finish
finish-IsBounded k t v = at t.response.mode
  where
    at : (m : Mode) → IsBounded (finish_at k t m)
    at head = v
    at passthrough = v
    at (body until_eof) = completed-IsBounded k t v
    at (body (length_left n)) = v
    at (body (chunked s)) = v

-- What a connection does to its tap.
pub data Observation : Type 0 where
  request_bytes response_bytes : Clocks → Text → Observation
  closed : Clocks → Observation

abbrev pub observe : Libraries → Observation → TapState → Option TapState
observe lib (request_bytes k bytes) t = feed_request lib k bytes t
observe lib (response_bytes k bytes) t = feed_response lib k bytes t
observe lib (closed k) t = some (finish k t)

unfoldable pub observe_all : Libraries → List Observation → TapState → Option TapState
observe_all lib [] t = some t
observe_all lib (o ∷ os) t = elim (observe lib o t) [
  | none ↦ none
  | some t' ↦ observe_all lib os t'
]

observe-GivesBounded :
    (lib : Libraries) (o : Observation) (t : TapState)
    → IsBounded t
    → GivesBounded (observe lib o t)
observe-GivesBounded lib (request_bytes k bytes) t v = feed_request-GivesBounded lib k bytes t v
observe-GivesBounded lib (response_bytes k bytes) t v = feed_response-GivesBounded lib k bytes t v
observe-GivesBounded lib (closed k) t v = finish-IsBounded k t v

all-GivesBounded :
    (lib : Libraries) (os : List Observation) (t : TapState)
    → IsBounded t
    → GivesBounded (observe_all lib os t)
unfolding observe_all
all-GivesBounded lib [] t v = v
all-GivesBounded lib (o ∷ os) t v =
    next (observe lib o t) (observe-GivesBounded lib o t v) (all-GivesBounded lib os)
  where
    next :
        (r : Option TapState)
        → GivesBounded r
        → ((t2 : TapState) → IsBounded t2 → GivesBounded (observe_all lib os t2))
        → GivesBounded
            (elim r as (λ x. Option TapState) [ none ↦ none | some t' ↦ observe_all lib os t' ])
    next none w rest = elim w [ ]
    next (some t') w rest = rest t' w

new-IsBounded : (tunnel : Text) (conn_id : Uuid) (addr : Text) → IsBounded (new tunnel conn_id addr)
unfolding new
new-IsBounded tunnel conn_id addr = record {
  queued = omega arith;
  request = record { live = tt; buffered = omega arith };
  response = record { live = tt; buffered = omega arith };
}

-- Whatever bytes come in either direction, in whatever pieces and order, and whatever the parsers
-- of heads find, the tap's loops come to an end within their fuel, and after each call at most 64
-- requests wait for a response and neither buffer holds more than 64 KiB.
pub observe_all-GivesBounded :
    (lib : Libraries) (os : List Observation) (tunnel : Text) (conn_id : Uuid) (addr : Text)
    → GivesBounded (observe_all lib os (new tunnel conn_id addr))
observe_all-GivesBounded lib os tunnel conn_id addr =
    all-GivesBounded lib os (new tunnel conn_id addr) (new-IsBounded tunnel conn_id addr)
