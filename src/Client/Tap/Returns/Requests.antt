-- ===== src/Client/Tap/Returns/Requests.antt =====
-- One turn of `feed_request` of crates/rustunnel-client/src/inspect/tap.rs.
use rustunnel.Prelude.{
  ℕ, ◌≡◌, refl, ◌+◌, ◌*◌, ◌≤◌, Bool, true, false, Option, none, some, [], ◌∷◌, arith, if◌then◌else◌,
  length, drop, take, length-append, length-drop,
}
use rustunnel.Core.Types.{Text}
use rustunnel.Prelude.Map.{is_empty}
use rustunnel.Client.Tap.{FedFraming}
use rustunnel.Client.Tap.Head.{Headers, Libraries, head_end, parse_request_head, request_framing}
use rustunnel.Client.Tap.Whole.{LiveFraming, Feeds, feed-Feeds}
use rustunnel.Client.Tap.State.{
  Mode, head, body, passthrough, TapState, Clocks, Loop, again, return, max_pending, set_request,
  parser, mode_for, on_fed,
}
use rustunnel.Client.Tap.Requests.{
  request_turn, make_room, new_request, request_parsed, request_head, request_fed, set_last_body,
  last_body,
}
use rustunnel.Client.Tap.Returns.Turns.{
  BoundedParser, LiveMode, in_body, RequestTurns, passed-Bounded, no_head_yet-Bounded, head_end-pos,
  request_framing-Live, set_last_body-length, make_room-length, in_body-le, is_empty-length,
  nothing-Bounded,
}

module _ (lib : Libraries) (k : Clocks) (t : TapState)
    (queued : length t.pending ≤ max_pending) where
  request_parsed-Turns :
      (buffer : Text) (n : ℕ) (parsed : Option (Text × Text × Headers))
      → (1 ≤ n) × (1 ≤ length buffer)
      → BoundedParser t.response
      → RequestTurns (2 * length buffer + 0) (some (request_parsed k (drop n buffer) t parsed))
  request_parsed-Turns buffer n none some_used other = record {
    queued = queued;
    request = passed-Bounded;
    response = other;
  }
  request_parsed-Turns buffer n (some (m, p, hs)) some_used other = (
    record {
      queued = omega (
        arith,
        length-append (make_room t.pending) (new_request k m p hs ∷ []),
        make_room-length t.pending queued,
      );
      live = request_framing-Live hs;
      response = other;
    },
    omega (
      arith,
      length-drop n buffer,
      in_body-le (mode_for (request_framing hs)),
      some_used.0,
      some_used.1,
    ),
  )

  request_head-Turns :
      (buffer : Text) (o : Option ℕ)
      → head_end buffer ≡ o
      → BoundedParser t.response
      → RequestTurns (2 * length buffer + 0) (some (request_head lib k buffer t o))
  request_head-Turns buffer none e other = record {
    queued = queued;
    request = no_head_yet-Bounded buffer;
    response = other;
  }
  request_head-Turns buffer (some n) e other =
      request_parsed-Turns buffer n (parse_request_head lib (take n buffer))
        (head_end-pos buffer n e) other

  request_fed-Turns :
      (buffer : Text) (r : Option FedFraming)
      → Feeds buffer r
      → BoundedParser t.response
      → RequestTurns (2 * length buffer + 1) (on_fed (request_fed buffer t) r)
  request_fed-Turns buffer none h other = elim h [ ]
  request_fed-Turns buffer (some f) h other = at f.ended h
    where
      rest : Text
      rest = drop f.consumed buffer

      written : TapState
      written = record t { pending = set_last_body f.sink t.pending }

      at :
          (b : Bool)
          → (b ≡ false → (rest ≡ []) × LiveFraming f.framing)
          → RequestTurns (2 * length buffer + 1) (
              some (
                if b
                then again (set_request (parser head rest) written)
                else return (set_request (parser (body f.framing) rest) written)))
      at true w = (
        record {
          queued = omega (arith, queued, set_last_body-length f.sink t.pending);
          live = tt;
          response = other;
        },
        omega (arith, length-drop f.consumed buffer),
      )
      at false w = record {
        queued = omega (arith, queued, set_last_body-length f.sink t.pending);
        request = nothing-Bounded f.framing rest (w refl);
        response = other;
      }

  if-Turns :
      (n : ℕ) (b : Bool) (x y : Option Loop)
      → (b ≡ true → RequestTurns n x)
      → RequestTurns n y
      → RequestTurns n (if b then x else y)
  if-Turns n true x y p q = p refl
  if-Turns n false x y p q = q

  pub request_turn-RequestTurns :
      (mode : Mode) (buffer : Text)
      → LiveMode mode
      → BoundedParser t.response
      → RequestTurns (2 * length buffer + in_body mode) (request_turn lib k mode buffer t)
  unfolding request_turn
  request_turn-RequestTurns passthrough buffer v other = record {
    queued = queued;
    request = passed-Bounded;
    response = other;
  }
  request_turn-RequestTurns head buffer v other =
      request_head-Turns buffer (head_end buffer) refl other
  request_turn-RequestTurns (body framing) buffer v other =
      if-Turns (2 * length buffer + 1) (is_empty buffer) _ _
        (λ e. record {
          queued = queued;
          request = record { live = v; buffered = is_empty-length buffer e };
          response = other;
        })
        (request_fed-Turns buffer _ (feed-Feeds lib.is_utf8 framing buffer (last_body t.pending) v)
          other)
