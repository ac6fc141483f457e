-- ===== src/Client/Tap/Returns/Responses.antt =====
-- One turn of `feed_response` of crates/rustunnel-client/src/inspect/tap.rs.
use rustunnel.Prelude.{
  ℕ, ◌≡◌, refl, sym, ◌+◌, ◌*◌, ◌≤◌, Bool, true, false, not, ◌&&◌, Option, none, some, [], arith,
  if◌then◌else◌, length, drop, take, length-drop, nat_beq, leb, ltb,
}
use mathlib.Core.Path.{subst}
use rustunnel.Prelude.Map.{is_empty}
use rustunnel.Core.Types.{Text}
use rustunnel.Client.Tap.{Framing, FedFraming}
use rustunnel.Client.Tap.Head.{Headers, Libraries, head_end, parse_response_head, response_framing}
use rustunnel.Client.Tap.Whole.{LiveFraming, Feeds, feed-Feeds}
use rustunnel.Client.Tap.State.{
  Mode, head, body, passthrough, TapState, Clocks, Loop, again, return, max_pending, set_response,
  parser, mode_for, on_fed, complete_exchange,
}
use rustunnel.Client.Tap.Answers.{
  response_turn, response_parsed, response_head, response_fed, by_framing, responding,
  response_body, set_body, first_method,
}
use rustunnel.Client.Tap.Returns.Turns.{
  LiveMode, BoundedParser, in_body, ResponseTurns, passed-Bounded, no_head_yet-Bounded,
  head_end-pos, response_framing-Live, is_empty-length, nothing-Bounded, complete_exchange-Shrinks,
}

completed-queued :
    (k : Clocks) (t : TapState)
    → length t.pending ≤ max_pending
    → length (complete_exchange k t).pending ≤ max_pending
completed-queued k t h = omega (arith, h, (complete_exchange-Shrinks k t).shorter)

completed-request :
    (k : Clocks) (t : TapState)
    → BoundedParser t.request
    → BoundedParser (complete_exchange k t).request
completed-request k t h = subst BoundedParser (sym (complete_exchange-Shrinks k t).request) h

module _ (n : ℕ) where
  if-Turns :
      (b : Bool) (x y : Option Loop)
      → (b ≡ true → ResponseTurns n x)
      → ResponseTurns n y
      → ResponseTurns n (if b then x else y)
  if-Turns true x y p q = p refl
  if-Turns false x y p q = q

  if-Loop :
      (b : Bool) (x y : Loop)
      → ResponseTurns n (some x)
      → ResponseTurns n (some y)
      → ResponseTurns n (some (if b then x else y))
  if-Loop true x y p q = p
  if-Loop false x y p q = q

module _ (lib : Libraries) (k : Clocks) (t : TapState) (queued : length t.pending ≤ max_pending)
    (other : BoundedParser t.request) where
  by_framing-Turns :
      (status : ℕ) (hs : Headers) (buffer : Text) (n : ℕ) (o : Option Framing)
      → (1 ≤ n) × (1 ≤ length buffer)
      → LiveMode (mode_for o)
      → ResponseTurns
          (2 * length buffer + 0)
          (some (by_framing k (drop n buffer) (responding status hs t) o))
  by_framing-Turns status hs buffer n none u v = (
    record {
      queued = completed-queued k (responding status hs t) queued;
      live = tt;
      request = completed-request k (responding status hs t) other;
    },
    omega (arith, length-drop n buffer, u.0, u.1),
  )
  by_framing-Turns status hs buffer n (some framing) u v = (
    record { queued = queued; live = v; request = other },
    omega (arith, length-drop n buffer, u.0, u.1),
  )

  response_parsed-Turns :
      (buffer : Text) (n : ℕ) (parsed : Option (ℕ × Headers))
      → (1 ≤ n) × (1 ≤ length buffer)
      → ResponseTurns (2 * length buffer + 0) (some (response_parsed k (drop n buffer) t parsed))
  response_parsed-Turns buffer n none u = record {
    queued = queued;
    request = other;
    response = passed-Bounded;
  }
  response_parsed-Turns buffer n (some (status, hs)) u =
      if-Loop (2 * length buffer + 0) (leb 100 status && ltb status 200 && not (nat_beq status 101))
        _ _
        (
          record { queued = queued; live = tt; request = other },
          omega (arith, length-drop n buffer, u.0, u.1),
        )
        (if-Loop (2 * length buffer + 0) (nat_beq status 101) _ _
          (record {
            queued = completed-queued k (responding status hs t) queued;
            request = passed-Bounded;
            response = passed-Bounded;
          })
          (by_framing-Turns status hs buffer n (response_framing status (first_method t.pending) hs)
            u (response_framing-Live status (first_method t.pending) hs)))

  response_head-Turns :
      (buffer : Text) (o : Option ℕ)
      → head_end buffer ≡ o
      → ResponseTurns (2 * length buffer + 0) (some (response_head lib k buffer t o))
  response_head-Turns buffer none e = record {
    queued = queued;
    request = other;
    response = no_head_yet-Bounded buffer;
  }
  response_head-Turns buffer (some n) e =
      response_parsed-Turns buffer n (parse_response_head lib (take n buffer))
        (head_end-pos buffer n e)

  response_fed-Turns :
      (buffer : Text) (r : Option FedFraming)
      → Feeds buffer r
      → ResponseTurns (2 * length buffer + 1) (on_fed (response_fed k buffer t) r)
  response_fed-Turns buffer none h = elim h [ ]
  response_fed-Turns buffer (some f) h = at f.ended h
    where
      rest : Text
      rest = drop f.consumed buffer

      written : TapState
      written = record t { current_response = set_body f.sink t.current_response }

      at :
          (b : Bool)
          → (b ≡ false → (rest ≡ []) × LiveFraming f.framing)
          → ResponseTurns (2 * length buffer + 1) (
              some (
                if b
                then again (set_response (parser head rest) (complete_exchange k written))
                else return (set_response (parser (body f.framing) rest) written)))
      at true w = (
        record {
          queued = completed-queued k written queued;
          live = tt;
          request = completed-request k written other;
        },
        omega (arith, length-drop f.consumed buffer),
      )
      at false w = record {
        queued = queued;
        request = other;
        response = nothing-Bounded f.framing rest (w refl);
      }

  pub response_turn-ResponseTurns :
      (mode : Mode) (buffer : Text)
      → LiveMode mode
      → ResponseTurns (2 * length buffer + in_body mode) (response_turn lib k mode buffer t)
  unfolding response_turn
  response_turn-ResponseTurns passthrough buffer v = record {
    queued = queued;
    request = other;
    response = passed-Bounded;
  }
  response_turn-ResponseTurns head buffer v = response_head-Turns buffer (head_end buffer) refl
  response_turn-ResponseTurns (body framing) buffer v =
      if-Turns (2 * length buffer + 1) (is_empty buffer) _ _
        (λ e. record {
          queued = queued;
          request = other;
          response = record { live = v; buffered = is_empty-length buffer e };
        })
        (response_fed-Turns buffer _
          (feed-Feeds lib.is_utf8 framing buffer (response_body t.current_response) v))
