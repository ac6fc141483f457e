-- ===== src/Core/Members/Ring.antt =====
-- The health timeline of a member (core/tunnel.rs, `record_health_event`).
use rustunnel.Prelude.{
  ◌+◌, ◌-◌, ◌≤◌, ◌≡◌, refl, sym, ◌∙◌, ap, List, [], ◌∷◌, ◌++◌, arith, length, drop, length-append,
  drop-append, drop-drop, length-drop, Bool-cases, leb, inl, inr,
}
use mathlib.Core.List.{append_assoc, append-nil}
use rustunnel.Core.Types.{HealthEvent, GroupMember}
use rustunnel.Core.Members.{health_event_ring_size, push_ring, record_health_event}

-- The transitions of a member in the order in which they are recorded.
unfoldable pub record_all : List HealthEvent → GroupMember → GroupMember
record_all [] m = m
record_all (e ∷ es) m = record_all es (record_health_event e.at e.healthy e.reason m)

-- The newest entries of a timeline, at most as many as the ring holds.
unfoldable pub latest : List HealthEvent → List HealthEvent
latest es = drop (length es - health_event_ring_size) es

push_ring-latest :
    (e : HealthEvent) (ring : List HealthEvent)
    → length ring ≤ health_event_ring_size
    → push_ring e ring ≡ latest (ring ++ e ∷ [])
unfolding push_ring latest
push_ring-latest e ring h = elim (Bool-cases (leb health_event_ring_size (length ring))) [
  | inl full ↦
      let n : length (ring ++ e ∷ []) - 50 ≡ 1 = ground (arith, length-append ring (e ∷ [])) in
      rw (full, n) (sym (drop-append 1 ring (e ∷ []) (ground arith)))
  | inr room ↦
      let n : length (ring ++ e ∷ []) - 50 ≡ 0 = ground (arith, length-append ring (e ∷ [])) in
      rw (room, n) refl
]

latest-append : (xs ys : List HealthEvent) → latest (latest xs ++ ys) ≡ latest (xs ++ ys)
unfolding latest
latest-append xs ys =
    let k = length xs - 50 in
    let front : drop k xs ++ ys ≡ drop k (xs ++ ys) = sym (drop-append k xs ys (omega arith)) in
    let n : k + (length (drop k (xs ++ ys)) - 50) ≡ length (xs ++ ys) - 50 =
      omega (arith, length-drop k (xs ++ ys), length-append xs ys) in
    rw front (drop-drop _ k (xs ++ ys) ∙ ap (λ m. drop m (xs ++ ys)) n)

latest-length : (xs : List HealthEvent) → length (latest xs) ≤ health_event_ring_size
unfolding latest
latest-length xs = omega (arith, length-drop (length xs - 50) xs)

latest_short : (xs : List HealthEvent) → length xs ≤ health_event_ring_size → latest xs ≡ xs
unfolding latest
latest_short xs h = let n : length xs - 50 ≡ 0 = omega arith in rw n refl

-- Whatever transitions are recorded on a member whose timeline fits the ring, the timeline is then
-- the latest 50 entries of the old timeline followed by the new transitions, in order.
pub record_all-latest :
    (es : List HealthEvent) (m : GroupMember)
    → length m.health_events ≤ health_event_ring_size
    → (record_all es m).health_events ≡ latest (m.health_events ++ es)
unfolding record_all record_health_event
record_all-latest [] m h = rw append-nil (sym (latest_short m.health_events h))
record_all-latest (e ∷ es) m h =
    let pushed = push_ring-latest e m.health_events h in
    record_all-latest es (record_health_event e.at e.healthy e.reason m)
      (rw pushed (latest-length (m.health_events ++ e ∷ [])))
    ∙ ap (λ ring. latest (ring ++ es)) pushed
    ∙ latest-append (m.health_events ++ e ∷ []) es
    ∙ ap latest (append_assoc m.health_events (e ∷ []) es)
