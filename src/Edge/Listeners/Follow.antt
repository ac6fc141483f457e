-- ===== src/Edge/Listeners/Follow.antt =====
-- Which ports have a listener after events and resyncs (edge/tcp.rs and edge/udp.rs).
use rustunnel.Prelude.{
  ℕ, ◌≡◌, refl, ap, ◌∙◌, Bool, false, not, ◌&&◌, ◌||◌, none, List, [], ◌∷◌, ◌++◌, arith, nat_beq,
  nat_beq_iff, is_some, contains, if◌then◌else◌, Bool-cases, inl, inr,
}
use rustunnel.Prelude.Eq.{nat_eq}
use rustunnel.Prelude.Map.{Map, get, contains_key, get-empty, get-insert, get-remove}
use rustunnel.Edge.Listeners.{
  Listeners, Received, registered, unregistered, lagged, closed, no_listeners, ports,
  start_listener, stop_listener, retain_active, start_missing, resync_listeners, on_received,
}

abbrev pub has_listener : ℕ → Listeners → Bool
has_listener p ls = contains_key p ls.handles

pub has_listener-start :
    (p q : ℕ) (ls : Listeners)
    → has_listener p (start_listener q ls) ≡ (nat_beq q p || has_listener p ls)
unfolding start_listener
has_listener-start p q ls = ground (arith, get-insert q p ls.next_task ls.handles)

pub has_listener-stop :
    (p q : ℕ) (ls : Listeners)
    → has_listener p (stop_listener q ls) ≡ (not (nat_beq q p) && has_listener p ls)
unfolding stop_listener
has_listener-stop p q ls = ground (arith, get-remove q p ls.handles)

pub get-retain_active :
    (p : ℕ) (active : List ℕ) (hs running : Map ℕ ℕ)
    → get p (retain_active active hs running).0 ≡ (if contains p active then get p hs else none)
unfolding retain_active get
get-retain_active p active [] running = ground arith
get-retain_active p active ((q, t) ∷ hs) running =
    ground (arith, get-retain_active p active hs running, nat_beq_iff q p)

has_listener-missing :
    (p : ℕ) (active : List ℕ) (ls : Listeners)
    → has_listener p (start_missing active ls) ≡ (contains p active || has_listener p ls)
unfolding start_missing
has_listener-missing p [] ls = refl
has_listener-missing p (q ∷ active) ls = elim (Bool-cases (contains_key q ls.handles)) [
  | inl e ↦ ground (arith, has_listener-missing p active ls, nat_beq_iff q p)
  | inr e ↦ ground (
    arith,
    has_listener-missing p active (start_listener q ls),
    has_listener-start p q ls,
    nat_beq_iff q p,
  )
]

-- After a resync the ports with a listener are the active ones.
pub has_listener-resync :
    (p : ℕ) (active : List ℕ) (ls : Listeners)
    → has_listener p (resync_listeners active ls) ≡ contains p active
unfolding resync_listeners
has_listener-resync p active ls =
    let (kept, left) = retain_active active ls.handles ls.running in
    ground (
      arith,
      has_listener-missing p active (record ls { handles = kept; running = left }),
      get-retain_active p active ls.handles ls.running,
    )

pub contains-ports {ℓ} :
    {V : Type ℓ} (p : ℕ) (m : Map ℕ V) → contains p (ports m) ≡ contains_key p m
unfolding ports get
contains-ports p [] = refl
contains-ports p ((q, v) ∷ m) = ground (arith, contains-ports p m)

-- The events in the order of a list of the newest first.
unfoldable pub follow : List Received → Listeners → Listeners
follow [] ls = ls
follow (e ∷ es) ls = on_received [] e (follow es ls)

-- Whether a port is announced by the newest event that names it, or at the start.
unfoldable pub announced : Bool → ℕ → List Received → Bool
announced start p [] = start
announced start p (registered q ∷ es) = nat_beq q p || announced start p es
announced start p (unregistered q ∷ es) = not (nat_beq q p) && announced start p es
announced start p (lagged ∷ es) = false
announced start p (closed ∷ es) = false

pub announced-append :
    (start : Bool) (p : ℕ) (es fs : List Received)
    → announced start p (es ++ fs) ≡ announced (announced start p fs) p es
unfolding announced
announced-append start p [] fs = refl
announced-append start p (registered q ∷ es) fs =
    ap (◌||◌ (nat_beq q p)) (announced-append start p es fs)
announced-append start p (unregistered q ∷ es) fs =
    ap (◌&&◌ (not (nat_beq q p))) (announced-append start p es fs)
announced-append start p (lagged ∷ es) fs = refl
announced-append start p (closed ∷ es) fs = refl

pub has_listener-follow :
    (p : ℕ) (es : List Received) (ls : Listeners)
    → has_listener p (follow es ls) ≡ announced (has_listener p ls) p es
unfolding follow announced on_received no_listeners
has_listener-follow p [] ls = refl
has_listener-follow p (registered q ∷ es) ls =
    has_listener-start p q (follow es ls) ∙ ap (◌||◌ (nat_beq q p)) (has_listener-follow p es ls)
has_listener-follow p (unregistered q ∷ es) ls =
    has_listener-stop p q (follow es ls)
    ∙ ap (◌&&◌ (not (nat_beq q p))) (has_listener-follow p es ls)
has_listener-follow p (lagged ∷ es) ls = has_listener-resync p [] (follow es ls)
has_listener-follow p (closed ∷ es) ls = ap is_some (get-empty {V = ℕ} p)
