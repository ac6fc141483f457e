-- ===== src/Limits/Window/Pruning.antt =====
-- The deque of instants that a sliding window keeps (core/ip_limiter.rs, auth.rs).
use rustunnel.Prelude.{
  ℕ, suc, ◌≤◌, ◌≡◌, refl, sym, ◌∙◌, ap, inl, inr, Bool-cases, true, false, List, [], ◌∷◌, ◌++◌, ltb,
  leb, length, if◌then◌else◌, arith,
}
use rustunnel.Core.Types.{Instant}
use rustunnel.Limits.Window.{prune}

-- How many of the instants are not before the cutoff.
unfoldable pub recent : Instant → List Instant → ℕ
recent cutoff [] = 0
recent cutoff (t ∷ ts) = let rest = recent cutoff ts in if leb cutoff t then suc rest else rest

prune_old : (c t : Instant) (ts : List Instant) → ltb t c ≡ true → prune c (t ∷ ts) ≡ prune c ts
unfolding prune
prune_old c t ts h = ground arith

prune_new : (c t : Instant) (ts : List Instant) → ltb t c ≡ false → prune c (t ∷ ts) ≡ t ∷ ts
unfolding prune
prune_new c t ts h = ground arith

recent-length : (c : Instant) (ts : List Instant) → recent c ts ≤ length ts
unfolding recent
recent-length c [] = ground arith
recent-length c (t ∷ ts) = ground (arith, recent-length c ts)

recent_cons :
    (c t : Instant) (ts : List Instant)
    → recent c (t ∷ ts) ≡ (if leb c t then suc (recent c ts) else recent c ts)
unfolding recent
recent_cons c t ts = refl

-- What is pruned away is not recent.
pub recent-prune : (c : Instant) (ts : List Instant) → recent c ts ≤ length (prune c ts)
recent-prune c [] = unfold recent prune in omega arith
recent-prune c (t ∷ ts) = elim (Bool-cases (ltb t c)) [
  | inl old ↦ rw (prune_old c t ts old) (ground (arith, recent_cons c t ts, recent-prune c ts))
  | inr new ↦ rw (prune_new c t ts new) (recent-length c (t ∷ ts))
]

pub prune-length : (c : Instant) (ts : List Instant) → length (prune c ts) ≤ length ts
prune-length c [] = unfold prune in omega arith
prune-length c (t ∷ ts) = elim (Bool-cases (ltb t c)) [
  | inl old ↦ rw (prune_old c t ts old) (omega (arith, prune-length c ts))
  | inr new ↦ rw (prune_new c t ts new) (omega arith)
]

-- A later cutoff prunes what an earlier one left as it prunes the whole.
pub prune-prune : (c d : Instant) (ts : List Instant) → c ≤ d → prune d (prune c ts) ≡ prune d ts
prune-prune c d [] h = unfold prune in refl
prune-prune c d (t ∷ ts) h = elim (Bool-cases (ltb t c)) [
  | inl old ↦
      rw (prune_old c t ts old) (prune-prune c d ts h ∙ sym (prune_old d t ts (ground arith)))
  | inr new ↦ rw (prune_new c t ts new) refl
]

-- What pruning leaves of a deque with one more instant, from what it leaves of the deque.
prune_after : Instant → Instant → List Instant → List Instant
prune_after c n [] = prune c (n ∷ [])
prune_after c n (t ∷ ts) = t ∷ (ts ++ n ∷ [])

prune-snoc :
    (c n : Instant) (xs : List Instant) → prune c (xs ++ n ∷ []) ≡ prune_after c n (prune c xs)
unfolding prune_after
prune-snoc c n [] = unfold prune in refl
prune-snoc c n (t ∷ ts) = elim (Bool-cases (ltb t c)) [
  | inl old ↦
      prune_old c t (ts ++ n ∷ []) old
      ∙ prune-snoc c n ts
      ∙ ap (prune_after c n) (sym (prune_old c t ts old))
  | inr new ↦ rw (prune_new c t ts new) (prune_new c t (ts ++ n ∷ []) new)
]

-- What is recorded after a deque is pruned in the same way whatever was pruned before.
pub prune-cons_cong :
    (c n : Instant) (xs ys : List Instant)
    → prune c xs ≡ prune c ys
    → prune c (xs ++ n ∷ []) ≡ prune c (ys ++ n ∷ [])
prune-cons_cong c n xs ys h = prune-snoc c n xs ∙ ap (prune_after c n) h ∙ sym (prune-snoc c n ys)
