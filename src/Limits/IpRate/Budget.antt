-- ===== src/Limits/IpRate/Budget.antt =====
-- What the sliding window of core/ip_limiter.rs lets through, over any sequence of requests.
use rustunnel.Prelude.{
  ℕ, ◌+◌, ◌-◌, ◌≤◌, ◌≡◌, refl, sym, ◌∙◌, ap, inl, inr, Bool-cases, Bool, true, false, List, [], ◌∷◌,
  ◌++◌, ltb, leb, nat_beq, length, length-append, if◌then◌else◌, arith,
}
use mathlib.Core.Path.{subst}
use rustunnel.Prelude.Eq.{◌==◌, eq_iff}
use rustunnel.Prelude.Map.{get, insert, get-insert, get-empty}
use rustunnel.Core.Types.{IpAddr, Instant, or_default, ip_eq}
use rustunnel.Limits.Window.{prune}
use rustunnel.Limits.Window.Pruning.{
  recent, recent-prune, prune-length, prune-prune, prune-cons_cong,
}
use rustunnel.Limits.IpRate.{IpRateLimiter, new, check}

-- The requests in the order in which they come, and those of them that were let through.
abbrev pub Requests : Type 0
Requests = List (IpAddr × Instant)

abbrev pub log_if : Bool → IpAddr → Instant → Requests → Requests
log_if true ip now log = log ++ (ip, now) ∷ []
log_if false ip now log = log

unfoldable pub serve : Requests → IpRateLimiter → Requests → IpRateLimiter × Requests
serve [] l log = (l, log)
serve ((ip, now) ∷ rs) l log =
    let (l', allowed) = check ip now l in serve rs l' (log_if allowed ip now log)

unfoldable pub accepted_of : IpAddr → Requests → List Instant
accepted_of ip [] = []
accepted_of ip ((j, t) ∷ log) = let rest = accepted_of ip log in if j == ip then t ∷ rest else rest

-- The clock does not run backwards.
abbrev pub IsOrdered : Instant → Requests → Type 0
IsOrdered t [] = Unit
IsOrdered t ((ip, now) ∷ rs) = (t ≤ now) × IsOrdered now rs

unfoldable pub last_time : Instant → Requests → Instant
last_time t [] = t
last_time t ((ip, now) ∷ rs) = last_time now rs

accepted_of-snoc :
    (ip j : IpAddr) (t : Instant) (log : Requests)
    → accepted_of ip (log ++ (j, t) ∷ [])
      ≡ (if j == ip then accepted_of ip log ++ t ∷ [] else accepted_of ip log)
unfolding accepted_of
accepted_of-snoc ip j t [] = ground arith
accepted_of-snoc ip j t ((i, u) ∷ log) = ground (arith, accepted_of-snoc ip j t log)

abbrev pub window_of : IpAddr → IpRateLimiter → List Instant
window_of ip l = or_default (get ip l.windows)

-- The deques are what pruning leaves of the accepted requests, and none is over the budget.
record Tracks (cut : Instant) (l : IpRateLimiter) (log : Requests) : Type 0 where
  small : (ip : IpAddr) → length (window_of ip l) ≤ l.max_per_window
  same :
      (ip : IpAddr) (c : Instant)
      → cut ≤ c
      → prune c (window_of ip l) ≡ prune c (accepted_of ip log)

abbrev stored : IpAddr → List Instant → IpRateLimiter → IpRateLimiter
stored ip entry l = record l { windows = insert ip entry l.windows }

window_of-stored :
    (ip j : IpAddr) (entry : List Instant) (l : IpRateLimiter)
    → window_of j (stored ip entry l) ≡ (if ip == j then entry else window_of j l)
window_of-stored ip j entry l = ground (arith, get-insert ip j entry l.windows)

-- The deque of an address as a request at a time sees it.
abbrev entry_at : IpAddr → Instant → IpRateLimiter → List Instant
entry_at ip now l = prune (now - l.window) (window_of ip l)

check_full :
    (ip : IpAddr) (now : Instant) (l : IpRateLimiter)
    → 1 ≤ l.max_per_window
    → leb l.max_per_window (length (entry_at ip now l)) ≡ true
    → check ip now l ≡ (stored ip (entry_at ip now l) l, false)
unfolding check
check_full ip now l on full =
    let n : nat_beq l.max_per_window 0 ≡ false = ground arith in rw (n, full) refl

check_room :
    (ip : IpAddr) (now : Instant) (l : IpRateLimiter)
    → 1 ≤ l.max_per_window
    → leb l.max_per_window (length (entry_at ip now l)) ≡ false
    → check ip now l ≡ (stored ip (entry_at ip now l ++ now ∷ []) l, true)
unfolding check
check_room ip now l on room =
    let n : nat_beq l.max_per_window 0 ≡ false = ground arith in rw (n, room) refl

module _ (ip : IpAddr) (now cut : Instant) (l : IpRateLimiter) (log : Requests)
    (h : cut ≤ now - l.window) (v : Tracks cut l log) where
  entry_same :
      (c : Instant)
      → now - l.window ≤ c
      → prune c (entry_at ip now l) ≡ prune c (accepted_of ip log)
  entry_same c k = prune-prune (now - l.window) c (window_of ip l) k ∙ v.same ip c (omega arith)

  refused-Tracks : Tracks (now - l.window) (stored ip (entry_at ip now l) l) log
  refused-Tracks = record {
    small = λ j. ground (
      arith,
      window_of-stored ip j (entry_at ip now l) l,
      v.small j,
      v.small ip,
      prune-length (now - l.window) (window_of ip l),
    );
    same = λ j c k. elim (Bool-cases (ip == j)) [
      | inl e ↦
          let q : ip ≡ j = (eq_iff ip j).0 e in
          rw (window_of-stored ip j (entry_at ip now l) l, e, sym q) (entry_same c k)
      | inr n ↦ rw (window_of-stored ip j (entry_at ip now l) l, n) (v.same j c (omega arith))
    ];
  }

  accepted-Tracks :
      leb l.max_per_window (length (entry_at ip now l)) ≡ false
      → Tracks
          (now - l.window)
          (stored ip (entry_at ip now l ++ now ∷ []) l)
          (log ++ (ip, now) ∷ [])
  accepted-Tracks room = record {
    small = λ j. ground (
      arith,
      window_of-stored ip j (entry_at ip now l ++ now ∷ []) l,
      v.small j,
      length-append (entry_at ip now l) (now ∷ []),
    );
    same = λ j c k. elim (Bool-cases (ip == j)) [
      | inl e ↦
          let q : ip ≡ j = (eq_iff ip j).0 e in
          rw
            (
              window_of-stored ip j (entry_at ip now l ++ now ∷ []) l,
              accepted_of-snoc j ip now log,
              e,
              sym q,
            )
            (prune-cons_cong c now (entry_at ip now l) (accepted_of ip log) (entry_same c k))
      | inr n ↦
          rw
            (
              window_of-stored ip j (entry_at ip now l ++ now ∷ []) l,
              accepted_of-snoc j ip now log,
              n,
            )
            (v.same j c (omega arith))
    ];
  }

-- A request keeps the limiter's limits, and the deques track what it lets through.
record Kept (ip : IpAddr) (now : Instant) (l : IpRateLimiter) (log : Requests)
    (r : IpRateLimiter × Bool) : Type 0 where
  tracks : Tracks (now - l.window) r.0 (log_if r.1 ip now log)
  max_same : r.0.max_per_window ≡ l.max_per_window
  window_same : r.0.window ≡ l.window

check-Kept :
    (ip : IpAddr) (now cut : Instant) (l : IpRateLimiter) (log : Requests)
    → 1 ≤ l.max_per_window
    → cut ≤ now - l.window
    → Tracks cut l log
    → Kept ip now l log (check ip now l)
check-Kept ip now cut l log on h v =
    elim (Bool-cases (leb l.max_per_window (length (entry_at ip now l)))) [
      | inl full ↦ rw (check_full ip now l on full) (record {
        tracks = refused-Tracks ip now cut l log h v;
        max_same = refl;
        window_same = refl;
      })
      | inr room ↦ rw (check_room ip now l on room) (record {
        tracks = accepted-Tracks ip now cut l log h v room;
        max_same = refl;
        window_same = refl;
      })
    ]

-- What the service of requests keeps.
record Served (cut : Instant) (l : IpRateLimiter) (r : IpRateLimiter × Requests) : Type 0 where
  tracks : Tracks cut r.0 r.1
  max_same : r.0.max_per_window ≡ l.max_per_window
  window_same : r.0.window ≡ l.window

serve-Served :
    (rs : Requests) (t : Instant) (l : IpRateLimiter) (log : Requests)
    → 1 ≤ l.max_per_window
    → IsOrdered t rs
    → Tracks (t - l.window) l log
    → Served (last_time t rs - l.window) l (serve rs l log)
unfolding serve last_time
serve-Served [] t l log on o v = record { tracks = v; max_same = refl; window_same = refl }
serve-Served ((ip, now) ∷ rs) t l log on (k, o) v =
    let a = check-Kept ip now (t - l.window) l log on (omega arith) v in
    let l' = (check ip now l).0 in
    let log' = log_if (check ip now l).1 ip now log in
    let start : Tracks (now - l'.window) l' log' =
      subst (λ w. Tracks (now - w) l' log') (sym a.window_same) a.tracks in
    let rest = serve-Served rs now l' log' (omega (arith, a.max_same)) o start in
    record {
      tracks =
          subst (λ w. Tracks (last_time now rs - w) (serve rs l' log').0 (serve rs l' log').1)
            a.window_same rest.tracks;
      max_same = rest.max_same ∙ a.max_same;
      window_same = rest.window_same ∙ a.window_same;
    }

new-Tracks : (cut : Instant) (max_per_second : ℕ) → Tracks cut (new max_per_second) []
unfolding new accepted_of
new-Tracks cut m = record {
  small = λ ip. ground (arith, get-empty {V = List Instant} ip);
  same = λ ip c k. rw (get-empty {V = List Instant} ip) refl;
}

served :
    (m : ℕ) (t : Instant) (rs : Requests)
    → 1 ≤ m
    → IsOrdered t rs
    → Served (last_time t rs - 1_000_000_000) (new m) (serve rs (new m) [])
served m t rs on o = unfold new in serve-Served rs t (new m) [] on o (new-Tracks _ m)

-- Whatever requests come, from whatever addresses, in the order of time, of those of one address
-- that the limiter lets through no more than the limit, if it is not 0, lie in the second before
-- the last of the requests or later.
pub serve-budget :
    (max_per_second : ℕ) (t : Instant) (rs : Requests) (ip : IpAddr) (c : Instant)
    → 1 ≤ max_per_second
    → IsOrdered t rs
    → last_time t rs ≤ c + 1_000_000_000
    → recent c (accepted_of ip (serve rs (new max_per_second) []).1) ≤ max_per_second
unfolding new
serve-budget m t rs ip c on o late =
    let s = served m t rs on o in
    let r = serve rs (new m) [] in
    let accepted = accepted_of ip r.1 in
    omega (
      arith,
      recent-prune c accepted,
      ap length (s.tracks.same ip c (omega arith)),
      prune-length c (window_of ip r.0),
      s.tracks.small ip,
      s.max_same,
    )

-- After any requests in the order of time, with a limit that is not 0, a later request is let
-- through exactly if, of the requests of its address that were let through, fewer than the limit
-- are left when those more than a second older are taken off the front.
pub check-exact :
    (max_per_second : ℕ) (t : Instant) (rs : Requests) (ip : IpAddr) (now : Instant)
    → 1 ≤ max_per_second
    → IsOrdered t rs
    → last_time t rs ≤ now
    → let r = serve rs (new max_per_second) [] in
      (check ip now r.0).1
      ≡ ltb (length (prune (now - 1_000_000_000) (accepted_of ip r.1))) max_per_second
unfolding new check
check-exact m t rs ip now on o late =
    let s = served m t rs on o in
    let r = serve rs (new m) [] in
    ground (arith, s.tracks.same ip (now - 1_000_000_000) (omega arith), s.max_same, s.window_same)
