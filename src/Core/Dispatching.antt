-- ===== src/Core/Dispatching.antt =====
-- What the resolution of a public connection (core/router.rs, `resolve_*` and `dispatch_member`)
-- promises: it reaches healthy members of the route's group and no others.
use rustunnel.Prelude.{
  ℕ, zero, suc, ◌%◌, ◌<◌, ◌≡◌, ◌≢◌, refl, ap, ◌⊎◌, inl, inr, Bool, true, false, none, some, List,
  [], ◌∷◌, arith, Option-cases, Bool-cases, length, if◌then◌else◌,
}
use rustunnel.Prelude.Eq.{nat_eq}
use rustunnel.Prelude.Map.{Map, get}
use mathlib.Core.Path.{subst}
use native.Mathlib.Nat.{mod-eq_of_lt}
use rustunnel.Core.Types.{Uuid, TunnelInfo, GroupMember, TunnelGroup, SessionInfo}
use rustunnel.Core.Members.{count_healthy, healthy_count}
use rustunnel.Core.Router.{TunnelCore, TunnelKey}
use rustunnel.Core.Router.Health.{group_at, change_group, on_member}
use rustunnel.Core.Router.Dispatch.{
  healthy_infos, nth, choose, count_request, count_request_of, dispatch_member, resolve,
}

-- Some member among these is healthy and has this info.
abbrev pub Serves : TunnelInfo → Map Uuid GroupMember → Type 0
Serves i [] = ⊥
Serves i ((id, m) ∷ ms) = ((m.healthy ≡ true) × (m.info ≡ i)) ⊎ Serves i ms

abbrev In : TunnelInfo → List TunnelInfo → Type 0
In i [] = ⊥
In i (x ∷ xs) = (x ≡ i) ⊎ In i xs

nth-In : (xs : List TunnelInfo) (n : ℕ) (i : TunnelInfo) → nth xs n ≡ some i → In i xs
nth-In [] n i h = cc
nth-In (x ∷ xs) zero i h = inl (ground arith)
nth-In (x ∷ xs) (suc n) i h = inr (nth-In xs n i h)

In-nth :
    (xs : List TunnelInfo) (i : TunnelInfo)
    → In i xs
    → (n : ℕ) × (n < length xs) × (nth xs n ≡ some i)
In-nth [] i h = absurd h
In-nth (x ∷ xs) i (inl e) = (0, omega arith, ap some e)
In-nth (x ∷ xs) i (inr h) = let (n, l, e) = In-nth xs i h in (suc n, omega arith, e)

healthy_infos-Serves :
    (id : Uuid) (m : GroupMember) (ms : Map Uuid GroupMember) (i : TunnelInfo) (b : Bool)
    → m.healthy ≡ b
    → (In i (healthy_infos ms) → Serves i ms)
    → In i (if b then m.info ∷ healthy_infos ms else healthy_infos ms)
    → Serves i ((id, m) ∷ ms)
healthy_infos-Serves id m ms i true e rest (inl h) = inl (e, h)
healthy_infos-Serves id m ms i true e rest (inr h) = inr (rest h)
healthy_infos-Serves id m ms i false e rest h = inr (rest h)

In-Serves : (ms : Map Uuid GroupMember) (i : TunnelInfo) → In i (healthy_infos ms) → Serves i ms
unfolding healthy_infos
In-Serves [] i h = h
In-Serves ((id, m) ∷ ms) i h = healthy_infos-Serves id m ms i m.healthy refl (In-Serves ms i) h

Serves-In : (ms : Map Uuid GroupMember) (i : TunnelInfo) → Serves i ms → In i (healthy_infos ms)
unfolding healthy_infos
Serves-In [] i h = h
Serves-In ((id, m) ∷ ms) i (inl (up, e)) = rw up (inl e)
Serves-In ((id, m) ∷ ms) i (inr h) = elim (Bool-cases m.healthy) [
  | inl up ↦ rw up (inr (Serves-In ms i h))
  | inr down ↦ rw down (Serves-In ms i h)
]

choose-In : (pick : ℕ) (xs : List TunnelInfo) (i : TunnelInfo) → choose pick xs ≡ some i → In i xs
choose-In pick [] i h = cc
choose-In pick (x ∷ xs) i h = nth-In (x ∷ xs) (pick % length (x ∷ xs)) i h

In-choose :
    (xs : List TunnelInfo) (i : TunnelInfo) → In i xs → (pick : ℕ) × (choose pick xs ≡ some i)
In-choose [] i h = absurd h
In-choose (x ∷ xs) i h = let (n, l, e) = In-nth (x ∷ xs) i h in (n, rw (mod-eq_of_lt l) e)

-- A resolution that succeeds returns the info, with the request counted, of some healthy member of
-- the group under the key and the control channel of that member's session, which is live, and
-- changes only that member's request count.
pub resolve-Serves :
    (pick : ℕ) (k : TunnelKey) (c : TunnelCore) {c' : TunnelCore} {info : TunnelInfo} {tx : ℕ}
    → resolve pick k c ≡ (c', some (info, tx))
    → (g : TunnelGroup) × (i : TunnelInfo) × (s : SessionInfo) × (group_at k c ≡ some g)
      × Serves i g.members
      × (get i.session_id c.sessions ≡ some s)
      × (s.control_tx ≡ tx)
      × (info ≡ count_request_of i)
      × (c' ≡ change_group k (on_member i.tunnel_id count_request) c)
unfolding resolve dispatch_member
resolve-Serves pick k c h = elim (Option-cases (group_at k c)) [
  | inl e ↦ absurd (ground arith)
  | inr (g, eg) ↦ elim (Option-cases (choose pick (healthy_infos g.members))) [
    | inl e ↦ absurd (ground arith)
    | inr (i, ei) ↦ elim (Option-cases (get i.session_id c.sessions)) [
      | inl e ↦ absurd (ground arith)
      | inr (s, es) ↦ (
        g,
        i,
        s,
        eg,
        In-Serves g.members i (choose-In pick (healthy_infos g.members) i ei),
        es,
        ground arith,
        ground arith,
        ground arith,
      )
    ]
  ]
]

-- Every healthy member of a route whose session is live is what some outcome of the random pick
-- resolves to.
pub resolve_reaches :
    (k : TunnelKey) (c : TunnelCore) (g : TunnelGroup) (i : TunnelInfo) (s : SessionInfo)
    → group_at k c ≡ some g
    → Serves i g.members
    → get i.session_id c.sessions ≡ some s
    → (pick : ℕ) × ((resolve pick k c).1 ≡ some (count_request_of i, s.control_tx))
unfolding resolve dispatch_member
resolve_reaches k c g i s eg h es =
    let (pick, e) = In-choose (healthy_infos g.members) i (Serves-In g.members i h) in
    (pick, ground arith)

none_healthy : (ms : Map Uuid GroupMember) → count_healthy ms ≡ 0 → healthy_infos ms ≡ []
unfolding count_healthy healthy_infos
none_healthy [] h = refl
none_healthy ((id, m) ∷ ms) h = ground (arith, none_healthy ms)

-- A route whose group counts no healthy member resolves to nothing, and nothing is changed.
pub resolve_unhealthy :
    (pick : ℕ) (k : TunnelKey) (c : TunnelCore) (g : TunnelGroup)
    → group_at k c ≡ some g
    → healthy_count g ≡ 0
    → resolve pick k c ≡ (c, none)
unfolding resolve dispatch_member healthy_count
resolve_unhealthy pick k c g eg h = ground (arith, none_healthy g.members)

nth-none : (xs : List TunnelInfo) (n : ℕ) → n < length xs → nth xs n ≢ none
nth-none [] n h e = absurd (omega arith)
nth-none (x ∷ xs) zero h e = cc
nth-none (x ∷ xs) (suc n) h e = nth-none xs n (omega arith) e

choose-none : (pick : ℕ) (xs : List TunnelInfo) → choose pick xs ≡ none → xs ≡ []
choose-none pick [] e = refl
choose-none pick (x ∷ xs) e = absurd (nth-none (x ∷ xs) (pick % length (x ∷ xs)) (omega arith) e)

-- Why a key leads nowhere: there is no group, no member is healthy, or a healthy member's session
-- is gone.
pub data Unroutable (k : TunnelKey) (c : TunnelCore) : Type 0 where
  no_group : group_at k c ≡ none → Unroutable k c
  none_up :
      (g : TunnelGroup)
      → group_at k c ≡ some g
      → ((i : TunnelInfo) → ¬ Serves i g.members)
      → Unroutable k c
  session_gone :
      (g : TunnelGroup) (i : TunnelInfo)
      → group_at k c ≡ some g
      → Serves i g.members
      → get i.session_id c.sessions ≡ none
      → Unroutable k c

-- A resolution that finds nothing has such a reason, and changes nothing.
pub resolve-Unroutable :
    (pick : ℕ) (k : TunnelKey) (c : TunnelCore)
    → (resolve pick k c).1 ≡ none
    → Unroutable k c × ((resolve pick k c).0 ≡ c)
unfolding resolve dispatch_member
resolve-Unroutable pick k c h = elim (Option-cases (group_at k c)) [
  | inl e ↦ (no_group e, ground arith)
  | inr (g, eg) ↦ elim (Option-cases (choose pick (healthy_infos g.members))) [
    | inl e ↦ (
      none_up g eg λ i up.
          let hit = Serves-In g.members i up in
          absurd (subst (In i) (choose-none pick (healthy_infos g.members) e) hit),
      ground arith,
    )
    | inr (i, ei) ↦ elim (Option-cases (get i.session_id c.sessions)) [
      | inl es ↦ (
        session_gone g i eg (In-Serves g.members i (choose-In pick (healthy_infos g.members) i ei))
            es,
        ground arith,
      )
      | inr (s, es) ↦ absurd (ground arith)
    ]
  ]
]
