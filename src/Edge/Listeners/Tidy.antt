-- ===== src/Edge/Listeners/Tidy.antt =====
-- Each handle of a listener manager (edge/tcp.rs and edge/udp.rs) stands for a running listener on
-- its port, and no other listener runs.
use rustunnel.Prelude.{
  ℕ, ◌≤◌, ◌≡◌, refl, ◌∙◌, Bool, true, false, not, ◌&&◌, ◌||◌, none, some, List, [], ◌∷◌, arith,
  nat_beq, nat_beq_iff, contains, if◌then◌else◌, Bool-cases, Option-cases, inl, inr,
}
use rustunnel.Prelude.Eq.{nat_eq}
use rustunnel.Prelude.Map.{
  Map, get, insert, remove, contains_key, get-empty, get-insert, get-remove,
}
use rustunnel.Edge.Listeners.{
  Listeners, Received, registered, unregistered, lagged, closed, no_listeners, start_listener,
  stop_listener, retain_active, start_missing, resync_listeners, on_received, manage, bootstrap,
  run_tcp_edge,
}
use rustunnel.Edge.Listeners.Follow.{get-retain_active}

-- No port stands twice in a table.
abbrev pub IsSingle : Map ℕ ℕ → Type 0
IsSingle [] = Unit
IsSingle ((port, task) ∷ hs) = (get port hs ≡ none) × IsSingle hs

pub record IsTidy (ls : Listeners) : Type 0 where
  pub single : IsSingle ls.handles
  pub runs : (p t : ℕ) → get p ls.handles ≡ some t → get t ls.running ≡ some p
  pub owned : (p t : ℕ) → get t ls.running ≡ some p → get p ls.handles ≡ some t
  pub fresh : (t : ℕ) → ls.next_task ≤ t → get t ls.running ≡ none

remove-IsSingle : (p : ℕ) (hs : Map ℕ ℕ) → IsSingle hs → IsSingle (remove p hs)
unfolding remove
remove-IsSingle p [] s = tt
remove-IsSingle p ((q, t) ∷ hs) (n, s) = elim (Bool-cases (nat_beq q p)) [
  | inl e ↦ rw e (remove-IsSingle p hs s)
  | inr e ↦ rw e (ground (arith, get-remove p q hs), remove-IsSingle p hs s)
]

insert-IsSingle : (p t : ℕ) (hs : Map ℕ ℕ) → IsSingle hs → IsSingle (insert p t hs)
unfolding insert
insert-IsSingle p t hs s =
    (get-remove p p hs ∙ rw ((nat_beq_iff p p).1 refl) refl, remove-IsSingle p hs s)

pub no_listeners-IsTidy : IsTidy no_listeners
unfolding no_listeners
no_listeners-IsTidy = record {
  single = tt;
  runs = λ p t e. cc (get-empty {V = ℕ} p);
  owned = λ p t e. cc (get-empty {V = ℕ} t);
  fresh = λ t e. get-empty t;
}

start_listener-IsTidy : (port : ℕ) (ls : Listeners) → IsTidy ls → IsTidy (start_listener port ls)
unfolding start_listener
start_listener-IsTidy port ls v = elim (Option-cases (get port ls.handles)) [
  | inl e ↦ record {
    single = insert-IsSingle port ls.next_task ls.handles v.single;
    runs = λ p t h. ground (
      arith,
      get-insert ls.next_task t port ls.running,
      get-insert port p ls.next_task ls.handles,
      v.runs p t,
      v.fresh ls.next_task (omega arith),
    );
    owned = λ p t h. ground (
      arith,
      get-insert ls.next_task t port ls.running,
      get-insert port p ls.next_task ls.handles,
      v.owned p t,
    );
    fresh =
        λ t h. ground (arith, get-insert ls.next_task t port ls.running, v.fresh t (omega arith));
  }
  | inr (old, e) ↦ record {
    single = insert-IsSingle port ls.next_task ls.handles v.single;
    runs = λ p t h. ground (
      arith,
      get-insert ls.next_task t port ls.running,
      get-insert port p ls.next_task ls.handles,
      get-remove old t (insert ls.next_task port ls.running),
      v.runs p t,
      v.runs port old,
      v.fresh ls.next_task (omega arith),
    );
    owned = λ p t h. ground (
      arith,
      get-insert ls.next_task t port ls.running,
      get-insert port p ls.next_task ls.handles,
      get-remove old t (insert ls.next_task port ls.running),
      v.owned p t,
    );
    fresh = λ t h. ground (
      arith,
      get-insert ls.next_task t port ls.running,
      get-remove old t (insert ls.next_task port ls.running),
      v.fresh t (omega arith),
    );
  }
]

stop_listener-IsTidy : (port : ℕ) (ls : Listeners) → IsTidy ls → IsTidy (stop_listener port ls)
unfolding stop_listener
stop_listener-IsTidy port ls v = elim (Option-cases (get port ls.handles)) [
  | inl e ↦ record {
    single = remove-IsSingle port ls.handles v.single;
    runs = λ p t h. ground (arith, get-remove port p ls.handles, v.runs p t);
    owned = λ p t h. ground (arith, get-remove port p ls.handles, v.owned p t);
    fresh = λ t h. ground (arith, v.fresh t h);
  }
  | inr (old, e) ↦ record {
    single = remove-IsSingle port ls.handles v.single;
    runs = λ p t h. ground (
      arith,
      get-remove port p ls.handles,
      get-remove old t ls.running,
      v.runs p t,
      v.runs port old,
    );
    owned = λ p t h.
        ground (arith, get-remove port p ls.handles, get-remove old t ls.running, v.owned p t);
    fresh = λ t h. ground (arith, get-remove old t ls.running, v.fresh t h);
  }
]

-- The tasks that a resync aborts.
stops : ℕ → List ℕ → Map ℕ ℕ → Bool
stops t active [] = false
stops t active ((q, u) ∷ hs) = not (contains q active) && nat_beq u t || stops t active hs

get-left :
    (t : ℕ) (active : List ℕ) (hs running : Map ℕ ℕ)
    → get t (retain_active active hs running).1
      ≡ (if stops t active hs then none else get t running)
unfolding retain_active stops
get-left t active [] running = refl
get-left t active ((q, u) ∷ hs) running =
    let (kept, left) = retain_active active hs running in
    ground (arith, get-left t active hs running, get-remove u t left)

kept-IsSingle :
    (active : List ℕ) (hs running : Map ℕ ℕ)
    → IsSingle hs
    → IsSingle (retain_active active hs running).0
unfolding retain_active
kept-IsSingle active [] running s = tt
kept-IsSingle active ((q, u) ∷ hs) running (n, s) = elim (Bool-cases (contains q active)) [
  | inl e ↦
      rw e
        (get-retain_active q active hs running ∙ rw (e, n) refl, kept-IsSingle active hs running s)
  | inr e ↦ rw e (kept-IsSingle active hs running s)
]

stops-get :
    (t : ℕ) (active : List ℕ) (hs : Map ℕ ℕ)
    → IsSingle hs
    → stops t active hs ≡ true
    → (q : ℕ) × (contains q active ≡ false) × (get q hs ≡ some t)
unfolding stops get
stops-get t active [] s h = cc
stops-get t active ((q, u) ∷ hs) (n, s) h =
    elim (Bool-cases (not (contains q active) && nat_beq u t)) [
      | inl e ↦ (q, ground arith, ground (arith, nat_beq_iff q q))
      | inr e ↦
          let (r, out, g) = stops-get t active hs s (ground arith) in
          (r, out, ground (arith, nat_beq_iff q r))
    ]

get-stops :
    (q t : ℕ) (active : List ℕ) (hs : Map ℕ ℕ)
    → get q hs ≡ some t
    → contains q active ≡ false
    → stops t active hs ≡ true
unfolding stops get
get-stops q t active [] g out = cc
get-stops q t active ((r, u) ∷ hs) g out =
    ground (arith, get-stops q t active hs, nat_beq_iff r q, nat_beq_iff u t)

retained-IsTidy :
    (active : List ℕ) (ls : Listeners)
    → IsTidy ls
    → IsTidy (record ls {
      handles = (retain_active active ls.handles ls.running).0;
      running = (retain_active active ls.handles ls.running).1;
    })
retained-IsTidy active ls v = record {
  single = kept-IsSingle active ls.handles ls.running v.single;
  runs = λ p t h. elim (Bool-cases (stops t active ls.handles)) [
    | inl e ↦
        let (q, out, g) = stops-get t active ls.handles v.single e in
        absurd (
          ground
            (arith, get-retain_active p active ls.handles ls.running, v.runs q t g, v.runs p t))
    | inr e ↦ ground (
      arith,
      get-left t active ls.handles ls.running,
      get-retain_active p active ls.handles ls.running,
      v.runs p t,
    )
  ];
  owned = λ p t h. ground (
    arith,
    get-left t active ls.handles ls.running,
    get-retain_active p active ls.handles ls.running,
    v.owned p t,
    get-stops p t active ls.handles,
  );
  fresh = λ t h. ground (arith, get-left t active ls.handles ls.running, v.fresh t h);
}

start_missing-IsTidy :
    (active : List ℕ) (ls : Listeners) → IsTidy ls → IsTidy (start_missing active ls)
unfolding start_missing
start_missing-IsTidy [] ls v = v
start_missing-IsTidy (port ∷ active) ls v = elim (Bool-cases (contains_key port ls.handles)) [
  | inl e ↦ rw e (start_missing-IsTidy active ls v)
  | inr e ↦
      rw e (start_missing-IsTidy active (start_listener port ls) (start_listener-IsTidy port ls v))
]

on_received-IsTidy :
    (active : List ℕ) (e : Received) (ls : Listeners) → IsTidy ls → IsTidy (on_received active e ls)
unfolding on_received resync_listeners
on_received-IsTidy active (registered port) ls v = start_listener-IsTidy port ls v
on_received-IsTidy active (unregistered port) ls v = stop_listener-IsTidy port ls v
on_received-IsTidy active lagged ls v = start_missing-IsTidy active _ (retained-IsTidy active ls v)
on_received-IsTidy active closed ls v = no_listeners-IsTidy

bootstrap-IsTidy : (active : List ℕ) (ls : Listeners) → IsTidy ls → IsTidy (bootstrap active ls)
unfolding bootstrap
bootstrap-IsTidy [] ls v = v
bootstrap-IsTidy (port ∷ active) ls v =
    bootstrap-IsTidy active (start_listener port ls) (start_listener-IsTidy port ls v)

manage-IsTidy : (rs : List (List ℕ × Received)) (ls : Listeners) → IsTidy ls → IsTidy (manage rs ls)
unfolding manage
manage-IsTidy [] ls v = v
manage-IsTidy ((active, closed) ∷ rs) ls v = on_received-IsTidy active closed ls v
manage-IsTidy ((active, registered port) ∷ rs) ls v =
    manage-IsTidy rs _ (on_received-IsTidy active (registered port) ls v)
manage-IsTidy ((active, unregistered port) ∷ rs) ls v =
    manage-IsTidy rs _ (on_received-IsTidy active (unregistered port) ls v)
manage-IsTidy ((active, lagged) ∷ rs) ls v =
    manage-IsTidy rs _ (on_received-IsTidy active lagged ls v)

-- Whatever the manager of TCP listeners receives, from whatever ports it starts, each handle
-- stands for a running listener on its port and each running listener has the handle of its port,
-- no port has two, and no task number is used again.
pub run_tcp_edge-IsTidy :
    (start : List ℕ) (rs : List (List ℕ × Received)) → IsTidy (run_tcp_edge start rs)
unfolding run_tcp_edge
run_tcp_edge-IsTidy start rs =
    manage-IsTidy rs (bootstrap start no_listeners)
      (bootstrap-IsTidy start no_listeners no_listeners-IsTidy)
