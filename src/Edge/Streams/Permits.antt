-- ===== src/Edge/Streams/Permits.antt =====
-- Permits are given back: what the steps of an edge do to the semaphores of all tunnels.
use rustunnel.Prelude.{
  ◌≡◌, ◌≢◌, ◌⊎◌, inl, inr, ◌-◌, if◌then◌else◌, ℕ, refl, ap, sym, ◌∙◌, Bool, true, false, ◌&&◌,
  Option, none, some, arith, nat_beq,
}
use rustunnel.Prelude.Eq.{nat_eq, list_eq}
use rustunnel.Prelude.Map.{Map, get, get-modify, apply_at}
use rustunnel.Core.Types.{Uuid, TunnelInfo, GroupMember, TunnelGroup}
use rustunnel.Core.Members.{add_transfer}
use rustunnel.Core.Router.{TunnelCore, TunnelKey, register_pending_conn, cancel_pending_conn}
use rustunnel.Core.Router.Health.{group_at, change_group, on_member, find_in}
use rustunnel.Core.Router.Dispatch.{
  count_request, count_request_of, resolve, dispatch_member, choose, healthy_infos,
}
use rustunnel.Core.Invariant.{key_beq, key_beq_iff}
use rustunnel.Edge.Streams.{
  semaphore_of, permits, available, count_or, taken, given, take_permit, give_permit, metered,
  meter_add,
}

apply_at-false {ℓ} : {V : Type ℓ} (f : V → V) (o : Option V) → apply_at f false o ≡ o
apply_at-false f none = refl
apply_at-false f (some v) = refl

find_in-apply :
    (t u : Uuid) (f : GroupMember → GroupMember) (b : Bool) (o : Option TunnelGroup)
    → find_in u (apply_at (on_member t f) b o) ≡ apply_at f (b && nat_beq t u) (find_in u o)
find_in-apply t u f b none = refl
find_in-apply t u f true (some g) = get-modify t u f g.members
find_in-apply t u f false (some g) = sym (apply_at-false f (get u g.members))

-- A write to a member, seen at any member.
pub find_in-change :
    (k j : TunnelKey) (t u : Uuid) (f : GroupMember → GroupMember) (c : TunnelCore)
    → find_in u (group_at j (change_group k (on_member t f) c))
      ≡ apply_at f (key_beq k j && nat_beq t u) (find_in u (group_at j c))
find_in-change (TunnelKey.http a) (TunnelKey.http b) t u f c =
    rw (get-modify a b (on_member t f) c.http_routes)
      (find_in-apply t u f (list_eq.same a b) (get b c.http_routes))
find_in-change (TunnelKey.tcp a) (TunnelKey.tcp b) t u f c =
    rw (get-modify a b (on_member t f) c.tcp_routes)
      (find_in-apply t u f (nat_beq a b) (get b c.tcp_routes))
find_in-change (TunnelKey.udp a) (TunnelKey.udp b) t u f c =
    rw (get-modify a b (on_member t f) c.udp_routes)
      (find_in-apply t u f (nat_beq a b) (get b c.udp_routes))
find_in-change (TunnelKey.p2p a) (TunnelKey.p2p b) t u f c = refl
find_in-change (TunnelKey.http a) (TunnelKey.tcp b) t u f c = sym (apply_at-false f _)
find_in-change (TunnelKey.http a) (TunnelKey.udp b) t u f c = sym (apply_at-false f _)
find_in-change (TunnelKey.http a) (TunnelKey.p2p b) t u f c = refl
find_in-change (TunnelKey.tcp a) (TunnelKey.http b) t u f c = sym (apply_at-false f _)
find_in-change (TunnelKey.tcp a) (TunnelKey.udp b) t u f c = sym (apply_at-false f _)
find_in-change (TunnelKey.tcp a) (TunnelKey.p2p b) t u f c = refl
find_in-change (TunnelKey.udp a) (TunnelKey.http b) t u f c = sym (apply_at-false f _)
find_in-change (TunnelKey.udp a) (TunnelKey.tcp b) t u f c = sym (apply_at-false f _)
find_in-change (TunnelKey.udp a) (TunnelKey.p2p b) t u f c = refl
find_in-change (TunnelKey.p2p a) (TunnelKey.http b) t u f c = sym (apply_at-false f _)
find_in-change (TunnelKey.p2p a) (TunnelKey.tcp b) t u f c = sym (apply_at-false f _)
find_in-change (TunnelKey.p2p a) (TunnelKey.udp b) t u f c = sym (apply_at-false f _)

-- All semaphores stand as they stood.
abbrev pub KeepsPermits : TunnelCore → TunnelCore → Type 0
KeepsPermits c d = (k : TunnelKey) (t : Uuid) → permits k t d ≡ permits k t c

pub stays-KeepsPermits : (c : TunnelCore) → KeepsPermits c c
stays-KeepsPermits c k t = refl

pub chain-KeepsPermits :
    {c d e : TunnelCore} → KeepsPermits c d → KeepsPermits d e → KeepsPermits c e
chain-KeepsPermits p q k t = q k t ∙ p k t

change-KeepsPermits :
    (k : TunnelKey) (t : Uuid) (f : GroupMember → GroupMember) (c : TunnelCore)
    → ((m : GroupMember) → (f m).info.conn_semaphore ≡ m.info.conn_semaphore)
    → KeepsPermits c (change_group k (on_member t f) c)
change-KeepsPermits k t f c h j u =
    rw (find_in-change k j t u f c) (same (key_beq k j && nat_beq t u) (find_in u (group_at j c)))
  where
    same : (b : Bool) (o : Option GroupMember) → semaphore_of (apply_at f b o) ≡ semaphore_of o
    same b none = refl
    same true (some m) = ap some (h m)
    same false (some m) = refl

pub meter_add-KeepsPermits :
    (k : TunnelKey) (t : Uuid) (i o : ℕ) (c : TunnelCore) → KeepsPermits c (meter_add k t i o c)
unfolding meter_add add_transfer
meter_add-KeepsPermits k t i o c = change-KeepsPermits k t (metered i o) c (λ m. refl)

pending-KeepsPermits :
    (ps : Map Uuid ℕ) (c : TunnelCore) → KeepsPermits c (record c { pending_conns = ps })
pending-KeepsPermits ps c (TunnelKey.http n) u = refl
pending-KeepsPermits ps c (TunnelKey.tcp n) u = refl
pending-KeepsPermits ps c (TunnelKey.udp n) u = refl
pending-KeepsPermits ps c (TunnelKey.p2p n) u = refl

pub register_pending_conn-KeepsPermits :
    (id : Uuid) (tx : ℕ) (c : TunnelCore) → KeepsPermits c (register_pending_conn id tx c)
unfolding register_pending_conn
register_pending_conn-KeepsPermits id tx c = pending-KeepsPermits _ c

pub cancel_pending_conn-KeepsPermits :
    (id : Uuid) (c : TunnelCore) → KeepsPermits c (cancel_pending_conn id c)
unfolding cancel_pending_conn
cancel_pending_conn-KeepsPermits id c = pending-KeepsPermits _ c

-- A step that is made if a look-up finds something.
pub on_found {ℓ κ μ} :
    (P : TunnelCore → Type μ) {A : Type ℓ} {B : Type κ} (o : Option A) (c : TunnelCore) (b : B)
    (f : A → TunnelCore × B)
    → P c
    → ((a : A) → P (f a).0)
    → P (elim o as (λ _. TunnelCore × B) [ none ↦ (c, b) | some a ↦ f a ]).0
on_found P none c b f p h = p
on_found P (some a) c b f p h = h a

-- A property that holds of a state, and of it after any write to a member, holds after a resolution.
pub on_resolve {μ} :
    (P : TunnelCore → Type μ) (pick : ℕ) (k : TunnelKey) (c : TunnelCore)
    → P c
    → ((t : Uuid) → P (change_group k (on_member t count_request) c))
    → P (resolve pick k c).0
unfolding resolve dispatch_member
on_resolve P pick k c p h = on_found P (group_at k c) c none _ p λ g.
    on_found P (choose pick (healthy_infos g.members)) c none _ p
      λ i. on_found P (get i.session_id c.sessions) c none _ p λ s. h i.tunnel_id

pub resolve-KeepsPermits :
    (pick : ℕ) (k : TunnelKey) (c : TunnelCore) → KeepsPermits c (resolve pick k c).0
resolve-KeepsPermits pick k c =
    on_resolve (KeepsPermits c) pick k c (stays-KeepsPermits c)
      λ t. change-KeepsPermits k t count_request c (λ m. refl)

-- Between a permit taken and given back, the semaphores may change only as others leave them.
abbrev Recovered : Bool → Option GroupMember → Option GroupMember → Type 0
Recovered b o o' =
    semaphore_of o' ≡ semaphore_of (apply_at taken b o)
    → (b ≡ true → semaphore_of o ≢ some 0)
    → semaphore_of (apply_at given b o') ≡ semaphore_of o

give_taken : (b : Bool) (o o' : Option GroupMember) → Recovered b o o'
give_taken b none none e h = refl
give_taken b none (some m) e h = cc
give_taken b (some m) none e h = ground arith
give_taken true (some m) (some n) e h = ground (arith, h refl)
give_taken false (some m) (some n) e h = e

pub permit_recovered :
    (k : TunnelKey) (info : TunnelInfo) (c d : TunnelCore)
    → available k info c ≢ 0
    → KeepsPermits (take_permit k info.tunnel_id c) d
    → KeepsPermits c (give_permit k info.tunnel_id d)
unfolding take_permit give_permit
permit_recovered k info c d left keeps j u = rw (find_in-change k j info.tunnel_id u given d) (
    give_taken hit (find_in u (group_at j c)) (find_in u (group_at j d))
      (keeps j u ∙ ap semaphore_of (find_in-change k j info.tunnel_id u taken c)) here)
  where
    hit : Bool
    hit = key_beq k j && nat_beq info.tunnel_id u

    here : hit ≡ true → permits j u c ≢ some 0
    here e none_left =
        let ek : k ≡ j = (key_beq_iff k j).0 (ground arith) in
        let et : info.tunnel_id ≡ u = ground arith in
        left (rw (ek, et) (ap (count_or info.conn_semaphore) none_left))

-- The semaphore of a tunnel has no permit; that of a tunnel which has left is read from its clone.
abbrev pub IsExhausted : TunnelKey → TunnelInfo → TunnelCore → Type 0
IsExhausted k i c =
    (permits k i.tunnel_id c ≡ some 0) ⊎ ((permits k i.tunnel_id c ≡ none) × (i.conn_semaphore ≡ 0))

abbrev pub one_less : Option ℕ → Option ℕ
one_less none = none
one_less (some n) = some (n - 1)

-- The semaphore of one tunnel has one permit less, all others stand as they stood.
abbrev pub TakesOne : TunnelKey → TunnelInfo → TunnelCore → TunnelCore → Type 0
TakesOne k i c d =
    (j : TunnelKey) (u : Uuid)
    → permits j u d
      ≡ (if key_beq k j && nat_beq i.tunnel_id u then one_less (permits j u c) else permits j u c)

read_none_left :
    (d : ℕ) (o : Option ℕ) → nat_beq (count_or d o) 0 ≡ true → (o ≡ some 0) ⊎ ((o ≡ none) × (d ≡ 0))
read_none_left d none e = inr (refl, ground arith)
read_none_left d (some n) e = inl (ground arith)

read_some_left :
    (d : ℕ) (o : Option ℕ)
    → nat_beq (count_or d o) 0 ≡ false
    → ¬ ((o ≡ some 0) ⊎ ((o ≡ none) × (d ≡ 0)))
read_some_left d none e h = ground arith
read_some_left d (some n) e h = ground arith

semaphore_taken :
    (b : Bool) (o : Option GroupMember)
    → semaphore_of (apply_at taken b o) ≡ (if b then one_less (semaphore_of o) else semaphore_of o)
semaphore_taken true none = refl
semaphore_taken false none = refl
semaphore_taken true (some m) = refl
semaphore_taken false (some m) = refl

-- The count of permits that `available` reads, where a resolution has kept them.
pub available-IsExhausted :
    (k : TunnelKey) (i : TunnelInfo) (c c' : TunnelCore)
    → KeepsPermits c c'
    → nat_beq (available k (count_request_of i) c') 0 ≡ true
    → IsExhausted k i c
available-IsExhausted k i c c' keeps e =
    read_none_left i.conn_semaphore (permits k i.tunnel_id c)
      (ap (λ o. nat_beq (count_or i.conn_semaphore o) 0) (sym (keeps k i.tunnel_id)) ∙ e)

pub available-not_IsExhausted :
    (k : TunnelKey) (i : TunnelInfo) (c c' : TunnelCore)
    → KeepsPermits c c'
    → nat_beq (available k (count_request_of i) c') 0 ≡ false
    → ¬ IsExhausted k i c
available-not_IsExhausted k i c c' keeps e h =
    read_some_left i.conn_semaphore (permits k i.tunnel_id c)
      (ap (λ o. nat_beq (count_or i.conn_semaphore o) 0) (sym (keeps k i.tunnel_id)) ∙ e) h

pub take_permit-TakesOne :
    (k : TunnelKey) (i : TunnelInfo) (c c' : TunnelCore)
    → KeepsPermits c c'
    → TakesOne k i c (take_permit k i.tunnel_id c')
unfolding take_permit
take_permit-TakesOne k i c c' keeps j u =
    let hit = key_beq k j && nat_beq i.tunnel_id u in
    ap semaphore_of (find_in-change k j i.tunnel_id u taken c')
    ∙ semaphore_taken hit (find_in u (group_at j c'))
    ∙ ap (λ o. if hit then one_less o else o) (keeps j u)
