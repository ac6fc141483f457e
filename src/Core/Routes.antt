-- ===== src/Core/Routes.antt =====
-- The routing tables of crates/rustunnel-server/src/core/router.rs, generic in the routing key: a
-- subdomain or a port leads to a group, and a group holds its members by tunnel id.
use rustunnel.Prelude.{
  ◌≡◌, refl, Bool, true, false, ◌&&◌, Option, none, some, arith, if◌then◌else◌, is_some,
}
use rustunnel.Prelude.Eq.{Eq, ◌==◌, eq_iff, nat_eq}
use rustunnel.Prelude.Map.{
  Map, get, insert, remove, modify, is_empty, apply_at, get-insert, get-remove, get-modify,
  get-is_empty,
}
use rustunnel.Core.Types.{Uuid, GroupMember, TunnelGroup}

abbrev pub add_member : Uuid → GroupMember → TunnelGroup → TunnelGroup
add_member t m g = record g { members = insert t m g.members }

abbrev pub drop_member : Uuid → TunnelGroup → TunnelGroup
drop_member t g = record g { members = remove t g.members }

-- `map(|g| g.members.is_empty()).unwrap_or(true)`
abbrev pub group_empty : Option TunnelGroup → Bool
group_empty none = true
group_empty (some g) = is_empty g.members

abbrev pub member_in : Uuid → Option TunnelGroup → Option GroupMember
member_in t none = none
member_in t (some g) = get t g.members

empty_group-member :
    (t : Uuid) (o : Option TunnelGroup) → group_empty o ≡ true → member_in t o ≡ none
empty_group-member t none h = refl
empty_group-member t (some g) h = get-is_empty t g.members h

-- Taking a member out of a group takes out nobody else.
member_in-drop :
    (t u : Uuid) (b : Bool) (o : Option TunnelGroup)
    → member_in u (apply_at (drop_member t) b o) ≡ (if b && t == u then none else member_in u o)
member_in-drop t u b none = ground arith
member_in-drop t u true (some g) = get-remove t u g.members
member_in-drop t u false (some g) = refl

member_in-add :
    (t u : Uuid) (m : GroupMember) (b : Bool) (o : Option TunnelGroup)
    → is_some o ≡ true
    → member_in u (apply_at (add_member t m) b o) ≡ (if b && t == u then some m else member_in u o)
member_in-add t u m b none h = cc
member_in-add t u m true (some g) h = get-insert t u m g.members
member_in-add t u m false (some g) h = refl

module _ {ℓ} {K : Type ℓ} ⦃e : Eq K⦄ where
  -- The member that a table holds under a routing key and a tunnel id.
  abbrev pub member_at : K → Uuid → Map K TunnelGroup → Option GroupMember
  member_at k t r = member_in t (get k r)

  -- `existing.members.insert(tunnel_id, member)` on the group under a key.
  unfoldable pub join : K → Uuid → GroupMember → Map K TunnelGroup → Map K TunnelGroup
  join k t m r = modify k (add_member t m) r

  -- Whether the group under a key is empty once a member has been taken out of it.
  unfoldable pub last_leaves : K → Uuid → Map K TunnelGroup → Bool
  last_leaves k t r = group_empty (get k (modify k (drop_member t) r))

  -- Take a member out of its group; the route goes with the last member.
  unfoldable pub leave : K → Uuid → Map K TunnelGroup → Map K TunnelGroup
  unfolding last_leaves
  leave k t r =
      if last_leaves k t r
      then remove k (modify k (drop_member t) r)
      else modify k (drop_member t) r

  pub member_at-leave :
      (k j : K) (t u : Uuid) (r : Map K TunnelGroup)
      → member_at j u (leave k t r) ≡ (if k == j && t == u then none else member_at j u r)
  unfolding leave last_leaves
  member_at-leave k j t u r = ground (
    arith,
    get-modify k j (drop_member t) r,
    get-remove k j (modify k (drop_member t) r),
    empty_group-member u (get k (modify k (drop_member t) r)),
    member_in-drop t u (k == j) (get j r),
    eq_iff k j,
    get-modify k k (drop_member t) r,
  )

  pub get-leave :
      (k j : K) (t : Uuid) (r : Map K TunnelGroup)
      → get j (leave k t r) ≡ (
          if k == j && last_leaves k t r then none else apply_at (drop_member t) (k == j) (get j r))
  unfolding leave
  get-leave k j t r =
      ground (arith, get-modify k j (drop_member t) r, get-remove k j (modify k (drop_member t) r))

  pub member_at-join :
      (k j : K) (t u : Uuid) (m : GroupMember) (r : Map K TunnelGroup)
      → is_some (get k r) ≡ true
      → member_at j u (join k t m r) ≡ (if k == j && t == u then some m else member_at j u r)
  unfolding join
  member_at-join k j t u m r h =
      ground (
        arith,
        get-modify k j (add_member t m) r,
        member_in-add t u m (k == j) (get j r),
        eq_iff k j,
      )

  -- A new group under a key that had no route.
  pub member_at-insert :
      (k j : K) (u : Uuid) (g : TunnelGroup) (r : Map K TunnelGroup)
      → member_at j u (insert k g r) ≡ (if k == j then get u g.members else member_at j u r)
  member_at-insert k j u g r = ground (arith, get-insert k j g r)
