-- ===== src/Prelude/Map.antt =====
-- Keyed tables (DashMap, HashMap) as association lists. The laws are in conditional form.
use rustunnel.Prelude.Tests.{if◌then◌else◌, is_some}
use rustunnel.Prelude.Eq.{Eq, ◌==◌, eq_iff}
use mathlib.Core.Path.{◌≡◌, refl}
use mathlib.Core.Bool.{Bool, true, false}
use mathlib.Core.List.{List, [], ◌∷◌}
use mathlib.Core.Option.{Option, none, some}
use native.Mathlib.Omega.{arith}

abbrev pub Map {ℓ κ} : Type ℓ → Type κ → Type (ℓ ⊔ κ)
Map K V = List (K × V)

-- The value after a write that is made if the test holds.
abbrev pub apply_at {ℓ} : {V : Type ℓ} → (V → V) → Bool → Option V → Option V
apply_at f b none = none
apply_at f true (some v) = some (f v)
apply_at f false (some v) = some v

module _ {ℓ κ} {K : Type ℓ} {V : Type κ} ⦃e : Eq K⦄ where
  unfoldable pub get : K → Map K V → Option V
  get k [] = none
  get k ((j, v) ∷ m) = if j == k then some v else get k m

  unfoldable pub remove : K → Map K V → Map K V
  remove k [] = []
  remove k ((j, v) ∷ m) = let rest = remove k m in if j == k then rest else (j, v) ∷ rest

  -- An insertion replaces the value of a key that is there.
  unfoldable pub insert : K → V → Map K V → Map K V
  unfolding remove
  insert k v m = (k, v) ∷ remove k m

  -- A write through `get_mut`.
  unfoldable pub modify : K → (V → V) → Map K V → Map K V
  modify k f [] = []
  modify k f ((j, v) ∷ m) = (j, if j == k then f v else v) ∷ modify k f m

  abbrev pub contains_key : K → Map K V → Bool
  contains_key k m = is_some (get k m)

  pub get-remove : (k j : K) (m : Map K V) → get j (remove k m) ≡ (if k == j then none else get j m)
  unfolding get remove
  get-remove k j [] = ground arith
  get-remove k j ((i, v) ∷ m) = ground (arith, get-remove k j m, eq_iff i k, eq_iff i j, eq_iff k j)

  pub get-insert :
      (k j : K) (v : V) (m : Map K V) → get j (insert k v m) ≡ (if k == j then some v else get j m)
  unfolding get insert
  get-insert k j v m = ground (arith, get-remove k j m)

  pub get-modify :
      (k j : K) (f : V → V) (m : Map K V) → get j (modify k f m) ≡ apply_at f (k == j) (get j m)
  unfolding get modify
  get-modify k j f [] = refl
  get-modify k j f ((i, v) ∷ m) =
      ground (arith, get-modify k j f m, eq_iff i k, eq_iff i j, eq_iff k j)

pub get-empty {ℓ κ} : {K : Type ℓ} {V : Type κ} ⦃e : Eq K⦄ (k : K) → get {V = V} k [] ≡ none
unfolding get
get-empty k = refl

abbrev pub is_empty {ℓ} : {A : Type ℓ} → List A → Bool
is_empty [] = true
is_empty (x ∷ xs) = false

pub get-is_empty {ℓ κ} :
    {K : Type ℓ} {V : Type κ} ⦃e : Eq K⦄ (k : K) (m : Map K V) → is_empty m ≡ true → get k m ≡ none
unfolding get
get-is_empty k [] h = refl
get-is_empty k (p ∷ m) h = cc

pub get-singleton {ℓ κ} :
    {K : Type ℓ} {V : Type κ} ⦃e : Eq K⦄ (k j : K) (v : V)
    → get j (insert k v []) ≡ (if k == j then some v else none)
unfolding get insert
get-singleton k j v = ground arith

pub ruleset map_laws = (get-empty, get-remove, get-insert, get-modify)
