-- ===== src/Prelude/Branches.antt =====
-- The branches of an operation, each with what is known in it.
use rustunnel.Prelude.Tests.{if◌then◌else◌}
use mathlib.Core.Path.{◌≡◌, refl}
use mathlib.Core.Bool.{Bool, true, false}
use mathlib.Core.Option.{Option, none, some}

module _ {κ μ} {B : Type κ} (P : B → Type μ) where
  pub on_some {ℓ} :
      {A : Type ℓ} (o : Option A) (b : B) (f : A → B)
      → (o ≡ none → P b)
      → ((a : A) → o ≡ some a → P (f a))
      → P (elim o as (λ _. B) [ none ↦ b | some a ↦ f a ])
  on_some none b f p h = p refl
  on_some (some a) b f p h = h a refl

  pub on_pair {ℓ ν} :
      {A : Type ℓ} {C : Type ν} (o : Option (A × C)) (b : B) (f : A → C → B)
      → (o ≡ none → P b)
      → ((a : A) (c : C) → o ≡ some (a, c) → P (f a c))
      → P (elim o as (λ _. B) [ none ↦ b | some (a, c) ↦ f a c ])
  on_pair none b f p h = p refl
  on_pair (some (a, c)) b f p h = h a c refl

  pub on_if : (t : Bool) (x y : B) → (t ≡ true → P x) → (t ≡ false → P y) → P (if t then x else y)
  on_if true x y p q = p refl
  on_if false x y p q = q refl

  pub on_bool :
      (t : Bool) (x y : B)
      → (t ≡ true → P x)
      → (t ≡ false → P y)
      → P (elim t as (λ _. B) [ true ↦ x | false ↦ y ])
  on_bool true x y p q = p refl
  on_bool false x y p q = q refl
