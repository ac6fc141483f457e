-- ===== src/Client/Tap/Captured.antt =====
-- The captured `Body` of crates/rustunnel-client/src/inspect/mod.rs takes in two pieces as one.
use rustunnel.Prelude.{
  ℕ, zero, suc, ◌≡◌, refl, sym, ap, ◌∙◌, ◌+◌, ◌-◌, ◌%◌, ◌^◌, min, false, Option, none, some, List,
  [], ◌∷◌, ◌++◌, arith, if◌then◌else◌, nat_beq, length, take, length-append,
}
use rustunnel.Core.Types.{Text}
use rustunnel.Client.Tap.{Body, body_cap, captured, push, push_to}

take-nil {ℓ} : {A : Type ℓ} (n : ℕ) → take {A = A} n [] ≡ []
take-nil zero = refl
take-nil (suc n) = refl

take-short {ℓ} : {A : Type ℓ} (n : ℕ) (xs : List A) → take (min n (length xs)) xs ≡ take n xs
take-short n [] = take-nil (min n 0) ∙ sym (take-nil n)
take-short zero (x ∷ xs) = let e : min 0 (suc (length xs)) ≡ 0 = omega arith in rw e refl
take-short (suc n) (x ∷ xs) =
    let e : min (suc n) (suc (length xs)) ≡ suc (min n (length xs)) = omega arith in
    rw e (ap (◌∷◌ x) (take-short n xs))

append_nil {ℓ} : {A : Type ℓ} (xs : List A) → xs ++ [] ≡ xs
append_nil [] = refl
append_nil (x ∷ xs) = ap (◌∷◌ x) (append_nil xs)

-- What a push leaves, without its cases.
push-captured :
    (b : Body) (xs : Text)
    → push b xs
      ≡ captured b (b.bytes ++ take (body_cap - length b.bytes) xs) ((b.total + length xs) % 2 ^ 64)
unfolding push
push-captured b xs = rw (take-short (body_cap - length b.bytes) xs) (at (body_cap - length b.bytes))
  where
    at :
        (room : ℕ)
        → (if nat_beq room 0
            then captured b b.bytes ((b.total + length xs) % 2 ^ 64)
            else captured b (b.bytes ++ take room xs) ((b.total + length xs) % 2 ^ 64))
          ≡ captured b (b.bytes ++ take room xs) ((b.total + length xs) % 2 ^ 64)
    at zero = rw (append_nil b.bytes) refl
    at (suc n) = let e : nat_beq (suc n) 0 ≡ false = ground arith in rw e refl

append_assoc {ℓ} : {A : Type ℓ} (xs ys zs : List A) → (xs ++ ys) ++ zs ≡ xs ++ (ys ++ zs)
append_assoc [] ys zs = refl
append_assoc (x ∷ xs) ys zs = ap (◌∷◌ x) (append_assoc xs ys zs)

take-append {ℓ} :
    {A : Type ℓ} (n : ℕ) (xs ys : List A)
    → take n (xs ++ ys) ≡ take n xs ++ take (n - length (take n xs)) ys
take-append zero xs ys = ground arith
take-append (suc n) [] ys = ground arith
take-append (suc n) (x ∷ xs) ys =
    let e : suc n - suc (length (take n xs)) ≡ n - length (take n xs) = omega arith in
    rw e (ap (◌∷◌ x) (take-append n xs ys))

-- A body takes in two pieces as it takes in both at once.
push-push : (b : Body) (xs ys : Text) → push (push b xs) ys ≡ push b (xs ++ ys)
push-push b xs ys =
    let room = body_cap - length b.bytes in
    let kept = take room xs in
    let left : body_cap - length (b.bytes ++ kept) ≡ room - length kept =
      omega (arith, length-append b.bytes kept) in
    let total : ((b.total + length xs) % 2 ^ 64 + length ys) % 2 ^ 64
        ≡ (b.total + length (xs ++ ys)) % 2 ^ 64 =
      omega (arith, length-append xs ys) in
    let bytes : (b.bytes ++ kept) ++ take (body_cap - length (b.bytes ++ kept)) ys
        ≡ b.bytes ++ take room (xs ++ ys) =
      rw (left, append_assoc b.bytes kept (take (room - length kept) ys), take-append room xs ys)
        refl in
    ap (λ p. push p ys) (push-captured b xs)
    ∙ push-captured (captured b (b.bytes ++ kept) ((b.total + length xs) % 2 ^ 64)) ys
    ∙ ap (λ c. captured b c (((b.total + length xs) % 2 ^ 64 + length ys) % 2 ^ 64)) bytes
    ∙ ap (captured b (b.bytes ++ take room (xs ++ ys))) total
    ∙ sym (push-captured b (xs ++ ys))

pub push_to-push_to :
    (o : Option Body) (xs ys : Text) → push_to (push_to o xs) ys ≡ push_to o (xs ++ ys)
push_to-push_to none xs ys = refl
push_to-push_to (some b) xs ys = ap some (push-push b xs ys)
