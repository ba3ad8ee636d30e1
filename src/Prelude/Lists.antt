-- ===== src/Prelude/Lists.antt =====
-- Lists measured by native numbers, a predicate on every item, and sums.
use Prim.Native.Nat.{ℕ, suc, ◌+◌}
use mathlib.Core.Path.{◌≡◌}
use mathlib.Core.Bool.{Bool, false, ◌||◌}
use mathlib.Core.List.{List, [], ◌∷◌, ◌++◌}
use mathlib.Core.Option.{Option, none, some}
use native.Mathlib.Omega.{arith}
use entity_developer_dashboa.Prelude.Tests.{if◌then◌else◌}

module _ {ℓ} {A : Type ℓ} where
  abbrev pub length : List A → ℕ
  length [] = 0
  length (x ∷ xs) = suc (length xs)

  pub length-append : (xs ys : List A) → length (xs ++ ys) ≡ length xs + length ys
  length-append [] ys = omega arith
  length-append (x ∷ xs) ys = omega (arith, length-append xs ys)

  -- `xs.some(p)`
  abbrev pub any : (A → Bool) → List A → Bool
  any p [] = false
  any p (x ∷ xs) = p x || any p xs

  -- `xs.find(p)`
  abbrev pub find : (A → Bool) → List A → Option A
  find p [] = none
  find p (x ∷ xs) = if p x then some x else find p xs

  -- `xs.filter(p)`
  abbrev pub keep : (A → Bool) → List A → List A
  keep p [] = []
  keep p (x ∷ xs) = if p x then x ∷ keep p xs else keep p xs

  -- The sum of a number read off each item.
  abbrev pub total : (A → ℕ) → List A → ℕ
  total f [] = 0
  total f (x ∷ xs) = f x + total f xs

  pub total-append : (f : A → ℕ) (xs ys : List A) → total f (xs ++ ys) ≡ total f xs + total f ys
  total-append f [] ys = omega arith
  total-append f (x ∷ xs) ys = omega (arith, total-append f xs ys)

  -- A sum after one item is replaced, and after one is inserted.
  pub total-replace :
      (f : A → ℕ) (xs ys : List A) (x y : A) (k : ℕ)
      → f y ≡ f x + k
      → total f (xs ++ y ∷ ys) ≡ total f (xs ++ x ∷ ys) + k
  total-replace f xs ys x y k h =
      omega (arith, h, total-append f xs (x ∷ ys), total-append f xs (y ∷ ys))

  pub total-insert :
      (f : A → ℕ) (xs ys : List A) (x : A) → total f (xs ++ x ∷ ys) ≡ total f (xs ++ ys) + f x
  total-insert f xs ys x = omega (arith, total-append f xs (x ∷ ys), total-append f xs ys)

module _ {ℓ κ} {A : Type ℓ} (P : A → Type κ) where
  abbrev pub All : List A → Type κ
  All [] = Unit
  All (x ∷ xs) = P x × All xs

  pub All-append : (xs ys : List A) → All xs → All ys → All (xs ++ ys)
  All-append [] ys hx hy = hy
  All-append (x ∷ xs) ys hx hy = (hx.0, All-append xs ys hx.1 hy)

  pub All-left : (xs ys : List A) → All (xs ++ ys) → All xs
  All-left [] ys h = tt
  All-left (x ∷ xs) ys h = (h.0, All-left xs ys h.1)

  pub All-right : (xs ys : List A) → All (xs ++ ys) → All ys
  All-right [] ys h = h
  All-right (x ∷ xs) ys h = All-right xs ys h.1

  pub All-replace :
      (xs ys : List A) (x y : A) → (P x → P y) → All (xs ++ x ∷ ys) → All (xs ++ y ∷ ys)
  All-replace [] ys x y k h = (k h.0, h.1)
  All-replace (z ∷ xs) ys x y k h = (h.0, All-replace xs ys x y k h.1)

  pub All-middle : (xs ys : List A) (x : A) → All (xs ++ x ∷ ys) → P x
  All-middle [] ys x h = h.0
  All-middle (z ∷ xs) ys x h = All-middle xs ys x h.1
