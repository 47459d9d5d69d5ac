-- ===== src/Prelude/Lists.antt =====
-- Lists measured and indexed by native numbers, and the longest prefix that passes a test.
use Prim.Native.Nat.{ℕ, zero, suc, ◌+◌}
use mathlib.Core.Path.{◌≡◌, refl}
use mathlib.Core.Bool.{Bool, true}
use mathlib.Core.List.{List, [], ◌∷◌, ◌++◌}
use mathlib.Core.Option.{Option, none, some}
use native.Mathlib.Omega.{arith}
use aoba.Prelude.Tests.{if◌then◌else◌}

module _ {ℓ} {A : Type ℓ} where
  abbrev pub length : List A → ℕ
  length [] = 0
  length (x ∷ xs) = suc (length xs)

  abbrev pub get_elem? : List A → ℕ → Option A
  get_elem? [] i = none
  get_elem? (x ∷ xs) zero = some x
  get_elem? (x ∷ xs) (suc i) = get_elem? xs i

  abbrev pub take : ℕ → List A → List A
  take zero xs = []
  take (suc n) [] = []
  take (suc n) (x ∷ xs) = x ∷ take n xs

  abbrev pub drop : ℕ → List A → List A
  drop zero xs = xs
  drop (suc n) [] = []
  drop (suc n) (x ∷ xs) = drop n xs

  pub length-append : (xs ys : List A) → length (xs ++ ys) ≡ length xs + length ys
  length-append [] ys = omega arith
  length-append (x ∷ xs) ys = omega (arith, length-append xs ys)

  -- `xs` is read from left to right onto `acc`.
  abbrev pub reverse_onto : List A → List A → List A
  reverse_onto [] acc = acc
  reverse_onto (x ∷ xs) acc = reverse_onto xs (x ∷ acc)

  pub reverse_onto-append :
      (xs ys acc : List A) → reverse_onto (xs ++ ys) acc ≡ reverse_onto ys (reverse_onto xs acc)
  reverse_onto-append [] ys acc = refl
  reverse_onto-append (x ∷ xs) ys acc = reverse_onto-append xs ys (x ∷ acc)

  -- The longest prefix whose elements all pass the test, and what follows it.
  abbrev pub take_while : (A → Bool) → List A → List A
  take_while p [] = []
  take_while p (x ∷ xs) = if p x then x ∷ take_while p xs else []

  abbrev pub drop_while : (A → Bool) → List A → List A
  drop_while p [] = []
  drop_while p (x ∷ xs) = if p x then drop_while p xs else x ∷ xs

  -- Every element passes the test.
  abbrev pub All : (A → Bool) → List A → Type 0
  All p [] = Unit {0}
  All p (x ∷ xs) = (p x ≡ true) × All p xs
