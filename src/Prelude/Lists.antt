-- ===== src/Prelude/Lists.antt =====
-- Lists measured by native numbers, with the filters, folds and predicates that the parts share.
use Prim.Native.Nat.{ℕ, zero, suc, ◌+◌, ◌≤◌}
use mathlib.Core.Path.{◌≡◌, refl}
use mathlib.Core.Bool.{Bool, true, false, not, ◌&&◌, ◌||◌}
use mathlib.Core.Option.{Option, none, some}
use mathlib.Core.List.{List, [], ◌∷◌, ◌++◌}
use native.Mathlib.Omega.{arith}
use auditable_scientific_age.Prelude.Tests.{if◌then◌else◌}

module _ {ℓ} {A : Type ℓ} where
  abbrev pub length : List A → ℕ
  length [] = 0
  length (x ∷ xs) = suc (length xs)

  -- `xs[-1]`, when there is one
  abbrev pub last? : List A → Option A
  last? [] = none
  last? (x ∷ []) = some x
  last? (x ∷ y ∷ ys) = last? (y ∷ ys)

  -- `xs[:n]`
  abbrev pub take : ℕ → List A → List A
  take zero xs = []
  take (suc n) [] = []
  take (suc n) (x ∷ xs) = x ∷ take n xs

  -- `[x for x in xs if test x]`
  abbrev pub keep_if : (A → Bool) → List A → List A
  keep_if test [] = []
  keep_if test (x ∷ xs) = if test x then x ∷ keep_if test xs else keep_if test xs

  -- `any(test(x) for x in xs)`
  abbrev pub any : (A → Bool) → List A → Bool
  any test [] = false
  any test (x ∷ xs) = test x || any test xs

  -- `all(test(x) for x in xs)`
  abbrev pub all : (A → Bool) → List A → Bool
  all test [] = true
  all test (x ∷ xs) = test x && all test xs

  -- `sum(f(x) for x in xs)`
  abbrev pub total : (A → ℕ) → List A → ℕ
  total f [] = 0
  total f (x ∷ xs) = f x + total f xs

  pub total-append : (f : A → ℕ) (xs ys : List A) → total f (xs ++ ys) ≡ total f xs + total f ys
  total-append f [] ys = omega arith
  total-append f (x ∷ xs) ys = omega (arith, total-append f xs ys)

  pub length-eq-total : (xs : List A) → length xs ≡ total (λ _. 1) xs
  length-eq-total [] = refl
  length-eq-total (x ∷ xs) = omega (arith, length-eq-total xs)

  pub length-append : (xs ys : List A) → length (xs ++ ys) ≡ length xs + length ys
  length-append [] ys = omega arith
  length-append (x ∷ xs) ys = omega (arith, length-append xs ys)

  pub last?-append_one : (xs : List A) (y : A) → last? (xs ++ y ∷ []) ≡ some y
  last?-append_one [] y = refl
  last?-append_one (x ∷ []) y = refl
  last?-append_one (x ∷ z ∷ zs) y = last?-append_one (z ∷ zs) y

  pub any-append :
      (test : A → Bool) (xs ys : List A) → any test (xs ++ ys) ≡ (any test xs || any test ys)
  any-append test [] ys = refl
  any-append test (x ∷ xs) ys = ground (arith, any-append test xs ys)

  pub all-append :
      (test : A → Bool) (xs ys : List A) → all test (xs ++ ys) ≡ (all test xs && all test ys)
  all-append test [] ys = refl
  all-append test (x ∷ xs) ys = ground (arith, all-append test xs ys)

  pub all-take :
      (test : A → Bool) (n : ℕ) (xs : List A) → all test xs ≡ true → all test (take n xs) ≡ true
  all-take test zero xs h = refl
  all-take test (suc n) [] h = refl
  all-take test (suc n) (x ∷ xs) h = ground (arith, h, all-take test n xs)

  pub length-take-le : (n : ℕ) (xs : List A) → length (take n xs) ≤ n
  length-take-le zero xs = omega arith
  length-take-le (suc n) [] = omega arith
  length-take-le (suc n) (x ∷ xs) = omega (arith, length-take-le n xs)

  pub length-keep_if_split :
      (test : A → Bool) (xs : List A)
      → length (keep_if test xs) + length (keep_if (λ x. not (test x)) xs) ≡ length xs
  length-keep_if_split test [] = omega arith
  length-keep_if_split test (x ∷ xs) = ground (arith, length-keep_if_split test xs)

  -- A list and the parts by a test hold the same.
  pub total-keep_if_split :
      (f : A → ℕ) (test : A → Bool) (xs : List A)
      → total f (keep_if test xs) + total f (keep_if (λ x. not (test x)) xs) ≡ total f xs
  total-keep_if_split f test [] = omega arith
  total-keep_if_split f test (x ∷ xs) = ground (arith, total-keep_if_split f test xs)

  pub total-take-le : (f : A → ℕ) (n : ℕ) (xs : List A) → total f (take n xs) ≤ total f xs
  total-take-le f zero xs = omega arith
  total-take-le f (suc n) [] = omega arith
  total-take-le f (suc n) (x ∷ xs) = omega (arith, total-take-le f n xs)

  -- The part of a total that a test selects.
  abbrev pub only : (A → Bool) → (A → ℕ) → A → ℕ
  only test f x = if test x then f x else 0

  -- Items that the test does not let through add nothing.
  pub total-only-keep_if-not :
      (f : A → ℕ) (test : A → Bool) (xs : List A)
      → total (only test f) (keep_if (λ x. not (test x)) xs) ≡ 0
  total-only-keep_if-not f test [] = refl
  total-only-keep_if-not f test (x ∷ xs) = ground (arith, total-only-keep_if-not f test xs)
