-- ===== src/Common/Sorting.antt =====
-- Python's comprehensions with a test, and `sorted`, which is stable.
use Prim.Native.Nat.{ℕ, ◌+◌, ◌≤◌}
use mathlib.Core.Path.{◌≡◌, refl}
use mathlib.Core.Bool.{Bool, true, false, ◌||◌}
use mathlib.Core.List.{List, [], ◌∷◌}
use native.Mathlib.Omega.{arith}
use eeveetuber.Common.Tests.{if◌then◌else◌, if_cases}
use eeveetuber.Common.Lists.{All, length, sum_of}

module _ {ℓ} {A : Type ℓ} where
  -- `[x for x in xs if test(x)]`
  abbrev pub keep : (A → Bool) → List A → List A
  keep test [] = []
  keep test (x ∷ xs) = if test x then x ∷ keep test xs else keep test xs

  -- `any(test(x) for x in xs)`
  abbrev pub any : (A → Bool) → List A → Bool
  any test [] = false
  any test (x ∷ xs) = test x || any test xs

  abbrev pub insert_by : (A → A → Bool) → A → List A → List A
  insert_by before x [] = x ∷ []
  insert_by before x (y ∷ ys) = if before y x then y ∷ insert_by before x ys else x ∷ y ∷ ys

  -- `sorted`, with the order of two keys as a test.
  abbrev pub sort_by : (A → A → Bool) → List A → List A
  sort_by before [] = []
  sort_by before (x ∷ xs) = insert_by before x (sort_by before xs)

  pub All-keep {κ} :
      (P : A → Type κ) (test : A → Bool) (xs : List A) → All P xs → All P (keep test xs)
  All-keep P test [] h = tt
  All-keep P test (x ∷ xs) h =
      if_cases (All P) (test x) (λ _. (h.0, All-keep P test xs h.1)) (λ _. All-keep P test xs h.1)

  -- What is kept has passed the test.
  pub All-kept : (test : A → Bool) (xs : List A) → All (λ x. test x ≡ true) (keep test xs)
  All-kept test [] = tt
  All-kept test (x ∷ xs) =
      if_cases (All (λ y. test y ≡ true)) (test x) (λ h. (h, All-kept test xs))
        (λ _. All-kept test xs)

  pub length-keep : (test : A → Bool) (xs : List A) → length (keep test xs) ≤ length xs
  length-keep test [] = omega arith
  length-keep test (x ∷ xs) = ground (arith, length-keep test xs)

  pub All-insert_by {κ} :
      (P : A → Type κ) (before : A → A → Bool) (x : A) (ys : List A)
      → P x
      → All P ys
      → All P (insert_by before x ys)
  All-insert_by P before x [] p h = (p, tt)
  All-insert_by P before x (y ∷ ys) p h =
      if_cases (All P) (before y x) (λ _. (h.0, All-insert_by P before x ys p h.1))
        (λ _. (p, (h.0, h.1)))

  pub All-sort_by {κ} :
      (P : A → Type κ) (before : A → A → Bool) (xs : List A) → All P xs → All P (sort_by before xs)
  All-sort_by P before [] h = tt
  All-sort_by P before (x ∷ xs) h =
      All-insert_by P before x (sort_by before xs) h.0 (All-sort_by P before xs h.1)

  any-insert_by :
      (test : A → Bool) (before : A → A → Bool) (x : A) (ys : List A)
      → any test (insert_by before x ys) ≡ (test x || any test ys)
  any-insert_by test before x [] = refl
  any-insert_by test before x (y ∷ ys) = ground (arith, any-insert_by test before x ys)

  -- Sorting loses nothing.
  pub any-sort_by :
      (test : A → Bool) (before : A → A → Bool) (xs : List A)
      → any test (sort_by before xs) ≡ any test xs
  any-sort_by test before [] = refl
  any-sort_by test before (x ∷ xs) =
      ground (arith, any-insert_by test before x (sort_by before xs), any-sort_by test before xs)

  pub any-All : (test : A → Bool) (xs : List A) → any test xs ≡ false → All (λ x. test x ≡ false) xs
  any-All test [] h = tt
  any-All test (x ∷ xs) h = (ground arith, any-All test xs (ground arith))

  sum_of-insert_by :
      (f : A → ℕ) (before : A → A → Bool) (x : A) (ys : List A)
      → sum_of f (insert_by before x ys) ≡ f x + sum_of f ys
  sum_of-insert_by f before x [] = refl
  sum_of-insert_by f before x (y ∷ ys) = ground (arith, sum_of-insert_by f before x ys)

  pub sum_of-sort_by :
      (f : A → ℕ) (before : A → A → Bool) (xs : List A) → sum_of f (sort_by before xs) ≡ sum_of f xs
  sum_of-sort_by f before [] = refl
  sum_of-sort_by f before (x ∷ xs) =
      omega (arith, sum_of-insert_by f before x (sort_by before xs), sum_of-sort_by f before xs)
