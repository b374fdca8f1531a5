-- ===== src/Prelude/Sort.antt =====
-- Python's `sorted`, stable, by a strict test on the elements.
use Prim.Native.Nat.{ℕ, ◌+◌}
use mathlib.Core.Path.{◌≡◌, refl}
use mathlib.Core.Bool.{Bool}
use mathlib.Core.List.{List, [], ◌∷◌}
use mathlib.Core.Option.{Option, none, some}
use native.Mathlib.Omega.{arith}
use mathlib.Core.Logic.{inl, inr}
use ndif.Prelude.Tests.{if◌then◌else◌, Bool-cases, Option-cases}
use ndif.Prelude.Lists.{length, All, sum_of}

module _ {A : Type 0} (lt : A → A → Bool) where
  -- Before the first element that is not smaller.
  unfoldable pub insert : A → List A → List A
  insert x [] = x ∷ []
  insert x (y ∷ ys) = if lt y x then y ∷ insert x ys else x ∷ y ∷ ys

  unfoldable pub sort : List A → List A
  unfolding insert
  sort [] = []
  sort (x ∷ xs) = insert x (sort xs)

  -- The first of the least elements, and the others.
  unfoldable pub extract_min : List A → Option (A × List A)
  extract_min [] = none
  extract_min (x ∷ xs) = elim (extract_min xs) [
    | none ↦ some (x, [])
    | some (m, rest) ↦ if lt m x then some (m, x ∷ rest) else some (x, xs)
  ]

  extract_min_empty : (xs : List A) → extract_min xs ≡ none → xs ≡ []
  unfolding extract_min
  extract_min_empty [] h = refl
  extract_min_empty (x ∷ xs) h = absurd (ground arith)

  -- Taking the least element first is reading the sorted list from its head.
  pub sort-extract_min :
      (xs : List A) {m : A} {rest : List A}
      → extract_min xs ≡ some (m, rest)
      → sort xs ≡ m ∷ sort rest
  unfolding sort extract_min
  sort-extract_min [] h = ground arith
  sort-extract_min (x ∷ xs) {m} {rest} h = elim (Option-cases (extract_min xs)) [
    | inl e ↦
        let empty : xs ≡ [] = extract_min_empty xs e in
        let sorted : sort xs ≡ [] = rw empty in ground (arith, sorted)
    | inr ((m', rest'), e) ↦ ground (arith, sort-extract_min xs e)
  ]

  pub length-insert : (x : A) (xs : List A) → length (insert x xs) ≡ length xs + 1
  unfolding insert
  length-insert x [] = omega arith
  length-insert x (y ∷ ys) = ground (arith, length-insert x ys)

  pub length-sort : (xs : List A) → length (sort xs) ≡ length xs
  unfolding sort
  length-sort [] = refl
  length-sort (x ∷ xs) = omega (arith, length-insert x (sort xs), length-sort xs)

  pub insert-All {κ} : (P : A → Type κ) (x : A) (xs : List A) → P x → All P xs → All P (insert x xs)
  unfolding insert
  insert-All P x [] p ps = (p, tt)
  insert-All P x (y ∷ ys) p ps =
      let rest = insert-All P x ys p ps.1 in
      elim (Bool-cases (lt y x)) [ inl e ↦ rw e (ps.0, rest) | inr e ↦ rw e (p, ps) ]

  pub sort-All {κ} : (P : A → Type κ) (xs : List A) → All P xs → All P (sort xs)
  unfolding sort
  sort-All P [] ps = tt
  sort-All P (x ∷ xs) ps = insert-All P x (sort xs) ps.0 (sort-All P xs ps.1)

  sum_of-insert : (w : A → ℕ) (x : A) (xs : List A) → sum_of w (insert x xs) ≡ w x + sum_of w xs
  unfolding insert sum_of
  sum_of-insert w x [] = omega arith
  sum_of-insert w x (y ∷ ys) = ground (arith, sum_of-insert w x ys)

  pub sum_of-sort : (w : A → ℕ) (xs : List A) → sum_of w (sort xs) ≡ sum_of w xs
  unfolding sort sum_of
  sum_of-sort w [] = refl
  sum_of-sort w (x ∷ xs) = omega (arith, sum_of-insert w x (sort xs), sum_of-sort w xs)
