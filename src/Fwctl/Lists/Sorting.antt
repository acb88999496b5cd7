-- ===== src/Fwctl/Lists/Sorting.antt =====
-- control/fwctl.py: the order of the listings.
use lookout.Common.{
  ℕ, ◌≤◌, ◌≡◌, refl, ◌∙◌, List, [], ◌∷◌, Bool-cases, inl, inr, arith, if◌then◌else◌, ◌==◌,
}
use lookout.Fwctl.Lists.{place, sort, heavier}

module _ {A : Type 0} (weight : A → ℕ) where
  -- Each item weighs at least as much as the next.
  abbrev pub IsFalling : List A → Type 0
  IsFalling [] = Unit
  IsFalling (x ∷ []) = Unit
  IsFalling (x ∷ y ∷ xs) = (weight y ≤ weight x) × IsFalling (y ∷ xs)

  -- Items of one weight.
  abbrev pub of_weight : ℕ → List A → List A
  of_weight n [] = []
  of_weight n (x ∷ xs) = if weight x == n then x ∷ of_weight n xs else of_weight n xs

  -- The bound is that of the item before.
  abbrev IsBelow : ℕ → List A → Type 0
  IsBelow n [] = Unit
  IsBelow n (x ∷ xs) = weight x ≤ n

  cons : (x : A) (xs : List A) → IsBelow (weight x) xs → IsFalling xs → IsFalling (x ∷ xs)
  cons x [] h f = tt
  cons x (y ∷ xs) h f = (h, f)

  place-IsBelow :
      (n : ℕ) (x : A) (xs : List A)
      → weight x ≤ n
      → IsBelow n xs
      → IsBelow n (place (heavier weight) x xs)
  unfolding place
  place-IsBelow n x [] h b = h
  place-IsBelow n x (y ∷ ys) h b = elim (Bool-cases (heavier weight y x)) [
    | inl first ↦ rw first b
    | inr later ↦ rw later h
  ]

  tail-IsFalling : (y : A) (ys : List A) → IsFalling (y ∷ ys) → IsFalling ys
  tail-IsFalling y [] f = tt
  tail-IsFalling y (z ∷ ys) f = f.1

  tail-IsBelow : (y : A) (ys : List A) → IsFalling (y ∷ ys) → IsBelow (weight y) ys
  tail-IsBelow y [] f = tt
  tail-IsBelow y (z ∷ ys) f = f.0

  place-IsFalling : (x : A) (xs : List A) → IsFalling xs → IsFalling (place (heavier weight) x xs)
  unfolding place
  place-IsFalling x [] f = tt
  place-IsFalling x (y ∷ ys) f = elim (Bool-cases (heavier weight y x)) [
    | inl first ↦ rw first (
        cons y (place (heavier weight) x ys)
          (place-IsBelow (weight y) x ys (ground arith) (tail-IsBelow y ys f))
          (place-IsFalling x ys (tail-IsFalling y ys f)))
    | inr later ↦ rw later (cons x (y ∷ ys) (ground arith) f)
  ]

  of_weight-place :
      (n : ℕ) (x : A) (xs : List A)
      → of_weight n (place (heavier weight) x xs) ≡ of_weight n (x ∷ xs)
  unfolding place
  of_weight-place n x [] = refl
  of_weight-place n x (y ∷ ys) = ground (arith, of_weight-place n x ys)

  of_weight-sort : (n : ℕ) (xs : List A) → of_weight n (sort (heavier weight) xs) ≡ of_weight n xs
  unfolding sort
  of_weight-sort n [] = refl
  of_weight-sort n (x ∷ xs) =
      of_weight-place n x (sort (heavier weight) xs) ∙ ground (arith, of_weight-sort n xs)

  falls : (xs : List A) → IsFalling (sort (heavier weight) xs)
  unfolding sort
  falls [] = tt
  falls (x ∷ xs) = place-IsFalling x (sort (heavier weight) xs) (falls xs)

  -- A sorted listing has the heaviest item first, and the items of each weight are those of the
  -- unsorted list, in the same order.
  pub sort-IsFalling :
      (xs : List A)
      → IsFalling (sort (heavier weight) xs)
        × ((n : ℕ) → of_weight n (sort (heavier weight) xs) ≡ of_weight n xs)
  sort-IsFalling xs = (falls xs, λ n. of_weight-sort n xs)
