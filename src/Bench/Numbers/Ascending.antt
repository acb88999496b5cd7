-- ===== src/Bench/Numbers/Ascending.antt =====
-- bench/eval_report.py, `pct`: the sorted values.
use lookout.Common.{
  ℕ, suc, ◌≤◌, ◌≡◌, refl, sym, ◌∙◌, Bool, true, List, [], ◌∷◌, arith, ltb, length, if◌then◌else◌,
  Bool-cases, inl, inr,
}
use lookout.Fwctl.Lists.{sort, place}

-- The number of items that pass a test.
abbrev pub count : (ℕ → Bool) → List ℕ → ℕ
count p [] = 0
count p (x ∷ xs) = if p x then suc (count p xs) else count p xs

abbrev pub IsRising : List ℕ → Type 0
IsRising [] = Unit
IsRising (x ∷ []) = Unit
IsRising (x ∷ y ∷ xs) = (x ≤ y) × IsRising (y ∷ xs)

-- The bound is that of the item before.
abbrev pub IsAbove : ℕ → List ℕ → Type 0
IsAbove n [] = Unit
IsAbove n (x ∷ xs) = n ≤ x

cons : (x : ℕ) (xs : List ℕ) → IsAbove x xs → IsRising xs → IsRising (x ∷ xs)
cons x [] h f = tt
cons x (y ∷ xs) h f = (h, f)

pub tail-IsRising : (y : ℕ) (ys : List ℕ) → IsRising (y ∷ ys) → IsRising ys
tail-IsRising y [] f = tt
tail-IsRising y (z ∷ ys) f = f.1

pub tail-IsAbove : (y : ℕ) (ys : List ℕ) → IsRising (y ∷ ys) → IsAbove y ys
tail-IsAbove y [] f = tt
tail-IsAbove y (z ∷ ys) f = f.0

place-IsAbove : (n x : ℕ) (xs : List ℕ) → n ≤ x → IsAbove n xs → IsAbove n (place ltb x xs)
unfolding place
place-IsAbove n x [] h b = h
place-IsAbove n x (y ∷ ys) h b = elim (Bool-cases (ltb y x)) [ inl e ↦ rw e b | inr e ↦ rw e h ]

place-IsRising : (x : ℕ) (xs : List ℕ) → IsRising xs → IsRising (place ltb x xs)
unfolding place
place-IsRising x [] f = tt
place-IsRising x (y ∷ ys) f = elim (Bool-cases (ltb y x)) [
  | inl e ↦ rw e (
      cons y (place ltb x ys) (place-IsAbove y x ys (ground (arith, e)) (tail-IsAbove y ys f))
        (place-IsRising x ys (tail-IsRising y ys f)))
  | inr e ↦ rw e (cons x (y ∷ ys) (ground (arith, e)) f)
]

pub sort-IsRising : (xs : List ℕ) → IsRising (sort ltb xs)
unfolding sort
sort-IsRising [] = tt
sort-IsRising (x ∷ xs) = place-IsRising x (sort ltb xs) (sort-IsRising xs)

count-place : (p : ℕ → Bool) (x : ℕ) (xs : List ℕ) → count p (place ltb x xs) ≡ count p (x ∷ xs)
unfolding place
count-place p x [] = refl
count-place p x (y ∷ ys) = ground (arith, count-place p x ys)

pub count-sort : (p : ℕ → Bool) (xs : List ℕ) → count p (sort ltb xs) ≡ count p xs
unfolding sort
count-sort p [] = refl
count-sort p (x ∷ xs) = count-place p x (sort ltb xs) ∙ ground (arith, count-sort p xs)

all_count : (xs : List ℕ) → count (λ _. true) xs ≡ length xs
all_count [] = refl
all_count (x ∷ xs) = omega (arith, all_count xs)

pub length-sort : (xs : List ℕ) → length (sort ltb xs) ≡ length xs
length-sort xs = sym (all_count (sort ltb xs)) ∙ count-sort (λ _. true) xs ∙ all_count xs
