-- ===== src/Fwctl/Listings.antt =====
-- control/fwctl.py: what `allow list`, `block list` and `top` show, and in which order.
use mathlib.Core.Path.{subst}
use lookout.Common.{
  ℕ, zero, suc, ◌-◌, ◌+◌, min, ◌≡◌, refl, sym, ap, ◌∙◌, Bool, List, [], ◌∷◌, ◌++◌, take, drop,
  length, arith,
}
use lookout.Common.Int.{ℤ, pos, negsuc}
use lookout.Common.Exec.{ok, pure, ◌>>=◌}
use lookout.Firewall.Machine.{Machine}
use lookout.Firewall.Maps.{Firewall, Allowed, Blocked, list_allowed, list_blocked}
use lookout.Firewall.Rules.{read_states}
use lookout.Fwctl.{first, cmd_top}
use lookout.Fwctl.Lists.{
  AllowArgs, BlockArgs, Sources, sort, place, heavier, by_packets, lines, allow_entry, block_entry,
  cmd_allow, cmd_block,
}
use lookout.Fwctl.Lists.Sorting.{IsFalling, of_weight, sort-IsFalling}

-- The second list has the entries of the first, the heaviest first, and those of one weight in the
-- order that they had.
abbrev pub Ranks : {A : Type 0} → (A → ℕ) → List A → List A → Type 0
Ranks weight xs ys = IsFalling weight ys × ((n : ℕ) → of_weight weight n ys ≡ of_weight weight n xs)

-- How many of `len` entries a slice up to `count` has.
abbrev pub shown_of : ℤ → ℕ → ℕ
shown_of (pos n) len = min n len
shown_of (negsuc n) len = len - (n + 1)

module _ {A : Type 0} where
  take-drop : (n : ℕ) (xs : List A) → take n xs ++ drop n xs ≡ xs
  take-drop zero xs = refl
  take-drop (suc n) [] = refl
  take-drop (suc n) (x ∷ xs) = ap (λ r. x ∷ r) (take-drop n xs)

  length-take : (n : ℕ) (xs : List A) → length (take n xs) ≡ min n (length xs)
  length-take zero xs = omega arith
  length-take (suc n) [] = omega arith
  length-take (suc n) (x ∷ xs) = omega (arith, length-take n xs)

  rest_of : ℤ → List A → List A
  rest_of (pos n) xs = drop n xs
  rest_of (negsuc n) xs = drop (length xs - (n + 1)) xs

  first_rest : (count : ℤ) (xs : List A) → first count xs ++ rest_of count xs ≡ xs
  unfolding rest_of
  first_rest (pos n) xs = take-drop n xs
  first_rest (negsuc n) xs = take-drop (length xs - (n + 1)) xs

  length-first : (count : ℤ) (xs : List A) → length (first count xs) ≡ shown_of count (length xs)
  length-first (pos n) xs = length-take n xs
  length-first (negsuc n) xs = length-take (length xs - (n + 1)) xs ∙ omega arith

  length-place :
      (before : A → A → Bool) (x : A) (xs : List A) → length (place before x xs) ≡ suc (length xs)
  unfolding place
  length-place before x [] = refl
  length-place before x (y ∷ ys) = ground (arith, length-place before x ys)

  length-sort : (before : A → A → Bool) (xs : List A) → length (sort before xs) ≡ length xs
  unfolding sort
  length-sort before [] = refl
  length-sort before (x ∷ xs) =
      length-place before x (sort before xs) ∙ ap suc (length-sort before xs)

  -- The first part of a ranking, with the rest.
  first-Ranks :
      (weight : A → ℕ) (count : ℤ) (xs : List A)
      → let sorted = sort (heavier weight) xs in
        (length (first count sorted) ≡ shown_of count (length xs))
        × Ranks weight xs (first count sorted ++ rest_of count sorted)
  first-Ranks weight count xs =
      let sorted = sort (heavier weight) xs in
      (
        length-first count sorted ∙ ap (shown_of count) (length-sort (heavier weight) xs),
        subst (λ ys. Ranks weight xs ys) (sym (first_rest count sorted)) (sort-IsFalling weight xs),
      )

module _ {W : Type 0} (m : Machine W) (fw : Firewall) where
  -- Once their entries are read, the two listings show all of them and change nothing: the entries
  -- with the most hits first, and those with the same number of hits in the order they were read in.
  -- `top` shows the first part of its sources, ranked in the same way by their packets, up to the
  -- number asked for, or but for as many of the last if the number is negative.
  pub cmd_lists-Ranks :
      (all : Bool) (count : ℤ) (allowed : List Allowed) (blocks : List Blocked) (states : Sources)
      (w w1 v v1 u u1 : W)
      → list_allowed m fw w ≡ (ok allowed, w1)
      → list_blocked m fw all v ≡ (ok blocks, v1)
      → read_states m fw u ≡ (ok states, u1)
      → ((shown : List Allowed) × (cmd_allow m fw AllowArgs.list w
            ≡ (ok (lines allow_entry shown), w1))
          × Ranks (λ e. e.hits) allowed shown)
        × ((shown : List Blocked) × (cmd_block m fw (BlockArgs.list all) v
              ≡ (ok (lines block_entry shown), v1))
            × Ranks (λ e. e.hits) blocks shown)
        × ((shown rest : Sources) × (cmd_top m fw count u ≡ (ok shown, u1))
            × (length shown ≡ shown_of count (length states))
            × Ranks (λ s. s.1.packets) states (shown ++ rest))
  unfolding cmd_allow cmd_block cmd_top by_packets ◌>>=◌ pure
  cmd_lists-Ranks all count allowed blocks states w w1 v v1 u u1 h k l = (
    (_, rw h refl, sort-IsFalling (λ e. e.hits) allowed),
    (_, rw k refl, sort-IsFalling (λ e. e.hits) blocks),
    (
      first count (by_packets states),
      rest_of count (by_packets states),
      rw l refl,
      (first-Ranks (λ s. s.1.packets) count states).0,
      (first-Ranks (λ s. s.1.packets) count states).1,
    ),
  )
