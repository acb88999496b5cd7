-- ===== src/Fwctl/Lists/Reordering.antt =====
-- control/fwctl.py and bench/clients.py: `sorted` with an order of all values, which forgets the
-- order of what it is given.
use mathlib.Core.List.{Permᴰ}
use lookout.Common.{◌≡◌, refl, sym, ap, ◌∙◌, Bool, true, false, Bool-cases, inl, inr, List, [], ◌∷◌}
use lookout.Fwctl.Lists.{place, sort}

-- A strict order on all values.
pub record IsOrder {A : Type 0} (before : A → A → Bool) : Type 0 where
  pub asym : (x y : A) → before x y ≡ true → before y x ≡ false
  pub total : (x y : A) → before x y ≡ false → before y x ≡ false → x ≡ y
  pub trans : (x y z : A) → before x y ≡ true → before y z ≡ true → before x z ≡ true

module _ {A : Type 0} {before : A → A → Bool} (o : IsOrder before) where
  -- An item before one of two, but not before the other.
  placed_between : (x y z : A) → before z x ≡ true → before z y ≡ false → before y x ≡ true
  placed_between x y z h k = elim (Bool-cases (before y z)) [
    | inl e ↦ o.trans y z x e h
    | inr e ↦ rw (o.total y z e k) h
  ]

  place-first :
      (x y : A) (ys : List A) → before y x ≡ true → place before x (y ∷ ys) ≡ y ∷ place before x ys
  unfolding place
  place-first x y ys h = rw (h) refl

  place-later : (x y : A) (ys : List A) → before y x ≡ false → place before x (y ∷ ys) ≡ x ∷ y ∷ ys
  unfolding place
  place-later x y ys h = rw (h) refl

  pairs :
      (x y : A) (zs : List A)
      → place before x zs ≡ x ∷ zs
      → place before y zs ≡ y ∷ zs
      → place before x (place before y zs) ≡ place before y (place before x zs)
  pairs x y zs h k = elim (Bool-cases (before y x)) [
    | inl e ↦ rw (h, k, place-first x y zs e, h, place-later y x zs (o.asym y x e)) refl
    | inr e ↦ elim (Bool-cases (before x y)) [
      | inl d ↦ rw (h, k, place-later x y zs e, place-first y x zs d, k) refl
      | inr d ↦ rw (o.total x y d e) refl
    ]
  ]

  place-place :
      (x y : A) (zs : List A)
      → place before x (place before y zs) ≡ place before y (place before x zs)
  unfolding place
  place-place x y [] = pairs x y [] refl refl
  place-place x y (z ∷ zs) = elim (Bool-cases (before z x)) [
    | inl e ↦ elim (Bool-cases (before z y)) [
      | inl d ↦
          ap (place before x) (place-first y z zs d)
          ∙ place-first x z (place before y zs) e
          ∙ ap (◌∷◌ z) (place-place x y zs)
          ∙ sym (place-first y z (place before x zs) d)
          ∙ sym (ap (place before y) (place-first x z zs e))
      | inr d ↦
          ap (place before x) (place-later y z zs d)
          ∙ place-first x y (z ∷ zs) (placed_between x y z e d)
          ∙ ap (◌∷◌ y) (place-first x z zs e)
          ∙ sym (place-later y z (place before x zs) d)
          ∙ sym (ap (place before y) (place-first x z zs e))
    ]
    | inr e ↦ elim (Bool-cases (before z y)) [
      | inl d ↦
          ap (place before x) (place-first y z zs d)
          ∙ place-later x z (place before y zs) e
          ∙ sym (ap (◌∷◌ x) (place-first y z zs d))
          ∙ sym (place-first y x (z ∷ zs) (placed_between y x z d e))
          ∙ sym (ap (place before y) (place-later x z zs e))
      | inr d ↦ pairs x y (z ∷ zs) (place-later x z zs e) (place-later y z zs d)
    ]
  ]

  pub sort-Perm : {xs ys : List A} → Permᴰ xs ys → sort before xs ≡ sort before ys
  unfolding sort
  sort-Perm Permᴰ.nil = refl
  sort-Perm (Permᴰ.cons {a} {b} e d) = rw (e, sort-Perm d) refl
  sort-Perm (Permᴰ.swap {a} {b} {a'} {b'} {l} e d) = rw (e, d) (place-place b' a' (sort before l))
  sort-Perm (Permᴰ.trans d e) = sort-Perm d ∙ sort-Perm e

module _ {A : Type 0} (before : A → A → Bool) where
  -- No item comes before the one that it follows.
  abbrev pub IsAscending : List A → Type 0
  IsAscending [] = Unit {0}
  IsAscending (x ∷ []) = Unit {0}
  IsAscending (x ∷ y ∷ zs) = (before y x ≡ false) × IsAscending (y ∷ zs)

  pub sort-IsAscending : (xs : List A) → IsAscending xs → sort before xs ≡ xs
  unfolding sort place
  sort-IsAscending [] h = refl
  sort-IsAscending (x ∷ []) h = refl
  sort-IsAscending (x ∷ y ∷ zs) (h, rest) = rw (sort-IsAscending (y ∷ zs) rest) (rw (h) refl)
