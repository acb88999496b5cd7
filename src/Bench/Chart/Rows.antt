-- ===== src/Bench/Chart/Rows.antt =====
-- bench/eval_report.py, `detection_chart`: every point has a row of its kind and name.
use lookout.Common.{
  ℕ, suc, ◌+◌, ◌≤◌, ◌<◌, ◌≡◌, ◌⊎◌, inl, inr, refl, sym, ◌∙◌, Bool, true, false, ◌||◌, Bool-cases,
  List, [], ◌∷◌, ◌++◌, arith, length,
}
use lookout.Common.Exec.{ok}
use lookout.Common.Text.{Text, codes, text_beq, text_beq_iff}
use lookout.Bench.Detection.{Key, Point}
use lookout.Bench.Chart.{
  attack_rows, normal_rows, is_attack, is_normal, attack_row, normal_row, has_attack, has_normal,
  shown, attack_labels, normal_labels, place_of, gap, row_of,
}

place_of-bounds :
    {A : Type 0} (test : A → Bool) (xs : List A) (n y : ℕ)
    → place_of test xs n ≡ ok y
    → (n ≤ y) × (y < n + length xs)
unfolding place_of
place_of-bounds test [] n y h = ground (arith, h)
place_of-bounds test (x ∷ xs) n y h = elim (Bool-cases (test x)) [
  | inl e ↦ ground (arith, e, h)
  | inr e ↦ ground (arith, e, h, place_of-bounds test xs (suc n) y)
]

-- Two tests that find the same row hold of one item.
shared :
    {A : Type 0} (test other : A → Bool) (xs : List A) (n y : ℕ)
    → place_of test xs n ≡ ok y
    → place_of other xs n ≡ ok y
    → (x : A) × ((test x ≡ true) × (other x ≡ true))
unfolding place_of
shared test other [] n y h k = ground (arith, h)
shared test other (x ∷ xs) n y h k = elim (Bool-cases (test x)) [
  | inl e ↦ elim (Bool-cases (other x)) [
    | inl f ↦ (x, (e, f))
    | inr f ↦
        let late = place_of-bounds other xs (suc n) y (ground (arith, f, k)) in
        let no : ⊥ = ground (arith, e, h, late) in elim no [ ]
  ]
  | inr e ↦ elim (Bool-cases (other x)) [
    | inl f ↦
        let late = place_of-bounds test xs (suc n) y (ground (arith, e, h)) in
        let no : ⊥ = ground (arith, f, k, late) in elim no [ ]
    | inr f ↦ shared test other xs (suc n) y (ground (arith, e, h)) (ground (arith, f, k))
  ]
]

abbrev any_of : {A : Type 0} → (A → Bool) → List A → Bool
any_of test [] = false
any_of test (x ∷ xs) = test x || any_of test xs

-- A row that the table has, and that is shown, is found.
place_of-shown :
    {A : Type 0} (test keep : A → Bool) (xs : List A) (n : ℕ)
    → ((x : A) → test x ≡ true → keep x ≡ true)
    → any_of test xs ≡ true
    → (y : ℕ) × (place_of test (shown keep xs) n ≡ ok y)
unfolding place_of shown
place_of-shown test keep [] n implied present = ground (arith, present)
place_of-shown test keep (x ∷ xs) n implied present = elim (Bool-cases (test x)) [
  | inl e ↦ (n, rw (implied x e, e) refl)
  | inr e ↦
      let later : any_of test xs ≡ true = ground (arith, e, present) in
      elim (Bool-cases (keep x)) [
        | inl f ↦ rw (f, e) (place_of-shown test keep xs (suc n) implied later)
        | inr f ↦ rw f (place_of-shown test keep xs n implied later)
      ]
]

module _ (p : Point) (after : List Point) where
  has_attack-here :
      (t : Text) (before : List Point)
      → is_attack p.key ≡ true
      → attack_row p.key t ≡ true
      → has_attack t (before ++ p ∷ after) ≡ true
  unfolding has_attack
  has_attack-here t [] e f = rw (e, f) refl
  has_attack-here t (q ∷ before) e f = ground (arith, has_attack-here t before e f)

  has_normal-here :
      (r : Text × Text) (before : List Point)
      → is_normal p.key ≡ true
      → normal_row p.key r ≡ true
      → has_normal r (before ++ p ∷ after) ≡ true
  unfolding has_normal
  has_normal-here r [] e f = rw (e, f) refl
  has_normal-here r (q ∷ before) e f = ground (arith, has_normal-here r before e f)

-- The key is one that the figure has a name for.
abbrev pub IsNamed : Key → Type 0
IsNamed k =
    (is_attack k ≡ true) × (any_of (attack_row k) attack_rows ≡ true)
    ⊎ (is_normal k ≡ true) × (any_of (normal_row k) normal_rows ≡ true)

-- Both are attacks of one kind, or one normal client.
abbrev pub SameRow : Key → Key → Type 0
SameRow k j =
    (is_attack k ≡ true) × (is_attack j ≡ true) × (k.traffic ≡ j.traffic)
    ⊎ (is_normal k ≡ true)
      × (is_normal j ≡ true)
      × (k.traffic ≡ j.traffic)
      × (k.setting ≡ j.setting)

abbrev pub InPart : List Point → Key → ℕ → Type 0
InPart ps k y =
    (is_attack k ≡ true) × (y < gap ps)
    ⊎ (is_normal k ≡ true) × (gap ps < y) × (y < gap ps + 1 + length (normal_labels ps))

above :
    {A : Type 0} (test : A → Bool) (xs : List A) (y : ℕ) → place_of test xs 0 ≡ ok y → y < length xs
above test xs y h = omega (arith, (place_of-bounds test xs 0 y h).1)

below :
    {A : Type 0} (test : A → Bool) (xs : List A) (m y : ℕ)
    → place_of test xs (m + 1) ≡ ok y
    → (m < y) × (y < m + 1 + length xs)
below test xs m y h =
    let (low, high) = place_of-bounds test xs (m + 1) y h in (omega (arith, low), high)

apart : (k : Key) → is_attack k ≡ true → is_normal k ≡ true → ⊥
unfolding text_beq
apart k e f =
    ground (arith, text_beq_iff k.kind (codes "attack"), text_beq_iff k.kind (codes "normal"), e, f)

row_of-InPart : (ps : List Point) (k : Key) (y : ℕ) → row_of ps k ≡ ok y → InPart ps k y
unfolding row_of
row_of-InPart ps k y h = elim (Bool-cases (is_attack k)) [
  | inl e ↦ inl (e, above (attack_row k) (attack_labels ps) y (rw e at h))
  | inr e ↦ elim (Bool-cases (is_normal k)) [
    | inl f ↦
        let (low, high) = below (normal_row k) (normal_labels ps) (gap ps) y (rw (e, f) at h) in
        inr (f, low, high)
    | inr f ↦ ground (arith, e, f, h)
  ]
]

same_attack :
    (k j : Key) (t : Text) → attack_row k t ≡ true → attack_row j t ≡ true → k.traffic ≡ j.traffic
same_attack k j t e f = sym ((text_beq_iff t k.traffic).0 e) ∙ (text_beq_iff t j.traffic).0 f

same_normal :
    (k j : Key) (r : Text × Text)
    → normal_row k r ≡ true
    → normal_row j r ≡ true
    → (k.traffic ≡ j.traffic) × (k.setting ≡ j.setting)
same_normal k j r e f = (
  sym ((text_beq_iff r.0 k.traffic).0 (ground (arith, e)))
      ∙ (text_beq_iff r.0 j.traffic).0 (ground (arith, f)),
  sym ((text_beq_iff r.1 k.setting).0 (ground (arith, e)))
      ∙ (text_beq_iff r.1 j.setting).0 (ground (arith, f)),
)

row_of-found :
    (before : List Point) (p : Point) (after : List Point)
    → IsNamed p.key
    → (y : ℕ) × (row_of (before ++ p ∷ after) p.key ≡ ok y)
unfolding row_of
row_of-found before p after (inl (e, named)) = rw e (
    place_of-shown (attack_row p.key) (λ t. has_attack t (before ++ p ∷ after)) attack_rows 0
      (λ t h. has_attack-here p after t before e h) named)
row_of-found before p after (inr (e, named)) = elim (Bool-cases (is_attack p.key)) [
  | inl f ↦ elim (apart p.key f e) [ ]
  | inr f ↦
      rw (f, e)
        (place_of-shown (normal_row p.key) (λ r. has_normal r (before ++ p ∷ after)) normal_rows _
          (λ r h. has_normal-here p after r before e h) named)
]

row-cases :
    (ps : List Point) (k : Key) (y : ℕ)
    → row_of ps k ≡ ok y
    → ((is_attack k ≡ true) × (place_of (attack_row k) (attack_labels ps) 0 ≡ ok y))
      ⊎ ((is_normal k ≡ true) × (place_of (normal_row k) (normal_labels ps) (gap ps + 1) ≡ ok y))
unfolding row_of
row-cases ps k y h = elim (Bool-cases (is_attack k)) [
  | inl e ↦ inl (e, rw e at h)
  | inr e ↦ elim (Bool-cases (is_normal k)) [
    | inl f ↦ inr (f, rw (e, f) at h)
    | inr f ↦ ground (arith, e, f, h)
  ]
]

separate :
    {A B : Type 0} (test : A → Bool) (other : B → Bool) (xs : List A) (ys : List B) (y : ℕ)
    → place_of test xs 0 ≡ ok y
    → place_of other ys (length xs + 1) ≡ ok y
    → ⊥
separate test other xs ys y h k =
    omega (arith, above test xs y h, (below other ys (length xs) y k).0)

row_of-SameRow :
    (ps : List Point) (k j : Key) (y : ℕ) → row_of ps k ≡ ok y → row_of ps j ≡ ok y → SameRow k j
row_of-SameRow ps k j y h l = elim (row-cases ps k y h) [
  | inl (e, at) ↦ elim (row-cases ps j y l) [
    | inl (f, too) ↦
        let (t, (has, has_too)) =
          shared (attack_row k) (attack_row j) (attack_labels ps) 0 y at too in
        inl (e, f, same_attack k j t has has_too)
    | inr (f, too) ↦
        elim (separate (attack_row k) (normal_row j) (attack_labels ps) (normal_labels ps) y at
          too) [ ]
  ]
  | inr (e, at) ↦ elim (row-cases ps j y l) [
    | inl (f, too) ↦
        elim (separate (attack_row j) (normal_row k) (attack_labels ps) (normal_labels ps) y too
          at) [ ]
    | inr (f, too) ↦
        let (r, (has, has_too)) =
          shared (normal_row k) (normal_row j) (normal_labels ps) (gap ps + 1) y at too in
        let (traffic, setting) = same_normal k j r has has_too in inr (e, f, traffic, setting)
  ]
]

-- The row of a key, which no key of another kind or name is given.
abbrev pub IsOwn : List Point → Key → ℕ → Type 0
IsOwn ps k y = (row_of ps k ≡ ok y) × InPart ps k y × ((j : Key) → row_of ps j ≡ ok y → SameRow k j)

-- Every point whose key the figure has a name for gets a row, an attack above the gap and a normal
-- client below it; any key that gets the same row is an attack of the same kind, or the same normal
-- client.
pub row_of-IsOwn :
    (before : List Point) (p : Point) (after : List Point)
    → IsNamed p.key
    → (y : ℕ) × IsOwn (before ++ p ∷ after) p.key y
row_of-IsOwn before p after named =
    let ps = before ++ p ∷ after in
    let (y, e) = row_of-found before p after named in
    (y, (e, row_of-InPart ps p.key y e, λ j h. row_of-SameRow ps p.key j y e h))
