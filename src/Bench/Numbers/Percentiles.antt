-- ===== src/Bench/Numbers/Percentiles.antt =====
-- bench/eval_report.py, `pct`: what the nearest rank is.
use lookout.Common.{
  ℕ, zero, suc, ◌+◌, ◌-◌, ◌*◌, ◌/◌, ◌%◌, ◌≤◌, ◌<◌, ◌≡◌, refl, sym, ◌⊎◌, Bool, true, false, List, [],
  ◌∷◌, some, arith, ltb, leb, ◌==◌, min, length, get_elem?, if◌then◌else◌, Bool-cases, inl, inr,
}
use mathlib.Core.Path.{subst}
use native.Mathlib.Nat.{div-add-mod', mod-lt, mul-le-mul_right}
use lookout.Fwctl.Lists.{sort, place}
use lookout.Bench.Numbers.{round, ascending, pct}
use lookout.Bench.Numbers.Ascending.{
  count, IsRising, IsAbove, tail-IsRising, tail-IsAbove, sort-IsRising, count-sort, length-sort,
}

-- An item of a rising list is at least as great as those before it.
head_le :
    (y : ℕ) (ys : List ℕ) (i x : ℕ) → IsRising (y ∷ ys) → get_elem? (y ∷ ys) i ≡ some x → y ≤ x
head_le y ys zero x f h = ground (arith, h)
head_le y [] (suc i) x f h = ground (arith, h)
head_le y (z ∷ ys) (suc i) x f h = omega (arith, f.0, head_le z ys i x f.1 h)

below_rank :
    (v : List ℕ) (i x : ℕ) → IsRising v → get_elem? v i ≡ some x → suc i ≤ count (λ y. leb y x) v
below_rank [] i x f h = ground (arith, h)
below_rank (y ∷ ys) zero x f h = ground (arith, h)
below_rank (y ∷ ys) (suc i) x f h =
    ground (arith, head_le y ys (suc i) x f h, below_rank ys i x (tail-IsRising y ys f) h)

lower : (x y : ℕ) (ys : List ℕ) → x ≤ y → IsAbove y ys → IsAbove x ys
lower x y [] h k = tt
lower x y (z ∷ ys) h k = omega (arith, h, k)

all_above : (v : List ℕ) (x : ℕ) → IsRising v → IsAbove x v → count (λ y. leb x y) v ≡ length v
all_above [] x f h = refl
all_above (y ∷ ys) x f h =
    ground (arith, h, all_above ys x (tail-IsRising y ys f) (lower x y ys h (tail-IsAbove y ys f)))

above_rank :
    (v : List ℕ) (i x : ℕ)
    → IsRising v
    → get_elem? v i ≡ some x
    → length v ≤ count (λ y. leb x y) v + i
above_rank [] i x f h = omega arith
above_rank (y ∷ ys) zero x f h = omega (arith, all_above (y ∷ ys) x f (ground (arith, h)))
above_rank (y ∷ ys) (suc i) x f h = ground (arith, above_rank ys i x (tail-IsRising y ys f) h)

-- `k` is a nearest whole number to (q * den + r) / den.
abbrev IsNear : ℕ → ℕ → ℕ → ℕ → Type 0
IsNear q r den k =
    (2 * (q * den + r) ≤ (2 * k + 1) * den) × (2 * (k * den) ≤ 2 * (q * den + r) + den)

down : (q r den : ℕ) → 2 * r ≤ den → IsNear q r den q
down q r den h = (omega (arith, h), omega arith)

up : (q r den : ℕ) → r < den → den ≤ 2 * r → IsNear q r den (suc q)
up q r den small h = (omega (arith, small), omega (arith, h))

half :
    (q r den : ℕ)
    → r < den
    → den ≤ 2 * r
    → 2 * r ≤ den
    → (even : Bool) → IsNear q r den (if even then q else suc q)
half q r den small le ge true = down q r den ge
half q r den small le ge false = up q r den small le

near :
    (q r den : ℕ) (even : Bool)
    → r < den
    → IsNear q r den (
        if ltb (2 * r) den then q else if ltb den (2 * r) then suc q else if even then q else suc q)
near q r den even small = elim (Bool-cases (ltb (2 * r) den)) [
  | inl less ↦ rw less (down q r den (ground (arith, less)))
  | inr e ↦ elim (Bool-cases (ltb den (2 * r))) [
    | inl more ↦ rw (e, more) (up q r den small (ground (arith, more)))
    | inr e2 ↦ rw (e, e2) (half q r den small (ground (arith, e)) (ground (arith, e2)) even)
  ]
]

pub round-near :
    (num den : ℕ)
    → 1 ≤ den
    → (2 * num ≤ (2 * round num den + 1) * den) × (2 * (round num den * den) ≤ 2 * num + den)
unfolding round
round-near num den h =
    subst (λ m. (2 * m ≤ (2 * round num den + 1) * den) × (2 * (round num den * den) ≤ 2 * m + den))
      (div-add-mod' num den) (near (num / den) (num % den) den (num / den % 2 == 0) (mod-lt num h))

get_some : (v : List ℕ) (i : ℕ) → i < length v → (x : ℕ) × (get_elem? v i ≡ some x)
get_some [] i h = let no : ⊥ = omega (arith, h) in elim no [ ]
get_some (x ∷ xs) zero h = (x, refl)
get_some (x ∷ xs) (suc i) h = get_some xs i (omega (arith, h))

once_found : (v : List ℕ) (i x : ℕ) → get_elem? v i ≡ some x → 1 ≤ count (λ y. y == x) v
once_found [] i x h = ground (arith, h)
once_found (y ∷ ys) zero x h = ground (arith, h)
once_found (y ∷ ys) (suc i) x h = ground (arith, once_found ys i x h)

-- The place `i` of rank `r`, for a fraction a / b of n values.
rank_above :
    (a b n r i : ℕ)
    → a ≤ b
    → 2 * (a * n) ≤ (2 * r + 1) * b
    → (r ≤ suc i) ⊎ (n ≤ suc i)
    → 2 * (a * n) ≤ (2 * suc i + 1) * b
rank_above a b n r i le lower (inl h) = omega (arith, lower, mul-le-mul_right b h)
rank_above a b n r i le lower (inr h) = omega (arith, mul-le-mul_right n le, mul-le-mul_right b h)

rank_below : (a b n r i : ℕ) → 2 * (r * b) ≤ 2 * (a * n) + b → i ≤ r - 1 → 2 * (i * b) ≤ 2 * (a * n)
rank_below a b n zero zero upper h = omega arith
rank_below a b n zero (suc i) upper h = omega (arith, h)
rank_below a b n (suc r) i upper h =
    omega (arith, upper, mul-le-mul_right {m = i} {n = r} b (omega (arith, h)))

min_place : (n r : ℕ) → (r ≤ suc (min (n - 1) (r - 1))) ⊎ (n ≤ suc (min (n - 1) (r - 1)))
min_place n r = elim (Bool-cases (leb r n)) [
  | inl h ↦ inl (ground (arith, h))
  | inr h ↦ inr (ground (arith, h))
]

-- What the item at the rank is, in the sorted list.
at_rank :
    (v : List ℕ) (a b i x : ℕ)
    → IsRising v
    → a ≤ b
    → 1 ≤ b
    → i ≡ min (length v - 1) (round (a * length v) b - 1)
    → get_elem? v i ≡ some x
    → (1 ≤ count (λ y. y == x) v)
      × (2 * (a * length v) ≤ (2 * count (λ y. leb y x) v + 1) * b)
      × (length v * b ≤ count (λ y. leb x y) v * b + a * length v)
at_rank v a b i x sorted le pos place e =
    let n = length v in
    let r = round (a * n) b in
    let (lower, upper) = round-near (a * n) b pos in
    let reached = subst (λ j. (r ≤ suc j) ⊎ (n ≤ suc j)) (sym place) (min_place n r) in
    (
      once_found v i x e,
      omega (
        arith,
        rank_above a b n r i le lower reached,
        mul-le-mul_right b (below_rank v i x sorted e),
      ),
      omega (
        arith,
        rank_below a b n r i upper (omega (arith, place)),
        mul-le-mul_right b (above_rank v i x sorted e),
      ),
    )

-- For a fraction a / b of at most 1 and at least one value, `pct` is one of the values, at most half
-- a value short of a / b of them is no greater than it, and at most a / b of them is less.
pub pct-nearest :
    (values : List ℕ) (a b : ℕ)
    → 1 ≤ length values
    → 1 ≤ b
    → a ≤ b
    → (x : ℕ) × ((pct values a b ≡ some x)
        × (1 ≤ count (λ y. y == x) values)
        × (2 * (a * length values) ≤ (2 * count (λ y. leb y x) values + 1) * b)
        × (length values * b ≤ count (λ y. leb x y) values * b + a * length values))
unfolding pct ascending
pct-nearest [] a b h k l = let no : ⊥ = omega (arith, h) in elim no [ ]
pct-nearest (y ∷ ys) a b h k l =
    let values = y ∷ ys in
    let v = sort ltb values in
    let (x, e) =
      get_some v (min (length v - 1) (round (a * length v) b - 1))
        (omega (arith, length-sort values)) in
    let (among, most, rest) = at_rank v a b _ x (sort-IsRising values) l k refl e in
    (
      x,
      (
        e,
        omega (arith, among, count-sort (λ z. z == x) values),
        rw (sym (length-sort values), sym (count-sort (λ z. leb z x) values)) most,
        rw (sym (length-sort values), sym (count-sort (λ z. leb x z) values)) rest,
      ),
    )
