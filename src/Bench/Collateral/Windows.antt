-- ===== src/Bench/Collateral/Windows.antt =====
-- bench/eval_report.py, `collateral`: the requests in the windows.
use lookout.Common.{
  ℕ, suc, leb, ◌+◌, ◌≤◌, ◌≡◌, refl, ◌∙◌, List, [], ◌∷◌, Option, none, some, arith, ltb, length, All,
  if◌then◌else◌, ◌&&◌, true, false, Bool,
}
use lookout.Common.Int.{ℤ, pos, negsuc, pos_part, neg_part, leb_ℤ, ltb_ℤ}
use lookout.Bench.Numbers.{ascending}
use lookout.Bench.Numbers.Ascending.{length-sort}
use lookout.Bench.Collateral.{
  Request, Cell, between, answered, count_slow, cell_of, times_of, dist_of, seconds, cells_of,
  windows,
}

-- How many requests a test picks out.
unfoldable pub many : (Request → Bool) → List Request → ℕ
many test [] = 0
many test (q ∷ qs) = let rest = many test qs in if test q then suc rest else rest

-- Made in the last ten seconds before the attack.
abbrev pub in_lead : Request → Bool
in_lead q = leb_ℤ (negsuc 9_999_999_999) q.at && ltb_ℤ q.at (pos 0)

-- Made in the first forty seconds of the attack.
abbrev pub in_attack : Request → Bool
in_attack q = leb_ℤ (pos 0) q.at && ltb_ℤ q.at (pos 40_000_000_000)

-- The requests that a cell shows.
abbrev pub total_of : Option Cell → ℕ
total_of none = 0
total_of (some c) = c.total

abbrev pub total_of_all : List (Option Cell) → ℕ
total_of_all [] = 0
total_of_all (c ∷ cells) = total_of c + total_of_all cells

-- Each request was answered, or is slow, or both; a percentile is a dash only if none was answered.
abbrev pub IsSound : Option Cell → Type 0
IsSound none = Unit
IsSound (some c) = (1 ≤ c.total) × (c.ok ≤ c.total) × (c.slow ≤ c.total) × (c.total ≤ c.ok + c.slow)

length-times_of : (reqs : List Request) → length (times_of reqs) ≡ length reqs
unfolding times_of
length-times_of [] = refl
length-times_of (q ∷ qs) = omega (arith, length-times_of qs)

length_if :
    {A : Type 0} (b : Bool) (x : A) (xs : List A)
    → length (if b then x ∷ xs else xs) ≡ (if b then suc (length xs) else length xs)
length_if true x xs = refl
length_if false x xs = refl

-- Of the two windows that share the middle second, a time is in one.
split_time :
    (p n a b c : ℕ)
    → a ≡ b + c
    → (if leb (0 + n) (p + 0) && ltb (p + 0) (40000000000 + n) then suc a else a)
      ≡ (if leb (0 + n) (p + 0) && ltb (p + 0) (5000000000 + n) then suc b else b)
        + (if leb (5000000000 + n) (p + 0) && ltb (p + 0) (40000000000 + n) then suc c else c)
split_time p n a b c h = ground (arith, h)

total-between :
    (reqs : List Request)
    → length (between (seconds 0) (seconds 40) reqs)
      ≡ length (between (seconds 0) (seconds 5) reqs)
        + length (between (seconds 5) (seconds 40) reqs)
unfolding between
total-between [] = refl
total-between (q ∷ qs) =
    rw
      (
        length_if _ q (between (seconds 0) (seconds 40) qs),
        length_if _ q (between (seconds 0) (seconds 5) qs),
        length_if _ q (between (seconds 5) (seconds 40) qs),
      )
      (split_time (pos_part q.at) (neg_part q.at) _ _ _ (total-between qs))

counts :
    (reqs : List Request)
    → (length (answered reqs) ≤ length reqs)
      × (count_slow reqs ≤ length reqs)
      × (length reqs ≤ length (answered reqs) + count_slow reqs)
unfolding answered count_slow
counts [] = omega arith
counts (q ∷ qs) =
    let (fewer, slow, all) = counts qs in
    rw (length_if q.ok q.latency (answered qs))
      (ground (arith, fewer), ground (arith, slow), ground (arith, all))

total_of-cell_of : (reqs : List Request) → total_of (cell_of reqs) ≡ length reqs
unfolding cell_of
total_of-cell_of [] = refl
total_of-cell_of (q ∷ qs) = refl

cell_of-IsSound : (reqs : List Request) → IsSound (cell_of reqs)
unfolding cell_of
cell_of-IsSound [] = tt
cell_of-IsSound (q ∷ qs) =
    (omega arith, (counts (q ∷ qs)).0, (counts (q ∷ qs)).1, (counts (q ∷ qs)).2)

length-between :
    (lo hi : ℤ) (reqs : List Request)
    → length (between lo hi reqs) ≡ many (λ q. leb_ℤ lo q.at && ltb_ℤ q.at hi) reqs
unfolding between many
length-between lo hi [] = refl
length-between lo hi (q ∷ qs) = length_if _ q (between lo hi qs) ∙ rw (length-between lo hi qs) refl

pub length-dist_of : (reqs : List Request) → length (dist_of reqs) ≡ many in_attack reqs
unfolding dist_of ascending
length-dist_of reqs =
    length-sort (times_of (between (seconds 0) (seconds 40) reqs))
    ∙ length-times_of (between (seconds 0) (seconds 40) reqs)
    ∙ length-between (seconds 0) (seconds 40) reqs

-- The figure takes the requests of the first forty seconds of the attack, each once; the windows of
-- the summary hold together these and the requests of the ten seconds before the attack, each in one
-- window. In every cell, each request of the window was answered, or is slow, or both.
pub dist_of-windows :
    (reqs : List Request)
    → (length (dist_of reqs) ≡ many in_attack reqs)
      × (total_of_all (cells_of windows reqs) ≡ many in_lead reqs + many in_attack reqs)
      × All IsSound (cells_of windows reqs)
unfolding cells_of
dist_of-windows reqs = (
  length-dist_of reqs,
  rw
      (
        total_of-cell_of (between (negsuc 9_999_999_999) (seconds 0) reqs),
        total_of-cell_of (between (seconds 0) (seconds 5) reqs),
        total_of-cell_of (between (seconds 5) (seconds 40) reqs),
      )
      (omega (
        arith,
        total-between reqs,
        length-between (negsuc 9_999_999_999) (seconds 0) reqs,
        length-between (seconds 0) (seconds 40) reqs,
      )),
  (cell_of-IsSound _, (cell_of-IsSound _, (cell_of-IsSound _, tt))),
)
