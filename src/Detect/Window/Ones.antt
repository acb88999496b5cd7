-- ===== src/Detect/Window/Ones.antt =====
-- control/detect.py: `bin(x).count("1")`.
use lookout.Common.{ℕ, zero, suc, ◌/◌, ◌^◌, ◌≤◌, ◌<◌, ◌≡◌, refl, arith}
use lookout.Detect.Window.{ones_in, count_ones}

-- A number below 2 ^ k has at most k one bits.
ones_in_bound : (k f x : ℕ) → x < 2 ^ k → ones_in f x ≤ k
unfolding ones_in
ones_in_bound k zero x h = omega arith
ones_in_bound zero (suc f) x h = ground arith
ones_in_bound (suc k) (suc f) x h = ground (arith, ones_in_bound k f (x / 2) (omega arith))

-- A 64-bit port bitmap has at most 64 one bits, counted as `bin(x).count("1")` counts them.
count_ones-le : (x : ℕ) → x < 2 ^ 64 → count_ones x ≤ 64
unfolding count_ones
count_ones-le x h = ones_in_bound 64 x x h

-- More rounds than bits change nothing.
pub ones_in_enough : (f g x : ℕ) → x ≤ f → x ≤ g → ones_in f x ≡ ones_in g x
unfolding ones_in
ones_in_enough zero zero x p q = refl
ones_in_enough zero (suc g) x p q = ground arith
ones_in_enough (suc f) zero x p q = ground arith
ones_in_enough (suc f) (suc g) x p q = ground (arith, ones_in_enough f g (x / 2))
