-- ===== src/Common/Ratio.antt =====
-- Exact fractions in place of the program's floats: a quotient is kept as its two parts, and
-- compared by cross-multiplication. The rounding of floats is not modelled.
use lookout.Common.Int.{ℤ, scale, ltb_ℤ, leb_ℤ}
use Prim.Native.Nat.{ℕ}
use mathlib.Core.Bool.{Bool}

-- num / den, with den above zero in every value that the program makes.
pub record Ratio : Type 0 where
  pub num : ℤ
  pub den : ℕ

abbrev pub ltb_ratio : Ratio → Ratio → Bool
ltb_ratio r s = ltb_ℤ (scale r.num s.den) (scale s.num r.den)

abbrev pub leb_ratio : Ratio → Ratio → Bool
leb_ratio r s = leb_ℤ (scale r.num s.den) (scale s.num r.den)
