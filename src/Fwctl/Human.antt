-- ===== src/Fwctl/Human.antt =====
-- control/fwctl.py, `human`, of a quotient that is not below zero.
use lookout.Common.{ℕ, ◌*◌, ◌/◌, ◌%◌, ◌∷◌, ◌++◌, leb, if◌then◌else◌}
use lookout.Common.Text.{Text, codes, show}
use lookout.Bench.Numbers.{round}

-- What is shown: a whole number, or tenths with a unit.
pub data Shown : Type 0 where
  whole : ℕ → Shown
  tenths : ℕ → Text → Shown

abbrev pub giga : ℕ
giga = 1_000_000_000

abbrev pub mega : ℕ
mega = 1_000_000

abbrev pub kilo : ℕ
kilo = 1_000

-- num / den in tenths of a unit of `div`.
abbrev pub in_tenths : ℕ → ℕ → ℕ → ℕ
in_tenths div num den = round (10 * num) (div * den)

-- `human(num / den)`: `abs(n) >= div` for each unit.
unfoldable pub human : ℕ → ℕ → Shown
human num den =
    if leb (giga * den) num
    then tenths (in_tenths giga num den) (codes "G")
    else if leb (mega * den) num
    then tenths (in_tenths mega num den) (codes "M")
    else if leb (kilo * den) num
    then tenths (in_tenths kilo num den) (codes "k")
    else whole (round num den)

-- The text, with one decimal for tenths.
unfoldable pub text_of : Shown → Text
unfolding show
text_of (whole n) = show n
text_of (tenths t unit) = show (t / 10) ++ (b'.' ∷ (show (t % 10) ++ unit))
