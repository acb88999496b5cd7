-- ===== src/Bench/Numbers.antt =====
-- bench/eval_report.py and bench/plot.py: the statistics of the summaries.
pub mod Ascending
pub mod Percentiles
use lookout.Common.{
  ℕ, zero, suc, ◌+◌, ◌-◌, ◌*◌, ◌/◌, ◌%◌, List, [], ◌∷◌, Option, none, some, ltb, ◌==◌, min, length,
  get_elem?, if◌then◌else◌,
}
use lookout.Common.Int.{scale, ◌+ℤ◌}
use lookout.Common.Ratio.{Ratio, ltb_ratio}
use lookout.Common.Exec.{Result, ok, err, value_error}
use lookout.Fwctl.Lists.{sort}

-- `round` of num / den: the nearest whole number, and the even one of two that are as near.
unfoldable pub round : ℕ → ℕ → ℕ
round num den =
    let whole = num / den in
    let twice = 2 * (num % den) in
    if ltb twice den
    then whole
    else if ltb den twice
    then suc whole
    else if whole % 2 == 0
    then whole
    else suc whole

unfoldable pub ascending : List ℕ → List ℕ
unfolding sort
ascending values = sort ltb values

-- `pct(values, q)` for q = num / den; none is the nan for no values.
unfoldable pub pct : List ℕ → ℕ → ℕ → Option ℕ
unfolding round ascending
pct [] num den = none
pct (x ∷ xs) num den =
    let v = ascending (x ∷ xs) in get_elem? v (min (length v - 1) (round (num * length v) den - 1))

-- Half the sum of two.
abbrev pub mean : Option Ratio → Option Ratio → Option Ratio
mean none _ = none
mean (some r) none = none
mean (some r) (some s) =
    some (record { num = scale r.num s.den +ℤ scale s.num r.den; den = 2 * (r.den * s.den) })

abbrev middle : List Ratio → ℕ → Option Ratio
middle v n =
    if n % 2 == 1 then get_elem? v (n / 2) else mean (get_elem? v (n / 2 - 1)) (get_elem? v (n / 2))

-- `statistics.median`
unfoldable pub median : List Ratio → Result Ratio
unfolding sort
median values =
    let v = sort ltb_ratio values in
    elim (middle v (length v)) [ none ↦ err value_error | some m ↦ ok m ]
