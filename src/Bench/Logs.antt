-- ===== src/Bench/Logs.antt =====
-- bench/eval_report.py, `from_log`: what the log of a controller shows of a source.
pub mod Digits
pub mod Rates
use lookout.Common.{
  ℕ, ◌^◌, ◌||◌, ◌++◌, ◌==◌, length, Option, List, [], ◌∷◌, none, some, if◌then◌else◌,
}
use lookout.Common.Int.{pos, scale}
use lookout.Common.Ratio.{Ratio, ltb_ratio}
use lookout.Common.Dict
use lookout.Common.Dict.{Dict}
use lookout.Common.Exec.{Result, ok, err, key_error, value_error}
use lookout.Common.Text.{Text, codes, text_eq, text_beq, is_digit, digits_value, split}
use lookout.Bench.Numbers.{median}

-- A line of the controller's screen on the source: the rate with its unit, the share of its packets
-- that was dropped, and the status.
pub record Seen : Type 0 where
  pub pps : Ratio
  pub unit : Text
  pub dropped : ℕ
  pub status : Text

-- What the two patterns of `from_log` find in a log.
pub record Log : Type 0 where
  pub reasons : List Text
  pub seen : List Seen

abbrev pub whole : ℕ → Ratio
whole n = record { num = pos n; den = 1 }

-- The scale of a rate's unit.
abbrev pub units : Dict Text ℕ
units =
    (codes "", 1) ∷ (codes "k", 1_000) ∷ (codes "M", 1_000_000) ∷ (codes "G", 1_000_000_000) ∷ []

-- `[\d.]+` at the start of a text, and what follows.
unfoldable pub number_part : Text → Text × Text
number_part [] = ([], [])
number_part (c ∷ s) =
    let (n, rest) = number_part s in if is_digit c || c == b'.' then (c ∷ n, rest) else ([], c ∷ s)

-- `[kMG]?`
abbrev pub unit_part : Text → Text
unit_part [] = []
unit_part (c ∷ s) = if c == b'k' || c == b'M' || c == b'G' then c ∷ [] else []

abbrev pub decimal : Option ℕ → ℕ → Result Ratio
decimal none places = err value_error
decimal (some n) places = ok (record { num = pos n; den = 10 ^ places })

-- `float(n)`, of a text that the pattern can find.
unfoldable pub float_of : Text × List Text → Result Ratio
unfolding digits_value
float_of ([], []) = err value_error
float_of ([], [] ∷ []) = err value_error
float_of (a, []) = decimal (digits_value 0 a) 0
float_of (a, b ∷ []) = decimal (digits_value 0 (a ++ b)) (length b)
float_of (a, b ∷ c ∷ more) = err value_error

-- `float(n) * scale[u]`
abbrev pub scaled : Result Ratio → Option ℕ → Result Ratio
scaled (err c) k = err c
scaled (ok r) none = err key_error
scaled (ok r) (some k) = ok (record { num = scale r.num k; den = r.den })

-- The rate that is read from a text.
unfoldable pub rate_of : Text → Result Ratio
unfolding number_part float_of split
rate_of s =
    let (n, rest) = number_part s in
    scaled (float_of (split b'.' n)) (Dict.lookup (unit_part rest) units)

-- `max((float(n) * scale[u] for n, u, _, _ in seen), default=0.0)`, with the greatest rate so far;
-- no rate is below zero.
unfoldable pub peak_of : Ratio → List Seen → Result Ratio
peak_of best [] = ok best
peak_of best (s ∷ seen) = elim (Dict.lookup s.unit units) [
  | none ↦ err key_error
  | some k ↦
      let rate : Ratio = record { num = scale s.pps.num k; den = s.pps.den } in
      peak_of (if ltb_ratio best rate then rate else best) seen
]

-- `[int(p) for _, _, p, status in seen if status != "BLOCKED"]`
unfoldable pub drops_of : List Seen → List Ratio
drops_of [] = []
drops_of (s ∷ seen) =
    let rest = drops_of seen in
    if text_beq s.status (codes "BLOCKED") then rest else whole s.dropped ∷ rest

-- `statistics.median(drops) if drops else 0`
unfoldable pub median_drop : List Ratio → Result Ratio
median_drop [] = ok (whole 0)
median_drop (d ∷ ds) = median (d ∷ ds)

-- `from_log`, from what its patterns find.
unfoldable pub from_log : Log → Result (List Text × Ratio × Ratio)
unfolding peak_of drops_of median_drop
from_log log = elim (peak_of (whole 0) log.seen) [
  | err c ↦ err c
  | ok peak ↦ elim (median_drop (drops_of log.seen)) [
    | err c ↦ err c
    | ok drop ↦ ok (log.reasons, peak, drop)
  ]
]
