-- ===== src/Bench/Plot.antt =====
-- bench/plot.py: the summary of the throughput measurements, and the checks on them.
pub mod Agreement
pub mod Summary
pub mod Bars
use lookout.Common.{
  ℕ, zero, suc, ◌+◌, ◌-◌, ◌*◌, min, Bool, true, false, not, ◌&&◌, ◌||◌, List, [], ◌∷◌, ◌++◌, Option,
  none, some, ltb, ◌==◌, length, if◌then◌else◌,
}
use lookout.Common.Int.{ℤ, pos, negsuc, neg, pos_part, neg_part, sub_ℕ, scale, ◌+ℤ◌}
use lookout.Common.Ratio.{Ratio, ltb_ratio}
use lookout.Common.Exec.{Result, ok, err, value_error, zero_division}
use lookout.Common.Text.{Text, codes, text_beq}
use lookout.Bench.Numbers.{median}
use lookout.Bench.Measurements.{Row, Key, Systems, Data}

-- A field of some rows.
abbrev pub fields : (Row → Ratio) → List Row → List Ratio
fields f [] = []
fields f (r ∷ rs) = f r ∷ fields f rs

-- `med`
unfoldable pub med : (Row → Ratio) → List Row → Result Ratio
med f rows = median (fields f rows)

-- `core_pct`
unfoldable pub core_pct : List Row → Result Ratio
unfolding med
core_pct rows = elim (med (λ r. r.ns_per_pkt) rows) [
  | err c ↦ err c
  | ok m ↦ ok (record { num = m.num; den = 100 * m.den })
]

-- |a - b|
abbrev pub distance : ℕ → ℕ → ℕ
distance a b = (a - b) + (b - a)

-- `abs(float(r["ip_in"]) - expect)`: the packets that the kernel's counter lacks, or has too many of.
abbrev pub off_by : Text → Row → ℕ
off_by s r =
    if text_beq s (codes "nftables")
    then distance r.ip_in r.received
    else distance (r.ip_in + r.fw_dropped) r.received

-- `worst`, in percent, over the rows of one system.
unfoldable pub worst_of : Text → List Row → Ratio → Ratio
worst_of s [] worst = worst
worst_of s (r ∷ rs) worst =
    let diff : Ratio = record { num = pos (off_by s r * 100); den = r.received } in
    worst_of s rs (if r.received == 0 then worst else if ltb_ratio worst diff then diff else worst)

-- The rows that are checked: not those of the baseline, which has no counters.
abbrev pub checked : Text → List Row → List Row
checked s rows = if text_beq s (codes "xdp-empty") then [] else rows

unfoldable pub worst_systems : Systems → Ratio → Ratio
unfolding worst_of
worst_systems [] worst = worst
worst_systems ((s, rows) ∷ rest) worst = worst_systems rest (worst_of s (checked s rows) worst)

unfoldable pub worst_data : Data → Ratio → Ratio
unfolding worst_systems
worst_data [] worst = worst
worst_data ((k, systems) ∷ rest) worst = worst_data rest (worst_systems systems worst)

abbrev pub no_difference : Ratio
no_difference = record { num = pos 0; den = 1 }

-- The second line of `checks`: true is "ok", `worst < 1`.
unfoldable pub counters_agree : Data → Bool
unfolding worst_data
counters_agree groups =
    ltb_ratio (worst_data groups no_difference) (record { num = pos 1; den = 1 })

-- The difference of two quotients, and the quotient of two, if the second is not zero.
abbrev pub minus : Ratio → Ratio → Ratio
minus r s = record { num = scale r.num s.den +ℤ scale (neg s.num) r.den; den = r.den * s.den }

abbrev pub over : Ratio → Ratio → Result Ratio
over r s = elim s.num [
  | pos zero ↦ err zero_division
  | pos (suc n) ↦ ok (record { num = scale r.num s.den; den = r.den * suc n })
  | negsuc n ↦ ok (record { num = scale (neg r.num) s.den; den = r.den * suc n })
]

abbrev pub greatest : Ratio → List Ratio → Ratio
greatest r [] = r
greatest r (s ∷ ss) = greatest (if ltb_ratio r s then s else r) ss

abbrev pub least : Ratio → List Ratio → Ratio
least r [] = r
least r (s ∷ ss) = least (if ltb_ratio s r then s else r) ss

-- More than one value, and these are more than a quarter of their median apart.
unfoldable pub is_noisy : List Ratio → Result Bool
is_noisy [] = ok false
is_noisy (v ∷ []) = ok false
is_noisy (v ∷ u ∷ vals) = elim (median (v ∷ u ∷ vals)) [
  | err c ↦ err c
  | ok m ↦ elim (over (minus (greatest v (u ∷ vals)) (least v (u ∷ vals))) m) [
    | err c ↦ err c
    | ok spread ↦ ok (ltb_ratio (record { num = pos 1; den = 4 }) spread)
  ]
]

-- `med(rows, "cpu_busy_pct") > 90`
unfoldable pub is_busy : List Row → Result Bool
unfolding med
is_busy rows = elim (med (λ r. r.cpu_busy_pct) rows) [
  | err c ↦ err c
  | ok m ↦ ok (ltb_ratio (record { num = pos 90; den = 1 }) m)
]

-- The CPUs are busy for less than 80 % of what the senders alone must use.
unfoldable pub is_unseen : ℕ → ℕ → List Row → Result Bool
unfolding med
is_unseen zero n rows = ok false
is_unseen (suc ncpu) n rows = elim (med (λ r. r.cpu_busy_pct) rows) [
  | err c ↦ err c
  | ok m ↦ ok (ltb_ratio m (record { num = pos (80 * min n (suc ncpu)); den = suc ncpu }))
]

-- A group that one of the checks names.
abbrev pub Group : Type 0
Group = Text × Key

-- `noisy`, `busy` and `unseen`
pub record Marks : Type 0 where
  pub noisy : List Group
  pub busy : List Group
  pub unseen : List Group

abbrev mark : Bool → Group → List Group → List Group
mark b g groups = if b then groups ++ g ∷ [] else groups

unfoldable pub mark_systems : ℕ → Key → Systems → Marks → Result Marks
unfolding is_noisy is_busy is_unseen
mark_systems ncpu k [] marks = ok marks
mark_systems ncpu k ((s, rows) ∷ rest) marks = elim (is_noisy (fields (λ r. r.ns_per_pkt) rows)) [
  | err c ↦ err c
  | ok noisy ↦ elim (is_busy rows) [
    | err c ↦ err c
    | ok busy ↦ elim (is_unseen ncpu k.senders rows) [
      | err c ↦ err c
      | ok unseen ↦ mark_systems ncpu k rest (record {
        noisy = mark noisy (s, k) marks.noisy;
        busy = mark busy (s, k) marks.busy;
        unseen = mark unseen (s, k) marks.unseen;
      })
    ]
  ]
]

-- The loop of `checks`, but for `worst`.
unfoldable pub mark_data : ℕ → Data → Marks → Result Marks
unfolding mark_systems
mark_data ncpu [] marks = ok marks
mark_data ncpu ((k, systems) ∷ rest) marks = elim (mark_systems ncpu k systems marks) [
  | err c ↦ err c
  | ok marks' ↦ mark_data ncpu rest marks'
]
