-- ===== src/Bench/Plot/Bars.antt =====
-- bench/plot.py, `chart`: where its bars stand, and how high they are.
use lookout.Common.{
  ℕ, suc, ◌+◌, ◌-◌, ◌*◌, Bool, true, false, List, [], ◌∷◌, ◌||◌, length, if◌then◌else◌,
}
use lookout.Common.Int.{sub_ℕ}
use lookout.Common.Ratio.{Ratio}
use lookout.Common.Exec.{Result, ok}
use lookout.Common.Text.{Text, codes, text_beq}
use lookout.Firewall.Layout.{◌>>=◌}
use lookout.Bench.Measurements.{Row, Key, Data, rows_of_key}
use lookout.Bench.Plot.{core_pct, minus, greatest, least}
use lookout.Bench.Plot.Summary.{keys_of, points, plot_systems}

-- A bar: its place, its height, and how far the error bar goes below and above.
pub record Bar : Type 0 where
  pub at : Ratio
  pub value : Ratio
  pub below : Ratio
  pub above : Ratio

-- `j + (i - (n - 1) / 2) * width`, for a width of 0.8 / n
abbrev pub bar_at : ℕ → ℕ → ℕ → Ratio
bar_at n i j = record { num = sub_ℕ (10 * n * j + 8 * i) (4 * (n - 1)); den = 10 * n }

-- `float(r["ns_per_pkt"]) / 100`
abbrev pub per_core : Row → Ratio
per_core r = record { num = r.ns_per_pkt.num; den = r.ns_per_pkt.den * 100 }

abbrev pub per_cores : List Row → List Ratio
per_cores [] = []
per_cores (r ∷ rs) = per_core r ∷ per_cores rs

-- `if not rows: continue`
unfoldable pub bar_before : Ratio → List Row → Result (List Bar) → Result (List Bar)
bar_before at [] others = others
bar_before at (r ∷ rows) others = do
  value ← core_pct (r ∷ rows)
  rest ← others
  ok (
      record {
        at = at;
        value = value;
        below = minus value (least (per_core r) (per_cores rows));
        above = minus (greatest (per_core r) (per_cores rows)) value;
      }
      ∷ rest)

-- The bars of one system, the `i`-th of `n`, from the `j`-th key on.
unfoldable pub bars_from : Data → Text → ℕ → ℕ → ℕ → List Key → Result (List Bar)
unfolding bar_before
bars_from groups s n i j [] = ok []
bars_from groups s n i j (k ∷ ks) =
    bar_before (bar_at n i j) (rows_of_key k s groups) (bars_from groups s n i (suc j) ks)

-- `[k for k in points(data) if k[0] == wl]`
unfoldable pub keys_for : Text → List Key → List Key
keys_for wl [] = []
keys_for wl (k ∷ ks) =
    let rest = keys_for wl ks in if text_beq k.workload wl then k ∷ rest else rest

abbrev pub has_rows : List Row → Bool
has_rows [] = false
has_rows (r ∷ rows) = true

-- `any(s in data[k] for k in keys)`: a system that is there has a row.
unfoldable pub measured : Data → Text → List Key → Bool
measured groups s [] = false
measured groups s (k ∷ ks) = has_rows (rows_of_key k s groups) || measured groups s ks

unfoldable pub systems_for : Data → List Key → List Text → List Text
unfolding measured
systems_for groups ks [] = []
systems_for groups ks (s ∷ ss) =
    let rest = systems_for groups ks ss in if measured groups s ks then s ∷ rest else rest

unfoldable pub bars_for : Data → List Key → ℕ → ℕ → List Text → Result (List (Text × List Bar))
unfolding bars_from
bars_for groups ks n i [] = ok []
bars_for groups ks n i (s ∷ ss) = do
  bars ← bars_from groups s n i 0 ks
  rest ← bars_for groups ks n (suc i) ss
  ok ((s, bars) ∷ rest)

-- The panel of a workload.
unfoldable pub panel : Data → Text → Result (List (Text × List Bar))
unfolding bars_for keys_for systems_for
panel groups wl =
    let ks = keys_for wl (points groups) in
    let shown = systems_for groups ks plot_systems in bars_for groups ks (length shown) 0 shown

abbrev any_key : Text → List Key → Bool
any_key wl [] = false
any_key wl (k ∷ ks) = text_beq k.workload wl || any_key wl ks

-- `[w for w in WORKLOADS if any(k[0] == w for k in data)]`, and their panels
unfoldable pub panels_of : Data → List Text → Result (List (Text × List (Text × List Bar)))
unfolding panel
panels_of groups [] = ok []
panels_of groups (wl ∷ wls) =
    let rest = panels_of groups wls in
    if any_key wl (keys_of groups)
    then (do shown ← panel groups wl; others ← rest; ok ((wl, shown) ∷ others))
    else rest

unfoldable pub chart : Data → Result (List (Text × List (Text × List Bar)))
unfolding panels_of
chart groups = panels_of groups (codes "block" ∷ codes "limit" ∷ [])
