-- ===== src/Bench/Stack.antt =====
-- bench/eval_report.py, `stack_chart`: where its bars stand, and how high they are.
use lookout.Common.{ℕ, suc, ◌*◌, List, [], ◌∷◌, ◌&&◌, length, if◌then◌else◌}
use lookout.Common.Ratio.{Ratio}
use lookout.Common.Text.{Text, text_beq}
use lookout.Bench.Latency.{systems}
use lookout.Bench.Plot.{minus}
use lookout.Bench.Plot.Bars.{Bar, bar_at}
use lookout.Bench.Collateral.Report.{Block, Span}

-- `v * scale`, for a scale of 1 / k
abbrev pub scaled_down : ℕ → Ratio → Ratio
scaled_down k r = record { num = r.num; den = r.den * k }

abbrev pub bar_of : ℕ → Ratio → Span → Bar
bar_of k at v = record {
  at = at;
  value = scaled_down k v.mid;
  below = minus (scaled_down k v.mid) (scaled_down k v.low);
  above = minus (scaled_down k v.high) (scaled_down k v.mid);
}

-- `load[(a, s)][field]`, as a list that is empty if the pair is not in `load`
unfoldable pub loads : (Block → Span) → Text → Text → List Block → List Span
loads field a s [] = []
loads field a s (b ∷ blocks) =
    let rest = loads field a s blocks in
    if text_beq b.attack a && text_beq b.system s then field b ∷ [] else rest

abbrev pub stack_bar_before : ℕ → Ratio → List Span → List Bar → List Bar
stack_bar_before k at [] bars = bars
stack_bar_before k at (v ∷ vs) bars = bar_of k at v ∷ bars

-- The bars of the `i`-th system, from the `j`-th attack on.
unfoldable pub stack_bars_from :
    (Block → Span) → ℕ → Text → ℕ → ℕ → List Text → List Block → List Bar
unfolding loads
stack_bars_from field k s i j [] load = []
stack_bars_from field k s i j (a ∷ attacks) load =
    stack_bar_before k (bar_at (length systems) i j) (loads field a s load)
      (stack_bars_from field k s i (suc j) attacks load)

unfoldable pub stack_bars_of :
    (Block → Span) → ℕ → ℕ → List Text → List Text → List Block → List (List Bar)
unfolding stack_bars_from
stack_bars_of field k i [] attacks load = []
stack_bars_of field k i (s ∷ ss) attacks load =
    stack_bars_from field k s i 0 attacks load ∷ stack_bars_of field k (suc i) ss attacks load

-- The two panels: thousands of packets a second, and percent.
unfoldable pub stack_chart : List Text → List Block → List (List Bar) × List (List Bar)
unfolding stack_bars_of
stack_chart attacks load = (
  stack_bars_of (λ b. b.ip_pps) 1000 0 systems attacks load,
  stack_bars_of (λ b. b.softirq_pct) 1 0 systems attacks load,
)
