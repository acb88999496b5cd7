-- ===== src/Bench/Collateral/Report.antt =====
-- bench/eval_report.py, `collateral`: the blocks of its table, and the data of the figures.
use lookout.Common.{ℕ, ◌&&◌, ◌||◌, Bool, false, List, [], ◌∷◌, Option, none, some, if◌then◌else◌}
use lookout.Common.Ratio.{Ratio}
use lookout.Common.Exec.{Result, ok, err, value_error}
use lookout.Common.Text.{Text, codes, text_beq}
use lookout.Firewall.Layout.{◌>>=◌}
use lookout.Bench.Numbers.{median}
use lookout.Bench.Plot.{greatest, least}
use lookout.Bench.Latency.{systems}
use lookout.Bench.Collateral.{
  Run, Files, Gathered, Cell, gather, cells_of, windows, ns_per_packet, controller_line, dist_of,
}

-- A row of runs.csv, with its attack and its system.
pub record RunRow : Type 0 where
  pub attack : Text
  pub system : Text
  pub run : Run

-- ATTACKS
abbrev pub attack_names : List Text
attack_names = codes "single" ∷ codes "spread" ∷ codes "random" ∷ []

-- `by[(a, s)]`, in the order of the rows
unfoldable pub runs_of : Text → Text → List RunRow → List Run
runs_of a s [] = []
runs_of a s (r ∷ rs) =
    let rest = runs_of a s rs in
    if text_beq r.attack a && text_beq r.system s then r.run ∷ rest else rest

abbrev pub any_attack : Text → List RunRow → Bool
any_attack a [] = false
any_attack a (r ∷ rs) = text_beq r.attack a || any_attack a rs

-- The attacks that were run.
unfoldable pub attacks_in : List RunRow → List Text → List Text
attacks_in rows [] = []
attacks_in rows (a ∷ others) =
    let rest = attacks_in rows others in if any_attack a rows then a ∷ rest else rest

-- The median, the least and the greatest.
pub record Span : Type 0 where
  pub mid : Ratio
  pub low : Ratio
  pub high : Ratio

abbrev pub values : (Run → Ratio) → List Run → List Ratio
values f [] = []
values f (r ∷ rs) = f r ∷ values f rs

-- `(med(f), min(…), max(…))`, which raises for no runs
unfoldable pub span_of : List Ratio → Result Span
span_of [] = err value_error
span_of (v ∷ vs) = do
  mid ← median (v ∷ vs)
  ok (record { mid = mid; low = least v vs; high = greatest v vs })

unfoldable pub each_ns : ℕ → List Run → Result (List Ratio)
each_ns ncpu [] = ok []
each_ns ncpu (r ∷ rs) = do ns ← ns_per_packet ncpu r; rest ← each_ns ncpu rs; ok (ns ∷ rest)

-- The line of a system, `load[(a, s)]` and `dist[(a, s)]`.
pub record Block : Type 0 where
  pub attack : Text
  pub system : Text
  pub attack_pps : Ratio
  pub ip_pps : Span
  pub softirq_pct : Span
  pub ns : Ratio
  pub cells : List (Option Cell)
  pub controller : Option (ℕ × Option (Ratio × ℕ))
  pub dist : List ℕ

unfoldable pub controller_part : Text → Gathered → Result (Option (ℕ × Option (Ratio × ℕ)))
controller_part s g =
    if text_beq s (codes "xdp-adaptive")
    then (do line ← controller_line g; ok (some line))
    else ok none

abbrev nothing_yet : Gathered
nothing_yet = record { reqs = []; blocks = []; tiers = [] }

unfoldable pub block_of : Files → ℕ → Text → Text → List Run → Result Block
unfolding span_of each_ns controller_part
block_of files ncpu a s rs = do
  g ← gather files s a rs nothing_yet
  ip ← span_of (values (λ r. r.ip_pps) rs)
  softirq ← span_of (values (λ r. r.softirq_pct) rs)
  each ← each_ns ncpu rs
  ns ← median each
  attack_pps ← median (values (λ r. r.attack_pps) rs)
  controller ← controller_part s g
  ok (record {
    attack = a;
    system = s;
    attack_pps = attack_pps;
    ip_pps = ip;
    softirq_pct = softirq;
    ns = ns;
    cells = cells_of windows g.reqs;
    controller = controller;
    dist = dist_of g.reqs;
  })

-- `if not rs: continue`
unfoldable pub block_before :
    Files → ℕ → Text → Text → List Run → Result (List Block) → Result (List Block)
unfolding block_of
block_before files ncpu a s [] others = others
block_before files ncpu a s (r ∷ rs) others = do
  b ← block_of files ncpu a s (r ∷ rs)
  rest ← others
  ok (b ∷ rest)

-- The two loops, over the attacks and the systems.
unfoldable pub blocks_of : Files → ℕ → List RunRow → Text → List Text → Result (List Block)
unfolding block_before runs_of
blocks_of files ncpu rows a [] = ok []
blocks_of files ncpu rows a (s ∷ ss) =
    block_before files ncpu a s (runs_of a s rows) (blocks_of files ncpu rows a ss)

unfoldable pub sections : Files → ℕ → List RunRow → List Text → Result (List (Text × List Block))
unfolding blocks_of
sections files ncpu rows [] = ok []
sections files ncpu rows (a ∷ others) = do
  blocks ← blocks_of files ncpu rows a systems
  rest ← sections files ncpu rows others
  ok ((a, blocks) ∷ rest)

unfoldable pub collateral : Files → ℕ → List RunRow → Result (List (Text × List Block))
unfolding sections attacks_in
collateral files ncpu rows = sections files ncpu rows (attacks_in rows attack_names)
