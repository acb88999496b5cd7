-- ===== src/Bench/Plot/Summary.antt =====
-- bench/plot.py, `points` and `summary`: the rows of the summary, without their layout.
use lookout.Common.{ℕ, ◌&&◌, ◌||◌, ◌==◌, Bool, List, [], ◌∷◌, ltb, max, length, if◌then◌else◌}
use lookout.Common.Int.{pos, scale}
use lookout.Common.Ratio.{Ratio}
use lookout.Common.Exec.{Result, ok}
use lookout.Common.Text.{Text, codes, text_beq}
use lookout.Firewall.Layout.{◌>>=◌}
use lookout.Fwctl.Lists.{sort}
use lookout.Bench.Measurements.{Row, Key, Systems, Data, rows_of_key}
use lookout.Bench.Plot.{med, core_pct, over, minus}

-- SYSTEMS
abbrev pub plot_systems : List Text
plot_systems =
    codes "none" ∷ codes "nftables" ∷ codes "nft-ingress" ∷ codes "xdp" ∷ codes "xdp-empty" ∷ []

-- `order.index(k[0]) if k[0] in order else 9`, for the keys of WORKLOADS
abbrev pub workload_place : Text → ℕ
workload_place workload =
    if text_beq workload (codes "block")
    then 0
    else if text_beq workload (codes "limit")
    then 1
    else 9

-- The order of pairs.
abbrev pub key_before : Key → Key → Bool
key_before k j =
    ltb (workload_place k.workload) (workload_place j.workload)
    || (workload_place k.workload == workload_place j.workload && ltb k.senders j.senders)

abbrev pub keys_of : Data → List Key
keys_of [] = []
keys_of ((k, _) ∷ groups) = k ∷ keys_of groups

unfoldable pub points : Data → List Key
unfolding sort
points groups = sort key_before (keys_of groups)

-- A line: the rate that was offered, the shares in percent, and the medians.
pub record SummaryLine : Type 0 where
  pub key : Key
  pub system : Text
  pub offered : Ratio
  pub dropped : Ratio
  pub ip_saw : Ratio
  pub busy : Ratio
  pub softirq : Ratio
  pub ns : Ratio
  pub core : Ratio

abbrev pub whole : ℕ → Ratio
whole n = record { num = pos n; den = 1 }

abbrev pub times_100 : Ratio → Ratio
times_100 r = record { num = scale r.num 100; den = r.den }

-- In the order in which the line is formatted; a quotient by zero raises.
unfoldable pub summary_line : Key → Text → List Row → Result SummaryLine
summary_line k s rows = do
  rx ← med (λ r. whole r.received) rows
  sent ← med (λ r. r.offered) rows
  duration ← med (λ r. r.duration_s) rows
  offered ← over sent duration
  fw_dropped ← med (λ r. whole r.fw_dropped) rows
  dropped ← over (times_100 fw_dropped) rx
  ip_in ← med (λ r. whole r.ip_in) rows
  ip_saw ← over (times_100 ip_in) rx
  busy ← med (λ r. r.cpu_busy_pct) rows
  softirq ← med (λ r. r.cpu_softirq_pct) rows
  ns ← med (λ r. r.ns_per_pkt) rows
  core ← core_pct rows
  ok (record {
    key = k;
    system = s;
    offered = offered;
    dropped = dropped;
    ip_saw = ip_saw;
    busy = busy;
    softirq = softirq;
    ns = ns;
    core = core;
  })

-- `if not rows: continue`
unfoldable pub summary_line_before :
    Key → Text → List Row → Result (List SummaryLine) → Result (List SummaryLine)
unfolding summary_line
summary_line_before k s [] others = others
summary_line_before k s (r ∷ rows) others = do
  line ← summary_line k s (r ∷ rows)
  rest ← others
  ok (line ∷ rest)

unfoldable pub lines_for : Data → Key → List Text → Result (List SummaryLine)
lines_for groups k [] = ok []
lines_for groups k (s ∷ ss) =
    summary_line_before k s (rows_of_key k s groups) (lines_for groups k ss)

-- A list of lines for each point.
unfoldable pub tables : Data → List Key → Result (List (List SummaryLine))
tables groups [] = ok []
tables groups (k ∷ ks) = do
  lines ← lines_for groups k plot_systems
  rest ← tables groups ks
  ok (lines ∷ rest)

-- `if fw and floor`: the time of the firewall less that of the empty program.
unfoldable pub own_before :
    Key → List Row → List Row → Result (List (Key × Ratio)) → Result (List (Key × Ratio))
own_before k [] floor others = others
own_before k (r ∷ rows) [] others = others
own_before k (r ∷ rows) (f ∷ floor) others = do
  fw_ns ← med (λ r. r.ns_per_pkt) (r ∷ rows)
  floor_ns ← med (λ r. r.ns_per_pkt) (f ∷ floor)
  rest ← others
  ok ((k, minus fw_ns floor_ns) ∷ rest)

unfoldable pub own_work : Data → List Key → Result (List (Key × Ratio))
unfolding own_before
own_work groups [] = ok []
own_work groups (k ∷ ks) =
    own_before k (rows_of_key k (codes "xdp") groups) (rows_of_key k (codes "xdp-empty") groups)
      (own_work groups ks)

-- `max(len(v) for g in data.values() for v in g.values())`
abbrev pub longest_of : ℕ → Systems → ℕ
longest_of n [] = n
longest_of n ((s, rows) ∷ rest) = longest_of (max n (length rows)) rest

unfoldable pub repeats : Data → ℕ
repeats [] = 0
repeats ((k, by_system) ∷ groups) = longest_of (repeats groups) by_system

-- What the summary shows: the number of repeats, the tables, and the firewall's own work.
unfoldable pub summary : Data → Result (ℕ × List (List SummaryLine) × List (Key × Ratio))
summary groups = do
  tabled ← tables groups (points groups)
  own ← own_work groups (points groups)
  ok (repeats groups, tabled, own)
