-- ===== src/Bench/Collateral.antt =====
-- bench/eval_report.py, `collateral`: how a normal client fares during an attack. Times are in
-- nanoseconds, and a latency is in hundredths of a millisecond, to which bench/clients.py rounds it.
pub mod Windows
pub mod Report
use lookout.Common.{
  ℕ, zero, suc, ◌+◌, ◌-◌, ◌*◌, Bool, true, false, not, ◌&&◌, ◌||◌, List, [], ◌∷◌, ◌++◌, Option,
  none, some, ltb, max, length, map, if◌then◌else◌,
}
use lookout.Common.Int.{ℤ, pos, negsuc, neg, sub_ℕ, scale, ltb_ℤ, leb_ℤ}
use lookout.Common.Ratio.{Ratio, ltb_ratio}
use lookout.Common.Exec.{Result, ok, err, value_error, zero_division, or_raise}
use lookout.Common.Text.{Text, codes, text_beq}
use lookout.Bench.Numbers.{pct, median, ascending}

-- A row of probe-*.csv; `latency_ms` is empty for a request that failed.
pub record Probe : Type 0 where
  pub time : ℕ
  pub ok : Bool
  pub latency : Option ℕ

-- A row of watch-*.csv, `blocked` split at its spaces.
pub record Watch : Type 0 where
  pub time : ℕ
  pub tier : ℕ
  pub blocked : List Text

-- A row of runs.csv.
pub record Run : Type 0 where
  pub run : Text
  pub start : ℕ
  pub attack_pps : Ratio
  pub ip_pps : Ratio
  pub softirq_pct : Ratio

-- A member of `reqs`: the time is that since the attack began.
pub record Request : Type 0 where
  pub at : ℤ
  pub ok : Bool
  pub latency : ℕ

-- TIMEOUT_MS and SLOW_MS
abbrev pub timeout : ℕ
timeout = 300_000

abbrev pub slow_from : ℕ
slow_from = 10_000

abbrev pub request_of : ℕ → Probe → Request
request_of start p = record {
  at = sub_ℕ p.time start;
  ok = p.ok;
  latency = elim p.latency [ none ↦ timeout | some ms ↦ ms ];
}

abbrev pub seconds : ℕ → ℤ
seconds n = pos (n * 1_000_000_000)

-- WINDOWS
abbrev pub windows : List (ℤ × ℤ)
windows = (negsuc 9_999_999_999, seconds 0) ∷ (seconds 0, seconds 5) ∷ (seconds 5, seconds 40) ∷ []

unfoldable pub between : ℤ → ℤ → List Request → List Request
between lo hi [] = []
between lo hi (q ∷ qs) =
    let rest = between lo hi qs in if leb_ℤ lo q.at && ltb_ℤ q.at hi then q ∷ rest else rest

-- `[q[2] for q in win if q[1]]`
unfoldable pub answered : List Request → List ℕ
answered [] = []
answered (q ∷ qs) = let rest = answered qs in if q.ok then q.latency ∷ rest else rest

-- `sum(1 for q in win if not q[1] or q[2] > SLOW_MS)`
unfoldable pub count_slow : List Request → ℕ
count_slow [] = 0
count_slow (q ∷ qs) =
    let rest = count_slow qs in if not q.ok || ltb slow_from q.latency then rest + 1 else rest

-- What a window shows, before it is formatted.
pub record Cell : Type 0 where
  pub total : ℕ
  pub ok : ℕ
  pub p50 : Option ℕ
  pub p99 : Option ℕ
  pub slow : ℕ

-- None is shown as a dash.
unfoldable pub cell_of : List Request → Option Cell
unfolding answered count_slow
cell_of [] = none
cell_of (q ∷ qs) =
    let win = q ∷ qs in
    let found = answered win in
    some (record {
      total = length win;
      ok = length found;
      p50 = pct found 1 2;
      p99 = pct found 99 100;
      slow = count_slow win;
    })

unfoldable pub cells_of : List (ℤ × ℤ) → List Request → List (Option Cell)
unfolding between cell_of
cells_of [] reqs = []
cells_of ((lo, hi) ∷ rest) reqs = cell_of (between lo hi reqs) ∷ cells_of rest reqs

-- The response times during the attack, failures as the timeout.
unfoldable pub times_of : List Request → List ℕ
times_of [] = []
times_of (q ∷ qs) = (if q.ok then q.latency else timeout) ∷ times_of qs

unfoldable pub dist_of : List Request → List ℕ
unfolding between times_of
dist_of reqs = ascending (times_of (between (seconds 0) (seconds 40) reqs))

-- `next((float(x["time"]) - start for x in w if x["blocked"]), None)`
unfoldable pub first_blocked : ℕ → List Watch → Option ℤ
first_blocked start [] = none
first_blocked start (x ∷ w) =
    let rest = first_blocked start w in
    elim x.blocked [ [] ↦ rest | _ ∷ _ ↦ some (sub_ℕ x.time start) ]

-- `max(int(x["tier"]) for x in w)`, which raises for no rows
unfoldable pub highest_tier : List Watch → Result ℕ
highest_tier [] = err value_error
highest_tier (x ∷ w) = elim (highest_tier w) [ err _ ↦ ok x.tier | ok t ↦ ok (max x.tier t) ]

-- `float(r["softirq_pct"]) / 100 * ncpu * 1e9 / float(r["attack_pps"])`
unfoldable pub ns_per_packet : ℕ → Run → Result Ratio
ns_per_packet ncpu r = elim r.attack_pps.num [
  | pos zero ↦ err zero_division
  | pos (suc n) ↦ ok (record {
    num = scale r.softirq_pct.num (ncpu * 1_000_000_000 * r.attack_pps.den);
    den = r.softirq_pct.den * 100 * suc n;
  })
  | negsuc n ↦ ok (record {
    num = scale (neg r.softirq_pct.num) (ncpu * 1_000_000_000 * r.attack_pps.den);
    den = r.softirq_pct.den * 100 * suc n;
  })
]

-- The files of the results. A probe that is not there raises.
pub record Files : Type 0 where
  pub probe : Text → Result (List Probe)
  pub watch : Text → Option (List Watch)

-- `reqs`, `blocks` and `tiers`
pub record Gathered : Type 0 where
  pub reqs : List Request
  pub blocks : List (Option ℤ)
  pub tiers : List ℕ

-- `f"{s}-{a}-{r['run']}"`
abbrev pub tag : Text → Text → Run → Text
tag s a r = s ++ codes "-" ++ a ++ codes "-" ++ r.run

-- The watch of a run, read for the adaptive system only.
unfoldable pub gather_watch : ℕ → Option (List Watch) → Gathered → Result Gathered
unfolding first_blocked highest_tier
gather_watch start none g = ok g
gather_watch start (some w) g = elim (highest_tier w) [
  | err c ↦ err c
  | ok t ↦
      ok (record g { blocks = g.blocks ++ first_blocked start w ∷ []; tiers = g.tiers ++ t ∷ [] })
]

unfoldable pub gather : Files → Text → Text → List Run → Gathered → Result Gathered
unfolding gather_watch
gather files s a [] g = ok g
gather files s a (r ∷ rs) g = elim (files.probe (tag s a r)) [
  | err c ↦ err c
  | ok probes ↦
      let watch = (if text_beq s (codes "xdp-adaptive") then files.watch (tag s a r) else none) in
      let longer = record g { reqs = g.reqs ++ map (request_of r.start) probes } in
      elim (gather_watch r.start watch longer) [ err c ↦ err c | ok g' ↦ gather files s a rs g' ]
]

-- `[b for b in blocks if b is not None]`, as quotients
unfoldable pub got : List (Option ℤ) → List Ratio
got [] = []
got (none ∷ blocks) = got blocks
got (some b ∷ blocks) = record { num = b; den = 1 } ∷ got blocks

abbrev pub max_of : ℕ → List ℕ → ℕ
max_of t [] = t
max_of t (u ∷ us) = max_of (max t u) us

-- The line on the controller: the highest tier, and the median of the first blocks with their
-- number, or none if it blocked nothing.
unfoldable pub controller_line : Gathered → Result (ℕ × Option (Ratio × ℕ))
unfolding got median
controller_line g = elim g.tiers [
  | [] ↦ err value_error
  | t ∷ ts ↦ elim (got g.blocks) [
    | [] ↦ ok (max_of t ts, none)
    | b ∷ bs ↦ elim (median (b ∷ bs)) [
      | err c ↦ err c
      | ok m ↦ ok (max_of t ts, some (m, length (b ∷ bs)))
    ]
  ]
]
