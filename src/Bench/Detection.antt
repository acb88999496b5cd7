-- ===== src/Bench/Detection.antt =====
-- bench/eval_report.py, `detection`: which sources were blocked, and how fast. Times are in
-- nanoseconds.
pub mod FirstBlock
pub mod Points
use lookout.Common.{
  ℕ, zero, suc, ◌+◌, ◌-◌, ◌*◌, Bool, true, false, not, ◌&&◌, ◌||◌, List, [], ◌∷◌, ◌++◌, Option,
  none, some, ltb, ◌==◌, length, if◌then◌else◌,
}
use lookout.Common.Int.{ℤ, pos, sub_ℕ, scale}
use lookout.Common.Ratio.{Ratio, ltb_ratio}
use lookout.Common.Dict
use lookout.Common.Dict.{Dict}
use lookout.Common.Exec.{Result, ok, err, value_error, key_error, or_raise}
use lookout.Common.Text.{Text, codes, text_eq, text_beq, int_of}
use lookout.Bench.Numbers.{median}
use lookout.Bench.Collateral.{Watch}
use lookout.Bench.Logs.{Log, from_log, whole}

infixl 10 ◌>>=◌
abbrev pub ◌>>=◌ : {A B : Type 0} → Result A → (A → Result B) → Result B
ok a >>= f = f a
err c >>= f = err c

-- A row of runs.csv.
pub record Run : Type 0 where
  pub kind : Text
  pub traffic : Text
  pub setting : Text
  pub run : Text
  pub source : Text
  pub start : ℕ
  pub rx_pps : ℕ
  pub mean_bytes : ℕ

-- The files of the results: the log of a run for a source, and the watch of a run, if it is there.
pub record Files : Type 0 where
  pub log : Text → Text → Result Log
  pub watch : Text → Option (List Watch)

unfoldable pub lists : Text → List Text → Bool
lists prefix [] = false
lists prefix (c ∷ cs) = let rest = lists prefix cs in text_beq c prefix || rest

unfoldable pub first_row : ℕ → Text → List Watch → Option ℤ
unfolding lists
first_row start prefix [] = none
first_row start prefix (w ∷ ws) =
    let rest = first_row start prefix ws in
    if lists prefix w.blocked then some (sub_ℕ w.time start) else rest

-- `first_block`
unfoldable pub first_block : Option (List Watch) → ℕ → Text → Option ℤ
unfolding first_row
first_block none start prefix = none
first_block (some ws) start prefix = first_row start prefix ws

-- `valid(r)`, which raises for an attack whose setting is no number
unfoldable pub valid : Run → Result Bool
valid r =
    if text_beq r.kind (codes "attack") && not (text_beq r.setting (codes "max"))
    then elim (int_of r.setting) [ err c ↦ err c | ok asked ↦ ok (not (ltb (2 * r.rx_pps) asked)) ]
    else ok true

-- `times`, `why`, `peaks` and `drops`; `why` may hold a reason more than once.
pub record Tally : Type 0 where
  pub times : List Ratio
  pub why : List Text
  pub peaks : List Ratio
  pub drops : List Ratio

-- `f"{k[1]}-{k[2]}-{r['run']}"`
abbrev pub tag : Run → Text
tag r = r.traffic ++ codes "-" ++ r.setting ++ codes "-" ++ r.run

-- A run that was blocked at `t`, or was not.
abbrev pub blocked_at : Option ℤ → List Text → Tally → Tally
blocked_at none reason s = s
blocked_at (some t) reason s = record s {
  times = s.times ++ record { num = t; den = 1 } ∷ [];
  why = s.why ++ reason;
}

unfoldable pub tally : Files → List Run → Tally → Result Tally
unfolding first_block from_log
tally files [] s = ok s
tally files (r ∷ rs) s = do
  log ← files.log (tag r) r.source
  found ← from_log log
  let (reason, peak, dropped) = found
  let t = first_block (files.watch (tag r)) r.start (r.source ++ codes "/32")
  let seen = record s { peaks = s.peaks ++ peak ∷ []; drops = s.drops ++ dropped ∷ [] }
  tally files rs (blocked_at t reason seen)

-- `[r for r in by[k] if valid(r)]`
unfoldable pub valid_runs : List Run → Result (List Run)
unfolding valid
valid_runs [] = ok []
valid_runs (r ∷ rs) = elim (valid r) [
  | err c ↦ err c
  | ok b ↦ elim (valid_runs rs) [ err c ↦ err c | ok kept ↦ ok (if b then r ∷ kept else kept) ]
]

-- (kind, traffic, setting)
pub record Key : Type 0 where
  pub kind : Text
  pub traffic : Text
  pub setting : Text

abbrev pub same_key : Key → Key → Bool
same_key k j =
    text_beq k.kind j.kind && text_beq k.traffic j.traffic && text_beq k.setting j.setting

abbrev pub key_of : Run → Key
key_of r = record { kind = r.kind; traffic = r.traffic; setting = r.setting }

-- `by[key].append(r)`
unfoldable pub append_to : Run → Dict Key (List Run) → Dict Key (List Run)
append_to r [] = (key_of r, r ∷ []) ∷ []
append_to r ((k, rs) ∷ by) =
    let rest = append_to r by in
    if same_key k (key_of r) then (k, rs ++ r ∷ []) ∷ by else (k, rs) ∷ rest

unfoldable pub group : List Run → Dict Key (List Run) → Dict Key (List Run)
unfolding append_to
group [] by = by
group (r ∷ rs) by = group rs (append_to r by)

-- The time to block: with all of the runs blocked, with some, or with none.
pub data When : Type 0 where
  all_blocked : Ratio → When
  some_blocked : Ratio → When
  never : When

unfoldable pub when_of : List Ratio → ℕ → Result When
when_of [] n = ok never
when_of (t ∷ ts) n = elim (median (t ∷ ts)) [
  | err c ↦ err c
  | ok m ↦ ok (if length (t ∷ ts) == n then all_blocked m else some_blocked m)
]

-- A row of the summary, before it is formatted.
pub data Line : Type 0 where
  -- the median rate of the runs, and their number
  not_measured : Key → Ratio → ℕ → Line
  -- the median peak, packet size and drop share; the runs that were blocked, all runs that count, and
  -- those left out
  measured : Key → (peak bytes drop : Ratio) → (blocked runs skipped : ℕ) → When → List Text → Line

abbrev pub rates : List Run → List Ratio
rates [] = []
rates (r ∷ rs) = whole r.rx_pps ∷ rates rs

abbrev pub sizes : List Run → List Ratio
sizes [] = []
sizes (r ∷ rs) = whole r.mean_bytes ∷ sizes rs

abbrev pub no_tally : Tally
no_tally = record { times = []; why = []; peaks = []; drops = [] }

-- The row of a key with runs `rs` that count, out of `all`.
unfoldable pub line_of : Files → Key → List Run → List Run → Result Line
unfolding tally when_of
line_of files k all [] = do sent ← median (rates all); ok (not_measured k sent (length all))
line_of files k all (r ∷ rs) = do
  s ← tally files (r ∷ rs) no_tally
  when ← when_of s.times (length (r ∷ rs))
  bytes ← median (sizes (r ∷ rs))
  peak ← median s.peaks
  drop ← median s.drops
  ok (
      measured k peak bytes drop (length s.times) (length (r ∷ rs)) (length all - length (r ∷ rs))
        when s.why)

-- The rows of the keys of one kind.
unfoldable pub lines_of : Files → Text → Dict Key (List Run) → Result (List Line)
unfolding valid_runs line_of
lines_of files kind [] = ok []
lines_of files kind ((k, all) ∷ by) =
    let rest = lines_of files kind by in
    if text_beq k.kind kind
    then (do rs ← valid_runs all; line ← line_of files k all rs; lines ← rest; ok (line ∷ lines))
    else rest

-- A point of the figure: the key, the peak, the runs that were blocked, and the runs.
pub record Point : Type 0 where
  pub key : Key
  pub peak : Ratio
  pub blocked : ℕ
  pub runs : ℕ

abbrev pub points_of : List Line → List Point
points_of [] = []
points_of (not_measured _ _ _ ∷ lines) = points_of lines
points_of (measured k peak _ _ blocked runs _ _ _ ∷ lines) =
    record { key = k; peak = peak; blocked = blocked; runs = runs } ∷ points_of lines

-- `detection`: the rows of the summary, and the points.
unfoldable pub detection : Files → List Run → Result (List Line × List Point)
unfolding group lines_of
detection files runs = do
  let by = group runs []
  attacks ← lines_of files (codes "attack") by
  normals ← lines_of files (codes "normal") by
  ok (attacks ++ normals, points_of (attacks ++ normals))
