-- ===== src/Bench/Detection/Points.antt =====
-- bench/eval_report.py, `detection`: what a row of the summary counts.
use lookout.Common.{
  ℕ, suc, ◌+◌, ◌-◌, ◌≤◌, ◌≡◌, ◌≢◌, refl, ◌∙◌, Bool, true, false, Bool-cases, inl, inr, List, [],
  ◌∷◌, ◌++◌, Option, none, some, arith, length, length-append, if◌then◌else◌, ◌==◌,
}
use mathlib.Core.Path.{subst}
use lookout.Common.Int.{ℤ}
use lookout.Common.Ratio.{Ratio}
use lookout.Common.Exec.{ok, Result-cases}
use lookout.Common.Text.{Text, codes}
use lookout.Bench.Numbers.{median}
use lookout.Bench.Logs.{from_log}
use lookout.Bench.Detection.{
  Run, Files, Tally, Key, Line, not_measured, measured, When, all_blocked, some_blocked, never,
  valid, valid_runs, tally, line_of, first_block, tag, no_tally, when_of, blocked_at, from_log,
  rates, sizes,
}

-- A run in which the source was blocked.
abbrev pub was_blocked : Files → Run → Bool
was_blocked files r = elim (first_block (files.watch (tag r)) r.start (r.source ++ codes "/32")) [
  | none ↦ false
  | some t ↦ true
]

abbrev pub count_blocked : Files → List Run → ℕ
count_blocked files [] = 0
count_blocked files (r ∷ rs) =
    if was_blocked files r then suc (count_blocked files rs) else count_blocked files rs

-- The note on the time: that of all runs, or of some, or a dash.
abbrev pub Notes : When → ℕ → ℕ → Type 0
Notes (all_blocked t) blocked runs = (1 ≤ blocked) × (blocked ≡ runs)
Notes (some_blocked t) blocked runs = (1 ≤ blocked) × (blocked ≢ runs)
Notes never blocked runs = blocked ≡ 0

-- What a row says of the runs `all` of a key, of which `rs` count.
abbrev pub IsRowOf : Files → Key → List Run → List Run → Line → Type 0
IsRowOf files k all rs (not_measured j sent runs) = (j ≡ k) × (runs ≡ length all) × (rs ≡ [])
IsRowOf files k all rs (measured j peak bytes drop blocked runs skipped when why) =
    (j ≡ k)
    × (1 ≤ runs)
    × (runs ≡ length rs)
    × (runs + skipped ≡ length all)
    × (blocked ≡ count_blocked files rs)
    × (blocked ≤ runs)
    × Notes when blocked runs

blocked-le : (files : Files) (rs : List Run) → count_blocked files rs ≤ length rs
blocked-le files [] = omega arith
blocked-le files (r ∷ rs) = ground (arith, blocked-le files rs)

blocked_at-times :
    (t : Option ℤ) (reason : List Text) (s : Tally)
    → length (blocked_at t reason s).times
      ≡ (if (elim t [ none ↦ false | some _ ↦ true ]) then suc (length s.times) else length s.times)
blocked_at-times none reason s = refl
blocked_at-times (some t) reason s = length-append s.times _ ∙ omega arith

tally-times :
    (files : Files) (rs : List Run) (s s' : Tally)
    → tally files rs s ≡ ok s'
    → length s'.times ≡ length s.times + count_blocked files rs
unfolding tally
tally-times files [] s s' h = ground (arith, h)
tally-times files (r ∷ rs) s s' h = elim (Result-cases (files.log (tag r) r.source)) [
  | inr (c, e) ↦ ground (arith, e, h)
  | inl (log, e) ↦ elim (Result-cases (from_log log)) [
    | inr (c, e2) ↦ ground (arith, e, e2, h)
    | inl ((reason, peak, dropped), e2) ↦
        let t = first_block (files.watch (tag r)) r.start (r.source ++ codes "/32") in
        let before : Tally = record s {
          peaks = s.peaks ++ peak ∷ [];
          drops = s.drops ++ dropped ∷ [];
        } in
        ground (
          arith,
          tally-times files rs (blocked_at t reason before) s' (rw (e, e2) at h),
          blocked_at-times t reason before,
        )
  ]
]

valid_runs-length : (all rs : List Run) → valid_runs all ≡ ok rs → length rs ≤ length all
unfolding valid_runs
valid_runs-length [] rs h = ground (arith, h)
valid_runs-length (r ∷ all) rs h = elim (Result-cases (valid r)) [
  | inr (c, e) ↦ ground (arith, e, h)
  | inl (b, e) ↦ elim (Result-cases (valid_runs all)) [
    | inr (c, e2) ↦ ground (arith, e, e2, h)
    | inl (kept, e2) ↦ ground (arith, e, e2, h, valid_runs-length all kept e2)
  ]
]

when_of-Notes :
    (ts : List Ratio) (n : ℕ) (when : When) → when_of ts n ≡ ok when → Notes when (length ts) n
unfolding when_of
when_of-Notes [] n when h = subst (λ x. Notes x 0 n) {x = never} (ground (arith, h)) refl
when_of-Notes (t ∷ ts) n when h = elim (Result-cases (median (t ∷ ts))) [
  | inr (c, e) ↦ ground (arith, e, h)
  | inl (m, e) ↦ elim (Bool-cases (length (t ∷ ts) == n)) [
    | inl same ↦
        subst (λ x. Notes x (length (t ∷ ts)) n) {x = all_blocked m} (ground (arith, e, h, same))
          (omega arith, ground (arith, same))
    | inr other ↦
        subst (λ x. Notes x (length (t ∷ ts)) n) {x = some_blocked m} (ground (arith, e, h, other))
          (omega arith, ground (arith, other))
  ]
]

-- The row of a key whose runs are `all`, once those that count are known and if the files can be
-- read: with no run that counts it says so; else it gives the number of runs that count, of those
-- left out, and of those in which the source was blocked, and the note on the time is that of a
-- source that was blocked in all, in some or in none of them.
pub line_of-IsRowOf :
    (files : Files) (k : Key) (all rs : List Run) (line : Line)
    → valid_runs all ≡ ok rs
    → line_of files k all rs ≡ ok line
    → IsRowOf files k all rs line
unfolding line_of
line_of-IsRowOf files k all [] line counted h = elim (Result-cases (median (rates all))) [
  | inr (c, e) ↦ ground (arith, e, h)
  | inl (sent, e) ↦
      subst (IsRowOf files k all []) {x = not_measured k sent (length all)} (ground (arith, e, h))
        (refl, refl, refl)
]
line_of-IsRowOf files k all (r ∷ rs) line counted h =
    elim (Result-cases (tally files (r ∷ rs) no_tally)) [
      | inr (c, e) ↦ ground (arith, e, h)
      | inl (s, e) ↦ elim (Result-cases (when_of s.times (length (r ∷ rs)))) [
        | inr (c, e2) ↦ ground (arith, e, e2, h)
        | inl (when, e2) ↦ elim (Result-cases (median (sizes (r ∷ rs)))) [
          | inr (c, e3) ↦ ground (arith, e, e2, e3, h)
          | inl (bytes, e3) ↦ elim (Result-cases (median s.peaks)) [
            | inr (c, e4) ↦ ground (arith, e, e2, e3, e4, h)
            | inl (peak, e4) ↦ elim (Result-cases (median s.drops)) [
              | inr (c, e5) ↦ ground (arith, e, e2, e3, e4, e5, h)
              | inl (drop, e5) ↦
                  let n = length (r ∷ rs) in
                  let times = tally-times files (r ∷ rs) no_tally s e in
                  subst (IsRowOf files k all (r ∷ rs))
                    {x = measured k peak bytes drop (length s.times) n (length all - n) when s.why}
                    (ground (arith, e, e2, e3, e4, e5, h))
                    (
                      refl,
                      omega arith,
                      refl,
                      omega (arith, valid_runs-length all (r ∷ rs) counted),
                      omega (arith, times),
                      omega (arith, times, blocked-le files (r ∷ rs)),
                      when_of-Notes s.times n when e2,
                    )
            ]
          ]
        ]
      ]
    ]
