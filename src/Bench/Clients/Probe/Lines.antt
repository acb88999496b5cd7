-- ===== src/Bench/Clients/Probe/Lines.antt =====
-- bench/clients.py, `probe`: the lines of the file are the requests in the order of their starts.
use mathlib.Core.List.{Permᴰ}
use lookout.Common.{ℕ, zero, suc, ◌+◌, ◌*◌, ◌/◌, ◌≤◌, ◌^◌, ◌≡◌, ap, ◌∙◌, true, inr, List, arith}
use lookout.Common.Exec.{Exec, ok, pure, ◌>>=◌}
use lookout.Fwctl.Lists.{text_ltb}
use lookout.Fwctl.Lists.Reordering.{IsAscending, sort-IsAscending}
use lookout.Bench.Numbers.{round}
use lookout.Bench.Clients.{Env, every}
use lookout.Bench.Clients.Requests.{Network}
use lookout.Bench.Clients.Probe.{
  Row, Outcome, row_with, row_before, rows_from, scheduled, written, probe,
}
use lookout.Bench.Clients.Probe.Numerals.{hundredths-ltb}
use lookout.Bench.Clients.Probe.Order.{row_asym, comes_before, written-Perm}

-- A tenth of a second later is ten hundredths later.
round-later : (x : ℕ) → round (x + 100_000_000) 10_000_000 ≡ round x 10_000_000 + 10
unfolding round
round-later x = ground arith

round-near :
    (x : ℕ) → (x / 10_000_000 ≤ round x 10_000_000) × (round x 10_000_000 ≤ x / 10_000_000 + 1)
unfolding round
round-near x = (ground arith, ground arith)

later_number :
    (t0 i : ℕ)
    → round (t0 + (i + 1) * 100_000_000) 10_000_000 ≡ round (t0 + i * 100_000_000) 10_000_000 + 10
later_number t0 i = ap (λ x. round x 10_000_000) (omega arith) ∙ round-later (t0 + i * 100_000_000)

-- Times with ten digits before the point.
scheduled-ltb :
    (t0 i : ℕ)
    → 10 ^ 18 ≤ t0
    → t0 + (i + 2) * 100_000_000 ≤ 10 ^ 19
    → text_ltb (scheduled t0 i) (scheduled t0 (i + 1)) ≡ true
unfolding scheduled
scheduled-ltb t0 i low high =
    let next = later_number t0 i in
    let (above, below) = round-near (t0 + i * 100_000_000) in
    hundredths-ltb 9 (round (t0 + i * 100_000_000) 10_000_000)
      (round (t0 + (i + 1) * 100_000_000) 10_000_000) (omega (arith, low, above))
      (omega (arith, next)) (omega (arith, next, below, high))

rows_from-IsAscending :
    (t0 : ℕ) (outcome : ℕ → Outcome) (n i : ℕ)
    → 10 ^ 18 ≤ t0
    → t0 + (i + n) * 100_000_000 ≤ 10 ^ 19
    → IsAscending row_before (rows_from t0 outcome n i)
rows_from-IsAscending t0 outcome zero i low high = tt
rows_from-IsAscending t0 outcome (suc zero) i low high = tt
rows_from-IsAscending t0 outcome (suc (suc n)) i low high = (
  row_asym (row_with t0 i (outcome i)) (row_with t0 (i + 1) (outcome (i + 1))) (
      comes_before (row_with t0 i (outcome i)) (row_with t0 (i + 1) (outcome (i + 1)))
        (inr (scheduled-ltb t0 i low (omega (arith, high))))),
  rows_from-IsAscending t0 outcome (suc n) (i + 1) low (omega (arith, high)),
)

in_order : (rs : List Row) → IsAscending row_before rs → written rs ≡ rs
unfolding written
in_order rs h = sort-IsAscending row_before rs h

module _ {W : Type 0} (env : Env W) (net : Network W) (time : Exec W ℕ)
    (appended : ℕ → Exec W (List Row)) (seconds : ℕ) where
  -- From a time of ten digits before the point, and up to such a time: if the threads of the `n`
  -- requests have appended a row each, in whatever order, then line `i` of the file that probe
  -- writes is the row of request `i`.
  pub probe-rows_from :
      (t0 n : ℕ) (outcome : ℕ → Outcome) (rows : List Row) (w w1 w2 w3 : W)
      → 10 ^ 18 ≤ t0
      → t0 + n * 100_000_000 ≤ 10 ^ 19
      → time w ≡ (ok t0, w1)
      → every env 100_000_000 seconds w1 ≡ (ok tt, w2)
      → appended t0 w2 ≡ (ok rows, w3)
      → Permᴰ rows (rows_from t0 outcome n 0)
      → probe env net time appended seconds w ≡ (ok (rows_from t0 outcome n 0), w3)
  unfolding probe ◌>>=◌ pure
  probe-rows_from t0 n outcome rows w w1 w2 w3 low high at_start scheduled_all held perm =
      rw (at_start, scheduled_all, held)
        (ap (λ r. (ok r, w3))
          (written-Perm perm
            ∙ in_order (rows_from t0 outcome n 0)
                (rows_from-IsAscending t0 outcome n 0 low (omega (arith, high)))))
