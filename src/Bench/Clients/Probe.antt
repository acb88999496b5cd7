-- ===== src/Bench/Clients/Probe.antt =====
-- bench/clients.py, `probe`: ten requests a second, and the rows that it writes.
pub mod Order
pub mod Numerals
pub mod Lines
use lookout.Common.{
  ℕ, zero, suc, ◌+◌, ◌*◌, ◌/◌, ◌%◌, Bool, true, false, List, [], ◌∷◌, ◌++◌, ltb, if◌then◌else◌,
}
use lookout.Common.Text.{Text, codes, show, text_beq}
use lookout.Common.Exec.{Exec, is_os_error, Result, ok, err, pure, ◌>>=◌, ◌>>◌}
use lookout.Fwctl.Lists.{sort, text_ltb}
use lookout.Bench.Numbers.{round}
use lookout.Bench.Clients.{Env, every}
use lookout.Bench.Clients.Requests.{Network, get}

-- `ok` and `latency_ms`: 0 and the empty text, or 1 and hundredths of a millisecond.
pub data Outcome : Type 0 where
  failed : Outcome
  answered : ℕ → Outcome

pub record Row : Type 0 where
  pub time : Text
  pub outcome : Outcome

-- `f"{…:.2f}"` of hundredths
unfoldable pub hundredths : ℕ → Text
hundredths h = show (h / 100) ++ b'.' ∷ (h / 10 % 10 + b'0') ∷ (h % 10 + b'0') ∷ []

-- `f"{t0 + i / 10:.2f}"`
unfoldable pub scheduled : ℕ → ℕ → Text
unfolding round hundredths
scheduled t0 i = hundredths (round (t0 + i * 100_000_000) 10_000_000)

abbrev pub row_with : ℕ → ℕ → Outcome → Row
row_with t0 i outcome = record { time = scheduled t0 i; outcome = outcome }

-- What the threads append, were they to finish in the order of their starts: `n` rows from `i` on.
abbrev pub rows_from : ℕ → (ℕ → Outcome) → ℕ → ℕ → List Row
rows_from t0 outcome zero i = []
rows_from t0 outcome (suc n) i = row_with t0 i (outcome i) ∷ rows_from t0 outcome n (i + 1)

-- The order of the tuples (time, ok, latency_ms).
abbrev pub outcome_before : Outcome → Outcome → Bool
outcome_before failed failed = false
outcome_before failed (answered n) = true
outcome_before (answered m) failed = false
outcome_before (answered m) (answered n) = ltb m n

unfoldable pub row_before : Row → Row → Bool
unfolding text_ltb
row_before r q =
    if text_beq r.time q.time then outcome_before r.outcome q.outcome else text_ltb r.time q.time

-- `sorted(rows)`
unfoldable pub written : List Row → List Row
unfolding sort row_before
written rows = sort row_before rows

module _ {W : Type 0} (env : Env W) (net : Network W) where
  abbrev pub outcome_of : Result ℕ × W → Result Outcome × W
  outcome_of (ok ns, w) = (ok (answered (round ns 10_000)), w)
  outcome_of (err c, w) = (if is_os_error c then ok failed else err c, w)

  -- What thread `i` does, up to the row that it appends.
  unfoldable pub probe_one : ℕ → ℕ → Exec W Row
  unfolding get
  probe_one t0 i = do
    outcome ← (λ w. outcome_of (get env net (codes "/") w))
    pure (row_with t0 i outcome)

  -- The rows of the file: `appended` is the list that the threads share, after a start at `t0`.
  unfoldable pub probe : Exec W ℕ → (ℕ → Exec W (List Row)) → ℕ → Exec W (List Row)
  unfolding every written
  probe time appended seconds = do
    t0 ← time
    every env 100_000_000 seconds
    rows ← appended t0
    pure (written rows)
