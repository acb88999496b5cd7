-- ===== src/Bench/Clients/Schedule.antt =====
-- bench/clients.py, `every`: which calls it makes, and when.
use lookout.Common.{
  ℕ, zero, suc, ◌+◌, ◌-◌, ◌*◌, ◌≤◌, ◌<◌, ◌≡◌, refl, sym, ◌∙◌, List, [], ◌∷◌, ◌++◌, arith, ltb,
  length, Bool-cases, inl, inr,
}
use mathlib.Core.Path.{subst}
use mathlib.Core.List.{append_assoc, append-nil}
use lookout.Common.Exec.{no_fuel}
use lookout.Common.Exec.Runs.{
  Ends, Runs, runs_bind, runs_bind as ◌>>=◌, runs_then as ◌>>◌, runs_pure, runs_if, runs_weaken,
  runs_raise, runs_exists, runs_given,
}
use lookout.Bench.Clients.{Env, every_from, join_each, every}

-- A call of `fn`, and the time at which its thread is started.
pub record Started : Type 0 where
  pub call : ℕ
  pub at : ℕ

-- The documented behaviour of `time` and `threading`: the clock does not go back, a sleep lasts at
-- least as long as it is asked to, and a thread that is started runs `fn` once.
pub record IsScheduler {W : Type 0} (env : Env W) (time : W → ℕ) (log : W → List Started)
    : Type 0 where
  pub monotonic :
      (t : ℕ) (calls : List Started)
      → Runs
          (λ w. (t ≤ time w) × (log w ≡ calls))
          env.monotonic
          (λ now w. (t ≤ now) × (now ≤ time w) × (log w ≡ calls))
          (λ _. ⊥)
  pub sleep :
      (d t : ℕ) (calls : List Started)
      → Runs
          (λ w. (t ≤ time w) × (log w ≡ calls))
          (env.sleep d)
          (λ _ w. (t + d ≤ time w) × (log w ≡ calls))
          (λ _. ⊥)
  pub start_thread :
      (i t : ℕ) (calls : List Started)
      → Runs
          (λ w. (t ≤ time w) × (log w ≡ calls))
          (env.start_thread i)
          (λ _ w.
            (at : ℕ) × ((t ≤ at)
              × (at ≤ time w)
              × (log w ≡ calls ++ record { call = i; at = at } ∷ [])))
          (λ _. ⊥)
  pub join :
      (i limit : ℕ) (calls : List Started)
      → Runs (λ w. log w ≡ calls) (env.join i limit) (λ _ w. log w ≡ calls) (λ _. ⊥)

-- Calls i, i + 1, ..., each no earlier than its time.
abbrev pub IsOnSchedule : ℕ → ℕ → ℕ → List Started → Type 0
IsOnSchedule start interval i [] = Unit
IsOnSchedule start interval i (c ∷ calls) =
    (c.call ≡ i) × (start + i * interval ≤ c.at) × IsOnSchedule start interval (suc i) calls

le_mul : (n k : ℕ) → 1 ≤ k → n ≤ n * k
le_mul zero k h = omega arith
le_mul (suc n) k h = omega (arith, le_mul n k h, h)

module _ {W : Type 0} (env : Env W) (time : W → ℕ) (log : W → List Started)
    (law : IsScheduler env time log) (interval seconds : ℕ) (spaced : 1 ≤ interval) where
  -- The numbers below `n` are those of the calls that are due before the end.
  abbrev pub IsCount : ℕ → Type 0
  IsCount n = (seconds ≤ n * interval) × ((j : ℕ) → j < n → j * interval < seconds)

  -- What the loop has done from call `i` on.
  abbrev Done : ℕ → ℕ → List Started → ℕ → W → Type 0
  Done start i old n w =
      (calls : List Started) × (IsOnSchedule start interval i calls
        × (log w ≡ old ++ calls)
        × (n ≡ i + length calls)
        × IsCount n)

  before_next :
      (i : ℕ)
      → ((j : ℕ) → j < i → j * interval < seconds)
      → i * interval < seconds
      → (j : ℕ) → j < suc i
      → j * interval < seconds
  before_next i before last j lt = elim (Bool-cases (ltb j i)) [
    | inl less ↦ before j (ground (arith, less))
    | inr same ↦ subst (λ k. k * interval < seconds) (ground (arith, lt, same)) last
  ]

  loop-Runs :
      (fuel start i : ℕ) (old : List Started)
      → seconds < fuel + i
      → ((j : ℕ) → j < i → j * interval < seconds)
      → Runs
          (λ w. (start ≤ time w) × (log w ≡ old))
          (every_from env interval seconds start fuel i)
          (Done start i old)
          (λ _. ⊥)
  unfolding every_from
  loop-Runs zero start i old h before =
      runs_raise _ no_fuel
        (λ w k. omega (arith, before seconds (omega (arith, h)), le_mul seconds interval spaced))
  loop-Runs (suc fuel) start i old h before =
      runs_if _ (ltb (start + i * interval) (start + seconds))
        (λ early. do
          now ← law.monotonic start old
          runs_weaken (law.sleep _ now old) (λ w k. (k.1, k.2)) (λ a w k. k) (λ w k. k)
          runs_weaken (law.start_thread i (start + i * interval) old)
              (λ w k. (omega (arith, k.0), k.1)) (λ a w k. k) (λ w k. k)
          runs_exists (λ at.
              runs_weaken
                {P' = λ w.
                  (start + i * interval ≤ at)
                  × ((start ≤ time w) × (log w ≡ old ++ record { call = i; at = at } ∷ []))}
                (runs_given (λ due.
                  runs_weaken
                    (loop-Runs fuel start (suc i) (old ++ record { call = i; at = at } ∷ [])
                      (omega (arith, h)) (before_next i before (ground (arith, early))))
                    (λ w k. k)
                    (λ n w k. (
                      record { call = i; at = at } ∷ k.0,
                      (
                        (refl, due, k.1.0),
                        k.1.1 ∙ append_assoc old (record { call = i; at = at } ∷ []) k.0,
                        omega (arith, k.1.2),
                        k.1.3,
                      ),
                    ))
                    (λ w k. k)))
                (λ w k. (k.0, (omega (arith, k.0, k.1), k.2))) (λ n w k. k) (λ w k. k)))
        (λ late. runs_pure _ i (λ w k.
          ([], (tt, k.1 ∙ sym (append-nil old), omega arith, (ground (arith, late), before)))))

  join_each-Runs :
      (calls : List Started) (n left : ℕ)
      → Runs (λ w. log w ≡ calls) (join_each env n left) (λ _ w. log w ≡ calls) (λ _. ⊥)
  unfolding join_each
  join_each-Runs calls n zero = runs_pure _ tt (λ w k. k)
  join_each-Runs calls n (suc left) = do
    law.join (n - suc left) _ calls
    join_each-Runs calls n left

  -- The calls from `start` on, as many as are due before the end.
  abbrev pub Scheduled : ℕ → List Started → W → Type 0
  Scheduled start old after =
      (calls : List Started) × (IsOnSchedule start interval 0 calls
        × (log after ≡ old ++ calls)
        × IsCount (length calls))

  every-Runs :
      (t : ℕ) (old : List Started)
      → Runs
          (λ w. (t ≤ time w) × (log w ≡ old))
          (every env interval seconds)
          (λ _ after. (start : ℕ) × ((t ≤ start) × Scheduled start old after))
          (λ _. ⊥)
  unfolding every
  every-Runs t old = do
    start ← law.monotonic t old
    runs_weaken {P' = λ v. (t ≤ start) × ((start ≤ time v) × (log v ≡ old))}
        (runs_given (λ late.
          runs_bind
            (loop-Runs (suc seconds) start 0 (old) (omega arith) (λ j lt. omega (arith, lt)))
            (λ n. runs_exists (λ calls.
              runs_weaken
                {P' = λ v.
                  (IsOnSchedule start interval 0 calls × IsCount (length calls))
                  × (log v ≡ old ++ calls)}
                (runs_given (λ f.
                  runs_weaken (join_each-Runs (old ++ calls) n n) (λ v k. k)
                    (λ _ v k. (start, (late, (calls, (f.0, k, f.1))))) (λ v k. k)))
                (λ v k. ((k.0, subst IsCount (omega (arith, k.2)) k.3), k.1)) (λ a v k. k)
                (λ v k. k)))))
        (λ v k. (k.0, (k.1, k.2))) (λ a v k. k) (λ v k. k)

  -- With an interval above zero, `every` ends: after the time `start` of its first look at the clock
  -- it has called `fn` with 0, 1, 2, ..., in this order and never before `start + i * interval`, for
  -- the numbers `i` with `i * interval < seconds` and for no others.
  pub every-Scheduled :
      (w : W)
      → Ends
          (λ _ after. (start : ℕ) × ((time w ≤ start) × Scheduled start (log w) after))
          (λ _. ⊥)
          (every env interval seconds w)
  every-Scheduled w = (every-Runs (time w) (log w)).at w (omega arith, refl)
