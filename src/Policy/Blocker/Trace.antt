-- ===== src/Policy/Blocker/Trace.antt =====
-- control/policy.py, class Blocker: what one `update` asks of the firewall, in order. The
-- firewall and the clock are any; they are watched.
use Prim.Native.String.{String}
use lookout.Common.{
  ltb, leb, ℕ, ◌+◌, ◌≤◌, ◌<◌, ◌≡◌, refl, Bool, true, false, List, [], ◌∷◌, Option, none, some,
  arith, Eq, if◌then◌else◌,
}
use lookout.Common.Dict.{Dict}
use lookout.Common.Exec
use lookout.Common.Exec.{Result, ok, err, pure}
use lookout.Common.Exec.Runs.{
  Runs, runs_bind as ◌>>=◌, runs_then as ◌>>◌, runs_pure, runs_gets, runs_lift, runs_modify,
  runs_if, runs_weaken, Ends,
}
use lookout.Firewall.Constants.{block_auto}
use lookout.Policy.Blocker.{
  Env, Blocker, Note, Pass, visit, visit_all, update, issue, note, pop_strikes, judge, is_blocked,
  max_per_window, call, run_pass, decay, strike, strikes_to_block,
}

-- A call of the firewall that has returned, or raised.
pub data Call (K : Type 0) : Type 0 where
  asked : K → Result Bool → Call K
  -- with the duration and the reason
  placed : K → ℕ → ℕ → Call K

-- The same firewall and clock, with the calls written down, the latest first.
unfoldable pub watched : {W K : Type 0} → Env W K → Env (W × List (Call K)) K
watched env = record {
  is_allowed = λ ip s. let (r, w) = env.is_allowed ip s.0 in (r, (w, asked ip r ∷ s.1));
  block = λ ip d why s. let (r, w) = env.block ip d why s.0 in (r, (w, placed ip d why ∷ s.1));
  time = λ s. let (r, w) = env.time s.0 in (r, (w, s.1));
  strftime = λ s. let (r, w) = env.strftime s.0 in (r, (w, s.1));
}

module _ {K : Type 0} where
  -- The latest call was the question whether `ip` is allowlisted, and the answer was no.
  abbrev pub RefusedLast : K → List (Call K) → Type 0
  RefusedLast ip (asked j (ok false) ∷ _) = j ≡ ip
  RefusedLast ip _ = ⊥

  -- Every block was placed directly after a no for the same source.
  abbrev pub IsGuarded : List (Call K) → Type 0
  IsGuarded [] = Unit
  IsGuarded (asked j r ∷ calls) = IsGuarded calls
  IsGuarded (placed ip d why ∷ calls) = RefusedLast ip calls × IsGuarded calls

  abbrev pub blocks_in : List (Call K) → ℕ
  blocks_in [] = 0
  blocks_in (asked j r ∷ calls) = blocks_in calls
  blocks_in (placed ip d why ∷ calls) = blocks_in calls + 1

has_room : (n : ℕ) (full : Bool) → full ≡ leb max_per_window n → full ≡ false → n < max_per_window
has_room n full h room = ground arith

module _ {W K : Type 0} ⦃e : Eq K⦄ (env : Env W K) (start : Blocker K) where
  abbrev S : Type 0
  S = Pass (W × List (Call K)) K

  -- While the loop runs.
  record IsWatched (s : S) : Type 0 where
    guarded : IsGuarded s.world.1
    capped : s.issued ≤ max_per_window
    counted : s.obj.blocks_issued ≡ start.blocks_issued + s.issued
    same_mode : s.obj.dry_run ≡ start.dry_run
    written : blocks_in s.world.1 ≡ (if start.dry_run then 0 else s.issued)

  abbrev Q : {A : Type 0} → A → S → Type 0
  Q _ = IsWatched

  -- After an exception.
  abbrev IsStopped : S → Type 0
  IsStopped s = IsGuarded s.world.1

  note-Runs : (msg : Note K) → Runs IsWatched (note (watched env) msg) (λ _. IsWatched) IsStopped
  unfolding note watched Exec.◌>>=◌
  note-Runs msg = record { at = λ s h. ground arith }

  pop_strikes-Runs : (ip : K) → Runs IsWatched (pop_strikes ip) (λ _. IsWatched) IsStopped
  unfolding pop_strikes Exec.◌>>=◌
  pop_strikes-Runs ip = record { at = λ s h. ground arith }

  is_blocked-Runs :
      (ip : K) → Runs IsWatched (is_blocked (watched env) ip) (λ _. IsWatched) IsStopped
  unfolding is_blocked watched Exec.◌>>=◌
  is_blocked-Runs ip = record { at = λ s h. ground arith }

  -- Before a block of `ip`.
  abbrev IsReady : K → S → Type 0
  IsReady ip s = IsWatched s × RefusedLast ip s.world.1 × (s.issued < max_per_window)

  -- Once the block is placed, and before it is counted.
  record IsPlaced (s : S) : Type 0 where
    guarded : IsGuarded s.world.1
    capped : s.issued < max_per_window
    counted : s.obj.blocks_issued ≡ start.blocks_issued + s.issued
    same_mode : s.obj.dry_run ≡ start.dry_run
    written : blocks_in s.world.1 ≡ (if start.dry_run then 0 else s.issued + 1)

  pop_strikes-IsPlaced : (ip : K) → Runs IsPlaced (pop_strikes ip) (λ _. IsPlaced) IsStopped
  unfolding pop_strikes Exec.◌>>=◌
  pop_strikes-IsPlaced ip = record { at = λ s h. ground arith }

  place-Runs :
      (ip : K) (d why : ℕ) (dry : Bool)
      → Runs
          (λ s. IsReady ip s × (s.obj.dry_run ≡ dry))
          (if dry then pure tt else call ((watched env).block ip d why))
          (λ _. IsPlaced)
          IsStopped
  unfolding watched pure
  place-Runs ip d why true = record { at = λ s h. ground arith }
  place-Runs ip d why false = record { at = λ s h. ground arith }

  issue-Runs :
      (now : ℕ) (ip : K) (reason : String)
      → Runs (IsReady ip) (issue (watched env) now ip reason) (λ _. IsWatched) IsStopped
  unfolding issue
  issue-Runs now ip reason = do
    n ← runs_gets (λ _. IsReady ip) _ (λ s h. h)
    d ← runs_lift (λ _. IsReady ip) (λ d _ s h. h) (λ _ _ s h. h.0.guarded)
    dry ← runs_gets (λ dry s. IsReady ip s × (s.obj.dry_run ≡ dry)) _ (λ s h. (h, refl))
    place-Runs ip d block_auto dry
    runs_modify (λ _. IsPlaced) _ (λ s h. ground arith)
    pop_strikes-IsPlaced ip
    runs_modify Q _ (λ s h. ground arith)
    note-Runs (Note.blocked dry ip d reason)

  -- Asking whether a source is allowlisted: a no is on record.
  ask-Runs :
      (ip : K)
      → Runs IsWatched
          (call ((watched env).is_allowed ip))
          (λ allowed s. IsWatched s × (allowed ≡ false → RefusedLast ip s.world.1))
          IsStopped
  unfolding watched
  ask-Runs ip = record { at = λ s h. ground arith }

  judge-Runs :
      (now : ℕ) (ip : K) (reason : String)
      → Runs IsWatched (judge (watched env) now ip reason) (λ _. IsWatched) IsStopped
  unfolding judge
  judge-Runs now ip reason = do
    held ← is_blocked-Runs ip
    runs_if Q held (λ _. pop_strikes-Runs ip)
        λ _. do
          allowed ← ask-Runs ip
          runs_if Q allowed
              (λ _. do
                runs_weaken (note-Runs (Note.allowlisted ip reason)) (λ s h. h.0) (λ _ s h. h)
                    (λ s h. h)
                pop_strikes-Runs ip)
              λ no_. do
                full ←
                    runs_gets
                      (λ full s.
                        IsWatched s
                        × RefusedLast ip s.world.1
                        × (full ≡ leb max_per_window s.issued))
                      _ (λ s h. (h.0, h.1 no_, refl))
                runs_if Q full (λ _. runs_pure Q _ (λ s h. h.0))
                    λ room.
                      runs_weaken (issue-Runs now ip reason)
                        (λ s h. (h.0, h.1, has_room s.issued full h.2 room)) (λ _ s h. h) (λ s h. h)

  strike-IsWatched : (ip : K) (s : S) → IsWatched s → IsWatched (record s { obj = strike ip s.obj })
  unfolding strike
  strike-IsWatched ip s h = ground arith

  decay-IsWatched : (ip : K) (s : S) → IsWatched s → IsWatched (record s { obj = decay ip s.obj })
  unfolding decay
  decay-IsWatched ip s h = ground arith

  visit-Runs :
      (now : ℕ) (v : K × Option String)
      → Runs IsWatched (visit (watched env) now v) (λ _. IsWatched) IsStopped
  unfolding visit
  visit-Runs now (ip, none) = runs_modify Q _ (decay-IsWatched ip)
  visit-Runs now (ip, some reason) = do
    runs_modify Q _ (strike-IsWatched ip)
    n ← runs_gets Q _ (λ s h. h)
    runs_if Q (ltb n strikes_to_block) (λ _. runs_pure Q _ (λ s h. h))
        (λ _. judge-Runs now ip reason)

  visit_all-Runs :
      (now : ℕ) (vs : Dict K (Option String))
      → Runs IsWatched (visit_all (watched env) now vs) (λ _. IsWatched) IsStopped
  unfolding visit_all
  visit_all-Runs now [] = runs_pure Q _ (λ s h. h)
  visit_all-Runs now (v ∷ vs) = do visit-Runs now v; visit_all-Runs now vs

  time-Runs : Runs IsWatched (call (watched env).time) (λ _. IsWatched) IsStopped
  unfolding watched
  time-Runs = record { at = λ s h. ground arith }

  run_pass-Runs :
      (vs : Dict K (Option String))
      → Runs IsWatched (run_pass (watched env) vs) (λ _. IsWatched) IsStopped
  unfolding run_pass
  run_pass-Runs vs = do now ← time-Runs; visit_all-Runs now vs

  abbrev Outcome : Result (Unit {0}) × S → Type 0
  Outcome (r, s) =
      IsGuarded s.world.1
      × (r ≡ ok tt
          → (issued : ℕ) × (issued ≤ max_per_window)
            × (s.obj.blocks_issued ≡ start.blocks_issued + issued)
            × (blocks_in s.world.1 ≡ (if start.dry_run then 0 else issued)))

  outcome : (r : Result (Unit {0}) × S) → Ends (λ _. IsWatched) IsStopped r → Outcome r
  outcome (ok u, s) h = (h.guarded, λ _. (s.issued, h.capped, h.counted, h.written))
  outcome (err c, s) h = (h, λ e. cc)

-- Whatever the firewall and the clock answer, and whatever the verdicts: every block that an
-- update places follows directly on the firewall's answer that this source is not allowlisted. If
-- the update returns, it has issued at most 32 blocks, has counted each of them in
-- `blocks_issued`, and has placed just as many, or none in a dry run.
pub update-IsGuarded :
    {W K : Type 0} ⦃e : Eq K⦄ (env : Env W K) (b : Blocker K) (verdicts : Dict K (Option String))
    (w : W)
    → let (r, s) = update (watched env) verdicts (b, (w, [])) in
      IsGuarded s.1.1
      × (r ≡ ok tt
          → (issued : ℕ) × (issued ≤ max_per_window)
            × (s.0.blocks_issued ≡ b.blocks_issued + issued)
            × (blocks_in s.1.1 ≡ (if b.dry_run then 0 else issued)))
unfolding update
update-IsGuarded env b verdicts w = outcome env b _ (
    (run_pass-Runs env b verdicts).at (record { obj = b; issued = 0; world = (w, []) })
      (record {
        guarded = tt;
        capped = omega arith;
        counted = omega arith;
        same_mode = refl;
        written = ground arith;
      }))
