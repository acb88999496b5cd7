-- ===== src/Policy/Blocker/Windows.antt =====
-- control/policy.py, class Blocker: updates in a row, as one source sees them.
use Prim.Native.String.{String}
use mathlib.Core.Path.{subst}
use lookout.Common.{ℕ, ◌≡◌, refl, List, [], ◌∷◌, Option, none, some, arith, Eq}
use lookout.Common.Dict.{Dict, lookup}
use lookout.Common.Exec
use lookout.Common.Exec.{Exec, Result, ok, err}
use lookout.Common.Exec.Runs.{
  Runs, Ends, runs_bind as ◌>>=◌, runs_then as ◌>>◌, runs_pure, runs_weaken,
}
use lookout.Policy.Blocker.{Env, Blocker, Pass, update, run_pass}
use lookout.Policy.Blocker.Record.{Has, hits, priors, Becomes, Fate, IsDistinct, call-Kept}
use lookout.Policy.Blocker.Source.{visit_all-Fate}

outside :
    {W K : Type 0} (F : Blocker K → Type 0) (r : Result (Unit {0}) × Pass W K)
    → Ends (λ _ s. F s.obj) (λ _. Unit) r
    → Ends (λ _ (s : Blocker K × W). F s.0) (λ _. Unit) (r.0, (r.1.obj, r.1.world))
outside F (ok u, s) h = h
outside F (err c, s) h = tt

ended :
    {S : Type 0} (Q : S → Type 0) (r : Result (Unit {0}) × S)
    → Ends (λ _. Q) (λ _. Unit) r
    → r.0 ≡ ok tt
    → Q r.1
ended Q (ok u, s) h e = h
ended Q (err c, s) h e = cc

module _ {W K : Type 0} ⦃e : Eq K⦄ (env : Env W K) where
  run_pass-Fate :
      (ip : K) (h p : ℕ) (vs : Dict K (Option String))
      → IsDistinct vs
      → Runs {S = Pass W K}
          (λ s. Has ip h p s.obj)
          (run_pass env vs)
          (λ _ s. Fate ip h p (lookup ip vs) s.obj)
          (λ _. Unit)
  unfolding run_pass
  run_pass-Fate ip h p vs d = do
    now ← call-Kept env ip h p env.time
    visit_all-Fate env ip h p now vs d

  update-Runs :
      (ip : K) (h p : ℕ) (vs : Dict K (Option String))
      → IsDistinct vs
      → Runs {S = Blocker K × W}
          (λ s. Has ip h p s.0)
          (update env vs)
          (λ _ s. Fate ip h p (lookup ip vs) s.0)
          (λ _. Unit)
  unfolding update
  update-Runs ip h p vs d = record {
    at = λ s k.
        let first : Pass W K = record { obj = s.0; issued = 0; world = s.1 } in
        outside (λ b. Fate ip h p (lookup ip vs) b) (run_pass env vs first)
          ((run_pass-Fate ip h p vs d).at first k);
  }

  -- An update with one verdict for each source, if it returns, changes the record of a source by
  -- its own verdict alone. No verdict: nothing changes. Clean: one strike less, if there are any.
  -- Flagged: one strike more; or, if that makes two or more, none, and at most one offence more.
  pub update-Fate :
      (b : Blocker K) (w : W) (vs : Dict K (Option String)) (ip : K)
      → IsDistinct vs
      → (update env vs (b, w)).0 ≡ ok tt
      → Fate ip (hits ip b) (priors ip b) (lookup ip vs) (update env vs (b, w)).1.0
  update-Fate b w vs ip d returned =
      ended (λ s. Fate ip (hits ip b) (priors ip b) (lookup ip vs) s.0) (update env vs (b, w))
        ((update-Runs ip (hits ip b) (priors ip b) vs d).at (b, w) (refl, refl)) returned

  -- An update for each window, up to the first exception.
  unfoldable pub updates : List (Dict K (Option String)) → Exec (Blocker K × W) (Unit {0})
  updates [] = Exec.pure tt
  updates (vs ∷ windows) = Exec.◌>>◌ (update env vs) (updates windows)

  -- A flagged window and a clean one, in turn.
  abbrev pub Alternates : K → List (Dict K (Option String)) → Type 0
  Alternates ip [] = Unit
  Alternates ip (vs ∷ []) = ⊥
  Alternates ip (vs ∷ us ∷ windows) =
      ((reason : String) × (lookup ip vs ≡ some (some reason)))
      × (lookup ip us ≡ some none)
      × IsDistinct vs
      × IsDistinct us
      × Alternates ip windows

  one_strike :
      (p h' p' : ℕ) (reason : String) → Becomes 0 p (some (some reason)) h' p' → (h' ≡ 1) × (p' ≡ p)
  one_strike p h' p' reason b = ground arith

  updates-Alternates :
      (ip : K) (p : ℕ) (windows : List (Dict K (Option String)))
      → Alternates ip windows
      → Runs {S = Blocker K × W}
          (λ s. Has ip 0 p s.0)
          (updates windows)
          (λ _ s. Has ip 0 p s.0)
          (λ _. Unit)
  unfolding updates
  updates-Alternates ip p [] a = runs_pure (λ _ s. Has ip 0 p s.0) _ (λ s k. k)
  updates-Alternates ip p (vs ∷ []) a = absurd a
  updates-Alternates ip p (vs ∷ us ∷ windows) a = do
    runs_weaken (update-Runs ip 0 p vs a.2) (λ s k. k)
        (λ _ s k. one_strike p _ _ a.0.0 (subst (λ v. Fate ip 0 p v s.0) a.0.1 k)) (λ s k. k)
    runs_weaken (update-Runs ip 1 p us a.3) (λ s k. k)
        (λ _ s k. subst (λ v. Fate ip 1 p v s.0) a.1 k) (λ s k. k)
    updates-Alternates ip p windows a.4

  -- A source that has no strikes, and is flagged and clean in turn, never is blocked: after any
  -- number of such pairs of windows that return, it has no strikes and no new offence.
  pub alternating_never_blocked :
      (ip : K) (windows : List (Dict K (Option String))) (b : Blocker K) (w : W)
      → Alternates ip windows
      → hits ip b ≡ 0
      → (updates windows (b, w)).0 ≡ ok tt
      → Has ip 0 (priors ip b) (updates windows (b, w)).1.0
  alternating_never_blocked ip windows b w a clean returned =
      ended (λ s. Has ip 0 (priors ip b) s.0) (updates windows (b, w))
        ((updates-Alternates ip (priors ip b) windows a).at (b, w) (clean, refl)) returned
