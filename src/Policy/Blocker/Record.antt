-- ===== src/Policy/Blocker/Record.antt =====
-- control/policy.py, class Blocker: the record of one source, and what leaves it alone.
use Prim.Native.String.{String}
use mathlib.Core.Path.{subst₂}
use lookout.Common.{
  sym, ℕ, ◌+◌, ◌-◌, ◌≤◌, ◌≡◌, ◌⊎◌, inl, inr, refl, Bool, true, false, [], ◌∷◌, Option, none, some,
  arith, Eq, if◌then◌else◌, ltb, Bool-cases,
}
use lookout.Common.Dict.{Dict, get_or, lookup, lookup-insert, lookup-erase}
use lookout.Common.Exec.{Exec, Result, ok, err, pure}
use lookout.Common.Exec
use lookout.Common.Exec.Runs.{
  Runs, runs_bind as ◌>>=◌, runs_then as ◌>>◌, runs_pure, runs_gets, runs_lift, runs_modify,
  runs_if, weaken-Ends,
}
use lookout.Firewall.Constants.{block_auto}
use lookout.Policy.Blocker.{
  Env, Blocker, Note, Pass, visit, visit_all, issue, note, pop_strikes, judge, is_blocked, decay,
  strike, call, strikes_to_block,
}

module _ {K : Type 0} ⦃e : Eq K⦄ where
  -- Each source has one verdict, as in a dict.
  abbrev pub IsDistinct : Dict K (Option String) → Type 0
  IsDistinct [] = Unit
  IsDistinct (v ∷ vs) = (lookup v.0 vs ≡ none) × IsDistinct vs

-- What becomes of `h` strikes and `p` offences in one window, by the verdict. Flagged, a source gets
-- a strike; or, if that is the second at least, it may lose them all, blocked or not.
abbrev pub Becomes : ℕ → ℕ → Option (Option String) → ℕ → ℕ → Type 0
Becomes h p none h' p' = (h' ≡ h) × (p' ≡ p)
Becomes h p (some none) h' p' = (h' ≡ h - 1) × (p' ≡ p)
Becomes h p (some (some reason)) h' p' =
    (h' ≡ h + 1) × (p' ≡ p)
    ⊎ (strikes_to_block ≤ h + 1) × ((h' ≡ 0) × (p' ≡ p) ⊎ (h' ≡ 0) × (p' ≡ p + 1))

module _ {K : Type 0} ⦃e : Eq K⦄ (ip : K) where
  abbrev pub hits : Blocker K → ℕ
  hits b = get_or ip 0 b.strikes

  abbrev pub priors : Blocker K → ℕ
  priors b = get_or ip 0 b.offences

  -- The strikes of `ip`, and its offences.
  abbrev pub Has : ℕ → ℕ → Blocker K → Type 0
  Has h p b = (hits b ≡ h) × (priors b ≡ p)

  -- The record of `ip` after one window that it began with `h` strikes and `p` offences.
  abbrev pub Fate : ℕ → ℕ → Option (Option String) → Blocker K → Type 0
  Fate h p v b = Becomes h p v (hits b) (priors b)

module _ {W K : Type 0} ⦃e : Eq K⦄ (env : Env W K) (ip : K) where
  abbrev pub S : Type 0
  S = Pass W K

  abbrev pub Counts : ℕ → ℕ → S → Type 0
  Counts h p s = Has ip h p s.obj

  abbrev pub Anything : S → Type 0
  Anything _ = Unit

  module _ (h p : ℕ) where
    abbrev pub Kept : {A : Type 0} → Exec S A → Type 0
    Kept m = Runs (Counts h p) m (λ _. Counts h p) Anything

    pub note-Kept : (msg : Note K) → Kept (note env msg)
    unfolding note Exec.◌>>=◌
    note-Kept msg = record { at = λ s k. ground arith }

    pub pop-Kept : (j : K) → e.beq j ip ≡ false → Kept (pop_strikes j)
    unfolding pop_strikes Exec.◌>>=◌
    pop-Kept j d = record { at = λ s k. ground (arith, lookup-erase j ip s.obj.strikes) }

    pub is_blocked-Kept : (j : K) → Kept (is_blocked env j)
    unfolding is_blocked Exec.◌>>=◌
    is_blocked-Kept j = record { at = λ s k. ground arith }

    pub call-Kept : {A : Type 0} (m : Exec W A) → Kept (call m)
    call-Kept m = record { at = λ s k. ground arith }

    pub place-Kept :
        (j : K) (d why : ℕ) (dry : Bool) → Kept (if dry then pure tt else call (env.block j d why))
    unfolding pure
    place-Kept j d why true = record { at = λ s k. k }
    place-Kept j d why false = call-Kept (env.block j d why)

    pub decay-Kept :
        (j : K) (s : S)
        → e.beq j ip ≡ false
        → Counts h p s
        → Counts h p (record s { obj = decay j s.obj })
    unfolding decay
    decay-Kept j s d k = ground (
      arith,
      lookup-erase j ip s.obj.strikes,
      lookup-insert j ip (get_or j 0 s.obj.strikes - 1) s.obj.strikes,
    )

    pub strike-Kept :
        (j : K) (s : S)
        → e.beq j ip ≡ false
        → Counts h p s
        → Counts h p (record s { obj = strike j s.obj })
    unfolding strike
    strike-Kept j s d k =
        ground (arith, lookup-insert j ip (get_or j 0 s.obj.strikes + 1) s.obj.strikes)

    abbrev pub Q : {A : Type 0} → A → S → Type 0
    Q _ = Counts h p

    pub issue-Kept :
        (now : ℕ) (j : K) (reason : String) → e.beq j ip ≡ false → Kept (issue env now j reason)
    unfolding issue
    issue-Kept now j reason d = do
      n ← runs_gets Q _ (λ s k. k)
      t ← runs_lift Q (λ _ _ s k. k) (λ _ _ s k. tt)
      dry ← runs_gets Q _ (λ s k. k)
      place-Kept j t block_auto dry
      runs_modify Q _ (λ s k. ground (arith, lookup-insert j ip (n + 1) s.obj.offences))
      pop-Kept j d
      runs_modify Q _ (λ s k. k)
      note-Kept (Note.blocked dry j t reason)

    pub judge-Kept :
        (now : ℕ) (j : K) (reason : String) → e.beq j ip ≡ false → Kept (judge env now j reason)
    unfolding judge
    judge-Kept now j reason d = do
      held ← is_blocked-Kept j
      runs_if Q held (λ _. pop-Kept j d)
          λ _. do
            allowed ← call-Kept (env.is_allowed j)
            runs_if Q allowed (λ _. do note-Kept (Note.allowlisted j reason); pop-Kept j d)
                λ _. do
                  full ← runs_gets Q _ (λ s k. k)
                  runs_if Q full (λ _. runs_pure Q _ (λ s k. k)) (λ _. issue-Kept now j reason d)

    pub visit-Kept :
        (now : ℕ) (v : K × Option String) → e.beq v.0 ip ≡ false → Kept (visit env now v)
    unfolding visit
    visit-Kept now (j, none) d = runs_modify Q _ (λ s k. decay-Kept j s d k)
    visit-Kept now (j, some reason) d = do
      runs_modify Q _ (λ s k. strike-Kept j s d k)
      n ← runs_gets Q _ (λ s k. k)
      runs_if Q (ltb n strikes_to_block) (λ _. runs_pure Q _ (λ s k. k))
          (λ _. judge-Kept now j reason d)

    -- A source with no verdict keeps its record.
    pub visit_all-Kept :
        (now : ℕ) (vs : Dict K (Option String)) → lookup ip vs ≡ none → Kept (visit_all env now vs)
    unfolding visit_all lookup
    visit_all-Kept now [] absent = runs_pure Q _ (λ s k. k)
    visit_all-Kept now (v ∷ vs) absent = elim (Bool-cases (e.beq v.0 ip)) [
      | inl same ↦ absurd (ground arith)
      | inr d ↦ do visit-Kept now v d; visit_all-Kept now vs (ground arith)
    ]

  -- What leaves the record alone keeps whatever is known of it.
  pub kept :
      {m : Exec S (Unit {0})} (P : ℕ → ℕ → Type 0)
      → ((h p : ℕ) → Kept h p m)
      → Runs
          (λ s. P (hits ip s.obj) (priors ip s.obj))
          m
          (λ _ s. P (hits ip s.obj) (priors ip s.obj))
          Anything
  kept {m = m} P all = record {
    at = λ s k.
        weaken-Ends (λ _ s'. P (hits ip s'.obj) (priors ip s'.obj))
          (λ _. Counts (hits ip s.obj) (priors ip s.obj)) Anything Anything (m s)
          ((all (hits ip s.obj) (priors ip s.obj)).at s (refl, refl))
          (λ _ s' same. subst₂ P (sym same.0) (sym same.1) k) (λ _ u. u);
  }
