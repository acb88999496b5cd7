-- ===== src/Policy/Blocker/Source.antt =====
-- control/policy.py, class Blocker: what an update does to the record of one source.
use Prim.Native.String.{String}
use mathlib.Core.Path.{subst}
use lookout.Common.{
  sym, ◌*◌, ℕ, ◌+◌, ◌-◌, ◌≤◌, ◌≡◌, inl, inr, false, [], ◌∷◌, Option, none, some, arith, Eq, ltb,
  Bool-cases,
}
use lookout.Common.Dict.{Dict, get_or, lookup, insert, lookup-insert, lookup-erase, beq_refl}
use lookout.Common.Exec.{Exec, Result, ok, err, pure}
use lookout.Common.Exec
use lookout.Common.Exec.Runs.{
  Runs, runs_bind as ◌>>=◌, runs_then as ◌>>◌, runs_pure, runs_gets, runs_lift, runs_modify,
  runs_if, runs_weaken, runs_given,
}
use lookout.Firewall.Constants.{block_auto}
use lookout.Policy.Blocker.Record.{
  Has, Becomes, Fate, IsDistinct, note-Kept, is_blocked-Kept, call-Kept, place-Kept, visit-Kept,
  visit_all-Kept, kept,
}
use lookout.Policy.Blocker.{
  Env, Note, Pass, visit, visit_all, issue, pop_strikes, judge, decay, strike, second,
  strikes_to_block,
}

enough : (n h : ℕ) → n ≡ h + 1 → ltb n strikes_to_block ≡ false → strikes_to_block ≤ h + 1
enough n h same over = ground arith

module _ {W K : Type 0} ⦃e : Eq K⦄ (env : Env W K) (ip : K) where
  abbrev S : Type 0
  S = Pass W K

  abbrev Counts : ℕ → ℕ → S → Type 0
  Counts h p s = Has ip h p s.obj

  abbrev Anything : S → Type 0
  Anything _ = Unit

  -- From a state with the strike added.
  module _ (h p : ℕ) (ready : strikes_to_block ≤ h + 1) where
    abbrev F : {A : Type 0} → A → S → Type 0
    F _ s = Fate ip h p (some (some "")) s.obj

    pop-Flagged : Runs (Counts (h + 1) p) (pop_strikes ip) F Anything
    unfolding pop_strikes Exec.◌>>=◌
    pop-Flagged = record {
      at = λ s k. ground (arith, lookup-erase ip ip s.obj.strikes, beq_refl ip);
    }

    pop-offended : (q : ℕ) → Runs (Counts (h + 1) q) (pop_strikes ip) (λ _. Counts 0 q) Anything
    unfolding pop_strikes Exec.◌>>=◌
    pop-offended q = record {
      at = λ s k. ground (arith, lookup-erase ip ip s.obj.strikes, beq_refl ip);
    }

    offend :
        (n now t : ℕ) (s : S)
        → n ≡ p
        → Counts (h + 1) p s
        → Counts (h + 1) (p + 1) (record s {
          obj = record s.obj {
            offences = insert ip (n + 1) s.obj.offences;
            until = insert ip (now + t * second) s.obj.until;
          };
        })
    offend n now t s same k =
        ground (arith, beq_refl ip, lookup-insert ip ip (n + 1) s.obj.offences)

    issue-Flagged :
        (now : ℕ) (reason : String) → Runs (Counts (h + 1) p) (issue env now ip reason) F Anything
    unfolding issue
    issue-Flagged now reason = do
      n ← runs_gets (λ n s. (n ≡ p) × Counts (h + 1) p s) _ (λ s k. (k.1, k))
      runs_given λ same. do
        t ← runs_lift (λ _. Counts (h + 1) p) (λ _ _ s k. k) (λ _ _ s k. tt)
        dry ← runs_gets (λ _. Counts (h + 1) p) _ (λ s k. k)
        place-Kept env ip (h + 1) p ip t block_auto dry
        runs_modify (λ _. Counts (h + 1) (p + 1)) _ (λ s k. offend n now t s same k)
        pop-offended (p + 1)
        runs_modify (λ _. Counts 0 (p + 1)) _ (λ s k. k)
        runs_weaken (note-Kept env ip 0 (p + 1) (Note.blocked dry ip t reason)) (λ s k. k)
            (λ _ s k. inr (ready, inr k)) (λ s k. k)

    judge-Flagged :
        (now : ℕ) (reason : String) → Runs (Counts (h + 1) p) (judge env now ip reason) F Anything
    unfolding judge
    judge-Flagged now reason = do
      held ← is_blocked-Kept env ip (h + 1) p ip
      runs_if F held (λ _. pop-Flagged)
          λ _. do
            allowed ← call-Kept env ip (h + 1) p (env.is_allowed ip)
            runs_if F allowed
                (λ _. do note-Kept env ip (h + 1) p (Note.allowlisted ip reason); pop-Flagged)
                λ _. do
                  full ← runs_gets (λ _. Counts (h + 1) p) _ (λ s k. k)
                  runs_if F full (λ _. runs_pure F _ (λ s k. inl k)) (λ _. issue-Flagged now reason)

  module _ (h p : ℕ) where
    decay_self : (s : S) → Counts h p s → Counts (h - 1) p (record s { obj = decay ip s.obj })
    unfolding decay
    decay_self s k = ground (
      arith,
      beq_refl ip,
      lookup-erase ip ip s.obj.strikes,
      lookup-insert ip ip (get_or ip 0 s.obj.strikes - 1) s.obj.strikes,
    )

    strike_self : (s : S) → Counts h p s → Counts (h + 1) p (record s { obj = strike ip s.obj })
    unfolding strike
    strike_self s k =
        ground
          (arith, beq_refl ip, lookup-insert ip ip (get_or ip 0 s.obj.strikes + 1) s.obj.strikes)

    visit-Fate :
        (now : ℕ) (v : Option String)
        → Runs (Counts h p) (visit env now (ip, v)) (λ _ s. Fate ip h p (some v) s.obj) Anything
    unfolding visit
    visit-Fate now none = runs_modify (λ _. Counts (h - 1) p) _ decay_self
    visit-Fate now (some reason) = do
      runs_modify (λ _. Counts (h + 1) p) _ strike_self
      n ← runs_gets (λ n s. (n ≡ h + 1) × Counts (h + 1) p s) _ (λ s k. (k.0, k))
      runs_given λ same.
          runs_if (λ _ s. Fate ip h p (some (some reason)) s.obj) (ltb n strikes_to_block)
            (λ _. runs_pure _ _ (λ s k. inl k))
            (λ over. judge-Flagged h p (enough n h same over) now reason)

    own :
        (now : ℕ) (v : Option String) (vs : Dict K (Option String)) (j : K)
        → j ≡ ip
        → lookup j vs ≡ none
        → Runs
            (Counts h p)
            (Exec.◌>>◌ (visit env now (j, v)) (visit_all env now vs))
            (λ _ s. Fate ip h p (some v) s.obj)
            Anything
    own now v vs j same absent =
        subst
          (λ x.
            lookup x vs ≡ none
            → Runs (Counts h p) (Exec.◌>>◌ (visit env now (x, v)) (visit_all env now vs))
                (λ _ s. Fate ip h p (some v) s.obj) Anything)
          (sym same)
          (λ gone. do
            visit-Fate now v
            kept env ip (Becomes h p (some v)) (λ h' p'. visit_all-Kept env ip h' p' now vs gone))
          absent

    -- The one verdict of a source decides; the others leave its record alone.
    pub visit_all-Fate :
        (now : ℕ) (vs : Dict K (Option String))
        → IsDistinct vs
        → Runs
            (Counts h p)
            (visit_all env now vs)
            (λ _ s. Fate ip h p (lookup ip vs) s.obj)
            Anything
    unfolding visit_all lookup
    visit_all-Fate now [] d = runs_pure _ _ (λ s k. k)
    visit_all-Fate now ((j, v) ∷ vs) d = elim (Bool-cases (e.beq j ip)) [
      | inl same ↦ rw same (own now v vs j ((e.beq_iff j ip).0 same) d.0)
      | inr other ↦ rw other (do visit-Kept env ip h p now (j, v) other; visit_all-Fate now vs d.1)
    ]
