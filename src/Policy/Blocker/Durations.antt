-- ===== src/Policy/Blocker/Durations.antt =====
-- control/policy.py, class Blocker: how long the blocks of a source last.
use Prim.Native.String.{String}
use mathlib.Core.Path.{subst}
use lookout.Common.{
  ℕ, ◌≡◌, refl, sym, ap, ◌∙◌, false, List, [], ◌∷◌, Option, none, some, arith, Eq, ltb, Bool-cases,
  inl, inr,
}
use lookout.Common.Dict.{Dict, lookup, insert, get_or, lookup-insert}
use lookout.Common.Exec.{Exec, Result, Error, ok, err, or_raise, index_error, key_error}
use lookout.Common.Exec
use lookout.Common.Exec.Keeps.{
  Keeps, keeps_bind as ◌>>=◌, keeps_then as ◌>>◌, keeps_pure, keeps_gets, keeps_if, keeps_modify,
  Leads, leads_keep, leads_bind, leads_if, leads_then, keeps_lift_ok,
}
use lookout.Policy.Blocker.{
  Env, Blocker, Note, Pass, visit, visit_all, update, issue, judge, run_pass, decay, strike,
  strikes_to_block,
}
use lookout.Policy.Blocker.Record.{priors, IsDistinct}
use lookout.Policy.Blocker.Trace.{Call, watched}
use lookout.Policy.Blocker.Timing.{
  duration_for, duration-eq, Timed, IsLocal, set_obj-Keeps, time-Keeps, allowed-Keeps, note-Keeps,
  pop_strikes-Keeps, is_blocked-Keeps, visit-Keeps, any, own_block, I, T,
}

get_or-insert :
    {K : Type 0} ⦃e : Eq K⦄ (ip j : K) (n : ℕ) (o : Dict K ℕ)
    → e.beq j ip ≡ false
    → get_or ip 0 (insert j n o) ≡ get_or ip 0 o
get_or-insert ip j n o ne = ground (arith, lookup-insert j ip n o)

absent :
    {K V : Type 0} ⦃e : Eq K⦄ {ip : K} (j : K) (v : V) (vs : Dict K V)
    → lookup ip ((j, v) ∷ vs) ≡ none
    → (e.beq j ip ≡ false) × (lookup ip vs ≡ none)
unfolding lookup
absent j v vs h = (ground arith, ground arith)

module _ {W K : Type 0} ⦃e : Eq K⦄ (env : Env W K) (ip : K) (p : ℕ) where
  abbrev d : ℕ
  d = duration_for p

  -- The offences of `ip` are those at the start.
  abbrev C : Blocker K → Type 0
  C b = priors ip b ≡ p

  local : IsLocal env ip d C
  local = record {
    same = λ b b' eq k. ap (get_or ip 0) eq ∙ k;
    other = λ b b' j n ne eq k. ap (get_or ip 0) eq ∙ get_or-insert ip j n b.offences ne ∙ k;
  }

  abbrev J : Pass (W × List (Call K)) K → Type 0
  J = I env ip d C local

  abbrev R : Pass (W × List (Call K)) K → Type 0
  R = T env ip d

  forget : (s : Pass (W × List (Call K)) K) → J s → R s
  forget s h = (h.0, tt)

  reads_priors :
      {B : Type 0} (f : ℕ → Exec (Pass (W × List (Call K)) K) B)
      → Keeps R (f p)
      → Leads J (Exec.◌>>=◌ (Exec.gets (λ s. get_or ip 0 s.obj.offences)) f) R
  unfolding Exec.◌>>=◌
  reads_priors f h = record { at = λ s k. subst (λ n. R (f n s).1) (sym k.1) (h.at s (forget s k)) }

  issue-own : (now : ℕ) (reason : String) → Leads J (issue (watched env) now ip reason) R
  unfolding issue
  issue-own now reason = reads_priors _ (
      keeps_lift_ok _ _ (λ k made. do
        dry ← keeps_gets _
        keeps_if dry (keeps_pure tt) (own_block env ip d k (duration-eq p k made))
        keeps_modify _ (λ s h. h)
        pop_strikes-Keeps env ip d (λ _. Unit {0}) (any env ip d) ip
        keeps_modify _ (λ s h. h)
        note-Keeps env ip d (λ _. Unit {0}) (any env ip d) _))

  judge-own : (now : ℕ) (reason : String) → Leads J (judge (watched env) now ip reason) R
  unfolding judge
  judge-own now reason = leads_bind forget (is_blocked-Keeps env ip d C local ip) (λ held.
      leads_if held (leads_keep forget (pop_strikes-Keeps env ip d C local ip)) (
        leads_bind forget (allowed-Keeps env ip d C local ip) (λ allowed.
          leads_if allowed
            (leads_keep forget (do
              note-Keeps env ip d C local (Note.allowlisted ip reason)
              pop_strikes-Keeps env ip d C local ip))
            (leads_bind forget (keeps_gets _)
              (λ full. leads_if full (leads_keep forget (keeps_pure tt)) (issue-own now reason))))))

  visit-own : (now : ℕ) (v : Option String) → Leads J (visit (watched env) now (ip, v)) R
  unfolding visit decay strike
  visit-own now none = leads_keep forget (set_obj-Keeps env ip d C local _ (λ b. refl))
  visit-own now (some reason) =
      leads_bind forget (set_obj-Keeps env ip d C local _ (λ b. refl)) (λ _.
        leads_bind forget (keeps_gets _) (λ n.
          leads_if (ltb n strikes_to_block) (leads_keep forget (keeps_pure tt))
            (judge-own now reason)))

  -- After the visit of `ip`, which has one verdict.
  others-Keeps :
      (now : ℕ) (vs : Dict K (Option String))
      → lookup ip vs ≡ none
      → Keeps R (visit_all (watched env) now vs)
  unfolding visit_all
  others-Keeps now [] h = keeps_pure tt
  others-Keeps now ((j, v) ∷ vs) h = do
    visit-Keeps env ip d (λ _. Unit {0}) (any env ip d) now (j, v) (absent j v vs h).0
    others-Keeps now vs (absent j v vs h).1

  own-Leads :
      (now : ℕ) (j : K) (v : Option String) (vs : Dict K (Option String))
      → j ≡ ip
      → lookup j vs ≡ none
      → Leads J (Exec.◌>>◌ (visit (watched env) now (j, v)) (visit_all (watched env) now vs)) R
  own-Leads now j v vs eq h =
      subst
        (λ x.
          Leads J (Exec.◌>>◌ (visit (watched env) now (x, v)) (visit_all (watched env) now vs)) R)
        (sym eq)
        (leads_then (visit-own now v) (others-Keeps now vs (subst (λ x. lookup x vs ≡ none) eq h)))

  all-Leads :
      (now : ℕ) (vs : Dict K (Option String))
      → IsDistinct vs
      → Leads J (visit_all (watched env) now vs) R
  unfolding visit_all
  all-Leads now [] h = leads_keep forget (keeps_pure tt)
  all-Leads now ((j, v) ∷ vs) h = elim (Bool-cases (e.beq j ip)) [
    | inl own ↦ own-Leads now j v vs ((e.beq_iff j ip).0 own) h.0
    | inr other ↦
        leads_bind forget (visit-Keeps env ip d C local now (j, v) other)
          (λ _. all-Leads now vs h.1)
  ]

  run_pass-Leads :
      (vs : Dict K (Option String)) → IsDistinct vs → Leads J (run_pass (watched env) vs) R
  unfolding run_pass
  run_pass-Leads vs h = leads_bind forget (time-Keeps env ip d C local) (λ now. all-Leads now vs h)

-- In one update with one verdict for each source, every block of a source is an automatic one and
-- lasts 60 seconds if the source had not been blocked before, 300 if it had been blocked once, and
-- 900 if more often.
pub update-Timed :
    {W K : Type 0} ⦃e : Eq K⦄ (env : Env W K) (b : Blocker K) (verdicts : Dict K (Option String))
    (w : W) (ip : K)
    → IsDistinct verdicts
    → Timed ip (duration_for (priors ip b)) (update (watched env) verdicts (b, (w, []))).1.1.1
unfolding update
update-Timed env b verdicts w ip h =
    ((run_pass-Leads env ip (priors ip b) verdicts h).at
      (record { obj = b; issued = 0; world = (w, []) }) (tt, refl)).0
