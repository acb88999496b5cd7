-- ===== src/Common/Exec/Keeps.antt =====
-- Calls that keep an invariant of the state, whether they return or raise: one rule for each way to
-- build a call.
use mathlib.Core.Path.{◌≡◌, refl}
use mathlib.Core.Bool.{Bool, true, false}
use lookout.Common.Tests.{if◌then◌else◌}
use lookout.Common.Exec.{
  Exec, Error, Result, ok, err, pure, raise, lift, gets, modify, resume, ◌>>=◌,
}

pub record Keeps {S A : Type 0} (I : S → Type 0) (m : Exec S A) : Type 0 where
  pub at : (s : S) → I s → I (m s).1

module _ {S A : Type 0} {I : S → Type 0} where
  pub keeps_pure : (a : A) → Keeps I (pure a)
  unfolding pure
  keeps_pure a = record { at = λ s h. h }

  pub keeps_raise : (c : Error) → Keeps I (raise {A = A} c)
  unfolding raise
  keeps_raise c = record { at = λ s h. h }

  pub keeps_lift : (r : Result A) → Keeps I (lift r)
  unfolding lift
  keeps_lift r = record { at = λ s h. h }

  pub keeps_gets : (f : S → A) → Keeps I (gets f)
  unfolding gets
  keeps_gets f = record { at = λ s h. h }

  pub keeps_if : (b : Bool) {m n : Exec S A} → Keeps I m → Keeps I n → Keeps I (if b then m else n)
  keeps_if true h k = h
  keeps_if false h k = k

pub keeps_modify :
    {S : Type 0} {I : S → Type 0} (f : S → S) → ((s : S) → I s → I (f s)) → Keeps I (modify f)
unfolding modify
keeps_modify f h = record { at = h }

resume_keeps :
    {S A B : Type 0} (I : S → Type 0) (f : A → Exec S B) (r : Result A × S)
    → I r.1
    → ((a : A) → Keeps I (f a))
    → I (resume f r).1
resume_keeps I f (ok a, s) h k = (k a).at s h
resume_keeps I f (err c, s) h k = h

module _ {S A B : Type 0} {I : S → Type 0} where
  pub keeps_bind :
      {m : Exec S A} {f : A → Exec S B} → Keeps I m → ((a : A) → Keeps I (f a)) → Keeps I (m >>= f)
  unfolding ◌>>=◌
  keeps_bind {m} {f} h k = record { at = λ s i. resume_keeps I f (m s) (h.at s i) k }

  pub keeps_then : {m : Exec S A} {n : Exec S B} → Keeps I m → Keeps I n → Keeps I (m >>= λ _. n)
  keeps_then h k = keeps_bind h (λ _. k)

  -- What holds after the first call still holds after the second.
  pub keeps_after :
      (m : Exec S A) (f : A → Exec S B) (s : S)
      → I (m s).1
      → ((a : A) → Keeps I (f a))
      → I ((m >>= f) s).1
  unfolding ◌>>=◌
  keeps_after m f s h k = resume_keeps I f (m s) h k

-- From `P` to `Q`, whether the call returns or raises.
pub record Leads {S A : Type 0} (P : S → Type 0) (m : Exec S A) (Q : S → Type 0) : Type 0 where
  pub at : (s : S) → P s → Q (m s).1

resume_leads :
    {S A B : Type 0} (P Q : S → Type 0) (f : A → Exec S B) (r : Result A × S)
    → ((s : S) → P s → Q s)
    → P r.1
    → ((a : A) → Leads P (f a) Q)
    → Q (resume f r).1
resume_leads P Q f (ok a, s) w h k = (k a).at s h
resume_leads P Q f (err c, s) w h k = w s h

resume_ok :
    {S A B : Type 0} (I : S → Type 0) (f : A → Exec S B) (r : Result A) (s : S)
    → I s
    → ((a : A) → r ≡ ok a → Keeps I (f a))
    → I (resume f (r, s)).1
resume_ok I f (ok a) s h k = (k a refl).at s h
resume_ok I f (err c) s h k = h

module _ {S : Type 0} {P Q : S → Type 0} (weaker : (s : S) → P s → Q s) where
  pub leads_keep : {A : Type 0} {m : Exec S A} → Keeps P m → Leads P m Q
  leads_keep {m} k = record { at = λ s h. weaker (m s).1 (k.at s h) }

  pub leads_bind :
      {A B : Type 0} {m : Exec S A} {f : A → Exec S B}
      → Keeps P m
      → ((a : A) → Leads P (f a) Q)
      → Leads P (m >>= f) Q
  unfolding ◌>>=◌
  leads_bind {m} {f} h k = record { at = λ s i. resume_leads P Q f (m s) weaker (h.at s i) k }

pub leads_if :
    {S A : Type 0} {P Q : S → Type 0} (b : Bool) {m n : Exec S A}
    → Leads P m Q
    → Leads P n Q
    → Leads P (if b then m else n) Q
leads_if true h k = h
leads_if false h k = k

pub leads_then :
    {S A B : Type 0} {P Q : S → Type 0} {m : Exec S A} {n : Exec S B}
    → Leads P m Q
    → Keeps Q n
    → Leads P (m >>= λ _. n) Q
leads_then {m} {n} h k = record { at = λ s i. keeps_after m (λ _. n) s (h.at s i) (λ _. k) }

-- The rest is given what the result is.
pub keeps_lift_ok :
    {S A B : Type 0} {I : S → Type 0} (r : Result A) (f : A → Exec S B)
    → ((a : A) → r ≡ ok a → Keeps I (f a))
    → Keeps I (lift r >>= f)
unfolding ◌>>=◌
keeps_lift_ok {I} r f k = record { at = λ s h. resume_ok I f r s h k }
