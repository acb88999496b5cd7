-- ===== src/Common/Exec/Runs.antt =====
-- What holds before and after a call, one rule for each way to build it.
use mathlib.Core.Path.{◌≡◌, refl}
use mathlib.Core.Bool.{Bool, true, false}
use lookout.Common.Tests.{if◌then◌else◌}
use lookout.Common.Exec.{
  Exec, Error, Result, ok, err, pure, raise, lift, gets, modify, resume, ◌>>=◌,
}

-- `Q` of the value and the state if the call returned, `E` of the state if it raised.
abbrev pub Ends : {S A : Type 0} → (A → S → Type 0) → (S → Type 0) → Result A × S → Type 0
Ends Q E (ok a, s) = Q a s
Ends Q E (err _, s) = E s

pub record Runs {S A : Type 0} (P : S → Type 0) (m : Exec S A) (Q : A → S → Type 0) (E : S → Type 0)
    : Type 0 where
  pub at : (s : S) → P s → Ends Q E (m s)

module _ {S A : Type 0} {P : S → Type 0} (Q : A → S → Type 0) {E : S → Type 0} where
  pub runs_pure : (a : A) → ((s : S) → P s → Q a s) → Runs P (pure a) Q E
  unfolding pure
  runs_pure a h = record { at = h }

  pub runs_raise : (c : Error) → ((s : S) → P s → E s) → Runs P (raise c) Q E
  unfolding raise
  runs_raise c h = record { at = h }

  pub runs_gets : (f : S → A) → ((s : S) → P s → Q (f s) s) → Runs P (gets f) Q E
  unfolding gets
  runs_gets f h = record { at = h }

  pub runs_lift :
      {r : Result A}
      → ((a : A) → r ≡ ok a → (s : S) → P s → Q a s)
      → ((c : Error) → r ≡ err c → (s : S) → P s → E s)
      → Runs P (lift r) Q E
  unfolding lift
  runs_lift {r = ok a} h k = record { at = h a refl }
  runs_lift {r = err c} h k = record { at = k c refl }

  pub runs_if :
      (b : Bool) {m n : Exec S A}
      → (b ≡ true → Runs P m Q E)
      → (b ≡ false → Runs P n Q E)
      → Runs P (if b then m else n) Q E
  runs_if true h k = h refl
  runs_if false h k = k refl

pub runs_modify :
    {S : Type 0} {P : S → Type 0} (Q : Unit {0} → S → Type 0) {E : S → Type 0} (f : S → S)
    → ((s : S) → P s → Q tt (f s))
    → Runs P (modify f) Q E
unfolding modify
runs_modify Q f h = record { at = h }

pub weaken-Ends :
    {S A : Type 0} (Q Q' : A → S → Type 0) (E E' : S → Type 0) (r : Result A × S)
    → Ends Q' E' r
    → ((a : A) (s : S) → Q' a s → Q a s)
    → ((s : S) → E' s → E s)
    → Ends Q E r
weaken-Ends Q Q' E E' (ok a, s) h k l = k a s h
weaken-Ends Q Q' E E' (err _, s) h k l = l s h

pub runs_weaken :
    {S A : Type 0} {P P' : S → Type 0} {Q Q' : A → S → Type 0} {E E' : S → Type 0} {m : Exec S A}
    → Runs P' m Q' E'
    → ((s : S) → P s → P' s)
    → ((a : A) (s : S) → Q' a s → Q a s)
    → ((s : S) → E' s → E s)
    → Runs P m Q E
runs_weaken {Q} {Q'} {E} {E'} h pre post stop = record {
  at = λ s p. weaken-Ends Q Q' E E' _ (h.at s (pre s p)) post stop;
}

resume-Ends :
    {S A B : Type 0} (Q : A → S → Type 0) (R : B → S → Type 0) (E : S → Type 0) (r : Result A × S)
    (f : A → Exec S B)
    → Ends Q E r
    → ((a : A) → Runs (Q a) (f a) R E)
    → Ends R E (resume f r)
resume-Ends Q R E (ok a, s) f h k = (k a).at s h
resume-Ends Q R E (err _, s) f h k = h

pub runs_bind :
    {S A B : Type 0} {P : S → Type 0} {R : B → S → Type 0} {E : S → Type 0} {m : Exec S A}
    {f : A → Exec S B} {Q : A → S → Type 0}
    → Runs P m Q E
    → ((a : A) → Runs (Q a) (f a) R E)
    → Runs P (m >>= f) R E
unfolding ◌>>=◌
runs_bind {R} {E} {m} {f} {Q} h k = record { at = λ s p. resume-Ends Q R E (m s) f (h.at s p) k }

pub runs_then :
    {S A B : Type 0} {P : S → Type 0} {R : B → S → Type 0} {E : S → Type 0} {m : Exec S A}
    {n : Exec S B} {Q : S → Type 0}
    → Runs P m (λ _. Q) E
    → Runs Q n R E
    → Runs P (m >>= λ _. n) R E
runs_then h k = runs_bind h (λ _. k)

-- A fact that does not change.
pub runs_given :
    {S A : Type 0} {F : Type 0} {P : S → Type 0} {Q : A → S → Type 0} {E : S → Type 0}
    {m : Exec S A}
    → (F → Runs P m Q E)
    → Runs (λ s. F × P s) m Q E
runs_given h = record { at = λ s k. (h k.0).at s k.1 }

-- A value of which only its existence is known.
pub runs_exists :
    {S A B : Type 0} {P : B → S → Type 0} {Q : A → S → Type 0} {E : S → Type 0} {m : Exec S A}
    → ((b : B) → Runs (P b) m Q E)
    → Runs (λ s. (b : B) × P b s) m Q E
runs_exists h = record { at = λ s k. (h k.0).at s k.1 }
