-- ===== src/Common/Exec.antt =====
-- Methods that change an object's state and may raise: what was written before a raise stays.
pub mod Runs
pub mod Keeps
use Prim.Native.Nat.{ℕ}
use mathlib.Core.Path.{◌≡◌, refl}
use mathlib.Core.Bool.{Bool, true, false}
use mathlib.Core.Option.{Option, none, some}
use lookout.Common.Tests.{if◌then◌else◌}
use mathlib.Core.Logic.{◌⊎◌, inl, inr}

-- The exceptions that the program raises or lets through.
pub data Error : Type 0 where
  -- BpfError, an OSError, with its errno
  os_error : ℕ → Error
  value_error : Error
  zero_division : Error
  index_error : Error
  key_error : Error
  type_error : Error
  assertion_error : Error
  -- struct.error
  struct_error : Error
  -- none of the program: a loop of the model has used up its rounds
  no_fuel : Error

pub data Result (A : Type 0) : Type 0 where
  ok : A → Result A
  err : Error → Result A

-- `except OSError`
abbrev pub is_os_error : Error → Bool
is_os_error (os_error e) = true
is_os_error _ = false

-- `except OSError: pass`
abbrev pub ignored : {W A : Type 0} → Result A × W → Result (Unit {0}) × W
ignored (ok a, w) = (ok tt, w)
ignored (err c, w) = (if is_os_error c then ok tt else err c, w)

-- Indexing a list, and looking up a key.
abbrev pub or_raise : {A : Type 0} → Option A → Error → Result A
or_raise none e = err e
or_raise (some a) e = ok a

pub Result-cases :
    {A : Type 0} (r : Result A) → ((a : A) × (r ≡ ok a)) ⊎ ((e : Error) × (r ≡ err e))
Result-cases (ok a) = inl (a, refl)
Result-cases (err e) = inr (e, refl)

abbrev pub Exec : Type 0 → Type 0 → Type 0
Exec S A = S → Result A × S

module _ {S A : Type 0} where
  unfoldable pub pure : A → Exec S A
  pure a s = (ok a, s)

  unfoldable pub raise : Error → Exec S A
  raise c s = (err c, s)

  unfoldable pub lift : Result A → Exec S A
  lift r s = (r, s)

  unfoldable pub gets : (S → A) → Exec S A
  gets f s = (ok (f s), s)

unfoldable pub modify : {S : Type 0} → (S → S) → Exec S (Unit {0})
modify f s = (ok tt, f s)

module _ {S A B : Type 0} where
  -- What follows a call: nothing, after an exception.
  abbrev pub resume : (A → Exec S B) → Result A × S → Result B × S
  resume next (ok found, after) = next found after
  resume next (err c, after) = (err c, after)

  infixl 10 ◌>>=◌ ◌>>◌
  -- Opening this opens the five above too.
  unfoldable pub ◌>>=◌ : Exec S A → (A → Exec S B) → Exec S B
  unfolding pure raise lift gets modify
  ◌>>=◌ first next before = resume next (first before)

  abbrev pub ◌>>◌ : Exec S A → Exec S B → Exec S B
  first >> second = first >>= λ _. second
