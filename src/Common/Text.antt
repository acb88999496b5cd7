-- ===== src/Common/Text.antt =====
-- Texts as lists of character codes, with the methods of `str` that the program calls.
pub mod Pieces
use Prim.Native.Char.{code}
use Prim.Native.Nat.{ℕ, zero, suc, ◌+◌, ◌-◌, ◌*◌, ◌/◌, ◌%◌}
use Prim.Native.String.{String}
use mathlib.Core.Path.{◌≡◌, refl}
use mathlib.Core.Logic.{◌↔◌}
use mathlib.Core.Bool.{Bool, true, false, ◌&&◌, ◌||◌}
use mathlib.Core.Option.{Option, none, some}
use mathlib.Core.List.{List, [], ◌∷◌, reverse}
use native.Mathlib.Omega.{arith}
use lookout.Common.Tests.{Eq, ◌==◌, leb, if◌then◌else◌}
use lookout.Common.Exec.{Result, ok, err, value_error}

abbrev pub Text : Type 0
Text = List ℕ

abbrev pub codes : String → Text
codes String.[] = []
codes (String.◌∷◌ c s) = code c ∷ codes s

unfoldable pub text_beq : Text → Text → Bool
text_beq [] [] = true
text_beq [] (y ∷ ys) = false
text_beq (x ∷ xs) [] = false
text_beq (x ∷ xs) (y ∷ ys) = x == y && text_beq xs ys

pub text_beq_iff : (s t : Text) → (text_beq s t ≡ true) ↔ (s ≡ t)
unfolding text_beq
text_beq_iff [] [] = ground arith
text_beq_iff [] (y ∷ ys) = ground arith
text_beq_iff (x ∷ xs) [] = ground arith
text_beq_iff (x ∷ xs) (y ∷ ys) = ground (arith, text_beq_iff xs ys)

instance abbrev pub text_eq : Eq Text
text_eq = record { beq = text_beq; beq_iff = text_beq_iff }

abbrev pub is_digit : ℕ → Bool
is_digit c = leb b'0' c && leb c b'9'

-- The ASCII characters that `strip` removes.
abbrev pub is_space : ℕ → Bool
is_space c = c == 32 || leb 9 c && leb c 13 || leb 28 c && leb c 31

unfoldable pub drop_spaces : Text → Text
drop_spaces [] = []
drop_spaces (c ∷ s) = let rest = drop_spaces s in if is_space c then rest else c ∷ s

-- `s.strip()`
unfoldable pub strip : Text → Text
unfolding drop_spaces
strip s = reverse (drop_spaces (reverse (drop_spaces s)))

-- `s.split(c)`: the first piece, and the others.
unfoldable pub split : ℕ → Text → Text × List Text
split c [] = ([], [])
split c (x ∷ s) =
    let (first, others) = split c s in if x == c then ([], first ∷ others) else (x ∷ first, others)

unfoldable pub digits_value : ℕ → Text → Option ℕ
digits_value acc [] = some acc
digits_value acc (c ∷ s) =
    let rest = digits_value (acc * 10 + (c - b'0')) s in if is_digit c then rest else none

-- `int(s)` of plain digits; any other text raises. (Python's `int` takes a sign, spaces and
-- underscores too.)
unfoldable pub int_of : Text → Result ℕ
unfolding digits_value
int_of [] = err value_error
int_of (c ∷ s) = elim (digits_value 0 (c ∷ s)) [ none ↦ err value_error | some n ↦ ok n ]

-- `str(n)`, the digits before `acc`.
unfoldable pub show_digits : ℕ → ℕ → Text → Text
show_digits zero n acc = acc
show_digits (suc f) n acc =
    let longer = (n % 10 + b'0') ∷ acc in
    let rest = show_digits f (n / 10) longer in if n / 10 == 0 then longer else rest

unfoldable pub show : ℕ → Text
unfolding show_digits
show n = show_digits (suc n) n []

show_runs : show 1920 ≡ codes "1920"
unfolding show
show_runs = refl

int_of_runs : int_of (codes "1920") ≡ ok 1920
unfolding int_of
int_of_runs = refl
