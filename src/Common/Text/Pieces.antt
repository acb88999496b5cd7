-- ===== src/Common/Text/Pieces.antt =====
-- Splitting and stripping texts that were joined from parts.
use lookout.Common.Tests.{◌==◌}
use lookout.Common.Lists.{All}
use lookout.Common.Text.{Text, split, strip, drop_spaces, is_space}
use Prim.Native.Nat.{ℕ}
use mathlib.Core.Path.{◌≡◌, refl}
use mathlib.Core.Bool.{true, false}
use mathlib.Core.List.{List, [], ◌∷◌, ◌++◌, reverse, reverse-append, reverse-reverse}
use native.Mathlib.Omega.{arith}

-- None of the characters is `c`.
abbrev pub Lacks : ℕ → Text → Type 0
Lacks c s = All (λ x. (x == c) ≡ false) s

pub split-lacking : (c : ℕ) (s : Text) → Lacks c s → split c s ≡ (s, [])
unfolding split
split-lacking c [] h = refl
split-lacking c (x ∷ s) h = rw (split-lacking c s h.1, h.0) refl

same : (c : ℕ) → (c == c) ≡ true
same c = ground arith

pub split-join :
    (c : ℕ) (s t : Text) → Lacks c s → split c (s ++ c ∷ t) ≡ (s, (split c t).0 ∷ (split c t).1)
unfolding split
split-join c [] t h = rw (same c) refl
split-join c (x ∷ s) t h = rw (split-join c s t h.1, h.0) refl

abbrev pub IsTight : Text → Type 0
IsTight s = All (λ x. is_space x ≡ false) s

pub All-++ : {A : Type 0} (P : A → Type 0) (s t : List A) → All P s → All P t → All P (s ++ t)
All-++ P [] t h k = k
All-++ P (x ∷ s) t h k = (h.0, All-++ P s t h.1 k)

drop_spaces-tight : (s : Text) → IsTight s → drop_spaces s ≡ s
unfolding drop_spaces
drop_spaces-tight [] h = refl
drop_spaces-tight (x ∷ s) h = rw h.0 refl

reverse-IsTight : (s : Text) → IsTight s → IsTight (reverse s)
reverse-IsTight [] h = tt
reverse-IsTight (x ∷ s) h =
    rw (reverse-append (x ∷ []) s)
      (All-++ (λ y. is_space y ≡ false) (reverse s) (x ∷ []) (reverse-IsTight s h.1) (h.0, tt))

pub strip-tight : (s : Text) → IsTight s → strip s ≡ s
unfolding strip
strip-tight s h =
    rw (drop_spaces-tight s h, drop_spaces-tight (reverse s) (reverse-IsTight s h))
      (reverse-reverse s)
