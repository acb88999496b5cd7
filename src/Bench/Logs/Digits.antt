-- ===== src/Bench/Logs/Digits.antt =====
-- bench/eval_report.py, `from_log`: the digits of a number that was shown.
use lookout.Common.{
  ℕ, zero, suc, ◌+◌, ◌*◌, ◌/◌, ◌%◌, ◌<◌, ◌≡◌, refl, sym, ap, ◌∙◌, true, [], ◌∷◌, ◌++◌, some, ◌==◌,
  arith, Bool-cases, inl, inr,
}
use lookout.Common.{All}
use lookout.Common.Text.Pieces.{Lacks}
use lookout.Common.Text.{Text, show, show_digits, digits_value, is_digit, text_eq}
use lookout.Bench.Logs.{number_part}

pub digit_code : (d : ℕ) → d < 10 → is_digit (d + b'0') ≡ true
digit_code d h = ground (arith, h)

pub digits_step :
    (a d : ℕ) (s : Text) → d < 10 → digits_value a ((d + b'0') ∷ s) ≡ digits_value (a * 10 + d) s
unfolding digits_value
digits_step a d s h = rw (digit_code d h) (ap (λ k. digits_value k s) (omega arith))

-- The digits of a number, read before the rest.
digits_shown :
    (f n : ℕ) (acc : Text) → n < f → digits_value 0 (show_digits f n acc) ≡ digits_value n acc
unfolding show_digits
digits_shown zero n acc h = ground (arith, h)
digits_shown (suc f) n acc h = elim (Bool-cases (n / 10 == 0)) [
  | inl e ↦
      rw e (
        digits_step 0 (n % 10) acc (omega arith) ∙ ap (λ k. digits_value k acc) (ground (arith, e)))
  | inr e ↦ rw e (
      digits_shown f (n / 10) ((n % 10 + b'0') ∷ acc) (ground (arith, e, h))
      ∙ digits_step (n / 10) (n % 10) acc (omega arith)
      ∙ ap (λ k. digits_value k acc) (omega arith))
]

pub show_digits-append : (f n : ℕ) (a b : Text) → show_digits f n (a ++ b) ≡ show_digits f n a ++ b
unfolding show_digits
show_digits-append zero n a b = refl
show_digits-append (suc f) n a b = elim (Bool-cases (n / 10 == 0)) [
  | inl e ↦ rw e refl
  | inr e ↦ rw e (show_digits-append f (n / 10) ((n % 10 + b'0') ∷ a) b)
]

pub digits_value-show : (n : ℕ) (s : Text) → digits_value 0 (show n ++ s) ≡ digits_value n s
unfolding show
digits_value-show n s =
    ap (digits_value 0) (sym (show_digits-append (suc n) n [] s))
    ∙ digits_shown (suc n) n s (omega arith)

pub show_one : (d : ℕ) → d < 10 → show d ≡ (d + b'0') ∷ []
unfolding show show_digits
show_one d h =
    let small : (d / 10 == 0) ≡ true = ground (arith, h) in
    rw small (ap (λ c. c ∷ []) (omega (arith, h)))

abbrev pub AllDigits : Text → Type 0
AllDigits s = All (λ c. is_digit c ≡ true) s

show_digits-AllDigits : (f n : ℕ) (acc : Text) → AllDigits acc → AllDigits (show_digits f n acc)
unfolding show_digits
show_digits-AllDigits zero n acc h = h
show_digits-AllDigits (suc f) n acc h = elim (Bool-cases (n / 10 == 0)) [
  | inl e ↦ rw e (digit_code (n % 10) (omega arith), h)
  | inr e ↦ rw e (
      show_digits-AllDigits f (n / 10) ((n % 10 + b'0') ∷ acc)
        (digit_code (n % 10) (omega arith), h))
]

pub show-AllDigits : (n : ℕ) → AllDigits (show n)
unfolding show
show-AllDigits n = show_digits-AllDigits (suc n) n [] tt

pub AllDigits-Lacks : (s : Text) → AllDigits s → Lacks b'.' s
AllDigits-Lacks [] h = tt
AllDigits-Lacks (c ∷ s) (h, k) = (ground (arith, h), AllDigits-Lacks s k)

-- Digits are taken up to what follows them.
pub number_part-digits :
    (s rest n left : Text)
    → AllDigits s
    → number_part rest ≡ (n, left)
    → number_part (s ++ rest) ≡ (s ++ n, left)
unfolding number_part
number_part-digits [] rest n left h e = e
number_part-digits (c ∷ s) rest n left (h, k) e = rw (h, number_part-digits s rest n left k e) refl

pub number_part-all : (s : Text) → AllDigits s → number_part s ≡ (s, [])
unfolding number_part
number_part-all [] h = refl
number_part-all (c ∷ s) (h, k) = rw (h, number_part-all s k) refl

show_digits-cons :
    (f n x : ℕ) (acc : Text) → (c : ℕ) × (s : Text) × (show_digits f n (x ∷ acc) ≡ c ∷ s)
unfolding show_digits
show_digits-cons zero n x acc = (x, acc, refl)
show_digits-cons (suc f) n x acc = elim (Bool-cases (n / 10 == 0)) [
  | inl e ↦ (n % 10 + b'0', x ∷ acc, rw e refl)
  | inr e ↦ let (c, s, h) = show_digits-cons f (n / 10) (n % 10 + b'0') (x ∷ acc) in (c, s, rw e h)
]

pub show-cons : (n : ℕ) → (c : ℕ) × (s : Text) × (show n ≡ c ∷ s)
unfolding show show_digits
show-cons n = elim (Bool-cases (n / 10 == 0)) [
  | inl e ↦ (n % 10 + b'0', [], rw e refl)
  | inr e ↦ let (c, s, h) = show_digits-cons n (n / 10) (n % 10 + b'0') [] in (c, s, rw e h)
]

pub shown_value : (n : ℕ) → digits_value 0 (show n) ≡ some n
unfolding show digits_value
shown_value n = digits_shown (suc n) n [] (omega arith)
