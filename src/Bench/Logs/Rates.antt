-- ===== src/Bench/Logs/Rates.antt =====
-- bench/eval_report.py, `from_log`, on the rates that control/controller.py shows with `human`.
use lookout.Common.{
  ℕ, zero, suc, ◌+◌, ◌*◌, ◌/◌, ◌%◌, ◌≤◌, ◌<◌, ◌≡◌, refl, sym, ap, ◌∙◌, [], ◌∷◌, ◌++◌, some, leb,
  arith, Bool-cases, inl, inr, max,
}
use lookout.Common.Text.Pieces.{split-lacking, split-join}
use lookout.Common.Int.{pos, scale}
use lookout.Common.Dict
use lookout.Common.Exec.{ok}
use lookout.Common.Ratio.{Ratio}
use lookout.Common.Text.{Text, codes, show, digits_value, text_eq, text_beq}
use native.Mathlib.Nat.{mul_assoc}
use lookout.Bench.Numbers.{round}
use lookout.Bench.Numbers.Percentiles.{round-near}
use lookout.Bench.Logs.{number_part, unit_part, decimal, float_of, rate_of, units}
use lookout.Fwctl.Human.{whole, tenths, human, text_of, in_tenths, giga, mega, kilo}
use lookout.Bench.Logs.Digits.{
  digit_code, digits_step, digits_value-show, show_one, show-AllDigits, AllDigits-Lacks,
  number_part-digits, number_part-all, show-cons, shown_value,
}

scale_pos : (a k : ℕ) → scale (pos a) k ≡ pos (a * k)
scale_pos a k = ground arith

abbrev quotient : ℕ → ℕ → Ratio
quotient a b = record { num = pos a; den = b }

float_whole :
    (s : Text) (c : ℕ) (t : Text) (n : ℕ)
    → s ≡ c ∷ t
    → digits_value 0 s ≡ some n
    → float_of (s, []) ≡ ok (quotient n 1)
unfolding float_of
float_whole s c t n h e = rw h (ap (λ o. decimal o 0) (sym (ap (digits_value 0) h) ∙ e))

float_tenth :
    (s : Text) (c d : ℕ) (t : Text) (n : ℕ)
    → s ≡ c ∷ t
    → digits_value 0 (s ++ d ∷ []) ≡ some n
    → float_of (s, (d ∷ []) ∷ []) ≡ ok (quotient n 10)
unfolding float_of
float_tenth s c d t n h e =
    rw h (ap (λ o. decimal o 1) (sym (ap (λ r. digits_value 0 (r ++ d ∷ [])) h) ∙ e))

rate_of-whole : (n : ℕ) → rate_of (text_of (whole n)) ≡ ok (quotient n 1)
unfolding rate_of text_of Dict.lookup text_beq
rate_of-whole n =
    let (c, t, e) = show-cons n in
    let digits = show-AllDigits n in
    rw
      (
        number_part-all (show n) digits,
        split-lacking b'.' (show n) (AllDigits-Lacks (show n) digits),
        float_whole (show n) c t n e (shown_value n),
      )
      (ap (λ k. ok (record { num = k; den = 1 })) (scale_pos n 1 ∙ ap pos (omega arith)))

tenth_value : (t : ℕ) → digits_value 0 (show (t / 10) ++ (t % 10 + b'0') ∷ []) ≡ some t
unfolding digits_value
tenth_value t =
    digits_value-show (t / 10) ((t % 10 + b'0') ∷ [])
    ∙ digits_step (t / 10) (t % 10) [] (omega arith)
    ∙ ap some (omega arith)

dot_part :
    (d : ℕ) (unit : Text)
    → d < 10
    → number_part unit ≡ ([], unit)
    → number_part (b'.' ∷ (d + b'0') ∷ unit) ≡ (b'.' ∷ (d + b'0') ∷ [], unit)
unfolding number_part
dot_part d unit h e = rw (e, digit_code d h) refl

text_of-tenths :
    (t : ℕ) (unit : Text) → text_of (tenths t unit) ≡ show (t / 10) ++ b'.' ∷ (t % 10 + b'0') ∷ unit
unfolding text_of
text_of-tenths t unit = rw (show_one (t % 10) (omega arith)) refl

rate_of-tenths :
    (t div : ℕ) (unit : Text)
    → number_part unit ≡ ([], unit)
    → Dict.lookup (unit_part unit) units ≡ some div
    → rate_of (text_of (tenths t unit)) ≡ ok (quotient (t * div) 10)
unfolding rate_of
rate_of-tenths t div unit e f =
    let small : t % 10 < 10 = omega arith in
    let d = t % 10 + b'0' in
    let digits = show-AllDigits (t / 10) in
    let (c, s, g) = show-cons (t / 10) in
    rw
      (
        text_of-tenths t unit,
        number_part-digits (show (t / 10)) (b'.' ∷ d ∷ unit) (b'.' ∷ d ∷ []) unit digits
            (dot_part (t % 10) unit small e),
        split-join b'.' (show (t / 10)) (d ∷ []) (AllDigits-Lacks (show (t / 10)) digits),
        split-lacking b'.' (d ∷ []) (AllDigits-Lacks (d ∷ []) (digit_code (t % 10) small, tt)),
        float_tenth (show (t / 10)) c d s t g (tenth_value t),
        f,
      )
      (ap (λ k. ok (record { num = k; den = 10 })) (scale_pos t div))

-- a / b is a rate at most a twentieth away from num / den, or half a packet.
abbrev pub IsClose : ℕ → ℕ → ℕ → ℕ → Type 0
IsClose a b num den =
    (20 * (a * den) ≤ 20 * (num * b) + b * max num (10 * den))
    × (20 * (num * b) ≤ 20 * (a * den) + b * max num (10 * den))

abbrev pub ReadsBack : ℕ → ℕ → Text → Type 0
ReadsBack num den s =
    (a : ℕ) × (b : ℕ) × ((rate_of s ≡ ok (quotient a b)) × (0 < b) × IsClose a b num den)

whole-IsClose :
    (n num den : ℕ)
    → 2 * num ≤ (2 * n + 1) * den
    → 2 * (n * den) ≤ 2 * num + den
    → IsClose n 1 num den
whole-IsClose n num den h k = (ground (arith, h, k), ground (arith, h, k))

tenths-IsClose :
    (t div num den step : ℕ)
    → step ≡ div * den
    → 2 * (10 * num) ≤ (2 * t + 1) * step
    → 2 * (t * step) ≤ 2 * (10 * num) + step
    → step ≤ num
    → IsClose (t * div) 10 num den
tenths-IsClose t div num den step e h k l =
    let same : t * div * den ≡ t * step = mul_assoc t div den ∙ ap (λ k. t * k) (sym e) in
    (ground (arith, h, k, l, same), ground (arith, h, k, l, same))

one_more : (a b : ℕ) → 0 < a → 0 < b → 1 ≤ a * b
one_more zero b h k = ground (arith, h)
one_more (suc a) b h k = omega (arith, k)

is_kilo :
    (number_part (codes "k") ≡ ([], codes "k"))
    × (Dict.lookup (unit_part (codes "k")) units ≡ some kilo)
unfolding number_part Dict.lookup text_beq
is_kilo = (refl, refl)

is_mega :
    (number_part (codes "M") ≡ ([], codes "M"))
    × (Dict.lookup (unit_part (codes "M")) units ≡ some mega)
unfolding number_part Dict.lookup text_beq
is_mega = (refl, refl)

is_giga :
    (number_part (codes "G") ≡ ([], codes "G"))
    × (Dict.lookup (unit_part (codes "G")) units ≡ some giga)
unfolding number_part Dict.lookup text_beq
is_giga = (refl, refl)

tenths-ReadsBack :
    (div num den : ℕ) (unit : Text)
    → (number_part unit ≡ ([], unit)) × (Dict.lookup (unit_part unit) units ≡ some div)
    → 0 < div
    → 0 < den
    → div * den ≤ num
    → ReadsBack num den (text_of (tenths (in_tenths div num den) unit))
tenths-ReadsBack div num den unit (e, f) h k l =
    let t = in_tenths div num den in
    let (up, down) = round-near (10 * num) (div * den) (one_more div den h k) in
    (
      t * div,
      10,
      (
        rate_of-tenths t div unit e f,
        omega arith,
        tenths-IsClose t div num den (div * den) refl up down l,
      ),
    )

-- For a rate num / den: the text that `human` makes of it is read as a rate that is at most a
-- twentieth of it away, or half a packet a second if that is more.
pub rate_of-human : (num den : ℕ) → 0 < den → ReadsBack num den (text_of (human num den))
unfolding human
rate_of-human num den h = elim (Bool-cases (leb (giga * den) num)) [
  | inl e ↦
      rw e (tenths-ReadsBack giga num den (codes "G") is_giga (omega arith) h (ground (arith, e)))
  | inr e ↦ elim (Bool-cases (leb (mega * den) num)) [
    | inl f ↦
        rw (e, f)
          (tenths-ReadsBack mega num den (codes "M") is_mega (omega arith) h (ground (arith, f)))
    | inr f ↦ elim (Bool-cases (leb (kilo * den) num)) [
      | inl g ↦
          rw (e, f, g)
            (tenths-ReadsBack kilo num den (codes "k") is_kilo (omega arith) h (ground (arith, g)))
      | inr g ↦
          let (up, down) = round-near num den h in
          let n = round num den in
          rw (e, f, g) (n, 1, (rate_of-whole n, omega arith, whole-IsClose n num den up down))
    ]
  ]
]
