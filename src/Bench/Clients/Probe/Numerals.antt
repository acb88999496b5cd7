-- ===== src/Bench/Clients/Probe/Numerals.antt =====
-- bench/clients.py, `probe`: times of as many digits are ordered as their texts are.
use lookout.Common.{
  ℕ, zero, suc, ◌+◌, ◌*◌, ◌/◌, ◌%◌, ◌≤◌, ◌<◌, ◌≡◌, refl, sym, ap, ◌∙◌, true, false, Bool-cases, inl,
  inr, [], ◌∷◌, ◌++◌, length, length-append, arith, ◌==◌,
}
use lookout.Common.Text.{Text, show, show_digits}
use lookout.Fwctl.Lists.{text_ltb}
use lookout.Bench.Logs.Digits.{show_one, show_digits-append}
use lookout.Bench.Clients.Probe.{hundredths}

-- As long, and first in the order.
abbrev pub Below : Text → Text → Type 0
Below s t = (length s ≡ length t) × (text_ltb s t ≡ true)

Below-append : (s t u v : Text) → Below s t → text_ltb (s ++ u) (t ++ v) ≡ true
unfolding text_ltb
Below-append s [] u v (n, h) = ground (arith, h)
Below-append [] (y ∷ t) u v (n, h) = ground (arith, n)
Below-append (x ∷ s) (y ∷ t) u v (n, h) = elim (Bool-cases (x == y)) [
  | inl e ↦ rw (e) (Below-append s t u v (omega (arith, n), ground (arith, h, e)))
  | inr e ↦ rw (e) (ground (arith, h, e))
]

same_start : (s u v : Text) → text_ltb (s ++ u) (s ++ v) ≡ text_ltb u v
unfolding text_ltb
same_start [] u v = refl
same_start (x ∷ s) u v = ground (arith, same_start s u v)

-- More rounds than digits make no difference.
show_digits-rounds :
    (f g n : ℕ) (acc : Text) → n < f → n < g → show_digits f n acc ≡ show_digits g n acc
unfolding show_digits
show_digits-rounds zero g n acc h k = ground (arith, h)
show_digits-rounds (suc f) zero n acc h k = ground (arith, k)
show_digits-rounds (suc f) (suc g) n acc h k = elim (Bool-cases (n / 10 == 0)) [
  | inl e ↦ rw (e) refl
  | inr e ↦ rw (e) (
      show_digits-rounds f g (n / 10) ((n % 10 + b'0') ∷ acc) (ground (arith, e, h))
        (ground (arith, e, k)))
]

show-last : (n : ℕ) → 10 ≤ n → show n ≡ show (n / 10) ++ (n % 10 + b'0') ∷ []
unfolding show show_digits
show-last n h =
    let more : (n / 10 == 0) ≡ false = ground (arith, h) in
    rw (more) (
      show_digits-append n (n / 10) [] ((n % 10 + b'0') ∷ [])
      ∙ ap (λ s. s ++ (n % 10 + b'0') ∷ [])
          (show_digits-rounds n (suc (n / 10)) (n / 10) [] (omega (arith, h)) (omega arith)))

abbrev pub tens : ℕ → ℕ
tens zero = 1
tens (suc d) = 10 * tens d

tens-pos : (d : ℕ) → 1 ≤ tens d
tens-pos zero = omega arith
tens-pos (suc d) = omega (arith, tens-pos d)

length-show : (d n : ℕ) → tens d ≤ n → n < tens (suc d) → length (show n) ≡ suc d
length-show zero n h k = rw (show_one n (omega (arith, k))) refl
length-show (suc d) n h k =
    let big : 10 ≤ n = omega (arith, h, tens-pos d) in
    ap length (show-last n big)
    ∙ length-append (show (n / 10)) ((n % 10 + b'0') ∷ [])
    ∙ ap (λ l. l + 1) (length-show d (n / 10) (omega (arith, h)) (omega (arith, k)))
    ∙ omega arith

one_digit : (m n : ℕ) → m < n → text_ltb ((m + b'0') ∷ []) ((n + b'0') ∷ []) ≡ true
unfolding text_ltb
one_digit m n less = ground (arith, less)

show-ltb : (d m n : ℕ) → tens d ≤ m → m < n → n < tens (suc d) → text_ltb (show m) (show n) ≡ true
show-ltb zero m n h less k =
    rw (show_one m (omega (arith, less, k)), show_one n (omega (arith, k))) (one_digit m n less)
show-ltb (suc d) m n h less k =
    let low : 10 ≤ m = omega (arith, h, tens-pos d) in
    let high : 10 ≤ n = omega (arith, low, less) in
    rw (show-last m low, show-last n high)
      (elim (Bool-cases (m / 10 == n / 10)) [
        | inl e ↦
            let same : m / 10 ≡ n / 10 = ground (arith, e) in
            rw (same) (
              same_start (show (n / 10)) _ _
              ∙ one_digit (m % 10) (n % 10) (omega (arith, less, same)))
        | inr e ↦
            let before : m / 10 < n / 10 = ground (arith, e, less) in
            let low_tens : tens d ≤ m / 10 = omega (arith, h) in
            let high_tens : n / 10 < tens (suc d) = omega (arith, k) in
            Below-append (show (m / 10)) (show (n / 10)) _ _ (
              length-show d (m / 10) low_tens (omega (arith, before, high_tens))
                  ∙ sym (length-show d (n / 10) (omega (arith, before, low_tens)) high_tens),
              show-ltb d (m / 10) (n / 10) low_tens before high_tens,
            )
      ])

pub show-Below : (d m n : ℕ) → tens d ≤ m → m < n → n < tens (suc d) → Below (show m) (show n)
show-Below d m n h less k = (
  length-show d m h (omega (arith, less, k)) ∙ sym (length-show d n (omega (arith, h, less)) k),
  show-ltb d m n h less k,
)

two_digits :
    (h k : ℕ)
    → h < k
    → h / 100 ≡ k / 100
    → text_ltb
        (b'.' ∷ (h / 10 % 10 + b'0') ∷ (h % 10 + b'0') ∷ [])
        (b'.' ∷ (k / 10 % 10 + b'0') ∷ (k % 10 + b'0') ∷ [])
      ≡ true
unfolding text_ltb
two_digits h k less same = elim (Bool-cases (h / 10 == k / 10)) [
  | inl e ↦ ground (arith, less, same, e)
  | inr e ↦ ground (arith, less, same, e)
]

-- Texts of times with the same number of digits before the point are ordered as the times are.
pub hundredths-ltb :
    (d h k : ℕ)
    → tens d ≤ h / 100
    → h < k
    → k / 100 < tens (suc d)
    → text_ltb (hundredths h) (hundredths k) ≡ true
unfolding hundredths
hundredths-ltb d h k low less high = elim (Bool-cases (h / 100 == k / 100)) [
  | inl e ↦
      let same : h / 100 ≡ k / 100 = ground (arith, e) in
      ap
        (λ q.
          text_ltb (show q ++ b'.' ∷ (h / 10 % 10 + b'0') ∷ (h % 10 + b'0') ∷ []) (hundredths k))
        same
      ∙ same_start (show (k / 100)) _ _
      ∙ two_digits h k less same
  | inr e ↦
      Below-append (show (h / 100)) (show (k / 100)) _ _
        (show-Below d (h / 100) (k / 100) low (ground (arith, e, less)) high)
]
