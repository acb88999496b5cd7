-- ===== src/Firewall/Address/Numerals.antt =====
-- control/firewall.py: the decimal numbers in an address, checked one by one.
use lookout.Common.{
  ℕ, zero, suc, ◌≤◌, ◌<◌, ◌≡◌, refl, Bool, true, false, ◌&&◌, [], ◌∷◌, Option, none, some, ◌==◌,
  arith, if◌then◌else◌, All,
}
use lookout.Common.Text.{Text, show, is_digit}
use lookout.Common.Text.Pieces.{Lacks, IsTight}
use lookout.Common.Exec.{Result, ok, err}
use lookout.Firewall.Address.{octet, parse_prefix}

-- A test of the numbers below a bound, from the greatest down.
passes : (ℕ → Bool) → ℕ → Bool
passes test zero = true
passes test (suc bound) = let smaller = passes test bound in if test bound then smaller else false

passed_at :
    (test : ℕ → Bool) (bound : ℕ) → passes test bound ≡ true → (k : ℕ) → k < bound → test k ≡ true
unfolding passes
passed_at test zero all k lt = elim lt [ ]
passed_at test (suc bound) all k lt = ground (arith, passed_at test bound _ k, all, lt)

digits : Text → Bool
digits [] = true
digits (c ∷ s) = is_digit c && digits s

abbrev IsDigits : Text → Type 0
IsDigits s = All (λ c. is_digit c ≡ true) s

digits-IsDigits : (s : Text) → digits s ≡ true → IsDigits s
unfolding digits
digits-IsDigits [] h = tt
digits-IsDigits (c ∷ s) h = (ground arith, digits-IsDigits s (ground arith))

abbrev is_some : ℕ → Option ℕ → Bool
is_some n none = false
is_some n (some k) = k == n

is_some-eq : (n : ℕ) (o : Option ℕ) → is_some n o ≡ true → o ≡ some n
is_some-eq n none h = ground arith
is_some-eq n (some k) h = ground arith

abbrev is_ok : ℕ → Result ℕ → Bool
is_ok n (err c) = false
is_ok n (ok k) = k == n

is_ok-eq : (n : ℕ) (r : Result ℕ) → is_ok n r ≡ true → r ≡ ok n
is_ok-eq n (err c) h = ground arith
is_ok-eq n (ok k) h = ground arith

octets : passes (λ n. is_some n (octet (show n))) 256 ≡ true
unfolding passes octet show
octets = refl

numerals : passes (λ n. digits (show n)) 256 ≡ true
unfolding passes show digits
numerals = refl

prefixes : passes (λ n. is_ok n (parse_prefix (show n))) 33 ≡ true
unfolding passes show parse_prefix
prefixes = refl

pub octet-show : (n : ℕ) → n < 256 → octet (show n) ≡ some n
octet-show n h = is_some-eq n (octet (show n)) (passed_at _ 256 octets n h)

pub parse_prefix-show : (n : ℕ) → n ≤ 32 → parse_prefix (show n) ≡ ok n
parse_prefix-show n h = is_ok-eq n (parse_prefix (show n)) (passed_at _ 33 prefixes n (omega arith))

show-IsDigits : (n : ℕ) → n < 256 → IsDigits (show n)
show-IsDigits n h = digits-IsDigits (show n) (passed_at (λ k. digits (show k)) 256 numerals n h)

IsDigits-Lacks : (c : ℕ) (s : Text) → is_digit c ≡ false → IsDigits s → Lacks c s
IsDigits-Lacks c [] f h = tt
IsDigits-Lacks c (x ∷ s) f h = (ground arith, IsDigits-Lacks c s f h.1)

IsDigits-IsTight : (s : Text) → IsDigits s → IsTight s
IsDigits-IsTight [] h = tt
IsDigits-IsTight (x ∷ s) h = (ground arith, IsDigits-IsTight s h.1)

pub show-Lacks : (c n : ℕ) → is_digit c ≡ false → n < 256 → Lacks c (show n)
show-Lacks c n f h = IsDigits-Lacks c (show n) f (show-IsDigits n h)

pub show-IsTight : (n : ℕ) → n < 256 → IsTight (show n)
show-IsTight n h = IsDigits-IsTight (show n) (show-IsDigits n h)
