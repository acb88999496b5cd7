-- ===== src/Firewall/Address/Ranges.antt =====
-- control/firewall.py, `parse_cidr`: what it reads is a network.
use mathlib.Core.Path.{subst, ◌∙◌}
use native.Mathlib.Nat.{div-mul-le_self}
use lookout.Common.{
  ℕ, zero, suc, ◌-◌, ◌/◌, ◌^◌, ◌≤◌, ◌<◌, ◌≡◌, refl, List, [], ◌∷◌, Option, none, some, arith,
  Option-cases, inl, inr, leb, if◌then◌else◌,
}
use lookout.Common.Text.{Text, split, strip, digits_value}
use lookout.Common.Exec.{Result, ok, err, value_error}
use lookout.Firewall.Layout.{◌>>=◌}
use lookout.Firewall.Address.{
  Network, octet, parse_octets, parse_address, parse_parts, parse_cidr, network, parse_prefix,
  parse_mask, mask_length, or_try, or_value_error,
}
use lookout.Firewall.Address.RoundTrip.{IsNetwork}

octet-le : (s : Text) (n : ℕ) → octet s ≡ some n → n ≤ 255
unfolding octet
octet-le s n h = ground arith

some_octet : (s : Text) (n : ℕ) → or_value_error (octet s) ≡ ok n → n ≤ 255
some_octet s n h = elim (Option-cases (octet s)) [
  | inl e ↦ ground arith
  | inr (k, e) ↦ ground (arith, octet-le s k e)
]

bind-ok :
    {A B : Type 0} (r : Result A) (f : A → Result B) (b : B)
    → (r >>= f) ≡ ok b
    → (a : A) × (r ≡ ok a) × (f a ≡ ok b)
bind-ok (ok a) f b h = (a, refl, h)
bind-ok (err c) f b h = ground arith

parse_octets-lt : (s : List Text) (a : ℕ) → parse_octets s ≡ ok a → a < 4294967296
unfolding parse_octets
parse_octets-lt [] n h = ground arith
parse_octets-lt (a ∷ []) n h = ground arith
parse_octets-lt (a ∷ b ∷ []) n h = ground arith
parse_octets-lt (a ∷ b ∷ c ∷ []) n h = ground arith
parse_octets-lt (a ∷ b ∷ c ∷ d ∷ []) n h =
    let (w, e, h) = bind-ok (or_value_error (octet a)) _ n h in
    let (x, f, h) = bind-ok (or_value_error (octet b)) _ n h in
    let (y, g, h) = bind-ok (or_value_error (octet c)) _ n h in
    let (z, i, h) = bind-ok (or_value_error (octet d)) _ n h in
    ground (arith, some_octet a w e, some_octet b x f, some_octet c y g, some_octet d z i)
parse_octets-lt (a ∷ b ∷ c ∷ d ∷ e ∷ s) n h = ground arith

parse_address-lt : (s : Text) (a : ℕ) → parse_address s ≡ ok a → a < 4294967296
unfolding parse_address
parse_address-lt s a h = parse_octets-lt ((split b'.' s).0 ∷ (split b'.' s).1) a h

mask_length-le : (k m p : ℕ) → mask_length k m ≡ some p → p ≤ k
unfolding mask_length
mask_length-le zero m p h = ground arith
mask_length-le (suc k) m p h = ground (arith, mask_length-le k m p)

try-le : (k m m' p : ℕ) → or_try (mask_length k m) (mask_length k m') ≡ some p → p ≤ k
try-le k m m' p h = elim (Option-cases (mask_length k m)) [
  | inl e ↦ mask_length-le k m' p (rw e at h)
  | inr (q, e) ↦ mask_length-le k m p (e ∙ rw e at h)
]

some_mask-le : (o : Option ℕ) (p : ℕ) → or_value_error o ≡ ok p → (o ≡ some p → p ≤ 32) → p ≤ 32
some_mask-le none p h k = ground arith
some_mask-le (some q) p h k = k (ground arith)

parse_mask-le : (s : Text) (p : ℕ) → parse_mask s ≡ ok p → p ≤ 32
unfolding parse_mask
parse_mask-le s p h =
    let (m, e, k) = bind-ok (parse_address s) _ p h in
    some_mask-le _ p k (try-le 32 m (2 ^ 32 - 1 - m) p)

small : (k p : ℕ) → (if leb k 32 then ok k else err value_error) ≡ ok p → p ≤ 32
small k p h = ground arith

prefix_on-le :
    (o : Option ℕ) (s : Text) (p : ℕ)
    → elim o [ some k ↦ if leb k 32 then ok k else err value_error | none ↦ parse_mask s ] ≡ ok p
    → p ≤ 32
prefix_on-le none s p h = parse_mask-le s p h
prefix_on-le (some k) s p h = small k p h

parse_prefix-le : (s : Text) (p : ℕ) → parse_prefix s ≡ ok p → p ≤ 32
unfolding parse_prefix
parse_prefix-le [] p h = ground arith
parse_prefix-le (c ∷ s) p h = prefix_on-le (digits_value 0 (c ∷ s)) (c ∷ s) p h

network-IsNetwork : (a p : ℕ) → a < 4294967296 → p ≤ 32 → IsNetwork (network a p)
unfolding network
network-IsNetwork a p h k = record {
  short = omega (arith, div-mul-le_self a (2 ^ (32 - p)));
  prefixed = k;
  block = a / 2 ^ (32 - p);
  aligned = refl;
}

ok-inj : (m n : Network) → ok m ≡ ok n → m ≡ n
ok-inj m n h = cc

same : (n m : Network) → ok m ≡ ok n → IsNetwork m → IsNetwork n
same n m h v = subst IsNetwork (ok-inj m n h) v

parse_parts-IsNetwork :
    (s : Text) (masks : List Text) (n : Network) → parse_parts s masks ≡ ok n → IsNetwork n
unfolding parse_parts
parse_parts-IsNetwork s [] n h =
    let (a, e, k) = bind-ok (parse_address s) _ n h in
    same n (network a 32) k (network-IsNetwork a 32 (parse_address-lt s a e) (omega arith))
parse_parts-IsNetwork s (mask ∷ []) n h =
    let (a, e, k) = bind-ok (parse_address s) _ n h in
    let (p, f, g) = bind-ok (parse_prefix mask) _ n k in
    same n (network a p) g
      (network-IsNetwork a p (parse_address-lt s a e) (parse_prefix-le mask p f))
parse_parts-IsNetwork s (mask ∷ other ∷ masks) n h = ground arith

-- A text that is read gives an address of 32 bits and a prefix length of at most 32, with no bit set
-- after the prefix.
pub parse_cidr-IsNetwork : (cidr : Text) (n : Network) → parse_cidr cidr ≡ ok n → IsNetwork n
unfolding parse_cidr
parse_cidr-IsNetwork cidr n h =
    parse_parts-IsNetwork (split b'/' (strip cidr)).0 (split b'/' (strip cidr)).1 n h
