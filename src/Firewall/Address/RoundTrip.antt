-- ===== src/Firewall/Address/RoundTrip.antt =====
-- control/firewall.py: the prefixes that `unpack_cidr` prints are read back by `parse_cidr`.
use native.Mathlib.Nat.{mul-div_cancel}
use lookout.Common.{
  ℕ, zero, suc, ◌+◌, ◌-◌, ◌*◌, ◌/◌, ◌%◌, ◌^◌, ◌≤◌, ◌<◌, ◌≡◌, refl, ap, ◌∙◌, false, [], ◌∷◌, ◌++◌,
  arith, All, ◌==◌,
}
use lookout.Common.Text.{Text, show, split, is_space}
use lookout.Common.Text.Pieces.{Lacks, IsTight, split-lacking, split-join, strip-tight, All-++}
use lookout.Common.Exec.{ok}
use lookout.Firewall.Address.{
  Network, parse_octets, parse_address, parse_parts, parse_cidr, packed, inet_ntoa, network,
}
use lookout.Firewall.Address.Numerals.{octet-show, parse_prefix-show, show-Lacks, show-IsTight}

-- An address of 32 bits, with no bit set after the prefix.
pub record IsNetwork (n : Network) : Type 0 where
  pub short : n.address < 4294967296
  pub prefixed : n.prefixlen ≤ 32
  pub block : ℕ
  pub aligned : n.address ≡ block * 2 ^ (32 - n.prefixlen)

-- The four bytes, with dots.
abbrev dotted : ℕ → ℕ → ℕ → ℕ → Text
dotted a b c d = show a ++ b'.' ∷ (show b ++ b'.' ∷ (show c ++ b'.' ∷ show d))

-- `f"{address}/{prefixlen}"`
abbrev pub show_network : Network → Text
show_network n = inet_ntoa (packed n.address) ++ b'/' ∷ show n.prefixlen

module _ (a b c d : ℕ) (ha : a < 256) (hb : b < 256) (hc : c < 256) (hd : d < 256) where
  split-dotted : split b'.' (dotted a b c d) ≡ (show a, show b ∷ show c ∷ show d ∷ [])
  split-dotted =
      rw
        (
          split-join b'.' (show a) (show b ++ b'.' ∷ (show c ++ b'.' ∷ show d))
              (show-Lacks b'.' a refl ha),
          split-join b'.' (show b) (show c ++ b'.' ∷ show d) (show-Lacks b'.' b refl hb),
          split-join b'.' (show c) (show d) (show-Lacks b'.' c refl hc),
          split-lacking b'.' (show d) (show-Lacks b'.' d refl hd),
        )
        refl

  parse_address-dotted : parse_address (dotted a b c d) ≡ ok (((a * 256 + b) * 256 + c) * 256 + d)
  unfolding parse_address parse_octets
  parse_address-dotted =
      rw (split-dotted, octet-show a ha, octet-show b hb, octet-show c hc, octet-show d hd) refl

  dotted-All :
      (P : ℕ → Type 0) → P b'.' → ((n : ℕ) → n < 256 → All P (show n)) → All P (dotted a b c d)
  dotted-All P dot each =
      All-++ P (show a) _ (each a ha) (
        dot,
        All-++ P (show b) _ (each b hb) (dot, All-++ P (show c) _ (each c hc) (dot, each d hd)),
      )

inet_ntoa-dotted : (a b c d : ℕ) → inet_ntoa (a ∷ b ∷ c ∷ d ∷ []) ≡ dotted a b c d
unfolding inet_ntoa
inet_ntoa-dotted a b c d = refl

recompose :
    (a : ℕ)
    → a < 4294967296
    → ((a / 16777216 % 256 * 256 + a / 65536 % 256) * 256 + a / 256 % 256) * 256 + a % 256 ≡ a
recompose a h = omega arith

pow_pos : (k : ℕ) → 0 < 2 ^ k
pow_pos zero = omega arith
pow_pos (suc k) = omega (arith, pow_pos k)

same_block : (b m a : ℕ) → 0 < m → a ≡ b * m → a / m * m ≡ a
same_block b m a h e = rw e (ap (λ t. t * m) (mul-div_cancel b h))

network-aligned : (n : Network) → IsNetwork n → network n.address n.prefixlen ≡ n
unfolding network
network-aligned n v =
    ap (λ t. record { address = t; prefixlen = n.prefixlen })
      (same_block v.block (2 ^ (32 - n.prefixlen)) n.address (pow_pos (32 - n.prefixlen)) v.aligned)

module _ (n : Network) (v : IsNetwork n) where
  abbrev w : ℕ
  w = n.address / 16777216 % 256

  abbrev x : ℕ
  x = n.address / 65536 % 256

  abbrev y : ℕ
  y = n.address / 256 % 256

  abbrev z : ℕ
  z = n.address % 256

  show_network-dotted : show_network n ≡ dotted w x y z ++ b'/' ∷ show n.prefixlen
  unfolding packed
  show_network-dotted = rw (inet_ntoa-dotted w x y z) refl

  address_back : parse_address (dotted w x y z) ≡ ok n.address
  address_back =
      parse_address-dotted w x y z (omega arith) (omega arith) (omega arith) (omega arith)
      ∙ ap ok (recompose n.address v.short)

  slash_free : Lacks b'/' (dotted w x y z)
  slash_free =
      dotted-All w x y z (omega arith) (omega arith) (omega arith) (omega arith)
        (λ c. (c == b'/') ≡ false) refl (λ k h. show-Lacks b'/' k refl h)

  tight : IsTight (show_network n)
  tight = rw show_network-dotted (
      All-++ (λ c. is_space c ≡ false) (dotted w x y z) (b'/' ∷ show n.prefixlen)
        (dotted-All w x y z (omega arith) (omega arith) (omega arith) (omega arith)
          (λ c. is_space c ≡ false) refl show-IsTight)
        (refl, show-IsTight n.prefixlen (omega (arith, v.prefixed))))

  pieces : split b'/' (show_network n) ≡ (dotted w x y z, show n.prefixlen ∷ [])
  pieces =
      rw
        (
          show_network-dotted,
          split-join b'/' (dotted w x y z) (show n.prefixlen) slash_free,
          split-lacking b'/' (show n.prefixlen)
              (show-Lacks b'/' n.prefixlen refl (omega (arith, v.prefixed))),
        )
        refl

  -- A network is read back from its text.
  pub parse-show : parse_cidr (show_network n) ≡ ok n
  unfolding parse_cidr parse_parts
  parse-show =
      rw
        (
          strip-tight (show_network n) tight,
          pieces,
          address_back,
          parse_prefix-show n.prefixlen v.prefixed,
        )
        (ap ok (network-aligned n v))
