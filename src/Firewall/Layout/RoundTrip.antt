-- ===== src/Firewall/Layout/RoundTrip.antt =====
-- control/firewall.py: what the formats pack, they unpack.
use lookout.Common.{
  ℕ, zero, suc, ◌/◌, ◌^◌, ◌<◌, ◌≡◌, refl, ap, true, List, [], ◌∷◌, ◌++◌, take, drop, length,
  length-append, ltb, arith, ◌==◌,
}
use lookout.Common.Exec.{ok}
use lookout.Firewall.Layout.{
  Bytes, u, pad, raw, Value, num, bytes, Format, calcsize, le_bytes, of_le, zero_bytes, pack,
  unpack, unpack_fields,
}

-- The values are those that the format asks for: a number that fits its width, bytes of its length.
abbrev pub Fits : Format → List Value → Type 0
Fits [] [] = Unit
Fits [] (v ∷ vs) = ⊥
Fits (pad n ∷ fs) vs = Fits fs vs
Fits (u w ∷ fs) (num x ∷ vs) = (x < 256 ^ w) × Fits fs vs
Fits (raw n ∷ fs) (bytes b ∷ vs) = (length b ≡ n) × Fits fs vs
Fits (f ∷ fs) vs = ⊥

of_le-le_bytes : (w x : ℕ) → x < 256 ^ w → of_le (le_bytes w x) ≡ x
unfolding of_le le_bytes
of_le-le_bytes zero x h = omega arith
of_le-le_bytes (suc w) x h = omega (arith, of_le-le_bytes w (x / 256) (omega arith))

length-le_bytes : (w x : ℕ) → length (le_bytes w x) ≡ w
unfolding le_bytes
length-le_bytes zero x = refl
length-le_bytes (suc w) x = omega (arith, length-le_bytes w (x / 256))

length-zero_bytes : (n : ℕ) → length (zero_bytes n) ≡ n
length-zero_bytes zero = refl
length-zero_bytes (suc n) = omega (arith, length-zero_bytes n)

pub take-append : (n : ℕ) (a b : Bytes) → length a ≡ n → take n (a ++ b) ≡ a
take-append zero [] b h = refl
take-append zero (x ∷ a) b h = ground arith
take-append (suc n) [] b h = ground arith
take-append (suc n) (x ∷ a) b h = ap (λ t. x ∷ t) (take-append n a b (omega arith))

pub drop-append : (n : ℕ) (a b : Bytes) → length a ≡ n → drop n (a ++ b) ≡ b
drop-append zero [] b h = refl
drop-append zero (x ∷ a) b h = ground arith
drop-append (suc n) [] b h = ground arith
drop-append (suc n) (x ∷ a) b h = drop-append n a b (omega arith)

ltb-lt : (x y : ℕ) → x < y → ltb x y ≡ true
ltb-lt x y h = ground arith

abbrev Packs : Format → List Value → Type 0
Packs f vs =
    (bs : Bytes) × (pack f vs ≡ ok bs) × (length bs ≡ calcsize f) × (unpack_fields f bs ≡ vs)

packs : (f : Format) (vs : List Value) → Fits f vs → Packs f vs
unfolding pack unpack_fields
packs [] [] h = ([], refl, refl, refl)
packs [] (v ∷ vs) h = elim h [ ]
packs (pad n ∷ fs) vs h =
    let (bs, packed, size, back) = packs fs vs h in
    (
      zero_bytes n ++ bs,
      rw packed refl,
      omega (arith, length-append (zero_bytes n) bs, length-zero_bytes n),
      rw (drop-append n (zero_bytes n) bs (length-zero_bytes n)) back,
    )
packs (u w ∷ fs) (num x ∷ vs) h =
    let (bs, packed, size, back) = packs fs vs h.1 in
    (
      le_bytes w x ++ bs,
      rw (packed, ltb-lt x (256 ^ w) h.0) refl,
      omega (arith, length-append (le_bytes w x) bs, length-le_bytes w x),
      rw
          (
            take-append w (le_bytes w x) bs (length-le_bytes w x),
            drop-append w (le_bytes w x) bs (length-le_bytes w x),
            of_le-le_bytes w x h.0,
            back,
          )
          refl,
    )
packs (u w ∷ fs) [] h = elim h [ ]
packs (u w ∷ fs) (bytes b ∷ vs) h = elim h [ ]
packs (raw n ∷ fs) (bytes b ∷ vs) h =
    let (bs, packed, size, back) = packs fs vs h.1 in
    (
      b ++ bs,
      rw (packed, take-append n b (zero_bytes n) h.0) refl,
      omega (arith, length-append b bs, h.0),
      rw (take-append n b bs h.0, drop-append n b bs h.0, back) refl,
    )
packs (raw n ∷ fs) [] h = elim h [ ]
packs (raw n ∷ fs) (num x ∷ vs) h = elim h [ ]

beq_same : (a b : ℕ) → a ≡ b → (a == b) ≡ true
beq_same a b h = ground arith

-- Values that fit a format are packed into as many bytes as the format takes, and unpacking these
-- gives the values back.
pub unpack-pack :
    (f : Format) (vs : List Value)
    → Fits f vs
    → (bs : Bytes) × (pack f vs ≡ ok bs) × (length bs ≡ calcsize f) × (unpack f bs ≡ ok vs)
unfolding unpack
unpack-pack f vs h =
    let (bs, packed, size, back) = packs f vs h in
    (bs, packed, size, rw (beq_same (length bs) (calcsize f) size, back) refl)
