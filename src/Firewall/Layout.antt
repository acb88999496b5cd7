-- ===== src/Firewall/Layout.antt =====
-- control/firewall.py: the `struct` formats of the maps' keys and values, little-endian.
pub mod RoundTrip
use lookout.Common.{
  ℕ, zero, suc, ◌+◌, ◌*◌, ◌/◌, ◌%◌, ◌^◌, List, [], ◌∷◌, ◌++◌, take, drop, length, ltb, ◌==◌,
  if◌then◌else◌,
}
use lookout.Common.Exec.{Result, ok, err, struct_error}

abbrev pub Bytes : Type 0
Bytes = List ℕ

-- One item of a format: an unsigned number of some bytes (B, H, I, Q), padding (x), raw bytes (4s).
pub data Field : Type 0 where
  u : ℕ → Field
  pad : ℕ → Field
  raw : ℕ → Field

pub data Value : Type 0 where
  num : ℕ → Value
  bytes : Bytes → Value

abbrev pub Format : Type 0
Format = List Field

-- prefixlen, addr
abbrev pub lpm_key : Format
lpm_key = u 4 ∷ raw 4 ∷ []

-- hits, flags, pad
abbrev pub allow_val : Format
allow_val = u 8 ∷ u 4 ∷ u 4 ∷ []

-- expires_ns, hits, reason, pad
abbrev pub block_val : Format
block_val = u 8 ∷ u 8 ∷ u 4 ∷ u 4 ∷ []

-- proto, pad, port
abbrev pub port_key : Format
port_key = u 1 ∷ pad 1 ∷ u 2 ∷ []

-- hits, action, pad
abbrev pub port_val : Format
port_val = u 8 ∷ u 4 ∷ u 4 ∷ []

abbrev pub src_key : Format
src_key = raw 4 ∷ []

-- lock, pad, and the twelve counters
abbrev pub src_state : Format
src_state = u 4 ∷ pad 4 ∷ u 8 ∷ u 8 ∷ u 8 ∷ u 8 ∷ u 8 ∷ u 8 ∷ u 8 ∷ u 8 ∷ u 8 ∷ u 8 ∷ u 8 ∷ u 8 ∷ []

-- rate_pps, burst_pkts, features, aggressiveness, policy, pad
abbrev pub config : Format
config = u 8 ∷ u 8 ∷ u 4 ∷ u 4 ∷ u 4 ∷ u 4 ∷ []

abbrev pub index : Format
index = u 4 ∷ []

abbrev pub field_size : Field → ℕ
field_size (u w) = w
field_size (pad n) = n
field_size (raw n) = n

-- struct.calcsize
abbrev pub calcsize : Format → ℕ
calcsize [] = 0
calcsize (f ∷ fs) = field_size f + calcsize fs

-- The `n` low bytes of a number, the lowest first.
unfoldable pub le_bytes : ℕ → ℕ → Bytes
le_bytes zero x = []
le_bytes (suc n) x = (x % 256) ∷ le_bytes n (x / 256)

unfoldable pub of_le : Bytes → ℕ
of_le [] = 0
of_le (b ∷ bs) = b + 256 * of_le bs

abbrev pub zero_bytes : ℕ → Bytes
zero_bytes zero = []
zero_bytes (suc n) = 0 ∷ zero_bytes n

infixl 10 ◌>>=◌
abbrev pub ◌>>=◌ : {A B : Type 0} → Result A → (A → Result B) → Result B
ok a >>= f = f a
err c >>= f = err c

-- struct.pack
unfoldable pub pack : Format → List Value → Result Bytes
unfolding le_bytes
pack [] [] = ok []
pack [] (v ∷ vs) = err struct_error
pack (pad n ∷ fs) vs = do rest ← pack fs vs; ok (zero_bytes n ++ rest)
pack (u w ∷ fs) (num x ∷ vs) = do
  rest ← pack fs vs
  if ltb x (256 ^ w) then ok (le_bytes w x ++ rest) else err struct_error
pack (raw n ∷ fs) (bytes b ∷ vs) = do rest ← pack fs vs; ok (take n (b ++ zero_bytes n) ++ rest)
pack (f ∷ fs) vs = err struct_error

-- struct.unpack: the length must fit.
unfoldable pub unpack_fields : Format → Bytes → List Value
unfolding of_le
unpack_fields [] bs = []
unpack_fields (pad n ∷ fs) bs = unpack_fields fs (drop n bs)
unpack_fields (u w ∷ fs) bs = num (of_le (take w bs)) ∷ unpack_fields fs (drop w bs)
unpack_fields (raw n ∷ fs) bs = bytes (take n bs) ∷ unpack_fields fs (drop n bs)

unfoldable pub unpack : Format → Bytes → Result (List Value)
unfolding unpack_fields
unpack f bs = if length bs == calcsize f then ok (unpack_fields f bs) else err struct_error
