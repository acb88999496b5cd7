-- ===== src/Firewall/Address.antt =====
-- control/firewall.py, `parse_cidr`: the texts that `ipaddress.IPv4Network(…, strict=False)` takes.
pub mod Numerals
pub mod RoundTrip
pub mod Ranges
use lookout.Common.{
  ℕ, zero, suc, ◌+◌, ◌-◌, ◌*◌, ◌/◌, ◌%◌, ◌^◌, false, ◌||◌, List, [], ◌∷◌, ◌++◌, Option, none, some,
  leb, ltb, ◌==◌, ◌&&◌, if◌then◌else◌, length,
}
use lookout.Common.Exec.{Result, ok, err, value_error}
use lookout.Common.Text.{Text, split, strip, show, digits_value}
use lookout.Firewall.Layout.{Bytes, ◌>>=◌}

-- `network_address` as a number, the first byte the highest, and `prefixlen`.
pub record Network : Type 0 where
  pub address : ℕ
  pub prefixlen : ℕ

-- One of the four numbers of an address: one to three digits, no zero in front, at most 255.
unfoldable pub octet : Text → Option ℕ
unfolding digits_value
octet s =
    if length s == 0
      || ltb 3 (length s)
      || elim s [ [] ↦ false | c ∷ r ↦ c == b'0' && ltb 0 (length r) ]
    then none
    else elim (digits_value 0 s) [ none ↦ none | some n ↦ if leb n 255 then some n else none ]

abbrev pub or_value_error : {A : Type 0} → Option A → Result A
or_value_error none = err value_error
or_value_error (some a) = ok a

unfoldable pub parse_octets : List Text → Result ℕ
unfolding octet
parse_octets (a ∷ b ∷ c ∷ d ∷ []) = do
  w ← or_value_error (octet a)
  x ← or_value_error (octet b)
  y ← or_value_error (octet c)
  z ← or_value_error (octet d)
  ok (((w * 256 + x) * 256 + y) * 256 + z)
parse_octets _ = err value_error

unfoldable pub parse_address : Text → Result ℕ
unfolding parse_octets split
parse_address s = let (first, others) = split b'.' s in parse_octets (first ∷ others)

-- The netmask with `p` ones.
abbrev pub netmask : ℕ → ℕ
netmask p = 2 ^ 32 - 2 ^ (32 - p)

-- The number of ones of a netmask, tried from `p` down.
unfoldable pub mask_length : ℕ → ℕ → Option ℕ
mask_length zero m = if m == 0 then some 0 else none
mask_length (suc p) m =
    let rest = mask_length p m in if m == netmask (suc p) then some (suc p) else rest

abbrev pub or_try : Option ℕ → Option ℕ → Option ℕ
or_try (some p) q = some p
or_try none q = q

-- A netmask, or else a host mask.
unfoldable pub parse_mask : Text → Result ℕ
unfolding parse_address mask_length
parse_mask s = do
  m ← parse_address s
  or_value_error (or_try (mask_length 32 m) (mask_length 32 (2 ^ 32 - 1 - m)))

-- What follows the slash: a number, or a mask.
unfoldable pub parse_prefix : Text → Result ℕ
unfolding parse_mask digits_value
parse_prefix [] = err value_error
parse_prefix (c ∷ s) = elim (digits_value 0 (c ∷ s)) [
  | some p ↦ if leb p 32 then ok p else err value_error
  | none ↦ parse_mask (c ∷ s)
]

-- The host bits are cleared.
unfoldable pub network : ℕ → ℕ → Network
network a p = record { address = a / 2 ^ (32 - p) * 2 ^ (32 - p); prefixlen = p }

unfoldable pub parse_parts : Text → List Text → Result Network
unfolding parse_address parse_prefix network
parse_parts addr [] = do a ← parse_address addr; ok (network a 32)
parse_parts addr (mask ∷ []) = do a ← parse_address addr; p ← parse_prefix mask; ok (network a p)
parse_parts addr _ = err value_error

unfoldable pub parse_cidr : Text → Result Network
unfolding parse_parts strip split
parse_cidr cidr = let (addr, masks) = split b'/' (strip cidr) in parse_parts addr masks

-- `network_address.packed`, in network byte order
unfoldable pub packed : ℕ → Bytes
packed a = (a / 16777216 % 256) ∷ (a / 65536 % 256) ∷ (a / 256 % 256) ∷ (a % 256) ∷ []

-- socket.inet_ntoa
unfoldable pub inet_ntoa : Bytes → Text
unfolding show
inet_ntoa [] = []
inet_ntoa (b ∷ []) = show b
inet_ntoa (b ∷ bs) = show b ++ b'.' ∷ inet_ntoa bs
