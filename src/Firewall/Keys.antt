-- ===== src/Firewall/Keys.antt =====
-- control/firewall.py: the keys of the maps, from and to texts.
pub mod Ports
pub mod Cidrs
use Prim.Native.String.{String}
use lookout.Common.{
  ℕ, zero, suc, ◌+◌, ◌*◌, ◌/◌, ◌%◌, Bool, true, false, ◌||◌, ◌&&◌, List, [], ◌∷◌, ◌++◌, Option,
  none, some, leb, ◌==◌, if◌then◌else◌,
}
use lookout.Common.Int.{ℤ, pos, negsuc}
use lookout.Common.Exec.{Result, ok, err, value_error, type_error}
use lookout.Common.Text.{Text, codes, show, digits_value, is_digit, text_beq}
use lookout.Firewall.Layout
use lookout.Firewall.Layout.{Bytes, Value, num, bytes, pack, unpack, ◌>>=◌}
use lookout.Firewall.Address.{Network, parse_cidr, packed, inet_ntoa}

unfoldable pub lpm_key : Text → Result Bytes
unfolding pack parse_cidr packed
lpm_key cidr = do
  net ← parse_cidr cidr
  pack Layout.lpm_key (num net.prefixlen ∷ bytes (packed net.address) ∷ [])

show_cidr : List Value → Result Text
show_cidr (num plen ∷ bytes addr ∷ []) = ok (inet_ntoa addr ++ b'/' ∷ show plen)
show_cidr _ = err type_error

unfoldable pub unpack_cidr : Bytes → Result Text
unfolding unpack show_cidr inet_ntoa show
unpack_cidr key = do vs ← unpack Layout.lpm_key key; show_cidr vs

abbrev pub icmp : ℕ
icmp = 1

abbrev pub tcp : ℕ
tcp = 6

abbrev pub udp : ℕ
udp = 17

-- `str.lower` on ASCII
abbrev pub lower_char : ℕ → ℕ
lower_char c = if leb b'A' c && leb c b'Z' then c + 32 else c

unfoldable pub lower : Text → Text
lower [] = []
lower (c ∷ s) = lower_char c ∷ lower s

-- `name.isdigit() and 0 <= int(name) <= 255`, the number
unfoldable pub proto_number : Text → Option ℕ
unfolding digits_value
proto_number [] = none
proto_number (c ∷ s) = elim (digits_value 0 (c ∷ s)) [
  | none ↦ none
  | some n ↦ if leb n 255 then some n else none
]

unfoldable pub parse_proto : Text → Result ℕ
unfolding lower proto_number text_beq
parse_proto name =
    let s = lower name in
    if text_beq s (codes "icmp")
    then ok icmp
    else if text_beq s (codes "tcp")
    then ok tcp
    else if text_beq s (codes "udp")
    then ok udp
    else elim (proto_number s) [ none ↦ err value_error | some n ↦ ok n ]

unfoldable pub proto_name : ℕ → Text
unfolding show
proto_name n =
    if n == icmp
    then codes "icmp"
    else if n == tcp
    then codes "tcp"
    else if n == udp
    then codes "udp"
    else show n

abbrev pub port_limit : ℕ → ℕ
port_limit proto = if proto == icmp then 255 else 65535

-- `0 <= port <= limit`, the number
unfoldable pub port_in_range : ℕ → ℤ → Result ℕ
port_in_range limit (pos n) = if leb n limit then ok n else err value_error
port_in_range limit (negsuc n) = err value_error

unfoldable pub port_key : Text → ℤ → Result Bytes
unfolding parse_proto port_in_range pack
port_key proto port = do
  p ← parse_proto proto
  n ← port_in_range (port_limit p) port
  pack Layout.port_key (num p ∷ num n ∷ [])

-- The features, with their bits.
abbrev pub features : List (Text × ℕ)
features =
    (codes "allowlist", 1)
    ∷ (codes "blocklist", 2)
    ∷ (codes "proto", 4)
    ∷ (codes "ratelimit", 8)
    ∷ (codes "state", 16)
    ∷ (codes "frags", 32)
    ∷ (codes "ports", 64)
    ∷ []

-- `bits & b`, for b a power of two
abbrev pub has_bit : ℕ → ℕ → Bool
has_bit bits b = bits / b % 2 == 1

unfoldable pub named_features : ℕ → List (Text × ℕ) → List Text
named_features bits [] = []
named_features bits ((name, b) ∷ fs) =
    let rest = named_features bits fs in if has_bit bits b then name ∷ rest else rest

-- `" ".join(…) or "(none)"`
unfoldable pub join_words : List Text → Text
join_words [] = codes "(none)"
join_words (w ∷ []) = w
join_words (w ∷ ws) = w ++ b' ' ∷ join_words ws

unfoldable pub describe_features : ℕ → Text
unfolding named_features join_words
describe_features bits = join_words (named_features bits features)
