-- ===== src/Firewall/Keys/Ports.antt =====
-- control/firewall.py, `port_key`: which ports have a key.
use lookout.Common.{
  ℕ, ◌≤◌, ◌<◌, ◌≡◌, ◌⊎◌, inl, inr, refl, true, [], ◌∷◌, some, Bool-cases, leb, arith,
}
use lookout.Common.Int.{ℤ, pos, negsuc}
use lookout.Common.Text.{Text}
use lookout.Common.Exec.{ok, err, value_error}
use lookout.Firewall.Layout
use lookout.Firewall.Layout.{Bytes, num, pack, unpack, ◌>>=◌}
use lookout.Firewall.Layout.RoundTrip.{unpack-pack}
use lookout.Firewall.Keys.{port_key, parse_proto, port_in_range, port_limit, proto_number, lower}

proto_number-le : (s : Text) (n : ℕ) → proto_number s ≡ some n → n ≤ 255
unfolding proto_number
proto_number-le [] n h = ground arith
proto_number-le (c ∷ s) n h = ground arith

pub parse_proto-le : (name : Text) (p : ℕ) → parse_proto name ≡ ok p → p ≤ 255
unfolding parse_proto
parse_proto-le name p h = ground (arith, proto_number-le (lower name) p)

-- What a port that is in range gets: a key that gives it back with its protocol.
abbrev pub HasKey : Text → ℤ → ℕ → Type 0
HasKey proto port p =
    (n : ℕ) × (port ≡ pos n)
    × (n ≤ port_limit p)
    × ((key : Bytes) × (port_key proto port ≡ ok key)
        × (unpack Layout.port_key key ≡ ok (num p ∷ num n ∷ [])))

pub port_limit-le : (p : ℕ) → port_limit p ≤ 65535
port_limit-le p = ground arith

in_range :
    (proto : Text) (n p : ℕ) → parse_proto proto ≡ ok p → n ≤ port_limit p → HasKey proto (pos n) p
unfolding port_key port_in_range
in_range proto n p h le =
    let bound = parse_proto-le proto p h in
    let small = port_limit-le p in
    let (key, packed, size, back) =
      unpack-pack Layout.port_key (num p ∷ num n ∷ []) (omega arith, (omega arith, tt)) in
    let fits : leb n (port_limit p) ≡ true = ground arith in
    (n, refl, le, (key, rw (h, fits) packed, back))

-- With a protocol that is understood, a port has a key if it lies between 0 and the protocol's
-- limit, and the key unpacks to the protocol and the port; any other port is a `ValueError`.
pub port_key-HasKey :
    (proto : Text) (port : ℤ) (p : ℕ)
    → parse_proto proto ≡ ok p
    → HasKey proto port p
      ⊎ (((n : ℕ) → port ≡ pos n → port_limit p < n) × (port_key proto port ≡ err value_error))
unfolding port_key port_in_range
port_key-HasKey proto (pos n) p h = elim (Bool-cases (leb n (port_limit p))) [
  | inl fits ↦ inl (in_range proto n p h (ground arith))
  | inr out ↦ inr ((λ k e. ground arith), rw (h, out) refl)
]
port_key-HasKey proto (negsuc n) p h = inr ((λ k e. ground arith), rw h refl)
