-- ===== src/Firewall/Keys/Cidrs.antt =====
-- control/firewall.py: `lpm_key` and `unpack_cidr`, from text to key and back.
use lookout.Common.{ℕ, ◌≡◌, refl, [], ◌∷◌, arith, length}
use lookout.Common.Text.{Text}
use lookout.Common.Exec.{ok}
use lookout.Firewall.Layout
use lookout.Firewall.Layout.{Bytes, num, bytes, pack, unpack}
use lookout.Firewall.Layout.RoundTrip.{unpack-pack}
use lookout.Firewall.Address.{Network, parse_cidr, packed}
use lookout.Firewall.Address.RoundTrip.{show_network, parse-show}
use lookout.Firewall.Address.Ranges.{parse_cidr-IsNetwork}
use lookout.Firewall.Keys.{lpm_key, unpack_cidr}

length-packed : (a : ℕ) → length (packed a) ≡ 4
unfolding packed
length-packed a = refl

-- A text that is read as a network has a key of eight bytes; the key prints as the network, with its
-- host bits cleared and the prefix length after a slash; and this text has the same key.
pub lpm_key-show :
    (cidr : Text) (n : Network)
    → parse_cidr cidr ≡ ok n
    → (key : Bytes) × (lpm_key cidr ≡ ok key)
      × (length key ≡ 8)
      × (unpack_cidr key ≡ ok (show_network n))
      × (lpm_key (show_network n) ≡ ok key)
unfolding lpm_key unpack_cidr
lpm_key-show cidr n h =
    let v = parse_cidr-IsNetwork cidr n h in
    let (key, made, size, back) =
      unpack-pack Layout.lpm_key (num n.prefixlen ∷ bytes (packed n.address) ∷ [])
        (omega (arith, v.prefixed), (length-packed n.address, tt)) in
    (key, rw h made, size, rw back refl, rw (parse-show n v) made)
