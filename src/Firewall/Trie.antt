-- ===== src/Firewall/Trie.antt =====
-- The maps `allowlist` and `blocklist` as control/firewall.py uses them: LPM tries of the kernel,
-- by their documented behaviour.
use lookout.Common.{
  ℕ, zero, suc, ◌≡◌, ◌↔◌, ◌⊎◌, Bool, true, ◌&&◌, ◌++◌, refl, ltb, ◌≤◌, ◌^◌, Option, none, some,
  ◌==◌, arith, Eq,
}
use lookout.Common.Dict.{Dict, lookup, insert, erase}
use lookout.Common.Text.{Text}
use lookout.Common.Exec.{ok}
use lookout.Firewall.Layout.{Bytes, le_bytes, pack}
use lookout.Firewall.Address.{Network, network, packed, parse_cidr}
use lookout.Firewall.Address.RoundTrip.{IsNetwork}
use lookout.Firewall.Keys.{lpm_key}
use lookout.Bpf.Kernel.{Kernel, Reply, done, fail, enoent}
use lookout.Bpf.Map.{bpf_any}

abbrev pub network_beq : Network → Network → Bool
network_beq m n = m.address == n.address && m.prefixlen == n.prefixlen

pub network_beq_iff : (m n : Network) → (network_beq m n ≡ true) ↔ (m ≡ n)
network_beq_iff m n = ground arith

instance abbrev pub network_eq : Eq Network
network_eq = record { beq = network_beq; beq_iff = network_beq_iff }

-- The key of a network: the prefix length in the machine's order, the address in the network's.
abbrev pub key_of : Network → Bytes
key_of n = le_bytes 4 n.prefixlen ++ packed n.address

small : (p : ℕ) → p ≤ 32 → ltb p (256 ^ 4) ≡ true
small p h = ground arith

pub lpm_key-key_of :
    (cidr : Text) (n : Network)
    → parse_cidr cidr ≡ ok n
    → IsNetwork n
    → lpm_key cidr ≡ ok (key_of n)
unfolding lpm_key pack
lpm_key-key_of cidr n h v =
    let fits : ltb n.prefixlen (256 ^ 4) ≡ true = small n.prefixlen v.prefixed in rw (h, fits) refl

-- The entry for the longest prefix of an address, of at most `p` bits.
unfoldable pub longest : ℕ → ℕ → Dict Network Bytes → Option Bytes
longest zero a d = lookup (network a 0) d
longest (suc p) a d = elim (lookup (network a (suc p)) d) [ some v ↦ some v | none ↦ longest p a d ]

abbrev pub reply_of : Option Bytes → Reply Bytes
reply_of none = fail enoent
reply_of (some v) = done v

-- What the kernel does with the trie behind a descriptor; an update may fail, as when it is full.
pub record IsTrie {W : Type 0} (k : Kernel W) (fd : ℕ) (view : W → Dict Network Bytes)
    : Type 0 where
  pub lookups :
      (n : Network) (flags : ℕ) (w : W)
      → IsNetwork n
      → ((k.lookup_elem fd (key_of n) flags w).0
          ≡ reply_of (longest n.prefixlen n.address (view w)))
        × (view (k.lookup_elem fd (key_of n) flags w).1 ≡ view w)
  pub updates :
      (n : Network) (val : Bytes) (w : W)
      → IsNetwork n
      → (((k.update_elem fd (key_of n) val bpf_any w).0 ≡ done tt)
          × (view (k.update_elem fd (key_of n) val bpf_any w).1 ≡ insert n val (view w)))
        ⊎ ((errno : ℕ) × ((k.update_elem fd (key_of n) val bpf_any w).0 ≡ fail errno)
            × (view (k.update_elem fd (key_of n) val bpf_any w).1 ≡ view w))
  pub deletes :
      (n : Network) (w : W)
      → IsNetwork n
      → ((k.delete_elem fd (key_of n) w).0
          ≡ (elim (lookup n (view w)) [ some _ ↦ done tt | none ↦ fail enoent ]))
        × (view (k.delete_elem fd (key_of n) w).1 ≡ erase n (view w))
