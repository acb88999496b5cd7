-- ===== src/Checks/Allowlist.antt =====
-- control/firewall.py over a kernel with one LPM trie, which never is full.
use lookout.Common.{ℕ, ◌+◌, ◌*◌, ◌≡◌, refl, inl, List, [], ◌∷◌, Option, none, some, arith, length}
use lookout.Common.Dict.{Dict, lookup, insert, erase}
use lookout.Common.Text.{codes}
use lookout.Common.Exec.{ok, err}
use lookout.Bpf.Kernel.{Kernel, Reply, done, fail, enoent, einval}
use lookout.Firewall.Layout
use lookout.Firewall.Layout.{Bytes, Value, num, bytes, pack, unpack}
use lookout.Firewall.Address.{Network, parse_cidr, packed}
use lookout.Firewall.Address.RoundTrip.{IsNetwork, show_network}
use lookout.Firewall.Keys.{lpm_key, unpack_cidr}
use lookout.Firewall.Keys.Cidrs.{lpm_key-show}
use lookout.Firewall.Machine.{Machine}
use lookout.Firewall.Trie.{network_eq, key_of, longest, reply_of, IsTrie}
use lookout.Firewall.Allowlist.{Command, members}
use lookout.Firewall.Allowlist.Sessions.{Request, Follows, session, session-refines}
use lookout.Checks.Firewall.{firewall}

unfoldable of_values : List Value → Option Network
of_values (num p ∷ bytes (a ∷ b ∷ c ∷ d ∷ []) ∷ []) =
    some (record { address = ((a * 256 + b) * 256 + c) * 256 + d; prefixlen = p })
of_values _ = none

-- The network of a key.
pub decode : Bytes → Option Network
decode key = elim (unpack Layout.lpm_key key) [ err _ ↦ none | ok vs ↦ of_values vs ]

same_network :
    (a p : ℕ) (n : Network)
    → a ≡ n.address
    → p ≡ n.prefixlen
    → ◌≡◌ {A = Option Network} (some (record { address = a; prefixlen = p })) (some n)
same_network a p n e f = ground arith

pub decode-key_of : (n : Network) → IsNetwork n → decode (key_of n) ≡ some n
unfolding decode of_values packed unpack Layout.le_bytes Layout.of_le
decode-key_of n v = same_network _ _ n (omega (arith, v.short)) (omega (arith, v.prefixed))

-- The state is the trie.
abbrev World : Type 0
World = Dict Network Bytes

unfoldable pub lookup_trie : Option Network → World → Reply Bytes × World
lookup_trie none w = (fail einval, w)
lookup_trie (some n) w = (reply_of (longest n.prefixlen n.address w), w)

unfoldable pub update_trie : Option Network → Bytes → World → Reply (Unit {0}) × World
update_trie none val w = (fail einval, w)
update_trie (some n) val w = (done tt, insert n val w)

unfoldable pub delete_trie : Option Network → World → Reply (Unit {0}) × World
delete_trie none w = (fail einval, w)
delete_trie (some n) w = (elim (lookup n w) [ some _ ↦ done tt | none ↦ fail enoent ], erase n w)

abbrev trie_kernel : Kernel World
trie_kernel = record {
  obj_get = λ path w. (done 3, w);
  lookup_elem = λ fd key flags w. lookup_trie (decode key) w;
  update_elem = λ fd key val flags w. update_trie (decode key) val w;
  delete_elem = λ fd key w. delete_trie (decode key) w;
  get_next_key = λ fd key w. (fail enoent, w);
  lookup_batch =
      λ fd token count flags w. (record { entries = []; token = []; errno = some enoent }, w);
  cpu_possible = λ w. (some (codes "0"), w);
  cpu_count = some 1;
}

abbrev trie_machine : Machine World
trie_machine = record {
  kernel = trie_kernel;
  ktime_ns = λ w. (ok 0, w);
  monotonic = λ w. (ok 0, w);
  time = λ w. (ok 0, w);
  strftime = λ w. (ok "12:00:00", w);
}

is_trie : IsTrie trie_kernel 3 (λ w. w)
unfolding lookup_trie update_trie delete_trie
is_trie = record {
  lookups = λ n flags w v. rw (decode-key_of n v) (refl, refl);
  updates = λ n val w v. rw (decode-key_of n v) (inl (refl, refl));
  deletes = λ n w v. rw (decode-key_of n v) (refl, refl);
}

abbrev pub ten : Network
ten = record { address = 167772160; prefixlen = 8 }

abbrev pub host : Network
host = record { address = 167837959; prefixlen = 32 }

pub read_ten : parse_cidr (codes "10.1.2.3/8") ≡ ok ten
unfolding parse_cidr
read_ten = refl

read_ten_0 : parse_cidr (codes "10.0.0.0/8") ≡ ok ten
unfolding parse_cidr
read_ten_0 = refl

pub read_host : parse_cidr (codes "10.1.1.7") ≡ ok host
unfolding parse_cidr
read_host = refl

-- 10.0.0.0/8 is allowed, and 10.1.1.7 is asked about before and after it is taken off.
abbrev requests : List Request
requests =
    record { command = Command.add (codes "10.1.2.3/8"); network = ten; read = read_ten }
    ∷ record { command = Command.ask (codes "10.1.1.7"); network = host; read = read_host }
    ∷ record { command = Command.remove (codes "10.0.0.0/8"); network = ten; read = read_ten_0 }
    ∷ record { command = Command.ask (codes "10.1.1.7"); network = host; read = read_host }
    ∷ []

session-refines_example :
    Follows trie_machine firewall
      (λ w. w)
      is_trie
      refl
      requests
      (members [])
      (session trie_machine firewall requests [])
session-refines_example =
    session-refines trie_machine firewall (λ w. w) is_trie refl requests (members []) [] refl

lpm_key-show_example :
    (key : Bytes) × (lpm_key (codes " 10.1.2.3/8") ≡ ok key)
    × (length key ≡ 8)
    × (unpack_cidr key ≡ ok (show_network ten))
    × (lpm_key (show_network ten) ≡ ok key)
unfolding parse_cidr
lpm_key-show_example = lpm_key-show (codes " 10.1.2.3/8") ten refl
