-- ===== src/Checks/PortRules.antt =====
-- control/firewall.py over a kernel with one hash map with a copy of each value for two CPUs.
use lookout.Common.{ℕ, ◌+◌, ◌*◌, ◌≡◌, refl, inl, List, [], ◌∷◌, Option, none, some, arith}
use lookout.Common.Int.{pos}
use lookout.Common.Dict.{Dict, lookup, insert, erase}
use lookout.Common.Text.{codes}
use lookout.Common.Exec.{ok}
use lookout.Bpf.Kernel.{Kernel, Reply, done, fail, enoent, einval}
use lookout.Firewall.Layout.{Bytes, le_bytes}
use lookout.Firewall.Keys.{parse_proto, proto_number, lower}
use lookout.Firewall.Machine.{Machine}
use lookout.Firewall.Maps.{Firewall}
use lookout.Firewall.PortRules.{Port, port_eq, key_of, IsPort, IsHash}
use lookout.Firewall.PortRules.Steps.{Command}
use lookout.Firewall.PortRules.Sessions.{Request, Follows, session, rules-Follows}
use lookout.Checks.Firewall.{firewall}

-- The port of a key.
unfoldable decode : Bytes → Option Port
decode (p ∷ x ∷ lo ∷ hi ∷ []) = some (record { proto = p; port = lo + 256 * hi })
decode _ = none

same_port :
    (a b : ℕ) (p : Port)
    → a ≡ p.proto
    → b ≡ p.port
    → ◌≡◌ {A = Option Port} (some (record { proto = a; port = b })) (some p)
same_port a b p e f = ground arith

decode-key_of : (p : Port) → IsPort p → decode (key_of p) ≡ some p
unfolding decode le_bytes
decode-key_of p (h, k) = same_port _ _ p (omega (arith, h)) (omega (arith, k))

-- The state is the map.
abbrev World : Type 0
World = Dict Port Bytes

unfoldable update_hash : Option Port → Bytes → World → Reply (Unit {0}) × World
update_hash none val w = (fail einval, w)
update_hash (some p) val w = (done tt, insert p val w)

unfoldable delete_hash : Option Port → World → Reply (Unit {0}) × World
delete_hash none w = (fail einval, w)
delete_hash (some p) w = (elim (lookup p w) [ some _ ↦ done tt | none ↦ fail enoent ], erase p w)

abbrev hash_kernel : Kernel World
hash_kernel = record {
  obj_get = λ path w. (done 3, w);
  lookup_elem = λ fd key flags w. (fail enoent, w);
  update_elem = λ fd key val flags w. update_hash (decode key) val w;
  delete_elem = λ fd key w. delete_hash (decode key) w;
  get_next_key = λ fd key w. (fail enoent, w);
  lookup_batch =
      λ fd token count flags w. (record { entries = []; token = []; errno = some enoent }, w);
  cpu_possible = λ w. (some (codes "0-1"), w);
  cpu_count = some 2;
}

abbrev hash_machine : Machine World
hash_machine = record {
  kernel = hash_kernel;
  ktime_ns = λ w. (ok 7, w);
  monotonic = λ w. (ok 7, w);
  time = λ w. (ok 7, w);
  strftime = λ w. (ok "12:00:00", w);
}

abbrev two_cpus : Firewall
two_cpus = record firewall { portrules = record firewall.portrules { ncpu = 2; value_size = 32 } }

is_hash : IsHash hash_kernel two_cpus.portrules.fd (λ w. w)
unfolding update_hash delete_hash
is_hash = record {
  updates = λ p val w v. rw (decode-key_of p v) (inl (refl, refl));
  deletes = λ p w v. rw (decode-key_of p v) (refl, refl);
}

-- `port allow tcp 443`, `port deny udp 53`, `port del tcp 443`
abbrev https : Port
https = record { proto = 6; port = 443 }

abbrev dns : Port
dns = record { proto = 17; port = 53 }

tcp : parse_proto (codes "tcp") ≡ ok 6
unfolding parse_proto proto_number lower
tcp = refl

udp : parse_proto (codes "udp") ≡ ok 17
unfolding parse_proto proto_number lower
udp = refl

abbrev requests : List Request
requests =
    record {
      command = Command.set (codes "tcp") (pos 443) 0;
      named = https;
      names = ((tcp, refl, omega arith), omega arith);
    }
    ∷ record {
      command = Command.set (codes "udp") (pos 53) 1;
      named = dns;
      names = ((udp, refl, omega arith), omega arith);
    }
    ∷ record {
      command = Command.del (codes "tcp") (pos 443);
      named = https;
      names = (tcp, refl, omega arith);
    }
    ∷ []

rules-Follows_example :
    Follows hash_machine two_cpus
      (λ w. w)
      is_hash
      (omega arith)
      refl
      requests
      (λ p. none)
      (session hash_machine two_cpus requests [])
unfolding lookup
rules-Follows_example =
    rules-Follows hash_machine two_cpus (λ w. w) is_hash (omega arith) refl requests (λ p. none) []
      (λ p. tt)
