-- ===== src/Checks/Blocklist.antt =====
-- control/firewall.py over a kernel with one LPM trie, and with a clock that runs.
use lookout.Common.{ℕ, ◌+◌, ◌≡◌, refl, inl, List, [], ◌∷◌, some, arith, map, true, false}
use lookout.Common.Int.{pos}
use lookout.Common.Dict.{Dict, lookup}
use lookout.Common.Text.{codes}
use lookout.Common.Exec.{ok}
use lookout.Bpf.Kernel.{Kernel, Reply, done, fail, enoent}
use lookout.Firewall.Layout.{Bytes, unpack, unpack_fields, of_le}
use lookout.Firewall.Address.{Network, network}
use lookout.Firewall.Address.RoundTrip.{IsNetwork}
use lookout.Firewall.Machine.{Machine}
use lookout.Firewall.Maps.{expiry, first_num}
use lookout.Firewall.Trie.{IsTrie}
use lookout.Firewall.Blocklist.{Command, IsTable, IsTimed, deadlines, entry_of}
use lookout.Firewall.Blocklist.Sessions.{Request, Follows, session, session-Follows}
use lookout.Firewall.Blocklist.Hiding.{three, session-hidden_block}
use lookout.Checks.Firewall.{firewall}
use lookout.Checks.Allowlist.{
  decode, decode-key_of, lookup_trie, update_trie, delete_trie, ten, host, read_ten, read_host,
}

-- The trie, and the time.
record World : Type 0 where
  trie : Dict Network Bytes
  time : ℕ

abbrev at : {A : Type 0} → ℕ → Reply A × Dict Network Bytes → Reply A × World
at time (r, d) = (r, record { trie = d; time = time })

abbrev clocked_kernel : Kernel World
clocked_kernel = record {
  obj_get = λ path w. (done 3, w);
  lookup_elem = λ fd key flags w. at w.time (lookup_trie (decode key) w.trie);
  update_elem = λ fd key val flags w. at w.time (update_trie (decode key) val w.trie);
  delete_elem = λ fd key w. at w.time (delete_trie (decode key) w.trie);
  get_next_key = λ fd key w. (fail enoent, w);
  lookup_batch = λ fd token count flags w.
      (record { entries = map entry_of w.trie; token = []; errno = some enoent }, w);
  cpu_possible = λ w. (some (codes "0"), w);
  cpu_count = some 1;
}

-- A second passes with every reading of the clock.
abbrev clocked : Machine World
clocked = record {
  kernel = clocked_kernel;
  ktime_ns = λ w. (ok w.time, record { trie = w.trie; time = w.time + 1_000_000_000 });
  monotonic = λ w. (ok w.time, w);
  time = λ w. (ok w.time, w);
  strftime = λ w. (ok "12:00:00", w);
}

is_trie : IsTrie clocked_kernel 3 (λ w. w.trie)
unfolding lookup_trie update_trie delete_trie
is_trie = record {
  lookups = λ n flags w v. rw (decode-key_of n v) (refl, refl);
  updates = λ n val w v. rw (decode-key_of n v) (inl (refl, refl));
  deletes = λ n w v. rw (decode-key_of n v) (refl, refl);
}

is_timed : IsTimed clocked 3 (λ w. w.trie) (λ w. w.time)
is_timed = record {
  reads = λ w. (w.time, (refl, omega arith, omega arith, refl));
  lists = λ w. (refl, refl, refl, omega arith);
  lookup_later = λ key flags w. omega arith;
  update_later = λ key val flags w. omega arith;
  delete_later = λ key w. omega arith;
}

abbrev start : World
start = record { trie = []; time = 5 }

-- 10.0.0.0/8 is blocked for good and 10.1.1.7 for half a second, which passes before it is asked
-- about.
abbrev requests : List Request
requests =
    record {
      command = Command.add (codes "10.1.2.3/8") (record { num = pos 0; den = 1 }) 1;
      network = ten;
      read = read_ten;
    }
    ∷ record {
      command = Command.add (codes "10.1.1.7") (record { num = pos 1; den = 2 }) 1;
      network = host;
      read = read_host;
    }
    ∷ record { command = Command.ask (codes "10.1.1.7"); network = host; read = read_host }
    ∷ record { command = Command.sweep; network = host; read = tt }
    ∷ record { command = Command.ask (codes "10.1.1.7"); network = host; read = read_host }
    ∷ record { command = Command.remove (codes "10.1.2.3/8"); network = ten; read = read_ten }
    ∷ []

session-Follows_example :
    Follows clocked firewall
      (λ w. w.trie)
      (λ w. w.time)
      is_trie
      is_timed
      refl
      requests
      5
      (deadlines clocked firewall [])
      (session clocked firewall requests start)
session-Follows_example =
    session-Follows clocked firewall (λ w. w.trie) (λ w. w.time) is_trie is_timed refl requests
      start tt

-- 10.0.0.0/8 for good.
abbrev for_good : Bytes
for_good =
    0 ∷ 0 ∷ 0 ∷ 0 ∷ 0 ∷ 0 ∷ 0 ∷ 0 ∷ 0 ∷ 0 ∷ 0 ∷ 0 ∷ 0 ∷ 0 ∷ 0 ∷ 0 ∷ 1 ∷ 0 ∷ 0 ∷ 0 ∷ 0 ∷ 0 ∷ 0 ∷ 0
    ∷ []

-- 10.1.1.7 until 5.
abbrev until_five : Bytes
until_five =
    5 ∷ 0 ∷ 0 ∷ 0 ∷ 0 ∷ 0 ∷ 0 ∷ 0 ∷ 0 ∷ 0 ∷ 0 ∷ 0 ∷ 0 ∷ 0 ∷ 0 ∷ 0 ∷ 1 ∷ 0 ∷ 0 ∷ 0 ∷ 0 ∷ 0 ∷ 0 ∷ 0
    ∷ []

abbrev later : World
later = record { trie = (ten, for_good) ∷ (host, until_five) ∷ []; time = 9 }

IsNetwork-ten : IsNetwork ten
IsNetwork-ten = record { short = omega arith; prefixed = omega arith; block = 10; aligned = refl }

IsNetwork-host : IsNetwork host
IsNetwork-host = record {
  short = omega arith;
  prefixed = omega arith;
  block = 167837959;
  aligned = refl;
}

is_table : IsTable later.trie
unfolding lookup
is_table = (IsNetwork-ten, refl, refl, (IsNetwork-host, refl, refl, tt))

session-hidden_block_example :
    (session clocked firewall (three (codes "10.1.1.7") host read_host) later).0
    ≡ ok (false ∷ true ∷ true ∷ [])
unfolding lookup expiry unpack unpack_fields first_num of_le network
session-hidden_block_example =
    session-hidden_block clocked firewall (λ w. w.trie) (λ w. w.time) is_trie is_timed refl
      (codes "10.1.1.7") host read_host later 5 is_table refl (omega arith) (omega arith) refl
