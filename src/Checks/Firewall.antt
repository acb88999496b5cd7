-- ===== src/Checks/Firewall.antt =====
-- control/firewall.py, control/bpfmap.py and control/controller.py on concrete inputs, over a kernel
-- that holds the settings and one block.
use lookout.Common.{ℕ, ◌+◌, ◌-◌, ◌≤◌, ◌<◌, ◌≡◌, ◌⊎◌, refl, List, [], ◌∷◌, some, arith, length}
use lookout.Common.Int.{pos}
use lookout.Common.Dict
use lookout.Common.Dict.{Dict}
use lookout.Common.Text.{Text, codes, text_eq, text_beq}
use lookout.Common.Exec.{ok, err, value_error, ◌>>=◌}
use lookout.Bpf.Kernel.{Kernel, done, fail}
use lookout.Bpf.Map
use lookout.Bpf.Map.{BpfMap, max_walk}
use lookout.Bpf.Map.Walks.{Walked, keys-Walked}
use lookout.Firewall.Layout.{Bytes, le_bytes, unpack}
use lookout.Firewall.Keys
use lookout.Firewall.Keys.{port_key, parse_proto}
use lookout.Firewall.Keys.Ports.{HasKey, port_key-HasKey}
use lookout.Firewall.Machine.{Machine}
use lookout.Firewall.Names
use lookout.Firewall.Maps
use lookout.Firewall.Rules
use lookout.Firewall.Rules.Stored.{unpack_config-pack_config}
use lookout.Firewall.Maps.{Firewall, holds, is_expired}
use lookout.Firewall.Maps.Deadlines.{listed-swept}
use lookout.Controller.Traffic.{Load, measure_load}
use lookout.Controller.Traffic.Resets.{
  Covers, Counters, IsForward, seen, natural_load, measure_load-seen,
}

-- 20000 pps, a burst of 40000, all features but frags, level 0, allow
abbrev pub config_bytes : Bytes
config_bytes =
    32 ∷ 78 ∷ 0 ∷ 0 ∷ 0 ∷ 0 ∷ 0 ∷ 0 ∷ 64 ∷ 156 ∷ 0 ∷ 0 ∷ 0 ∷ 0 ∷ 0 ∷ 0 ∷ 95 ∷ 0 ∷ 0 ∷ 0 ∷ 0 ∷ 0 ∷ 0
    ∷ 0 ∷ 0 ∷ 0 ∷ 0 ∷ 0 ∷ 0 ∷ 0 ∷ 0 ∷ 0 ∷ []

abbrev pub kernel : Kernel ℕ
kernel = record {
  obj_get = λ path w. (done 3, w);
  lookup_elem = λ fd key flags w. (done config_bytes, w);
  update_elem = λ fd key val flags w. (done tt, w);
  delete_elem = λ fd key w. (done tt, w);
  get_next_key = λ fd key w. (fail 2, w);
  lookup_batch = λ fd token count flags w. (record { entries = []; token = []; errno = some 2 }, w);
  cpu_possible = λ w. (some (codes "0"), w);
  cpu_count = some 1;
}

-- The world is the time.
abbrev pub machine : Machine ℕ
machine = record {
  kernel = kernel;
  ktime_ns = λ w. (ok w, w);
  monotonic = λ w. (ok w, w);
  time = λ w. (ok w, w);
  strftime = λ w. (ok "12:00:00", w);
}

abbrev pub a_map : ℕ → ℕ → BpfMap
a_map key_size value_size = record {
  path = codes "map";
  key_size = key_size;
  value_size = value_size;
  ncpu = 1;
  fd = 3;
}

abbrev pub firewall : Firewall
firewall = record {
  allowlist = a_map 8 16;
  blocklist = a_map 8 24;
  portrules = a_map 4 16;
  srcstate = a_map 4 104;
  stats = a_map 4 8;
  config = a_map 4 32;
}

keys-Walked_example : Walked max_walk (Map.keys kernel (a_map 4 104) 0).0
keys-Walked_example = keys-Walked kernel (a_map 4 104) 0

-- The settings of `config_bytes`.
abbrev pub settings : Dict Text ℕ
settings =
    (Names.rate_pps, 20000)
    ∷ (Names.burst_pkts, 40000)
    ∷ (Names.features, 95)
    ∷ (Names.aggressiveness, 0)
    ∷ (Names.default_policy, 0)
    ∷ []

unpack_config-pack_config_example :
    (Rules.pack_config machine firewall settings 7 ≡ (ok config_bytes, 7))
    × (length config_bytes ≡ 32)
    × (Rules.unpack_config machine firewall (some config_bytes) ≡ ok settings)
unfolding le_bytes
unpack_config-pack_config_example =
    unpack_config-pack_config machine firewall 20000 40000 95 0 0 (omega arith) (omega arith) 7

-- The key of 10.10.1.0/24, with host bits to clear.
lpm_key_bytes : Keys.lpm_key (codes "10.10.1.7/24") ≡ ok (24 ∷ 0 ∷ 0 ∷ 0 ∷ 10 ∷ 10 ∷ 1 ∷ 0 ∷ [])
unfolding Keys.lpm_key
lpm_key_bytes = refl

-- ICMP has no type 300.
port_key-HasKey_example :
    HasKey (codes "icmp") (pos 300) 1
    ⊎ (((n : ℕ) → pos 300 ≡ pos n → 255 < n)
        × (port_key (codes "icmp") (pos 300) ≡ err value_error))
unfolding parse_proto
port_key-HasKey_example = port_key-HasKey (codes "icmp") (pos 300) 1 refl

-- Blocked until the time 5, as a manual block.
abbrev block_bytes : Bytes
block_bytes =
    5 ∷ 0 ∷ 0 ∷ 0 ∷ 0 ∷ 0 ∷ 0 ∷ 0 ∷ 0 ∷ 0 ∷ 0 ∷ 0 ∷ 0 ∷ 0 ∷ 0 ∷ 0 ∷ 0 ∷ 0 ∷ 0 ∷ 0 ∷ 0 ∷ 0 ∷ 0 ∷ 0
    ∷ []

-- The block at 10.0.0.1/32.
abbrev one_block : List (Bytes × Bytes)
one_block = (32 ∷ 0 ∷ 0 ∷ 0 ∷ 10 ∷ 0 ∷ 0 ∷ 1 ∷ [], block_bytes) ∷ []

listed-swept_example : 0 + 1 ≡ length one_block
unfolding Maps.expiry Maps.first_num unpack Maps.doomed_blocks Maps.show_blocks ◌>>=◌
listed-swept_example =
    listed-swept machine firewall 7 one_block ((32 ∷ 0 ∷ 0 ∷ 0 ∷ 10 ∷ 0 ∷ 0 ∷ 1 ∷ []) ∷ []) [] 7 7
      refl refl

abbrev counters : ℕ → ℕ → Dict Text ℕ
counters rx limited =
    (codes "rx_packets", rx)
    ∷ (codes "pass_rule", 1)
    ∷ (codes "pass_default", 2)
    ∷ (codes "drop_ratelimit", limited)
    ∷ []

counted : (rx limited : ℕ) → Counters (counters rx limited)
unfolding Dict.lookup text_beq
counted rx limited = record {
  rx = rx;
  rule = 1;
  default = 2;
  limited = limited;
  rx_at = refl;
  rule_at = refl;
  default_at = refl;
  limited_at = refl;
}

covered : Covers (counters 10 5) (counters 30 20)
unfolding Dict.lookup text_beq
covered = ((10, refl), ((1, refl), ((2, refl), ((5, refl), tt))))

abbrev idle_load : Load
idle_load = natural_load 0 0 1

measure_load-seen_example :
    (IsForward (counted 10 5) (counted 30 20) 0 9
      → measure_load (some (counters 10 5, 0)) (counters 30 20) 9 idle_load
        ≡ ok (
            natural_load
              (seen (counted 30 20) - seen (counted 10 5))
              ((counted 30 20).limited - (counted 10 5).limited)
              (9 - 0)))
    × (((counted 30 20).rx < (counted 10 5).rx)
          ⊎ (seen (counted 30 20) < seen (counted 10 5))
          ⊎ (9 ≤ 0)
        → measure_load (some (counters 10 5, 0)) (counters 30 20) 9 idle_load ≡ ok idle_load)
measure_load-seen_example =
    measure_load-seen (counters 10 5) (counters 30 20) covered (counted 10 5) (counted 30 20) 0 9
      idle_load
