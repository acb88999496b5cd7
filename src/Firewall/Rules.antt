-- ===== src/Firewall/Rules.antt =====
-- control/firewall.py, class Firewall: port rules, per-source state, counters and settings.
pub mod Settings
pub mod Stored
pub mod Reads
pub mod Writes
use lookout.Common.{
  ℕ, zero, suc, ◌+◌, ◌-◌, ◌*◌, Bool, true, false, List, [], ◌∷◌, ◌++◌, Option, none, some, ltb,
  if◌then◌else◌, length, take, drop,
}
use lookout.Common.Int.{ℤ, sub_ℕ, ltb_ℤ, pos}
use lookout.Common.Dict
use lookout.Common.Dict.{Dict}
use lookout.Common.Exec.{
  Exec, Result, ok, err, value_error, type_error, key_error, struct_error, or_raise, pure, raise,
  lift, ◌>>=◌, ◌>>◌,
}
use lookout.Common.Text.{Text, codes, text_eq}
use lookout.Bpf.Map
use lookout.Bpf.Map.{BpfMap, bpf_f_lock}
use lookout.Firewall.Layout
use lookout.Firewall.Layout.{Bytes, Value, num, bytes, pack, unpack, zero_bytes}
use lookout.Firewall.Address.{inet_ntoa}
use lookout.Firewall.Keys.{port_key, proto_name}
use lookout.Firewall.Machine.{Machine}
use lookout.Firewall.Names
use lookout.Firewall.Maps.{Firewall, PortRule, clear, delete_all, nanoseconds}
use lookout.Detect.State.{SrcState}

-- `bytes * n`
abbrev pub repeat : ℕ → Bytes → Bytes
repeat zero b = []
repeat (suc n) b = b ++ repeat n b

-- `struct.iter_unpack` of a value with a copy for each CPU: the hits and the action of each.
unfoldable pub copies_of : ℕ → Bytes → Result (List (ℕ × ℕ))
copies_of zero val = ok []
copies_of (suc n) val = elim (unpack Layout.port_val (take 16 val)) [
  | err c ↦ err c
  | ok vs ↦ elim (copies_of n (drop 16 val)) [
    | err c ↦ err c
    | ok rest ↦ elim vs [
      | num hits ∷ num action ∷ _ ↦ ok ((hits, action) ∷ rest)
      | _ ↦ err type_error
    ]
  ]
]

abbrev pub sum_hits : List (ℕ × ℕ) → ℕ
sum_hits [] = 0
sum_hits ((hits, _) ∷ copies) = hits + sum_hits copies

-- `copies[0][1]`
unfoldable pub first_action : List (ℕ × ℕ) → Result ℕ
first_action [] = err type_error
first_action ((_, action) ∷ copies) = ok action

-- `dict(zip(SRC_STATE_FIELDS, …))`
unfoldable pub src_state : List Value → Result SrcState
src_state
      (num lock
        ∷ num tokens
        ∷ num refill
        ∷ num seen
        ∷ num packets
        ∷ num octets
        ∷ num dropped
        ∷ num syn
        ∷ num fin
        ∷ num rst
        ∷ num udp
        ∷ num icmp
        ∷ num ports
        ∷ []) =
    ok (record {
      lock = lock;
      tokens = tokens;
      last_refill_ns = refill;
      last_seen_ns = seen;
      packets = packets;
      bytes = octets;
      dropped = dropped;
      syn = syn;
      fin = fin;
      rst = rst;
      udp = udp;
      icmp = icmp;
      port_bitmap = ports;
    })
src_state _ = err type_error

module _ {W : Type 0} (m : Machine W) (fw : Firewall) where
  -- port rules

  -- Every CPU gets its own copy of the rule.
  unfoldable pub set_port_rule : Text → ℤ → ℕ → Exec W (Unit {0})
  set_port_rule proto port action = do
    key ← lift (port_key proto port)
    val ← lift (pack Layout.port_val (num 0 ∷ num action ∷ num 0 ∷ []))
    Map.update m.kernel fw.portrules key (repeat fw.portrules.ncpu val)

  unfoldable pub del_port_rule : Text → ℤ → Exec W Bool
  del_port_rule proto port = do
    key ← lift (port_key proto port)
    Map.delete m.kernel fw.portrules key

  unfoldable pub clear_port_rules : Exec W ℕ
  clear_port_rules = clear m fw.portrules

  unfoldable pub show_rule : List Value → List (ℕ × ℕ) → ℕ → Result PortRule
  show_rule (num proto ∷ num port ∷ []) copies action =
      ok (record { proto = proto_name proto; port = port; action = action; hits = sum_hits copies })
  show_rule _ copies action = err type_error

  unfoldable pub show_rules : List (Bytes × Bytes) → Exec W (List PortRule)
  show_rules [] = pure []
  show_rules ((key, val) ∷ entries) = do
    k ← lift (unpack Layout.port_key key)
    copies ← lift (copies_of fw.portrules.ncpu val)
    action ← lift (first_action copies)
    rule ← lift (show_rule k copies action)
    rest ← show_rules entries
    pure (rule ∷ rest)

  unfoldable pub list_port_rules : Exec W (List PortRule)
  list_port_rules = do entries ← Map.items m.kernel fw.portrules 0; show_rules entries

  -- per-source state

  unfoldable pub states_of : List (Bytes × Bytes) → Dict Text SrcState → Exec W (Dict Text SrcState)
  states_of [] out = pure out
  states_of ((key, val) ∷ entries) out = do
    vs ← lift (unpack Layout.src_state val)
    st ← lift (src_state vs)
    states_of entries (Dict.insert (inet_ntoa key) st out)

  -- Read under each entry's lock.
  unfoldable pub read_states : Exec W (Dict Text SrcState)
  read_states = do entries ← Map.items m.kernel fw.srcstate bpf_f_lock; states_of entries []

  -- The texts of the sources that were last seen before the cutoff, which may be negative.
  unfoldable pub idle_sources : ℤ → Dict Text SrcState → List Text
  idle_sources cutoff [] = []
  idle_sources cutoff ((ip, st) ∷ states) =
      let rest = idle_sources cutoff states in
      if ltb_ℤ (pos st.last_seen_ns) cutoff then ip ∷ rest else rest

  -- `inet_aton` is the library's, of a text that `inet_ntoa` made.
  module _ (inet_aton : Text → Bytes) where
    unfoldable pub to_keys : List Text → List Bytes
    to_keys [] = []
    to_keys (ip ∷ ips) = inet_aton ip ∷ to_keys ips

    unfoldable pub remove_idle_states : ℕ → Exec W ℕ
    unfolding idle_sources to_keys
    remove_idle_states idle_s = do
      now ← m.ktime_ns
      states ← read_states
      let doomed = to_keys (idle_sources (sub_ℕ now (idle_s * nanoseconds)) states)
      delete_all m fw.srcstate doomed
      pure (length doomed)

  unfoldable pub clear_states : Exec W ℕ
  clear_states = clear m fw.srcstate

  -- stats

  unfoldable pub index_key : ℕ → Result Bytes
  index_key i = pack Layout.index (num i ∷ [])

  unfoldable pub sum_names : ℕ → List Text → Exec W (Dict Text ℕ)
  sum_names i [] = pure []
  sum_names i (name ∷ names) = do
    key ← lift (index_key i)
    v ← Map.sum_percpu m.kernel fw.stats key
    rest ← sum_names (i + 1) names
    pure ((name, v) ∷ rest)

  -- The two totals come last.
  unfoldable pub with_totals : Dict Text ℕ → Dict Text ℕ
  with_totals out =
      let drops = out ++ (codes "drops_total", Names.sum_prefixed (codes "drop_") out) ∷ [] in
      drops ++ (codes "passes_total", Names.sum_prefixed (codes "pass_") drops) ∷ []

  unfoldable pub read_stats : Exec W (Dict Text ℕ)
  unfolding with_totals
  read_stats = do out ← sum_names 0 Names.stat_names; pure (with_totals out)

  unfoldable pub zero_from : ℕ → List Text → Exec W (Unit {0})
  zero_from i [] = pure tt
  zero_from i (name ∷ names) = do
    key ← lift (index_key i)
    Map.update m.kernel fw.stats key (zero_bytes fw.stats.value_size)
    zero_from (i + 1) names

  unfoldable pub reset_stats : Exec W (Unit {0})
  reset_stats = zero_from 0 Names.stat_names

  -- config

  unfoldable pub config_dict : List Value → Result (Dict Text ℕ)
  config_dict (num rate ∷ num burst ∷ num feats ∷ num level ∷ num policy ∷ num _ ∷ []) = ok (
      (Names.rate_pps, rate)
      ∷ (Names.burst_pkts, burst)
      ∷ (Names.features, feats)
      ∷ (Names.aggressiveness, level)
      ∷ (Names.default_policy, policy)
      ∷ [])
  config_dict _ = err type_error

  -- `struct.unpack` of None is a TypeError.
  unfoldable pub unpack_config : Option Bytes → Result (Dict Text ℕ)
  unpack_config none = err type_error
  unpack_config (some raw) = elim (unpack Layout.config raw) [
    | ok vs ↦ config_dict vs
    | err c ↦ err c
  ]

  unfoldable pub read_config : Exec W (Dict Text ℕ)
  read_config = do
    key ← lift (index_key 0)
    raw ← Map.lookup m.kernel fw.config key 0
    lift (unpack_config raw)

  -- `set(changes) - set(cfg)` is empty
  unfoldable pub all_known : Dict Text ℕ → Dict Text ℕ → Bool
  all_known [] cfg = true
  all_known ((name, v) ∷ changes) cfg =
      let rest = all_known changes cfg in
      elim (Dict.lookup name cfg) [ none ↦ false | some _ ↦ rest ]

  -- `cfg.update(changes)`
  unfoldable pub merge : Dict Text ℕ → Dict Text ℕ → Dict Text ℕ
  merge [] cfg = cfg
  merge ((name, v) ∷ changes) cfg = merge changes (Dict.insert name v cfg)

  -- `cfg[name]`
  abbrev pub setting : Text → Dict Text ℕ → Result ℕ
  setting name cfg = or_raise (Dict.lookup name cfg) key_error

  unfoldable pub pack_config : Dict Text ℕ → Exec W Bytes
  pack_config cfg = do
    rate ← lift (setting Names.rate_pps cfg)
    burst ← lift (setting Names.burst_pkts cfg)
    feats ← lift (setting Names.features cfg)
    level ← lift (setting Names.aggressiveness cfg)
    policy ← lift (setting Names.default_policy cfg)
    lift (
        pack Layout.config (num rate ∷ num burst ∷ num feats ∷ num level ∷ num policy ∷ num 0 ∷ []))

  unfoldable pub write_config : Dict Text ℕ → Exec W (Dict Text ℕ)
  write_config cfg = do
    key ← lift (index_key 0)
    val ← pack_config cfg
    Map.update m.kernel fw.config key val
    pure cfg

  unfoldable pub update_config : Dict Text ℕ → Exec W (Dict Text ℕ)
  update_config changes = do
    cfg ← read_config
    if all_known changes cfg then write_config (merge changes cfg) else raise value_error
