-- ===== src/Firewall/Rules/Writes.antt =====
-- control/firewall.py, class Firewall: the methods that write, and the other listings.
use lookout.Common.{ℕ, ◌+◌, List, [], ◌∷◌, length}
use lookout.Common.Int.{ℤ, pos, ltb_ℤ}
use lookout.Common.Ratio.{Ratio}
use lookout.Common.Dict.{Dict}
use lookout.Common.Text.{Text}
use lookout.Common.Exec.{value_error}
use lookout.Common.Exec.Keeps.{
  Keeps, keeps_bind as ◌>>=◌, keeps_then as ◌>>◌, keeps_pure, keeps_raise, keeps_lift, keeps_if,
}
use lookout.Bpf.Map.{BpfMap}
use lookout.Bpf.Map.Reads.{Reads, keys-Keeps, items-Keeps}
use lookout.Bpf.Map.Writes.{Writes, update-Keeps, delete-Keeps}
use lookout.Firewall.Layout
use lookout.Firewall.Layout.{Bytes, num, pack, unpack, zero_bytes}
use lookout.Firewall.Keys.{lpm_key, unpack_cidr, port_key}
use lookout.Firewall.Machine.{Machine}
use lookout.Firewall.Names
use lookout.Firewall.Maps.{
  Firewall, delete_all, clear, allow, unallow, show_allowed, list_allowed, deadline, block, unblock,
  clear_blocks, first_num, to_ns,
}
use lookout.Firewall.Rules.{
  set_port_rule, del_port_rule, clear_port_rules, show_rules, show_rule, list_port_rules, copies_of,
  first_action, repeat, clear_states, zero_from, reset_stats, index_key, setting, pack_config,
  write_config, update_config, all_known, merge,
}
use lookout.Firewall.Rules.Reads.{read_config-Keeps}

module _ {W : Type 0} (m : Machine W) (fw : Firewall) (I : W → Type 0) (r : Reads m.kernel I)
    (c : Writes m.kernel I) where
  delete_all-Keeps : (map : BpfMap) (keys : List Bytes) → Keeps I (delete_all m map keys)
  unfolding delete_all
  delete_all-Keeps map [] = keeps_pure tt
  delete_all-Keeps map (key ∷ keys) = do
    gone ← delete-Keeps m.kernel I c map key
    delete_all-Keeps map keys

  clear-Keeps : (map : BpfMap) → Keeps I (clear m map)
  unfolding clear
  clear-Keeps map = do
    keys ← keys-Keeps m.kernel I r map
    delete_all-Keeps map keys
    keeps_pure (length keys)

  pub allow-Keeps : (cidr : Text) → Keeps I (allow m fw cidr)
  unfolding allow
  allow-Keeps cidr = do
    key ← keeps_lift (lpm_key cidr)
    val ← keeps_lift (pack Layout.allow_val (num 0 ∷ num 0 ∷ num 0 ∷ []))
    update-Keeps m.kernel I c fw.allowlist key val

  pub unallow-Keeps : (cidr : Text) → Keeps I (unallow m fw cidr)
  unfolding unallow
  unallow-Keeps cidr = do
    key ← keeps_lift (lpm_key cidr)
    delete-Keeps m.kernel I c fw.allowlist key

  show_allowed-Keeps : (entries : List (Bytes × Bytes)) → Keeps I (show_allowed m fw entries)
  unfolding show_allowed
  show_allowed-Keeps [] = keeps_pure []
  show_allowed-Keeps ((key, val) ∷ entries) = do
    cidr ← keeps_lift (unpack_cidr key)
    vs ← keeps_lift (unpack Layout.allow_val val)
    hits ← keeps_lift (first_num vs)
    rest ← show_allowed-Keeps entries
    keeps_pure _

  pub list_allowed-Keeps : Keeps I (list_allowed m fw)
  unfolding list_allowed
  list_allowed-Keeps = do
    entries ← items-Keeps m.kernel I r fw.allowlist 0
    show_allowed-Keeps entries

  pub unblock-Keeps : (cidr : Text) → Keeps I (unblock m fw cidr)
  unfolding unblock
  unblock-Keeps cidr = do
    key ← keeps_lift (lpm_key cidr)
    delete-Keeps m.kernel I c fw.blocklist key

  pub clear_blocks-Keeps : Keeps I (clear_blocks m fw)
  unfolding clear_blocks
  clear_blocks-Keeps = clear-Keeps fw.blocklist

  pub set_port_rule-Keeps :
      (proto : Text) (port : ℤ) (action : ℕ) → Keeps I (set_port_rule m fw proto port action)
  unfolding set_port_rule
  set_port_rule-Keeps proto port action = do
    key ← keeps_lift (port_key proto port)
    val ← keeps_lift (pack Layout.port_val (num 0 ∷ num action ∷ num 0 ∷ []))
    update-Keeps m.kernel I c fw.portrules key (repeat fw.portrules.ncpu val)

  pub del_port_rule-Keeps : (proto : Text) (port : ℤ) → Keeps I (del_port_rule m fw proto port)
  unfolding del_port_rule
  del_port_rule-Keeps proto port = do
    key ← keeps_lift (port_key proto port)
    delete-Keeps m.kernel I c fw.portrules key

  pub clear_port_rules-Keeps : Keeps I (clear_port_rules m fw)
  unfolding clear_port_rules
  clear_port_rules-Keeps = clear-Keeps fw.portrules

  show_rules-Keeps : (entries : List (Bytes × Bytes)) → Keeps I (show_rules m fw entries)
  unfolding show_rules
  show_rules-Keeps [] = keeps_pure []
  show_rules-Keeps ((key, val) ∷ entries) = do
    k ← keeps_lift (unpack Layout.port_key key)
    copies ← keeps_lift (copies_of fw.portrules.ncpu val)
    action ← keeps_lift (first_action copies)
    rule ← keeps_lift (show_rule m fw k copies action)
    rest ← show_rules-Keeps entries
    keeps_pure (rule ∷ rest)

  pub list_port_rules-Keeps : Keeps I (list_port_rules m fw)
  unfolding list_port_rules
  list_port_rules-Keeps = do
    entries ← items-Keeps m.kernel I r fw.portrules 0
    show_rules-Keeps entries

  pub clear_states-Keeps : Keeps I (clear_states m fw)
  unfolding clear_states
  clear_states-Keeps = clear-Keeps fw.srcstate

  zero_from-Keeps : (i : ℕ) (names : List Text) → Keeps I (zero_from m fw i names)
  unfolding zero_from
  zero_from-Keeps i [] = keeps_pure tt
  zero_from-Keeps i (name ∷ names) = do
    key ← keeps_lift (index_key m fw i)
    update-Keeps m.kernel I c fw.stats key (zero_bytes fw.stats.value_size)
    zero_from-Keeps (i + 1) names

  pub reset_stats-Keeps : Keeps I (reset_stats m fw)
  unfolding reset_stats
  reset_stats-Keeps = zero_from-Keeps 0 Names.stat_names

  pack_config-Keeps : (cfg : Dict Text ℕ) → Keeps I (pack_config m fw cfg)
  unfolding pack_config
  pack_config-Keeps cfg = do
    rate ← keeps_lift (setting m fw Names.rate_pps cfg)
    burst ← keeps_lift (setting m fw Names.burst_pkts cfg)
    feats ← keeps_lift (setting m fw Names.features cfg)
    level ← keeps_lift (setting m fw Names.aggressiveness cfg)
    policy ← keeps_lift (setting m fw Names.default_policy cfg)
    keeps_lift _

  write_config-Keeps : (cfg : Dict Text ℕ) → Keeps I (write_config m fw cfg)
  unfolding write_config
  write_config-Keeps cfg = do
    key ← keeps_lift (index_key m fw 0)
    val ← pack_config-Keeps cfg
    update-Keeps m.kernel I c fw.config key val
    keeps_pure cfg

  pub update_config-Keeps : (changes : Dict Text ℕ) → Keeps I (update_config m fw changes)
  unfolding update_config
  update_config-Keeps changes = do
    cfg ← read_config-Keeps m fw I r
    keeps_if (all_known m fw changes cfg) (write_config-Keeps (merge m fw changes cfg))
        (keeps_raise value_error)

  pub block-Keeps :
      (clock : Keeps I m.ktime_ns) (cidr : Text) (duration : Ratio) (reason : ℕ)
      → Keeps I (block m fw cidr duration reason)
  unfolding block deadline
  block-Keeps clock cidr duration reason = do
    expires ←
        keeps_if (ltb_ℤ (pos 0) duration.num) (do now ← clock; keeps_pure (now + to_ns duration))
          (keeps_pure 0)
    key ← keeps_lift (lpm_key cidr)
    val ← keeps_lift (pack Layout.block_val (num expires ∷ num 0 ∷ num reason ∷ num 0 ∷ []))
    update-Keeps m.kernel I c fw.blocklist key val
