-- ===== src/Firewall/Rules/Reads.antt =====
-- control/firewall.py, class Firewall: the methods that read.
use lookout.Common.{ℕ, ◌+◌, Bool, true, false, not, ◌&&◌, ◌==◌, List, [], ◌∷◌, Option, none, some}
use lookout.Common.Dict
use lookout.Common.Dict.{Dict}
use lookout.Common.Exec.Keeps.{Keeps, keeps_bind as ◌>>=◌, keeps_pure, keeps_lift, keeps_if}
use lookout.Common.Text.{Text, text_eq}
use lookout.Bpf.Map.{bpf_f_lock}
use lookout.Bpf.Map.Reads.{Reads, lookup-Keeps, items-Keeps, sum_percpu-Keeps}
use lookout.Firewall.Layout
use lookout.Firewall.Layout.{Bytes, unpack}
use lookout.Firewall.Address.{inet_ntoa}
use lookout.Firewall.Keys.{lpm_key, unpack_cidr}
use lookout.Firewall.Machine.{Machine}
use lookout.Firewall.Names
use lookout.Firewall.Maps.{
  Firewall, is_allowed, is_blocked, holds, expiry, show_blocks, list_entry, show_block,
  list_blocked, is_expired,
}
use lookout.Firewall.Rules.{
  read_states, states_of, src_state, read_stats, sum_names, with_totals, index_key, read_config,
  unpack_config,
}
use lookout.Detect.State.{SrcState}

module _ {W : Type 0} (m : Machine W) (fw : Firewall) (I : W → Type 0) (r : Reads m.kernel I) where
  pub is_allowed-Keeps : (ip : Text) → Keeps I (is_allowed m fw ip)
  unfolding is_allowed
  is_allowed-Keeps ip = do
    key ← keeps_lift (lpm_key ip)
    val ← lookup-Keeps m.kernel I r fw.allowlist key 0
    keeps_pure _

  states_of-Keeps :
      (entries : List (Bytes × Bytes)) (out : Dict Text SrcState)
      → Keeps I (states_of m fw entries out)
  unfolding states_of
  states_of-Keeps [] out = keeps_pure out
  states_of-Keeps ((key, val) ∷ entries) out = do
    vs ← keeps_lift (unpack Layout.src_state val)
    st ← keeps_lift (src_state vs)
    states_of-Keeps entries (Dict.insert (inet_ntoa key) st out)

  pub read_states-Keeps : Keeps I (read_states m fw)
  unfolding read_states
  read_states-Keeps = do
    entries ← items-Keeps m.kernel I r fw.srcstate bpf_f_lock
    states_of-Keeps entries []

  sum_names-Keeps : (i : ℕ) (names : List Text) → Keeps I (sum_names m fw i names)
  unfolding sum_names
  sum_names-Keeps i [] = keeps_pure []
  sum_names-Keeps i (name ∷ names) = do
    key ← keeps_lift (index_key m fw i)
    v ← sum_percpu-Keeps m.kernel I r fw.stats key
    rest ← sum_names-Keeps (i + 1) names
    keeps_pure ((name, v) ∷ rest)

  pub read_stats-Keeps : Keeps I (read_stats m fw)
  unfolding read_stats
  read_stats-Keeps = do out ← sum_names-Keeps 0 Names.stat_names; keeps_pure (with_totals m fw out)

  pub read_config-Keeps : Keeps I (read_config m fw)
  unfolding read_config
  read_config-Keeps = do
    key ← keeps_lift (index_key m fw 0)
    raw ← lookup-Keeps m.kernel I r fw.config key 0
    keeps_lift (unpack_config m fw raw)

  -- The clock may be read too.
  module _ (clock : Keeps I m.ktime_ns) where
    holds-Keeps : (raw : Option Bytes) → Keeps I (holds m fw raw)
    unfolding holds
    holds-Keeps none = keeps_pure false
    holds-Keeps (some raw) = do
      expires ← keeps_lift (expiry m fw raw)
      keeps_if (expires == 0) (keeps_pure true) (do now ← clock; keeps_pure _)

    pub is_blocked-Keeps : (ip : Text) → Keeps I (is_blocked m fw ip)
    unfolding is_blocked
    is_blocked-Keeps ip = do
      key ← keeps_lift (lpm_key ip)
      raw ← lookup-Keeps m.kernel I r fw.blocklist key 0
      holds-Keeps raw

    show_blocks-Keeps :
        (now : ℕ) (all : Bool) (entries : List (Bytes × Bytes))
        → Keeps I (show_blocks m fw now all entries)
    unfolding show_blocks list_entry
    show_blocks-Keeps now all [] = keeps_pure []
    show_blocks-Keeps now all ((key, val) ∷ entries) = do
      expires ← keeps_lift (expiry m fw val)
      keeps_if (is_expired m fw now expires && not all) (show_blocks-Keeps now all entries) (do
        cidr ← keeps_lift (unpack_cidr key)
        vs ← keeps_lift (unpack Layout.block_val val)
        b ← keeps_lift (show_block m fw now cidr vs)
        rest ← show_blocks-Keeps now all entries
        keeps_pure (b ∷ rest))

    pub list_blocked-Keeps : (all : Bool) → Keeps I (list_blocked m fw all)
    unfolding list_blocked
    list_blocked-Keeps all = do
      now ← clock
      entries ← items-Keeps m.kernel I r fw.blocklist 0
      show_blocks-Keeps now all entries
