-- ===== src/Fwctl.antt =====
-- control/fwctl.py: the commands of the operator, as calls of the methods of `Firewall`. What a
-- command prints is the list of the lines' contents; the lines printed before an exception are
-- not kept.
pub mod Lists
pub mod Selftest
pub mod Limits
pub mod Listings
pub mod Human
pub mod Status
pub mod Main
pub mod Parser
use lookout.Common.{
  ℕ, ◌+◌, ◌-◌, Bool, true, false, not, ◌&&◌, ◌||◌, List, [], ◌∷◌, ◌++◌, Option, none, some, ltb,
  leb, ◌==◌, if◌then◌else◌, length, take,
}
use lookout.Common.Int.{ℤ, pos, negsuc}
use lookout.Common.Ratio.{Ratio}
use lookout.Common.Dict
use lookout.Common.Dict.{Dict}
use lookout.Common.Exec.{
  Exec, Result, ok, err, value_error, index_error, key_error, or_raise, pure, raise, lift, ◌>>=◌,
  ◌>>◌,
}
use lookout.Common.Text.{Text, codes, text_eq, text_beq}
use lookout.Fwctl.Lists.{action_name}
use lookout.Firewall.Machine.{Machine}
use lookout.Firewall.Names
use lookout.Firewall.Keys.{features, has_bit}
use lookout.Firewall.Maps.{
  Firewall, PortRule, allow_action, deny_action, clear_blocks, list_allowed, unallow, Allowed,
}
use lookout.Firewall.Rules.{
  read_config, read_stats, read_states, update_config, list_port_rules, reset_stats, clear_states,
  clear_port_rules,
}

-- `feats |= b` and `feats &= ~b`, for b a power of two
abbrev pub set_bit : ℕ → ℕ → ℕ
set_bit feats b = if has_bit feats b then feats else feats + b

abbrev pub clear_bit : ℕ → ℕ → ℕ
clear_bit feats b = if has_bit feats b then feats - b else feats

-- The loops over `--enable` and `--disable`.
unfoldable pub change_bits : (ℕ → ℕ → ℕ) → List Text → ℕ → Result ℕ
change_bits f [] feats = ok feats
change_bits f (name ∷ names) feats = elim (Dict.lookup name features) [
  | none ↦ err key_error
  | some b ↦ change_bits f names (f feats b)
]

-- The options of `config set`.
pub record Settings : Type 0 where
  pub enable : List Text
  pub disable : List Text
  pub rate : Option ℤ
  pub burst : Option ℤ
  pub aggressiveness : Option ℕ

-- `not 0 <= rate <= 100_000_000` raises
unfoldable pub check_rate : Option ℤ → Result (Dict Text ℕ)
check_rate none = ok []
check_rate (some (pos n)) =
    if leb n 100_000_000 then ok ((Names.rate_pps, n) ∷ []) else err value_error
check_rate (some (negsuc n)) = err value_error

-- `burst < 1` raises
unfoldable pub check_burst : Option ℤ → Result (Dict Text ℕ)
check_burst none = ok []
check_burst (some (pos n)) = if ltb n 1 then err value_error else ok ((Names.burst_pkts, n) ∷ [])
check_burst (some (negsuc n)) = err value_error

abbrev pub level_change : Option ℕ → Dict Text ℕ
level_change none = []
level_change (some n) = (Names.aggressiveness, n) ∷ []

-- `items[:count]`: for a count below zero, all but that many.
abbrev pub first : {A : Type 0} → ℤ → List A → List A
first (pos n) items = take n items
first (negsuc n) items = take (length items - (n + 1)) items

-- What `policy deny` adds.
pub data Hint : Type 0 where
  -- there are no allow rules
  nothing_passes : Hint
  ping_dropped : Hint

unfoldable pub allow_rules : List PortRule → List PortRule
allow_rules [] = []
allow_rules (r ∷ rs) =
    let rest = allow_rules rs in if r.action == allow_action then r ∷ rest else rest

unfoldable pub any_icmp : List PortRule → Bool
any_icmp [] = false
any_icmp (r ∷ rs) = text_beq r.proto (codes "icmp") || any_icmp rs

unfoldable pub hint_for : List PortRule → Option Hint
unfolding any_icmp
hint_for [] = some nothing_passes
hint_for (r ∷ rs) = if any_icmp (r ∷ rs) then none else some ping_dropped

-- The options of `reset`.
pub record ResetArgs : Type 0 where
  pub blocks : Bool
  pub all : Bool

-- What `reset` says that it removed: sources, blocklist entries, allowlist entries and port rules.
pub record Removed : Type 0 where
  pub sources : ℕ
  pub blocks : Option ℕ
  pub rules : Option (ℕ × ℕ)

-- `sum(FEATURES.values()) & ~FEATURES["frags"]`
abbrev pub default_features : ℕ
default_features = clear_bit 127 32

abbrev pub defaults : Dict Text ℕ
defaults =
    (Names.rate_pps, 20000)
    ∷ (Names.burst_pkts, 40000)
    ∷ (Names.aggressiveness, 0)
    ∷ (Names.default_policy, allow_action)
    ∷ (Names.features, default_features)
    ∷ []

module _ {W : Type 0} (m : Machine W) (fw : Firewall) where
  -- `policy`, without and with an argument: true for allow
  unfoldable pub cmd_policy : Option Bool → Exec W (Text × Option Hint)
  cmd_policy none = do
    cfg ← read_config m fw
    policy ← lift (or_raise (Dict.lookup Names.default_policy cfg) key_error)
    name ← lift (action_name policy)
    pure (name, none)
  cmd_policy (some true) = do
    cfg ← update_config m fw ((Names.default_policy, allow_action) ∷ [])
    pure (codes "allow", none)
  cmd_policy (some false) = do
    cfg ← update_config m fw ((Names.default_policy, deny_action) ∷ [])
    rules ← list_port_rules m fw
    pure (codes "deny", hint_for (allow_rules rules))

  unfoldable pub cmd_stats : Exec W (List ℕ)
  cmd_stats = do s ← read_stats m fw; lift (Lists.values_of Names.stat_names s)

  unfoldable pub cmd_top : ℤ → Exec W Lists.Sources
  cmd_top count = do states ← read_states m fw; pure (first count (Lists.by_packets states))

  -- `config set`
  unfoldable pub cmd_config_set : Settings → Exec W (Dict Text ℕ)
  cmd_config_set args = do
    cfg ← read_config m fw
    feats ← lift (or_raise (Dict.lookup Names.features cfg) key_error)
    enabled ← lift (change_bits set_bit args.enable feats)
    new ← lift (change_bits clear_bit args.disable enabled)
    rate ← lift (check_rate args.rate)
    burst ← lift (check_burst args.burst)
    update_config m fw ((Names.features, new) ∷ rate ++ burst ++ level_change args.aggressiveness)

  -- `config`, without and with `set`: the settings that are shown.
  unfoldable pub cmd_config : Option Settings → Exec W (Dict Text ℕ)
  cmd_config none = do
    cfg ← read_config m fw
    policy ← lift (or_raise (Dict.lookup Names.default_policy cfg) key_error)
    name ← lift (action_name policy)
    pure cfg
  cmd_config (some args) = cmd_config_set args

  -- `for e in list(fw.list_allowed()): n += fw.unallow(e["cidr"])`
  unfoldable pub unallow_all : ℕ → List Allowed → Exec W ℕ
  unallow_all n [] = pure n
  unallow_all n (e ∷ es) = do gone ← unallow m fw e.cidr; unallow_all (if gone then n + 1 else n) es

  unfoldable pub clear_rules : Exec W (ℕ × ℕ)
  clear_rules = do
    entries ← list_allowed m fw
    n ← unallow_all 0 entries
    k ← clear_port_rules m fw
    update_config m fw defaults
    pure (n, k)

  unfoldable pub cmd_reset : ResetArgs → Exec W Removed
  cmd_reset args = do
    reset_stats m fw
    n ← clear_states m fw
    b ← (if args.blocks || args.all then (do k ← clear_blocks m fw; pure (some k)) else pure none)
    r ← (if args.all then (do k ← clear_rules; pure (some k)) else pure none)
    pure (record { sources = n; blocks = b; rules = r })
