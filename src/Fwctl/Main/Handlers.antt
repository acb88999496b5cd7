-- ===== src/Fwctl/Main/Handlers.antt =====
-- control/fwctl.py: what every command keeps that the calls of the kernel keep.
use lookout.Common.{
  ℕ, ◌+◌, ◌||◌, List, [], ◌∷◌, true, false, Bool, Option, none, some, if◌then◌else◌,
}
use lookout.Common.Ratio.{Ratio}
use lookout.Common.Dict
use lookout.Common.Dict.{Dict}
use lookout.Common.Text.{Text, text_eq}
use lookout.Common.Exec.{Exec, or_raise, key_error}
use lookout.Common.Exec.Keeps.{
  Keeps, keeps_bind as ◌>>=◌, keeps_then as ◌>>◌, keeps_pure, keeps_lift, keeps_if,
}
use lookout.Bpf.Map.Reads.{Reads}
use lookout.Bpf.Map.Writes.{Writes}
use lookout.Bpf.Prog.{System}
use lookout.Firewall.Address.{parse_cidr}
use lookout.Firewall.Constants.{block_manual}
use lookout.Firewall.Machine.{Machine}
use lookout.Firewall.Names
use lookout.Firewall.Life.{prog_info}
use lookout.Firewall.Maps.{Firewall, Allowed, allow_action, deny_action}
use lookout.Firewall.Rules.Reads.{is_allowed-Keeps, read_config-Keeps, list_blocked-Keeps}
use lookout.Firewall.Rules.Writes.{
  allow-Keeps, unallow-Keeps, list_allowed-Keeps, unblock-Keeps, clear_blocks-Keeps,
  set_port_rule-Keeps, del_port_rule-Keeps, clear_port_rules-Keeps, list_port_rules-Keeps,
  clear_states-Keeps, reset_stats-Keeps, update_config-Keeps, block-Keeps,
}
use lookout.Fwctl.{
  cmd_policy, cmd_config, cmd_config_set, cmd_reset, unallow_all, clear_rules, change_bits, set_bit,
  clear_bit, check_rate, check_burst, Settings, ResetArgs, defaults,
}
use lookout.Fwctl.Lists.{
  Line, each, allow_one, unallow_one, block_one, unblock_one, set_one, del_one, cmd_allow,
  cmd_block, cmd_port, AllowArgs, BlockArgs, PortArgs, action_name, address_part,
}

each-Keeps :
    {W A : Type 0} {I : W → Type 0} (f : A → Exec W Line) (xs : List A)
    → ((x : A) → Keeps I (f x))
    → Keeps I (each f xs)
unfolding each
each-Keeps f [] h = keeps_pure []
each-Keeps f (x ∷ xs) h = do line ← h x; rest ← each-Keeps f xs h; keeps_pure (line ∷ rest)

module _ {W : Type 0} (m : Machine W) (sys : System W) (pin_dir : Text) (fw : Firewall)
    (I : W → Type 0) (r : Reads m.kernel I) (c : Writes m.kernel I) (clock : Keeps I m.ktime_ns)
    (info : Keeps I (prog_info m.kernel sys pin_dir)) where
  allow_one-Keeps : (cidr : Text) → Keeps I (allow_one m fw cidr)
  unfolding allow_one
  allow_one-Keeps cidr = do
    allow-Keeps m fw I r c cidr
    net ← keeps_lift (parse_cidr cidr)
    keeps_pure _

  pub cmd_allow-Keeps : (args : AllowArgs) → Keeps I (cmd_allow m fw args)
  unfolding cmd_allow unallow_one
  cmd_allow-Keeps (AllowArgs.add cidrs) = each-Keeps _ cidrs allow_one-Keeps
  cmd_allow-Keeps (AllowArgs.del cidrs) =
      each-Keeps _ cidrs (λ cidr. do gone ← unallow-Keeps m fw I r c cidr; keeps_pure _)
  cmd_allow-Keeps AllowArgs.list = do rows ← list_allowed-Keeps m fw I r c; keeps_pure _

  block_one-Keeps : (duration : Ratio) (cidr : Text) → Keeps I (block_one m fw duration cidr)
  unfolding block_one
  block_one-Keeps duration cidr = do
    held ← is_allowed-Keeps m fw I r (address_part cidr)
    keeps_if held (keeps_pure _) (do
      block-Keeps m fw I r c clock cidr duration block_manual
      net ← keeps_lift (parse_cidr cidr)
      keeps_pure _)

  pub cmd_block-Keeps : (args : BlockArgs) → Keeps I (cmd_block m fw args)
  unfolding cmd_block unblock_one
  cmd_block-Keeps (BlockArgs.add cidrs duration) = each-Keeps _ cidrs (block_one-Keeps duration)
  cmd_block-Keeps (BlockArgs.del cidrs) =
      each-Keeps _ cidrs (λ cidr. do gone ← unblock-Keeps m fw I r c cidr; keeps_pure _)
  cmd_block-Keeps BlockArgs.flush = do n ← clear_blocks-Keeps m fw I r c; keeps_pure _
  cmd_block-Keeps (BlockArgs.list all) = do
    rows ← list_blocked-Keeps m fw I r clock all
    keeps_pure _

  pub cmd_port-Keeps : (args : PortArgs) → Keeps I (cmd_port m fw args)
  unfolding cmd_port set_one del_one
  cmd_port-Keeps (PortArgs.set allowing proto ports) =
      each-Keeps _ ports (λ n. do set_port_rule-Keeps m fw I r c proto n _; keeps_pure _)
  cmd_port-Keeps (PortArgs.del proto ports) =
      each-Keeps _ ports (λ n. do gone ← del_port_rule-Keeps m fw I r c proto n; keeps_pure _)
  cmd_port-Keeps PortArgs.flush = do n ← clear_port_rules-Keeps m fw I r c; keeps_pure _
  cmd_port-Keeps PortArgs.list = do
    cfg ← read_config-Keeps m fw I r
    action ← keeps_lift (or_raise (Dict.lookup Names.default_policy cfg) key_error)
    name ← keeps_lift (action_name action)
    rows ← list_port_rules-Keeps m fw I r c
    keeps_pure _

  pub cmd_policy-Keeps : (p : Option Bool) → Keeps I (cmd_policy m fw p)
  unfolding cmd_policy
  cmd_policy-Keeps none = do
    cfg ← read_config-Keeps m fw I r
    action ← keeps_lift (or_raise (Dict.lookup Names.default_policy cfg) key_error)
    name ← keeps_lift (action_name action)
    keeps_pure _
  cmd_policy-Keeps (some true) = do
    cfg ← update_config-Keeps m fw I r c ((Names.default_policy, allow_action) ∷ [])
    keeps_pure _
  cmd_policy-Keeps (some false) = do
    cfg ← update_config-Keeps m fw I r c ((Names.default_policy, deny_action) ∷ [])
    rules ← list_port_rules-Keeps m fw I r c
    keeps_pure _

  pub cmd_config-Keeps : (args : Option Settings) → Keeps I (cmd_config m fw args)
  unfolding cmd_config cmd_config_set
  cmd_config-Keeps none = do
    cfg ← read_config-Keeps m fw I r
    action ← keeps_lift (or_raise (Dict.lookup Names.default_policy cfg) key_error)
    name ← keeps_lift (action_name action)
    keeps_pure cfg
  cmd_config-Keeps (some args) = do
    cfg ← read_config-Keeps m fw I r
    feats ← keeps_lift (or_raise (Dict.lookup Names.features cfg) key_error)
    enabled ← keeps_lift (change_bits set_bit args.enable feats)
    new ← keeps_lift (change_bits clear_bit args.disable enabled)
    rate ← keeps_lift (check_rate args.rate)
    burst ← keeps_lift (check_burst args.burst)
    update_config-Keeps m fw I r c _

  unallow_all-Keeps : (n : ℕ) (es : List Allowed) → Keeps I (unallow_all m fw n es)
  unfolding unallow_all
  unallow_all-Keeps n [] = keeps_pure n
  unallow_all-Keeps n (e ∷ es) = do
    gone ← unallow-Keeps m fw I r c e.cidr
    unallow_all-Keeps (if gone then n + 1 else n) es

  clear_rules-Keeps : Keeps I (clear_rules m fw)
  unfolding clear_rules
  clear_rules-Keeps = do
    entries ← list_allowed-Keeps m fw I r c
    n ← unallow_all-Keeps 0 entries
    k ← clear_port_rules-Keeps m fw I r c
    update_config-Keeps m fw I r c defaults
    keeps_pure (n, k)

  pub cmd_reset-Keeps : (args : ResetArgs) → Keeps I (cmd_reset m fw args)
  unfolding cmd_reset
  cmd_reset-Keeps args = do
    reset_stats-Keeps m fw I r c
    n ← clear_states-Keeps m fw I r c
    b ←
        keeps_if (args.blocks || args.all)
          (do k ← clear_blocks-Keeps m fw I r c; keeps_pure (some k)) (keeps_pure none)
    q ← keeps_if args.all (do k ← clear_rules-Keeps; keeps_pure (some k)) (keeps_pure none)
    keeps_pure _
