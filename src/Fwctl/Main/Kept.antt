-- ===== src/Fwctl/Main/Kept.antt =====
-- control/fwctl.py: that every command keeps what the calls of the kernel keep.
use lookout.Common.{ℕ, zero, suc, false, Bool, Option, none, some}
use lookout.Common.Int.{ℤ, pos}
use lookout.Common.Dict
use lookout.Common.Dict.{Dict}
use lookout.Common.Text.{Text, codes, text_eq}
use lookout.Common.Exec
use lookout.Common.Exec.{Exec, or_raise, key_error, pure}
use lookout.Common.Exec.Keeps.{
  Keeps, keeps_bind as ◌>>=◌, keeps_then as ◌>>◌, keeps_pure, keeps_lift,
}
use lookout.Bpf.Map.Reads.{Reads, keys-Keeps}
use lookout.Bpf.Map.Writes.{Writes}
use lookout.Bpf.Prog.{System}
use lookout.Policy.Aggressiveness
use lookout.Firewall.Constants.{block_manual}
use lookout.Firewall.Machine.{Machine}
use lookout.Firewall.Names
use lookout.Firewall.Life.{prog_info}
use lookout.Firewall.Maps.{Firewall, PortRule, deny_action}
use lookout.Firewall.Rules.{del_port_rule}
use lookout.Firewall.Rules.Reads.{
  is_allowed-Keeps, read_states-Keeps, read_stats-Keeps, read_config-Keeps, list_blocked-Keeps,
}
use lookout.Firewall.Rules.Writes.{
  allow-Keeps, unallow-Keeps, unblock-Keeps, set_port_rule-Keeps, del_port_rule-Keeps,
  list_port_rules-Keeps, block-Keeps,
}
use lookout.Fwctl.{cmd_stats, cmd_top}
use lookout.Fwctl.Lists.{action_name, values_of}
use lookout.Fwctl.Selftest.{
  selftest, check_block, check_allow, check_port, check_stats, find_rule, test_ip, test_port,
  is_denied,
}
use lookout.Fwctl.Main.Handlers.{
  cmd_allow-Keeps, cmd_block-Keeps, cmd_port-Keeps, cmd_policy-Keeps, cmd_config-Keeps,
  cmd_reset-Keeps,
}
use lookout.Fwctl.Status.{cmd_status, value_of, lines_with}
use lookout.Fwctl.Main.{
  Command, status, allow, block, port, policy, top, top_watched, stats, config, reset, selftest_all,
  handler, cmd_selftest, watch,
}

module _ {W : Type 0} (m : Machine W) (sys : System W) (pin_dir : Text) (fw : Firewall)
    (I : W → Type 0) (r : Reads m.kernel I) (c : Writes m.kernel I) (clock : Keeps I m.ktime_ns)
    (info : Keeps I (prog_info m.kernel sys pin_dir))
    (sleep : (n : ℕ) → Keeps I (sys.sleep n)) where
  cmd_status-Keeps : Keeps I (cmd_status m sys pin_dir fw)
  unfolding cmd_status
  cmd_status-Keeps = do
    cfg ← read_config-Keeps m fw I r
    s ← read_stats-Keeps m fw I r
    prog ← info
    action ← keeps_lift (value_of Names.default_policy cfg)
    name ← keeps_lift (action_name action)
    rules ← keys-Keeps m.kernel I r fw.portrules
    rate ← keeps_lift (value_of Names.rate_pps cfg)
    burst ← keeps_lift (value_of Names.burst_pkts cfg)
    level ← keeps_lift (value_of Names.aggressiveness cfg)
    feats ← keeps_lift (value_of Names.features cfg)
    allowed ← keys-Keeps m.kernel I r fw.allowlist
    blocked ← list_blocked-Keeps m fw I r clock false
    tracked ← keys-Keeps m.kernel I r fw.srcstate
    received ← keeps_lift (value_of (codes "rx_packets") s)
    received_bytes ← keeps_lift (value_of (codes "rx_bytes") s)
    passed ← keeps_lift (value_of (codes "passes_total") s)
    pass_lines ← keeps_lift (lines_with (codes "pass_") Names.stat_names s)
    dropped ← keeps_lift (value_of (codes "drops_total") s)
    drop_lines ← keeps_lift (lines_with (codes "drop_") Names.stat_names s)
    state_full ← keeps_lift (value_of (codes "state_full") s)
    keeps_pure _

  cmd_stats-Keeps : Keeps I (cmd_stats m fw)
  unfolding cmd_stats
  cmd_stats-Keeps = do s ← read_stats-Keeps m fw I r; keeps_lift (values_of Names.stat_names s)

  cmd_top-Keeps : (n : ℤ) → Keeps I (cmd_top m fw n)
  unfolding cmd_top
  cmd_top-Keeps n = do states ← read_states-Keeps m fw I r; keeps_pure _

  check_block-Keeps : Keeps I (check_block m fw)
  unfolding check_block
  check_block-Keeps = do
    block-Keeps m fw I r c clock test_ip (Aggressiveness.whole 5) block_manual
    entries ← list_blocked-Keeps m fw I r clock false
    unblock-Keeps m fw I r c test_ip
    keeps_pure _

  check_allow-Keeps : Keeps I (check_allow m fw)
  unfolding check_allow
  check_allow-Keeps = do
    allow-Keeps m fw I r c (codes "198.51.100.0/24")
    held ← is_allowed-Keeps m fw I r (codes "198.51.100.7")
    unallow-Keeps m fw I r c (codes "198.51.100.0/24")
    keeps_pure held

  rule_goes :
      (had : Option PortRule) (passed : Bool)
      → Keeps I (elim had [
        | some _ ↦ pure passed
        | none ↦ Exec.◌>>=◌ (del_port_rule m fw (codes "udp") (pos test_port)) (λ gone. pure passed)
      ])
  rule_goes none passed = do
    gone ← del_port_rule-Keeps m fw I r c (codes "udp") (pos test_port)
    keeps_pure passed
  rule_goes (some rule) passed = keeps_pure passed

  check_port-Keeps : Keeps I (check_port m fw)
  unfolding check_port
  check_port-Keeps = do
    had ← list_port_rules-Keeps m fw I r c
    set_port_rule-Keeps m fw I r c (codes "udp") (pos test_port) deny_action
    rules ← list_port_rules-Keeps m fw I r c
    rule_goes (find_rule had) (is_denied (find_rule rules))

  check_stats-Keeps : Keeps I (check_stats m fw)
  unfolding check_stats
  check_stats-Keeps = do
    s ← read_stats-Keeps m fw I r
    passes ← keeps_lift (or_raise (Dict.lookup (codes "passes_total") s) key_error)
    drops ← keeps_lift (or_raise (Dict.lookup (codes "drops_total") s) key_error)
    rx ← keeps_lift (or_raise (Dict.lookup (codes "rx_packets") s) key_error)
    keeps_pure _

  selftest-Keeps : Keeps I (selftest m fw)
  unfolding selftest
  selftest-Keeps = do
    cfg ← read_config-Keeps m fw I r
    burst ← keeps_lift (or_raise (Dict.lookup Names.burst_pkts cfg) key_error)
    blocked ← check_block-Keeps
    allowed ← check_allow-Keeps
    ruled ← check_port-Keeps
    counted ← check_stats-Keeps
    states ← read_states-Keeps m fw I r
    keeps_pure _

  cmd_selftest-Keeps : Keeps I (cmd_selftest m sys pin_dir fw)
  unfolding cmd_selftest
  cmd_selftest-Keeps = do checks ← selftest-Keeps; prog ← info; keeps_pure _

  watch-Keeps :
      (show : Exec W (Unit {0})) (rounds : ℕ)
      → Keeps I show
      → Keeps I (watch m sys pin_dir show rounds)
  unfolding watch
  watch-Keeps show zero h = keeps_pure tt
  watch-Keeps show (suc rounds) h = do h; sleep 1_000_000_000; watch-Keeps show rounds h

  pub handler-Keeps : (command : Command) → Keeps I (handler m sys pin_dir command fw)
  unfolding handler
  handler-Keeps status = do s ← cmd_status-Keeps; keeps_pure 0
  handler-Keeps (allow args) = do
    ls ← cmd_allow-Keeps m sys pin_dir fw I r c clock info args
    keeps_pure 0
  handler-Keeps (block args) = do
    ls ← cmd_block-Keeps m sys pin_dir fw I r c clock info args
    keeps_pure 0
  handler-Keeps (port args) = do
    ls ← cmd_port-Keeps m sys pin_dir fw I r c clock info args
    keeps_pure 0
  handler-Keeps (policy p) = do
    q ← cmd_policy-Keeps m sys pin_dir fw I r c clock info p
    keeps_pure 0
  handler-Keeps (top n) = do rows ← cmd_top-Keeps n; keeps_pure 0
  handler-Keeps (top_watched n rounds) = do
    watch-Keeps _ rounds (do rows ← cmd_top-Keeps n; keeps_pure tt)
    keeps_pure 0
  handler-Keeps stats = do s ← cmd_stats-Keeps; keeps_pure 0
  handler-Keeps (config args) = do
    cfg ← cmd_config-Keeps m sys pin_dir fw I r c clock info args
    keeps_pure 0
  handler-Keeps (reset args) = do
    gone ← cmd_reset-Keeps m sys pin_dir fw I r c clock info args
    keeps_pure 0
  handler-Keeps selftest_all = cmd_selftest-Keeps
