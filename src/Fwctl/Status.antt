-- ===== src/Fwctl/Status.antt =====
-- control/fwctl.py, `cmd_status`: what it shows.
use lookout.Common.{ℕ, ◌/◌, ◌==◌, Bool, List, [], ◌∷◌, Option, none, some, if◌then◌else◌, length}
use lookout.Common.Ratio.{Ratio}
use lookout.Common.Int.{pos}
use lookout.Common.Dict
use lookout.Common.Dict.{Dict}
use lookout.Common.Text.{Text, codes, text_eq}
use lookout.Common.Exec.{Exec, Result, ok, err, key_error, or_raise, pure, lift, ◌>>=◌}
use lookout.Bpf.Map.{keys}
use lookout.Bpf.Prog.{System, ProgInfo}
use lookout.Firewall.Keys.{describe_features}
use lookout.Firewall.Machine.{Machine}
use lookout.Firewall.Names
use lookout.Firewall.Maps.{Firewall, list_blocked}
use lookout.Firewall.Rules.{read_config, read_stats}
use lookout.Firewall.Life.{prog_info}
use lookout.Fwctl.Lists.{action_name}

pub record Status : Type 0 where
  pub prog : ProgInfo
  pub instructions : ℕ
  -- none if the program has not been timed
  pub ns_per_packet : Option Ratio
  pub policy : Text
  pub port_rules : ℕ
  pub rate : ℕ
  pub burst : ℕ
  pub level : ℕ
  pub features : Text
  pub allowed : ℕ
  pub blocked : ℕ
  pub tracked : ℕ
  pub received : ℕ
  pub received_bytes : ℕ
  pub passed : ℕ
  pub pass_lines : Dict Text ℕ
  pub dropped : ℕ
  pub drop_lines : Dict Text ℕ
  pub state_full : ℕ

abbrev pub time_per_packet : ProgInfo → Option Ratio
time_per_packet prog =
    if prog.run_cnt == 0
    then none
    else some (record { num = pos prog.run_time_ns; den = prog.run_cnt })

abbrev pub value_of : Text → Dict Text ℕ → Result ℕ
value_of name s = or_raise (Dict.lookup name s) key_error

abbrev pub line_before : Text → Result ℕ → Result (Dict Text ℕ) → Result (Dict Text ℕ)
line_before name (err c) rest = err c
line_before name (ok v) (err c) = err c
line_before name (ok v) (ok rest) = ok (if v == 0 then rest else (name, v) ∷ rest)

-- `if name.startswith(prefix) and s[name]`, for each name
unfoldable pub lines_with : Text → List Text → Dict Text ℕ → Result (Dict Text ℕ)
lines_with prefix [] s = ok []
lines_with prefix (name ∷ names) s =
    let rest = lines_with prefix names s in
    if Names.starts_with prefix name then line_before name (value_of name s) rest else rest

module _ {W : Type 0} (m : Machine W) (sys : System W) (pin_dir : Text) (fw : Firewall) where
  unfoldable pub cmd_status : Exec W Status
  cmd_status = do
    cfg ← read_config m fw
    s ← read_stats m fw
    prog ← prog_info m.kernel sys pin_dir
    action ← lift (value_of Names.default_policy cfg)
    policy ← lift (action_name action)
    rules ← keys m.kernel fw.portrules
    rate ← lift (value_of Names.rate_pps cfg)
    burst ← lift (value_of Names.burst_pkts cfg)
    level ← lift (value_of Names.aggressiveness cfg)
    feats ← lift (value_of Names.features cfg)
    allowed ← keys m.kernel fw.allowlist
    blocked ← list_blocked m fw Bool.false
    tracked ← keys m.kernel fw.srcstate
    received ← lift (value_of (codes "rx_packets") s)
    received_bytes ← lift (value_of (codes "rx_bytes") s)
    passed ← lift (value_of (codes "passes_total") s)
    pass_lines ← lift (lines_with (codes "pass_") Names.stat_names s)
    dropped ← lift (value_of (codes "drops_total") s)
    drop_lines ← lift (lines_with (codes "drop_") Names.stat_names s)
    state_full ← lift (value_of (codes "state_full") s)
    pure (record {
      prog = prog;
      instructions = prog.xlated_bytes / 8;
      ns_per_packet = time_per_packet prog;
      policy = policy;
      port_rules = length rules;
      rate = rate;
      burst = burst;
      level = level;
      features = describe_features feats;
      allowed = length allowed;
      blocked = length blocked;
      tracked = length tracked;
      received = received;
      received_bytes = received_bytes;
      passed = passed;
      pass_lines = pass_lines;
      dropped = dropped;
      drop_lines = drop_lines;
      state_full = state_full;
    })
