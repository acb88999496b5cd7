-- ===== src/Fwctl/Selftest.antt =====
-- control/fwctl.py, `cmd_selftest`, up to its last check, which stands in Fwctl/Main. The lists are
-- read to their ends, also where the search stops earlier.
use lookout.Common.{
  ℕ, ◌+◌, ◌*◌, Bool, true, false, ◌&&◌, ◌||◌, List, [], ◌∷◌, ◌++◌, Option, none, some, ltb, leb,
  ◌==◌, if◌then◌else◌,
}
use lookout.Common.Int.{pos}
use lookout.Common.Dict
use lookout.Common.Dict.{Dict}
use lookout.Common.Exec.{Exec, key_error, or_raise, pure, lift, ◌>>=◌, ◌>>◌}
use lookout.Common.Text.{Text, codes, text_eq, text_beq}
use lookout.Detect.State.{SrcState}
use lookout.Policy.Aggressiveness
use lookout.Firewall.Constants.{block_manual}
use lookout.Firewall.Machine.{Machine}
use lookout.Firewall.Names
use lookout.Firewall.Maps.{
  Firewall, Blocked, PortRule, block, unblock, allow, unallow, is_allowed, list_blocked,
  deny_action,
}
use lookout.Firewall.Rules.{
  read_config, read_stats, read_states, list_port_rules, set_port_rule, del_port_rule,
}

abbrev pub test_ip : Text
test_ip = codes "203.0.113.42"

abbrev pub test_port : ℕ
test_port = 65001

-- `next((e for e in … if e["cidr"].startswith(ip)), None)`
unfoldable pub find_block : Text → List Blocked → Option Blocked
find_block ip [] = none
find_block ip (e ∷ es) = if Names.starts_with ip e.cidr then some e else find_block ip es

-- More than four seconds are left, and at most five.
abbrev pub is_fresh : Option ℕ → Bool
is_fresh none = false
is_fresh (some left) = ltb 4_000_000_000 left && leb left 5_000_000_000

abbrev pub is_test_rule : PortRule → Bool
is_test_rule r = text_beq r.proto (codes "udp") && (r.port == test_port)

unfoldable pub find_rule : List PortRule → Option PortRule
find_rule [] = none
find_rule (r ∷ rs) = if is_test_rule r then some r else find_rule rs

abbrev pub is_denied : Option PortRule → Bool
is_denied none = false
is_denied (some r) = r.action == deny_action

-- `20 <= st["bytes"] / st["packets"] <= 65536`, of the sources that have sent packets
unfoldable pub sane_sizes : Dict Text SrcState → Bool
sane_sizes [] = true
sane_sizes ((ip, st) ∷ states) =
    ((st.packets == 0) || (leb (20 * st.packets) st.bytes && leb st.bytes (65536 * st.packets)))
    && sane_sizes states

module _ {W : Type 0} (m : Machine W) (fw : Firewall) where
  -- Checks 2 and 3: a block is read back, with its deadline and its address.
  unfoldable pub check_block : Exec W (Bool × Bool)
  check_block = do
    block m fw test_ip (Aggressiveness.whole 5) block_manual
    entries ← list_blocked m fw false
    let entry = find_block test_ip entries
    unblock m fw test_ip
    pure (elim entry [
      | none ↦ (false, false)
      | some e ↦ (is_fresh e.remaining, text_beq e.cidr (test_ip ++ codes "/32"))
    ])

  -- Check 4: the allowlist matches an address in a prefix.
  unfoldable pub check_allow : Exec W Bool
  check_allow = do
    allow m fw (codes "198.51.100.0/24")
    held ← is_allowed m fw (codes "198.51.100.7")
    unallow m fw (codes "198.51.100.0/24")
    pure held

  -- Check 5: a port rule is read back, and goes again unless it was there before.
  unfoldable pub check_port : Exec W Bool
  check_port = do
    had ← list_port_rules m fw
    set_port_rule m fw (codes "udp") (pos test_port) deny_action
    rules ← list_port_rules m fw
    let passed = is_denied (find_rule rules)
    elim (find_rule had) [
      | some _ ↦ pure passed
      | none ↦ (do gone ← del_port_rule m fw (codes "udp") (pos test_port); pure passed)
    ]

  -- Check 6: no packet is counted twice.
  unfoldable pub check_stats : Exec W Bool
  check_stats = do
    s ← read_stats m fw
    passes ← lift (or_raise (Dict.lookup (codes "passes_total") s) key_error)
    drops ← lift (or_raise (Dict.lookup (codes "drops_total") s) key_error)
    rx ← lift (or_raise (Dict.lookup (codes "rx_packets") s) key_error)
    pure (leb (passes + drops) rx)

  -- The results of the checks 1 to 7.
  unfoldable pub selftest : Exec W (List Bool)
  selftest = do
    cfg ← read_config m fw
    burst ← lift (or_raise (Dict.lookup Names.burst_pkts cfg) key_error)
    blocked ← check_block
    allowed ← check_allow
    ruled ← check_port
    counted ← check_stats
    states ← read_states m fw
    pure (ltb 0 burst ∷ blocked.0 ∷ blocked.1 ∷ allowed ∷ ruled ∷ counted ∷ sane_sizes states ∷ [])
