-- ===== src/Firewall/Names.antt =====
-- control/firewall.py: the names of the counters and of the settings.
use lookout.Common.{ℕ, ◌+◌, Bool, true, false, List, [], ◌∷◌, ◌&&◌, ◌==◌, if◌then◌else◌}
use lookout.Common.Dict.{Dict}
use lookout.Common.Text.{Text, codes}

-- STAT_NAMES
abbrev pub stat_names : List Text
stat_names =
    codes "rx_packets"
    ∷ codes "rx_bytes"
    ∷ codes "pass_allowlist"
    ∷ codes "pass_rule"
    ∷ codes "pass_default"
    ∷ codes "pass_non_ipv4"
    ∷ codes "drop_blocklist"
    ∷ codes "drop_port_rule"
    ∷ codes "drop_default"
    ∷ codes "drop_proto"
    ∷ codes "drop_ratelimit"
    ∷ codes "drop_malformed"
    ∷ codes "drop_fragment"
    ∷ codes "state_full"
    ∷ []

-- LIMITER_INPUT
abbrev pub limiter_input : List Text
limiter_input = codes "pass_rule" ∷ codes "pass_default" ∷ codes "drop_ratelimit" ∷ []

abbrev pub rate_pps : Text
rate_pps = codes "rate_pps"

abbrev pub burst_pkts : Text
burst_pkts = codes "burst_pkts"

abbrev pub features : Text
features = codes "features"

abbrev pub aggressiveness : Text
aggressiveness = codes "aggressiveness"

abbrev pub default_policy : Text
default_policy = codes "default_policy"

unfoldable pub starts_with : Text → Text → Bool
starts_with [] s = true
starts_with (c ∷ p) [] = false
starts_with (c ∷ p) (x ∷ s) = c == x && starts_with p s

-- `sum(v for k, v in out.items() if k.startswith(prefix))`
unfoldable pub sum_prefixed : Text → Dict Text ℕ → ℕ
unfolding starts_with
sum_prefixed prefix [] = 0
sum_prefixed prefix ((name, v) ∷ out) =
    let rest = sum_prefixed prefix out in if starts_with prefix name then v + rest else rest
