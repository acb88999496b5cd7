-- ===== src/Checks/Fwctl.antt =====
-- control/fwctl.py on concrete listings.
use lookout.Common.{ℕ, ◌≡◌, refl, List, [], ◌∷◌, some, none}
use lookout.Common.Int.{pos}
use lookout.Common.Dict
use lookout.Common.Dict.{Dict}
use lookout.Common.Text.{Text, text_eq}
use lookout.Common.Exec.{Error, ok, err, ◌>>=◌}
use lookout.Bpf.Map
use lookout.Firewall.Layout.{pack, unpack}
use lookout.Firewall.Names
use lookout.Firewall.Rules
use lookout.Fwctl.{Settings, cmd_config_set}
use lookout.Fwctl.Limits.{IsRate, IsBurst, config_set-limits}
use lookout.Checks.Firewall.{machine, firewall, settings}
use lookout.Fwctl.Lists.{sort, place, heavier}

-- Entries by their number, with their hits.
abbrev entries : List (ℕ × ℕ)
entries = (1, 5) ∷ (2, 9) ∷ (3, 5) ∷ []

abbrev hits_of : ℕ × ℕ → ℕ
hits_of e = e.1

by_hits : sort (heavier hits_of) entries ≡ (2, 9) ∷ (1, 5) ∷ (3, 5) ∷ []
unfolding sort place
by_hits = refl

-- `config set --rate 5000 --burst 0`, on the settings of the other checks
abbrev asked : Settings
asked = record {
  enable = [];
  disable = [];
  rate = some (pos 5000);
  burst = some (pos 0);
  aggressiveness = none;
}

config_set-limits_example :
    (¬ (IsRate (some (pos 5000)) × IsBurst (some (pos 0)))
      → ((c : Error) × (cmd_config_set machine firewall asked 7 ≡ (err c, 7))))
    × ((after : Dict Text ℕ) (w3 : ℕ)
        → cmd_config_set machine firewall asked 7 ≡ (ok after, w3)
        → IsRate (some (pos 5000))
          × IsBurst (some (pos 0))
          × (Dict.lookup Names.rate_pps after ≡ some 5000)
          × (Dict.lookup Names.burst_pkts after ≡ some 0))
unfolding Rules.read_config Rules.index_key Rules.unpack_config Rules.config_dict pack unpack
    Map.lookup ◌>>=◌
config_set-limits_example =
    config_set-limits machine firewall asked settings 7 7 refl settings 7 refl
