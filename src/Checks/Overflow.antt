-- ===== src/Checks/Overflow.antt =====
-- Concrete runs of Fwctl/Main/Overflow: a burst of 2 ** 64.
use lookout.Common.{ℕ, ◌+◌, ◌^◌, ◌≡◌, refl, [], ◌∷◌, none, some, arith}
use lookout.Common.Int.{pos}
use lookout.Common.Dict
use lookout.Common.Text.{codes, text_beq}
use lookout.Common.Exec.{ok, err, struct_error, ◌>>=◌}
use lookout.Bpf.Map
use lookout.Bpf.Kernel.{fail}
use lookout.Bpf.Prog.{System}
use lookout.Firewall.Layout.{pack, unpack}
use lookout.Firewall.Rules
use lookout.Fwctl.{Settings, change_bits}
use lookout.Fwctl.Main.{handler, catch, config}
use lookout.Fwctl.Main.Overflow.{config_set-struct_error}
use lookout.Checks.Firewall.{machine, firewall, settings}

abbrev pub no_system : System ℕ
no_system = record {
  object_info = λ fd size w. (fail 1, w);
  os_close = λ fd w. (ok tt, w);
  sleep = λ n w. (ok tt, w + n);
  decode = λ raw. ok raw;
}

-- `config set --enable frags --rate 5000 --burst 18446744073709551616`
abbrev wide : Settings
wide = record {
  enable = codes "frags" ∷ [];
  disable = [];
  rate = some (pos 5000);
  burst = some (pos (2 ^ 64));
  aggressiveness = none;
}

config_set-struct_error_example :
    catch (handler machine no_system [] (config (some wide)) firewall) 7 ≡ (err struct_error, 7)
unfolding Rules.read_config Rules.index_key Rules.unpack_config Rules.config_dict pack unpack
    Map.lookup ◌>>=◌ change_bits text_beq Dict.lookup
config_set-struct_error_example =
    config_set-struct_error machine no_system [] firewall wide (2 ^ 64) settings settings 7 7 7 refl
      (omega arith) (omega arith) (λ f feats. (f feats 32, refl)) (λ f feats. (feats, refl)) refl
      refl
