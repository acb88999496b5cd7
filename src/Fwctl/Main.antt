-- ===== src/Fwctl/Main.antt =====
-- control/fwctl.py, `main`: a command that has been parsed, from the opening of the maps to the exit.
pub mod Handlers
pub mod Kept
pub mod Closing
pub mod Overflow
use lookout.Common.{
  ℕ, zero, suc, Bool, true, false, ◌&&◌, List, [], ◌∷◌, ◌++◌, Option, none, some, if◌then◌else◌,
}
use lookout.Common.Int.{ℤ}
use lookout.Common.Text.{Text, codes, text_beq}
use lookout.Common.Exec.{
  Exec, Error, os_error, value_error, zero_division, index_error, key_error, type_error,
  assertion_error, struct_error, no_fuel, Result, ok, err, pure, ◌>>=◌, ◌>>◌,
}
use lookout.Bpf.Prog.{System}
use lookout.Firewall.Machine.{Machine}
use lookout.Firewall.Maps.{Firewall}
use lookout.Firewall.Life.{with_firewall, prog_info}
use lookout.Fwctl.{cmd_policy, cmd_top, cmd_stats, cmd_config, cmd_reset, Settings, ResetArgs}
use lookout.Fwctl.Lists.{cmd_allow, cmd_block, cmd_port, AllowArgs, BlockArgs, PortArgs}
use lookout.Fwctl.Selftest.{selftest}
use lookout.Fwctl.Status.{cmd_status}

-- What the parser of options makes of the command line; `top` with `--watch` is redrawn as often as
-- the number says, until Ctrl-C.
pub data Command : Type 0 where
  status : Command
  allow : AllowArgs → Command
  block : BlockArgs → Command
  port : PortArgs → Command
  policy : Option Bool → Command
  top : ℤ → Command
  top_watched : ℤ → ℕ → Command
  stats : Command
  config : Option Settings → Command
  reset : ResetArgs → Command
  selftest_all : Command

-- How the process ends: with a code, with the line that asks for root, or with an error line.
pub data Exit : Type 0 where
  code : ℕ → Exit
  needs_root : Exit
  failed : Error → Exit

-- `except (OSError, ValueError)`
abbrev pub is_caught : Error → Bool
is_caught (os_error e) = true
is_caught value_error = true
is_caught _ = false

abbrev pub all_ok : List Bool → Bool
all_ok [] = true
all_ok (b ∷ bs) = b && all_ok bs

abbrev pub program_name : Text
program_name = codes "xdp_firewall"

abbrev pub caught : {W : Type 0} → Result ℕ × W → Result Exit × W
caught (ok n, w) = (ok (code n), w)
caught (err c, w) = (if is_caught c then ok (failed c) else err c, w)

unfoldable pub catch : {W : Type 0} → Exec W ℕ → Exec W Exit
catch body w = caught (body w)

module _ {W : Type 0} (m : Machine W) (sys : System W) (pin_dir : Text) where
  -- `watch(fn)`, up to Ctrl-C.
  unfoldable pub watch : Exec W (Unit {0}) → ℕ → Exec W (Unit {0})
  watch show zero = pure tt
  watch show (suc rounds) = do show; sys.sleep 1_000_000_000; watch show rounds

  -- All eight checks, and the code.
  unfoldable pub cmd_selftest : Firewall → Exec W ℕ
  cmd_selftest fw = do
    checks ← selftest m fw
    prog ← prog_info m.kernel sys pin_dir
    pure (if all_ok (checks ++ text_beq prog.name program_name ∷ []) then 0 else 1)

  -- `globals()[f"cmd_{args.cmd}"](fw, args) or 0`
  unfoldable pub handler : Command → Firewall → Exec W ℕ
  handler status fw = do s ← cmd_status m sys pin_dir fw; pure 0
  handler (allow args) fw = do ls ← cmd_allow m fw args; pure 0
  handler (block args) fw = do ls ← cmd_block m fw args; pure 0
  handler (port args) fw = do ls ← cmd_port m fw args; pure 0
  handler (policy p) fw = do p ← cmd_policy m fw p; pure 0
  handler (top_watched n rounds) fw = do watch (do rows ← cmd_top m fw n; pure tt) rounds; pure 0
  handler (top n) fw = do rows ← cmd_top m fw n; pure 0
  handler stats fw = do s ← cmd_stats m fw; pure 0
  handler (config args) fw = do cfg ← cmd_config m fw args; pure 0
  handler (reset args) fw = do gone ← cmd_reset m fw args; pure 0
  handler selftest_all fw = cmd_selftest fw

  unfoldable pub main : Bool → Command → Exec W Exit
  main is_root c =
      if is_root then catch (with_firewall m.kernel sys pin_dir (handler c)) else pure needs_root
