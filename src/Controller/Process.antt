-- ===== src/Controller/Process.antt =====
-- control/controller.py, `main`: the process, from the opening of the maps to its end. `run` ends by a
-- signal, after a number of rounds.
use lookout.Common.{ℕ, Bool, List, if◌then◌else◌}
use lookout.Common.Text.{Text}
use lookout.Common.Int.{ℤ}
use lookout.Common.Exec.{Exec, Error, Result, ok, err, is_os_error, ignored, pure, ◌>>=◌, ◌>>◌}
use lookout.Bpf.Prog.{System}
use lookout.Firewall.Machine.{Machine}
use lookout.Firewall.Maps.{Firewall}
use lookout.Firewall.Life.{new_firewall, close_maps}
use lookout.Controller.{Args, Controller, Station, new_controller}
use lookout.Controller.Screen.{Screen, run}

-- The options of the command line; the interval in nanoseconds.
pub record Options : Type 0 where
  pub args : Args
  pub interval : ℕ
  pub top : ℤ
  pub allow : List Text

-- What the last lines say after the screens: whether it was a dry run, and the blocks issued.
pub record Session : Type 0 where
  pub screens : List Screen
  pub dry_run : Bool
  pub blocks_issued : ℕ

-- How the process ends.
pub data Ending : Type 0 where
  stopped : Session → Ending
  needs_root : Ending
  failed : Error → Ending

-- `except OSError`
abbrev pub exit_of : {W : Type 0} → Result Session × W → Result Ending × W
exit_of (ok s, w) = (ok (stopped s), w)
exit_of (err c, w) = (if is_os_error c then ok (failed c) else err c, w)

-- A call of a method, with the object after it.
abbrev pub with_object : {W A : Type 0} → Result A × Station W → Result (A × Controller) × W
with_object (ok a, s) = (ok (a, s.obj), s.world)
with_object (err c, s) = (err c, s.world)

module _ {W : Type 0} (m : Machine W) (sys : System W) (pin_dir : Text) (inet_aton : Text → List ℕ)
    (set_priority : Exec W (Unit {0})) where
  unfoldable pub run_object :
      Firewall → Options → ℕ → Controller → Exec W (List Screen × Controller)
  run_object fw o rounds c w =
      with_object (
        run m inet_aton fw sys.sleep o.args o.interval o.top rounds (record { obj = c; world = w }))

  -- `Controller(args).run()`
  unfoldable pub controlled : Options → ℕ → Exec W Session
  controlled o rounds = do
    fw ← new_firewall m.kernel sys pin_dir
    c ← new_controller m inet_aton fw o.args o.allow
    ended ← run_object fw o rounds c
    close_maps m.kernel sys pin_dir fw
    pure (record {
      screens = ended.0;
      dry_run = o.args.dry_run;
      blocks_issued = ended.1.blocker.blocks_issued;
    })

  unfoldable pub main : Bool → Options → ℕ → Exec W Ending
  unfolding controlled
  main is_root o rounds =
      if is_root
      then (do (λ w. ignored (set_priority w)); (λ w. exit_of (controlled o rounds w)))
      else pure needs_root
