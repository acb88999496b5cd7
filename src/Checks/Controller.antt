-- ===== src/Checks/Controller.antt =====
-- control/controller.py on concrete inputs.
use lookout.Common.{ℕ, ◌+◌, ◌≡◌, refl, true, false, List, [], ◌∷◌}
use lookout.Common.Text.{Text, codes}
use lookout.Firewall.Keys.{lpm_key}
use lookout.Controller.{Args, new_controller}
use lookout.Controller.Counting.{counting, counting_system, aside}
use lookout.Controller.Process.{Options, main}
use lookout.Controller.DryRun.Whole.{main-writes_nothing}
use lookout.Checks.Overflow.{no_system}
use lookout.Common.Int.{pos}
use lookout.Common.Exec.{err, os_error}
use lookout.Controller.DryRun.Start.{new_controller-writes}
use lookout.Checks.Firewall.{machine, firewall}

abbrev dry : Args
dry = record { dry_run = true; no_auto_tune = false }

-- `socket.inet_aton` of one address.
no_bytes : Text → List ℕ
no_bytes _ = 10 ∷ 0 ∷ 0 ∷ 1 ∷ []

-- `--dry-run`, without the right to run ahead of other processes
abbrev options : Options
options = record { args = dry; interval = 1_000_000_000; top = pos 12; allow = [] }

main-writes_nothing_example :
    (main
      (counting machine)
      (counting_system no_system)
      []
      no_bytes
      (aside (λ w. (err (os_error 13), w)))
      true
      options
      3
      (7, 0)).1.1
    ≡ 0
main-writes_nothing_example =
    main-writes_nothing machine no_system [] no_bytes (λ w. (err (os_error 13), w)) 0 true options 3
      7 refl refl

new_controller-writes_example :
    (new_controller (counting machine) no_bytes firewall dry (codes "10.0.0.0/8" ∷ []) (7, 0)).1.1
    ≡ 0 + 1
unfolding lpm_key
new_controller-writes_example =
    new_controller-writes machine no_bytes firewall 7 0 (codes "10.0.0.0/8")
      (8 ∷ 0 ∷ 0 ∷ 0 ∷ 10 ∷ 0 ∷ 0 ∷ 0 ∷ []) refl refl dry
