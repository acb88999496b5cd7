-- ===== src/Controller/DryRun/Start.antt =====
-- control/controller.py, class Controller: the start of a dry run.
use lookout.Common.{ℕ, ◌+◌, ◌≡◌, List, [], ◌∷◌, arith, length}
use lookout.Common.Exec
use lookout.Common.Exec.{Exec, Result, ok, err}
use lookout.Common.Exec.Keeps.{keeps_pure, keeps_after}
use lookout.Common.Text.{Text, text_eq}
use lookout.Firewall.Machine.{Machine}
use lookout.Firewall.Maps.{Firewall, allow}
use lookout.Firewall.Keys.{lpm_key}
use lookout.Firewall.Layout.{Bytes, num}
use lookout.Firewall.Layout
use lookout.Firewall.Layout.RoundTrip.{unpack-pack}
use lookout.Bpf.Map
use lookout.Controller.{Args, new_controller, allow_all}
use lookout.Controller.Counting.{counting}

module _ {W : Type 0} (m : Machine W) (inet_aton : Text → List ℕ) (fw : Firewall) (w : W) (n : ℕ)
    (cidr : Text) (key : Bytes) (parsed : lpm_key cidr ≡ ok key)
    (sized : fw.allowlist.value_size ≡ 16) where
  update_writes :
      (val : Bytes)
      → length val ≡ 16
      → (Map.update (counting m).kernel fw.allowlist key val (w, n)).1.1 ≡ n + 1
  unfolding Map.update Exec.◌>>=◌ Map.or_error
  update_writes val h = ground (arith, sized)

  allow_writes : (allow (counting m) fw cidr (w, n)).1.1 ≡ n + 1
  unfolding allow Exec.◌>>=◌
  allow_writes =
      let (val, made, size, back) =
        unpack-pack Layout.allow_val (num 0 ∷ num 0 ∷ num 0 ∷ []) (omega arith) in
      rw (parsed, made) (update_writes val size)

  abbrev Written : W × ℕ → Type 0
  Written s = s.1 ≡ n + 1

  -- The start writes to the allowlist if it is given an `--allow` with a valid prefix, in a dry run
  -- too.
  pub new_controller-writes :
      (args : Args) → (new_controller (counting m) inet_aton fw args (cidr ∷ []) (w, n)).1.1 ≡ n + 1
  unfolding new_controller allow_all
  new_controller-writes args =
      keeps_after {I = Written} _ _ (w, n)
        (keeps_after {I = Written} _ _ (w, n) allow_writes (λ _. keeps_pure tt)) (λ _. keeps_pure _)
