-- ===== src/Firewall/Life/Opening.antt =====
-- control/firewall.py, class Firewall: what `__init__` opens, and what it leaves open when it raises.
use mathlib.Core.Path.{fun_ext}
use lookout.Common.{ℕ, ◌≡◌, ◌∙◌, Bool, true, false, List, [], ◌∷◌, arith}
use lookout.Common.Text.{Text}
use lookout.Common.Exec.{Result, ok, err}
use lookout.Common.Exec.Runs.{Ends, Runs, runs_bind, runs_pure}
use lookout.Bpf.Cpus.{possible_cpus, count_cpus}
use lookout.Bpf.Map.{open_pinned, new_map}
use lookout.Bpf.Prog.{System}
use lookout.Firewall.Machine.{Machine}
use lookout.Firewall.Maps.{Firewall}
use lookout.Firewall.Life.{new_firewall, descriptors}
use lookout.Firewall.Life.Descriptors.{IsSystem, with_fds, open_pinned-opens}

module _ {W : Type 0} (m : Machine W) (sys : System W) (opened : W → ℕ → ℕ)
    (system : IsSystem m sys opened) (f : ℕ → ℕ) where
  abbrev pub Open : List ℕ → W → Type 0
  Open fds w = opened w ≡ with_fds fds f

  -- Some descriptors are open that were not.
  abbrev pub Left : W → Type 0
  Left w = (fds : List ℕ) × Open fds w

  opened_or_not :
      (fds : List ℕ) (r : Result ℕ × W)
      → Ends
          (λ fd w'. opened w' ≡ with_fds (fd ∷ []) (with_fds fds f))
          (λ w'. opened w' ≡ with_fds fds f)
          r
      → Ends (λ fd. Open (fd ∷ fds)) Left r
  opened_or_not fds (ok fd, w) h = h
  opened_or_not fds (err c, w) h = (fds, h)

  path_opens :
      (path : Text) (fds : List ℕ)
      → Runs (Open fds) (open_pinned m.kernel path) (λ fd. Open (fd ∷ fds)) Left
  path_opens path fds = record {
    at = λ w h.
        opened_or_not fds (open_pinned m.kernel path w)
          (open_pinned-opens m sys opened system path (with_fds fds f) w h);
  }

  counted_or_not :
      {A : Type 0} (fds : List ℕ) (r : Result A) (w : W)
      → Open fds w
      → Ends (λ n. Open fds) Left (r, w)
  counted_or_not fds (ok n) w h = h
  counted_or_not fds (err c) w h = (fds, h)

  cpus_counted : (fds : List ℕ) → Runs (Open fds) (possible_cpus m.kernel) (λ n. Open fds) Left
  unfolding possible_cpus
  cpus_counted fds = record {
    at = λ w h.
        counted_or_not fds (count_cpus m.kernel (m.kernel.cpu_possible w).0)
          (m.kernel.cpu_possible w).1 (system.cpus w ∙ h);
  }

  new_map-Opens :
      (path : Text) (key_size value_size : ℕ) (percpu : Bool) (fds : List ℕ)
      → Runs
          (Open fds)
          (new_map m.kernel path key_size value_size percpu)
          (λ b. Open (b.fd ∷ fds))
          Left
  unfolding new_map
  new_map-Opens path key_size value_size false fds =
      runs_bind (path_opens path fds) (λ fd. runs_pure _ _ (λ w h. h))
  new_map-Opens path key_size value_size true fds =
      runs_bind (cpus_counted fds)
        (λ n. runs_bind (path_opens path fds) (λ fd. runs_pure _ _ (λ w h. h)))

  abbrev pub OpenAll : Firewall → W → Type 0
  OpenAll fw = Open (descriptors fw)

  pub new_firewall-Opens :
      (pin_dir : Text) → Runs (λ w. opened w ≡ f) (new_firewall m.kernel sys pin_dir) OpenAll Left
  unfolding new_firewall
  new_firewall-Opens pin_dir = runs_bind (new_map-Opens _ _ _ _ []) λ a.
      runs_bind (new_map-Opens _ _ _ _ (a.fd ∷ [])) λ b.
        runs_bind (new_map-Opens _ _ _ _ (b.fd ∷ a.fd ∷ [])) λ p.
          runs_bind (new_map-Opens _ _ _ _ (p.fd ∷ b.fd ∷ a.fd ∷ [])) λ s.
            runs_bind (new_map-Opens _ _ _ _ (s.fd ∷ p.fd ∷ b.fd ∷ a.fd ∷ [])) λ t.
              runs_bind (new_map-Opens _ _ _ _ (t.fd ∷ s.fd ∷ p.fd ∷ b.fd ∷ a.fd ∷ []))
                λ g. runs_pure OpenAll _ (λ w h. h ∙ fun_ext λ x. omega arith)
