-- ===== src/Controller/DryRun/Whole.antt =====
-- control/controller.py, `main`: what a dry run writes from its start to its end.
use lookout.Common.{ℕ, ◌≡◌, refl, Bool, true, false, List, [], ◌∷◌, Option, none, some}
use lookout.Common.Exec
use lookout.Common.Exec.{Exec, Error, Result, ok, err, is_os_error, ignored}
use lookout.Common.Exec.Keeps.{
  Keeps, keeps_bind as ◌>>=◌, keeps_then as ◌>>◌, keeps_pure, keeps_raise, keeps_if,
}
use lookout.Common.Text.{Text, text_eq}
use lookout.Bpf.Cpus.{possible_cpus}
use lookout.Bpf.Kernel.{Reply, done, fail}
use lookout.Bpf.Map.{new_map, open_pinned, or_error}
use lookout.Bpf.Prog.{System, close, close_each}
use lookout.Firewall.Machine.{Machine}
use lookout.Firewall.Maps.{Firewall}
use lookout.Firewall.Life.{new_firewall, close_maps}
use lookout.Controller.{Controller, Station, new_controller, allow_all}
use lookout.Controller.Counting.{aside, counting, counting_system}
use lookout.Controller.DryRun.{run-Keeps}
use lookout.Controller.Process.{
  Options, Session, exit_of, with_object, run_object, controlled, main,
}

module _ {W : Type 0} (m : Machine W) (sys : System W) (pin_dir : Text) (inet_aton : Text → List ℕ)
    (set_priority : Exec W (Unit {0})) (n : ℕ) where
  abbrev Same : W × ℕ → Type 0
  Same s = s.1 ≡ n

  or_error-Keeps : {A : Type 0} (r : Reply A) → Keeps Same (or_error (counting m).kernel r)
  unfolding or_error
  or_error-Keeps (done a) = keeps_pure a
  or_error-Keeps (fail e) = keeps_raise _

  open_pinned-Keeps : (path : Text) → Keeps Same (open_pinned (counting m).kernel path)
  unfolding open_pinned
  open_pinned-Keeps path = do r ← (record { at = λ s h. h }); or_error-Keeps r

  new_map-Keeps :
      (path : Text) (key_size value_size : ℕ) (percpu : Bool)
      → Keeps Same (new_map (counting m).kernel path key_size value_size percpu)
  unfolding new_map possible_cpus
  new_map-Keeps path key_size value_size false = do fd ← open_pinned-Keeps path; keeps_pure _
  new_map-Keeps path key_size value_size true = do
    cpus ← cpus-Keeps
    fd ← open_pinned-Keeps path
    keeps_pure _
    where
      cpus-Keeps : Keeps Same (possible_cpus (counting m).kernel)
      cpus-Keeps = record { at = λ s h. h }

  new_firewall-Keeps : Keeps Same (new_firewall (counting m).kernel (counting_system sys) pin_dir)
  unfolding new_firewall
  new_firewall-Keeps = do
    allowlist ← new_map-Keeps _ 8 16 false
    blocklist ← new_map-Keeps _ 8 24 false
    portrules ← new_map-Keeps _ 4 16 true
    srcstate ← new_map-Keeps _ 4 104 false
    stats ← new_map-Keeps _ 4 8 true
    config ← new_map-Keeps _ 4 32 false
    keeps_pure _

  close_each-Keeps :
      (fds : List (Option ℕ))
      → Keeps Same (close_each (counting m).kernel (counting_system sys) fds)
  unfolding close_each close
  close_each-Keeps [] = keeps_pure []
  close_each-Keeps (none ∷ fds) = do
    closed ← keeps_pure none
    rest ← close_each-Keeps fds
    keeps_pure _
  close_each-Keeps (some fd ∷ fds) = do
    closed ← (do (record { at = λ s h. h }); keeps_pure none)
    rest ← close_each-Keeps fds
    keeps_pure _

  close_maps-Keeps :
      (fw : Firewall) → Keeps Same (close_maps (counting m).kernel (counting_system sys) pin_dir fw)
  unfolding close_maps
  close_maps-Keeps fw = do closed ← close_each-Keeps _; keeps_pure tt

  with_object-Keeps :
      {A : Type 0} (r : Result A × Station (W × ℕ)) → Same r.1.world → Same (with_object r).1
  with_object-Keeps (ok a, s) h = h
  with_object-Keeps (err c, s) h = h

  run_object-Keeps :
      (fw : Firewall) (o : Options) (rounds : ℕ) (c : Controller)
      → o.args.dry_run ≡ true
      → c.blocker.dry_run ≡ true
      → Keeps Same (
          run_object
            (counting m)
            (counting_system sys)
            pin_dir
            inet_aton
            (aside set_priority)
            fw
            o
            rounds
            c)
  unfolding run_object
  run_object-Keeps fw o rounds c dry made = record {
    at = λ s h.
        with_object-Keeps _
          ((run-Keeps m inet_aton fw n sys.sleep o.args o.interval o.top rounds dry).at
            (record { obj = c; world = s }) (made, h)).1;
  }

  -- Without `--allow` the object is made without a call.
  started-Keeps :
      {A : Type 0} (fw : Firewall) (o : Options) (f : Controller → Exec (W × ℕ) A)
      → o.args.dry_run ≡ true
      → o.allow ≡ []
      → ((c : Controller) → c.blocker.dry_run ≡ true → Keeps Same (f c))
      → Keeps Same (Exec.◌>>=◌ (new_controller (counting m) inet_aton fw o.args o.allow) f)
  unfolding new_controller allow_all Exec.◌>>=◌
  started-Keeps fw o f dry nothing k = record { at = λ s h. rw (nothing) ((k _ dry).at s h) }

  controlled-Keeps :
      (o : Options) (rounds : ℕ)
      → o.args.dry_run ≡ true
      → o.allow ≡ []
      → Keeps Same (
          controlled
            (counting m)
            (counting_system sys)
            pin_dir
            inet_aton
            (aside set_priority)
            o
            rounds)
  unfolding controlled
  controlled-Keeps o rounds dry nothing = do
    fw ← new_firewall-Keeps
    started-Keeps fw o _ dry nothing (λ c made. do
      ended ← run_object-Keeps fw o rounds c dry made
      close_maps-Keeps fw
      keeps_pure _)

  exit_of-Keeps : (r : Result Session × (W × ℕ)) → Same r.1 → Same (exit_of r).1
  exit_of-Keeps (ok s, w) h = h
  exit_of-Keeps (err c, w) h = h

  ignored-Keeps : {A : Type 0} (r : Result A × (W × ℕ)) → Same r.1 → Same (ignored r).1
  ignored-Keeps (ok a, w) h = h
  ignored-Keeps (err c, w) h = h

  -- With `--dry-run` and without `--allow` the process makes no call that writes to a map from its
  -- start to its end, however many rounds it runs, whatever the kernel and the clocks answer, and
  -- however it ends.
  pub main-writes_nothing :
      (is_root : Bool) (o : Options) (rounds : ℕ) (w : W)
      → o.args.dry_run ≡ true
      → o.allow ≡ []
      → (main
          (counting m)
          (counting_system sys)
          pin_dir
          inet_aton
          (aside set_priority)
          is_root
          o
          rounds
          (w, n)).1.1
        ≡ n
  unfolding main
  main-writes_nothing is_root o rounds w dry nothing =
      (keeps_if {I = Same} is_root
          (do
            (record { at = λ s h. ignored-Keeps (aside set_priority s) h })
            (record {
              at = λ s h. exit_of-Keeps _ ((controlled-Keeps o rounds dry nothing).at s h);
            }))
          (keeps_pure _)).at
        (w, n) refl
