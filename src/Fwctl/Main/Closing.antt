-- ===== src/Fwctl/Main/Closing.antt =====
-- control/fwctl.py, `main`: the descriptors that are open when it ends, and how it ends.
use mathlib.Core.Path.{subst}
use lookout.Common.{ℕ, ◌≡◌, refl, ap, ◌∙◌, true, [], ◌∷◌, some}
use lookout.Common.Text.{Text}
use lookout.Common.Exec.{
  Exec, Error, os_error, value_error, zero_division, index_error, key_error, type_error,
  assertion_error, struct_error, no_fuel, Result, ok, err, pure, lift, Result-cases, ◌>>=◌,
}
use lookout.Common.Exec
use lookout.Common.Exec.Keeps.{Keeps, keeps_bind, keeps_pure, keeps_lift}
use lookout.Common.Exec.Runs.{Ends}
use lookout.Bpf.Map.Writes.{or_error-Keeps}
use lookout.Bpf.Prog.{System, info, info_size, read_info, with_exit, close}
use lookout.Firewall.Machine.{Machine}
use lookout.Firewall.Maps.{Firewall}
use lookout.Firewall.Life.{new_firewall, with_firewall, close_maps, prog_info, descriptors}
use lookout.Firewall.Life.Descriptors.{
  IsSystem, with_fds, close-Closes, close_each-Closes, open_pinned-opens,
}
use lookout.Firewall.Life.Opening.{new_firewall-Opens, OpenAll, Left}
use lookout.Fwctl.Main.{Command, Exit, code, failed, handler, main, catch, caught}
use lookout.Fwctl.Main.Kept.{handler-Keeps}

-- How the process ends, given how the handler of its command does.
abbrev pub Decides : Result ℕ → Result Exit → Type 0
Decides (ok n) end = end ≡ ok (code n)
Decides (err (os_error errno)) end = end ≡ ok (failed (os_error errno))
Decides (err value_error) end = end ≡ ok (failed value_error)
Decides (err zero_division) end = end ≡ err zero_division
Decides (err index_error) end = end ≡ err index_error
Decides (err key_error) end = end ≡ err key_error
Decides (err type_error) end = end ≡ err type_error
Decides (err assertion_error) end = end ≡ err assertion_error
Decides (err struct_error) end = end ≡ err struct_error
Decides (err no_fuel) end = end ≡ err no_fuel

caught-Decides :
    {W : Type 0} (r : Result ℕ) (w : W) → Decides r (caught (r, w)).0 × ((caught (r, w)).1 ≡ w)
caught-Decides (ok n) w = (refl, refl)
caught-Decides (err (os_error errno)) w = (refl, refl)
caught-Decides (err value_error) w = (refl, refl)
caught-Decides (err zero_division) w = (refl, refl)
caught-Decides (err index_error) w = (refl, refl)
caught-Decides (err key_error) w = (refl, refl)
caught-Decides (err type_error) w = (refl, refl)
caught-Decides (err assertion_error) w = (refl, refl)
caught-Decides (err struct_error) w = (refl, refl)
caught-Decides (err no_fuel) w = (refl, refl)

module _ {W : Type 0} (m : Machine W) (sys : System W) (opened : W → ℕ → ℕ)
    (system : IsSystem m sys opened) (pin_dir : Text) where
  abbrev Opened : (ℕ → ℕ) → W → Type 0
  Opened f w = opened w ≡ f

  info-Keeps : (fd : ℕ) (f : ℕ → ℕ) → Keeps (Opened f) (info m.kernel sys fd)
  unfolding info
  info-Keeps fd f =
      keeps_bind (record { at = λ w h. system.info fd info_size w ∙ h })
        λ r.
          keeps_bind (or_error-Keeps m.kernel (Opened f) r)
            λ raw. keeps_bind (keeps_lift _) λ name. keeps_pure _

  -- The body of a `with` on one descriptor.
  body_closes :
      {A : Type 0} (fd : ℕ) (f : ℕ → ℕ) (body : Exec W A) (w : W)
      → Keeps (Opened (with_fds (fd ∷ []) f)) body
      → opened w ≡ with_fds (fd ∷ []) f
      → opened (with_exit body (close m.kernel sys (some fd) >>= λ closed. pure tt) w).1 ≡ f
  unfolding with_exit ◌>>=◌ pure
  body_closes fd f body w k h =
      let (e, left) = close-Closes m sys opened system fd [] f (body w).1 (k.at w h) in rw e left

  read_info-Keeps : (f : ℕ → ℕ) → Keeps (Opened f) (prog_info m.kernel sys pin_dir)
  unfolding prog_info read_info ◌>>=◌
  read_info-Keeps f = record {
    at = λ w h. closed _ (open_pinned-opens m sys opened system _ f w h);
  }
    where
      closed :
          (r : Result ℕ × W)
          → Ends (λ fd w'. opened w' ≡ with_fds (fd ∷ []) f) (Opened f) r
          → Opened f
              (Exec.resume
                (λ fd.
                  with_exit
                    (info m.kernel sys fd)
                    (close m.kernel sys (some fd) >>= λ closed. pure tt))
                r).1
      closed (ok fd, w) h = body_closes fd f (info m.kernel sys fd) w (info-Keeps fd _) h
      closed (err c, w) h = h

  maps_closed :
      (fw : Firewall) (f : ℕ → ℕ) (w : W)
      → opened w ≡ with_fds (descriptors fw) f
      → ((close_maps m.kernel sys pin_dir fw w).0 ≡ ok tt)
        × (opened (close_maps m.kernel sys pin_dir fw w).1 ≡ f)
  unfolding close_maps ◌>>=◌ pure
  maps_closed fw f w h =
      let (e, left) = close_each-Closes m sys opened system (descriptors fw) f w h in
      rw e (refl, left)

  handler_keeps :
      (c : Command) (fw : Firewall) (f : ℕ → ℕ) → Keeps (Opened f) (handler m sys pin_dir c fw)
  handler_keeps c fw f =
      handler-Keeps m sys pin_dir fw (Opened f) (system.reads f) (system.changes f) (system.clock f)
        (read_info-Keeps f) (system.sleeps f) c

  -- Over a kernel that opens and closes descriptors as documented, if every map can be opened: a
  -- handler that returns gives the exit code, an OSError or a ValueError that it raises is an error
  -- line, any other exception escapes; and in every case the same descriptors are open at the end as
  -- before the start.
  pub main-closes :
      (c : Command) (w w' : W) (fw : Firewall)
      → new_firewall m.kernel sys pin_dir w ≡ (ok fw, w')
      → Decides (handler m sys pin_dir c fw w').0 (main m sys pin_dir true c w).0
        × (opened (main m sys pin_dir true c w).1 ≡ opened w)
  unfolding main catch with_firewall with_exit ◌>>=◌
  main-closes c w w' fw h =
      let f = opened w in
      let has =
        subst (λ r. Ends (OpenAll m sys opened system f) (Left m sys opened system f) r) h
          ((new_firewall-Opens m sys opened system f pin_dir).at w refl) in
      let kept = (handler_keeps c fw (with_fds (descriptors fw) f)).at w' has in
      let (r, w1) = handler m sys pin_dir c fw w' in
      let (e, left) = maps_closed fw f w1 kept in
      let (decided, after) = caught-Decides r (close_maps m.kernel sys pin_dir fw w1).1 in
      rw (h, e) (decided, ap opened after ∙ left)
