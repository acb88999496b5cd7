-- ===== src/Firewall/Life/Descriptors.antt =====
-- control/firewall.py, class Firewall, and control/bpfmap.py, class _Pinned: the descriptors that are
-- open.
use mathlib.Core.Path.{fun_ext}
use lookout.Common.{
  ℕ, ◌+◌, ◌<◌, ◌≡◌, ◌⊎◌, inl, inr, refl, sym, ap, ◌∙◌, List, [], ◌∷◌, Option, none, some, ◌==◌,
  arith, if◌then◌else◌,
}
use lookout.Common.Text.{Text}
use lookout.Common.Exec.{Result, ok, pure, raise, ◌>>=◌}
use lookout.Common.Exec.Keeps.{Keeps}
use lookout.Common.Exec.Runs.{Ends}
use lookout.Firewall.Machine.{Machine}
use lookout.Bpf.Kernel.{done, fail}
use lookout.Bpf.Map.{open_pinned, or_error}
use lookout.Bpf.Map.Reads.{Reads}
use lookout.Bpf.Map.Writes.{Writes}
use lookout.Bpf.Prog.{System, close, close_each}
use lookout.Firewall.Life.{still_open}

abbrev pub one : ℕ → ℕ → ℕ
one fd x = if fd == x then 1 else 0

-- How often a descriptor is open, with some more.
abbrev pub with_fds : List ℕ → (ℕ → ℕ) → ℕ → ℕ
with_fds [] f x = f x
with_fds (fd ∷ fds) f x = one fd x + with_fds fds f x

-- The documented behaviour of the kernel on descriptors: `opened` says how often one is open.
pub record IsSystem {W : Type 0} (m : Machine W) (sys : System W) (opened : W → ℕ → ℕ)
    : Type 0 where
  pub reads : (f : ℕ → ℕ) → Reads m.kernel (λ w. opened w ≡ f)
  pub changes : (f : ℕ → ℕ) → Writes m.kernel (λ w. opened w ≡ f)
  pub clock : (f : ℕ → ℕ) → Keeps (λ w. opened w ≡ f) m.ktime_ns
  pub sleeps : (f : ℕ → ℕ) (n : ℕ) → Keeps (λ w. opened w ≡ f) (sys.sleep n)
  pub cpus : (w : W) → opened (m.kernel.cpu_possible w).1 ≡ opened w
  pub opens :
      (path : Text) (w : W)
      → ((fd : ℕ) × (((m.kernel.obj_get path w).0 ≡ done fd)
            × (opened (m.kernel.obj_get path w).1 ≡ with_fds (fd ∷ []) (opened w))))
        ⊎ ((errno : ℕ) × (((m.kernel.obj_get path w).0 ≡ fail errno)
              × (opened (m.kernel.obj_get path w).1 ≡ opened w)))
  pub info : (fd size : ℕ) (w : W) → opened (sys.object_info fd size w).1 ≡ opened w
  pub closes :
      (fd : ℕ) (w : W)
      → 0 < opened w fd
      → ((sys.os_close fd w).0 ≡ ok tt)
        × (opened w ≡ with_fds (fd ∷ []) (opened (sys.os_close fd w).1))

one_self : (fd : ℕ) → one fd fd ≡ 1
one_self fd = ground arith

same_rest : (a b c : ℕ) → a + b ≡ a + c → b ≡ c
same_rest a b c h = omega (arith, h)

held : (fd n : ℕ) (fds : List ℕ) (f : ℕ → ℕ) → n ≡ with_fds (fd ∷ fds) f fd → 0 < n
held fd n fds f h = omega (arith, h, one_self fd)

abbrev pub all_closed : List ℕ → List (Option ℕ)
all_closed [] = []
all_closed (fd ∷ fds) = none ∷ all_closed fds

module _ {W : Type 0} (m : Machine W) (sys : System W) (opened : W → ℕ → ℕ)
    (system : IsSystem m sys opened) where
  abbrev Closes : {A : Type 0} → (ℕ → ℕ) → Result A × W → A → Type 0
  Closes f r a = (r.0 ≡ ok a) × (opened r.1 ≡ f)

  pub close-Closes :
      (fd : ℕ) (fds : List ℕ) (f : ℕ → ℕ) (w : W)
      → opened w ≡ with_fds (fd ∷ fds) f
      → Closes (with_fds fds f) (close m.kernel sys (some fd) w) none
  unfolding close ◌>>=◌ pure
  close-Closes fd fds f w h =
      let (e, left) = system.closes fd w (held fd (opened w fd) fds f (ap (λ g. g fd) h)) in
      rw e
        (refl, fun_ext λ x. same_rest (one fd x) _ _ (sym (ap (λ g. g x) left) ∙ ap (λ g. g x) h))

  pub close_each-Closes :
      (fds : List ℕ) (f : ℕ → ℕ) (w : W)
      → opened w ≡ with_fds fds f
      → Closes f (close_each m.kernel sys (still_open fds) w) (all_closed fds)
  unfolding close_each ◌>>=◌ pure
  close_each-Closes [] f w h = (refl, h)
  close_each-Closes (fd ∷ fds) f w h =
      let (e, left) = close-Closes fd fds f w h in
      let (d, gone) = close_each-Closes fds f (close m.kernel sys (some fd) w).1 left in
      rw (e, d) (refl, gone)

  -- A map is opened, or nothing is.
  pub open_pinned-opens :
      (path : Text) (f : ℕ → ℕ) (w : W)
      → opened w ≡ f
      → Ends
          (λ fd w'. opened w' ≡ with_fds (fd ∷ []) f)
          (λ w'. opened w' ≡ f)
          (open_pinned m.kernel path w)
  unfolding open_pinned or_error ◌>>=◌ pure raise
  open_pinned-opens path f w h = elim (system.opens path w) [
    | inl (fd, (e, left)) ↦ rw e (left ∙ ap (with_fds (fd ∷ [])) h)
    | inr (errno, (e, left)) ↦ rw e (left ∙ h)
  ]
