-- ===== src/Controller/DryRun.antt =====
-- control/controller.py, class Controller: what a dry run writes. The calls that write to a map are
-- counted.
pub mod Start
pub mod Whole
use Prim.Native.String.{String}
use mathlib.Core.Path.{subst}
use lookout.Common.{
  ℕ, zero, suc, ◌+◌, ◌-◌, ◌%◌, ◌≤◌, ◌≡◌, refl, sym, ap, ◌∙◌, Bool, true, false, not, ◌&&◌, List, [],
  ◌∷◌, Option, none, some, arith, if◌then◌else◌, ◌==◌, Bool-cases, inl, inr, length,
}
use lookout.Common.Dict.{Dict}
use lookout.Common.Ratio.{Ratio}
use lookout.Common.Int.{ℤ}
use lookout.Common.Exec
use lookout.Common.Exec.{Exec, Result, ok, err}
use lookout.Common.Exec.Keeps.{
  Keeps, keeps_bind as ◌>>=◌, keeps_then as ◌>>◌, keeps_pure, keeps_lift, keeps_gets, keeps_if,
  keeps_modify, keeps_after,
}
use lookout.Common.Text.{Text, text_eq}
use lookout.Bpf.Kernel.{Kernel}
use lookout.Bpf.Map.Reads.{Reads}
use lookout.Detect.State.{Row}
use lookout.Detect.Window
use lookout.Policy.Aggressiveness
use lookout.Policy.Blocker
use lookout.Policy.Blocker.{Note}
use lookout.Policy.Blocker.DryRun.{Asks, update-Keeps, note_pair-Keeps, is_blocked_pair-Keeps}
use lookout.Firewall.Machine.{Machine}
use lookout.Firewall.Maps.{Firewall, allow}
use lookout.Firewall.Keys.{lpm_key}
use lookout.Firewall.Layout.{Bytes, num}
use lookout.Firewall.Layout
use lookout.Firewall.Layout.RoundTrip.{unpack-pack}
use lookout.Bpf.Map
use lookout.Firewall.Rules.Reads.{
  is_allowed-Keeps, read_states-Keeps, read_stats-Keeps, read_config-Keeps, is_blocked-Keeps,
  list_blocked-Keeps,
}
use lookout.Controller.{
  Args, Controller, Station, new_controller, allow_all, outside, on_window, on_aggr, on_blocker,
  classify_all, services, take_load, apply_tier, tune, clean_up, step, tier_changes,
}
use lookout.Controller.Screen.{
  Measured, reason_of, blocker_holds, flagged_or_fine, status, statuses, draw, run,
}
use lookout.Controller.Traffic.{measure_load}
use lookout.Controller.Counting.{aside, counted, counting_kernel, counting}

and_false : (b : Bool) → (b && false) ≡ false
and_false b = ground arith

module _ {W : Type 0} (m : Machine W) (inet_aton : Text → List ℕ) (fw : Firewall) (n : ℕ) where
  abbrev pub I : W × ℕ → Type 0
  I s = s.1 ≡ n

  reads : Reads (counting m).kernel I
  reads = record {
    lookup_elem = λ fd key flags w h. h;
    get_next_key = λ fd key w h. h;
    lookup_batch = λ fd token count flags w h. h;
  }

  asks : Asks (services (counting m) inet_aton fw) I
  asks = record {
    is_allowed = is_allowed-Keeps (counting m) fw I reads;
    time = record { at = λ s h. h };
    strftime = record { at = λ s h. h };
  }

  -- A dry run, with nothing more written.
  abbrev pub IsDry : Station (W × ℕ) → Type 0
  IsDry s = (s.obj.blocker.dry_run ≡ true) × I s.world

  outside-Keeps : {A : Type 0} (f : Exec (W × ℕ) A) → Keeps I f → Keeps IsDry (outside f)
  outside-Keeps f h = record { at = λ s k. (k.0, h.at s.world k.1) }

  take_load-Keeps :
      (stats : Dict Text ℕ) (now : ℕ) → Keeps IsDry (take_load (counting m) inet_aton fw stats now)
  unfolding take_load
  take_load-Keeps stats now = do
    prev ← keeps_gets _
    old ← keeps_gets _
    new ← keeps_lift (measure_load prev stats now old)
    keeps_modify _ (λ s k. k)

  apply_tier-Keeps :
      (args : Args) → args.dry_run ≡ true → Keeps IsDry (apply_tier (counting m) inet_aton fw args)
  unfolding apply_tier
  apply_tier-Keeps args dry = do
    aggr ← keeps_gets _
    lim ← keeps_lift (Aggressiveness.limits aggr)
    rw dry (keeps_pure tt)
    record {
      at = λ s k.
          note_pair-Keeps (services (counting m) inet_aton fw) I asks
            (Note.tier args.dry_run aggr.level lim.0 lim.1) (s.obj.blocker, s.world) k;
    }

  aggr-Keeps :
      (pps drop_ratio : Ratio) → Keeps IsDry (on_aggr (Aggressiveness.update pps drop_ratio))
  aggr-Keeps pps drop_ratio = record { at = λ s k. k }

  tune-Keeps :
      (args : Args) → args.dry_run ≡ true → Keeps IsDry (tune (counting m) inet_aton fw args)
  unfolding tune
  tune-Keeps args dry = keeps_if args.no_auto_tune (keeps_pure tt) (do
    load ← keeps_gets _
    changed ← aggr-Keeps load.pps load.drop_ratio
    keeps_if changed (apply_tier-Keeps args dry) (keeps_pure tt))

  clean_up-Keeps :
      (args : Args) → args.dry_run ≡ true → Keeps IsDry (clean_up (counting m) inet_aton fw args)
  unfolding clean_up
  clean_up-Keeps args dry = do
    cycles ← keeps_gets _
    rw (dry, and_false (cycles % 5 == 0)) (keeps_pure tt)

  step-Keeps :
      (args : Args) → args.dry_run ≡ true → Keeps IsDry (step (counting m) inet_aton fw args)
  unfolding step
  step-Keeps args dry = do
    stats ← outside-Keeps _ (read_stats-Keeps (counting m) fw I reads)
    now ← outside-Keeps _ (record { at = λ s h. h })
    states ← outside-Keeps _ (read_states-Keeps (counting m) fw I reads)
    now_ns ← outside-Keeps _ (record { at = λ s h. h })
    rows ← record { at = λ s k. k }
    record {
      at = λ s k.
          (update-Keeps (services (counting m) inet_aton fw) I asks (classify_all rows)).at
            (s.obj.blocker, s.world) k;
    }
    take_load-Keeps stats now
    tune-Keeps args dry
    clean_up-Keeps args dry
    keeps_modify _ (λ s k. k)
    keeps_pure _

  clock : Keeps I (counting m).ktime_ns
  clock = record { at = λ s h. h }

  holds_now-Keeps :
      (ip : Text) → Keeps IsDry (on_blocker (blocker_holds (counting m) inet_aton fw ip))
  holds_now-Keeps ip = record {
    at = λ s k.
        is_blocked_pair-Keeps (services (counting m) inet_aton fw) I asks ip
          (s.obj.blocker, s.world) k;
  }

  flagged_or_fine-Keeps :
      (ip : Text) (reason : Option String)
      → Keeps IsDry (flagged_or_fine (counting m) inet_aton fw ip reason)
  unfolding flagged_or_fine
  flagged_or_fine-Keeps ip none = keeps_pure _
  flagged_or_fine-Keeps ip (some reason) = do n ← keeps_gets _; keeps_pure _

  status-Keeps :
      (ip : Text) (reason : Option String)
      → Keeps IsDry (status (counting m) inet_aton fw ip reason)
  unfolding status
  status-Keeps ip reason = do
    allowed ← outside-Keeps _ (is_allowed-Keeps (counting m) fw I reads ip)
    keeps_if allowed (keeps_pure _) (do
      held ← outside-Keeps _ (is_blocked-Keeps (counting m) fw I reads clock ip)
      keeps_if held (keeps_pure _) (do
        would ← holds_now-Keeps ip
        keeps_if would (keeps_pure _) (flagged_or_fine-Keeps ip reason)))

  statuses-Keeps :
      (verdicts : Dict Text (Option String)) (rows : List Measured)
      → Keeps IsDry (statuses (counting m) inet_aton fw verdicts rows)
  unfolding statuses
  statuses-Keeps verdicts [] = keeps_pure []
  statuses-Keeps verdicts ((ip, row) ∷ rows) = do
    s ← status-Keeps ip (reason_of ip verdicts)
    rest ← statuses-Keeps verdicts rows
    keeps_pure _

  draw-Keeps :
      (top : ℤ) (rows : Dict Text Row) (verdicts : Dict Text (Option String))
      → Keeps IsDry (draw (counting m) inet_aton fw top rows verdicts)
  unfolding draw
  draw-Keeps top rows verdicts = do
    cfg ← outside-Keeps _ (read_config-Keeps (counting m) fw I reads)
    entries ← outside-Keeps _ (list_blocked-Keeps (counting m) fw I reads clock false)
    policy ← keeps_lift _
    name ← keeps_lift _
    shown ← statuses-Keeps verdicts _
    log ← keeps_gets _
    keeps_pure _

  pub run-Keeps :
      (sleep : ℕ → Exec W (Unit {0})) (args : Args) (interval : ℕ) (top : ℤ) (rounds : ℕ)
      → args.dry_run ≡ true
      → Keeps IsDry (run (counting m) inet_aton fw (λ t. aside (sleep t)) args interval top rounds)
  unfolding run
  run-Keeps sleep args interval top zero dry = keeps_pure []
  run-Keeps sleep args interval top (suc rounds) dry = do
    start ← outside-Keeps (counting m).time (record { at = λ s h. h })
    seen ← step-Keeps args dry
    screen ← draw-Keeps top seen.0 seen.1
    now ← outside-Keeps (counting m).time (record { at = λ s h. h })
    outside-Keeps (aside (sleep (interval + start - now))) (record { at = λ s h. h })
    rest ← run-Keeps sleep args interval top rounds dry
    keeps_pure _

-- With `--dry-run`, and a blocker that was made for it, any number of rounds of the loop make no
-- call that writes to a map, whatever the kernel and the clocks answer, and whether the rounds
-- return or raise.
run-writes_nothing :
    {W : Type 0} (m : Machine W) (inet_aton : Text → List ℕ) (fw : Firewall)
    (sleep : ℕ → Exec W (Unit {0})) (args : Args) (interval : ℕ) (top : ℤ) (rounds : ℕ)
    (c : Controller) (w : W) (n : ℕ)
    → args.dry_run ≡ true
    → c.blocker.dry_run ≡ true
    → (run
        (counting m)
        inet_aton
        fw
        (λ t. aside (sleep t))
        args
        interval
        top
        rounds
        (record { obj = c; world = (w, n) })).1.world.1
      ≡ n
run-writes_nothing m inet_aton fw sleep args interval top rounds c w n dry made =
    ((run-Keeps m inet_aton fw n sleep args interval top rounds dry).at
      (record { obj = c; world = (w, n) }) (made, refl)).1
