-- ===== src/Controller.antt =====
-- control/controller.py, class Controller: one second of the control plane.
pub mod Traffic
pub mod Screen
pub mod Counting
pub mod DryRun
pub mod Process
use lookout.Common.{
  ℕ, ◌+◌, ◌-◌, ◌*◌, ◌%◌, Bool, true, false, not, ◌&&◌, ◌||◌, List, [], ◌∷◌, Option, none, some, ltb,
  ◌==◌, if◌then◌else◌,
}
use Prim.Native.String.{String}
use lookout.Common.Int.{pos}
use lookout.Common.Ratio.{Ratio}
use lookout.Common.Dict.{Dict}
use lookout.Common.Exec.{Exec, Result, pure, lift, gets, modify, ◌>>=◌, ◌>>◌}
use lookout.Common.Text.{Text, text_eq}
use lookout.Detect.State.{SrcState, Row}
use lookout.Detect.Window
use lookout.Detect.Window.{Window}
use lookout.Detect.Classify.{classify}
use lookout.Policy.Aggressiveness
use lookout.Policy.Aggressiveness.{Aggressiveness}
use lookout.Policy.Blocker
use lookout.Policy.Blocker.{Blocker, Env, Note}
use lookout.Firewall.Machine.{Machine}
use lookout.Firewall.Names
use lookout.Firewall.Maps.{
  Firewall, allow, is_allowed, block, remove_expired_blocks, idle_timeout_s,
}
use lookout.Firewall.Rules.{read_stats, read_states, remove_idle_states, update_config}
use lookout.Controller.Traffic.{Load, measure_load}

-- The options that a step reads.
pub record Args : Type 0 where
  pub dry_run : Bool
  pub no_auto_tune : Bool

pub record Controller : Type 0 where
  pub window : Window Text
  pub blocker : Blocker Text
  pub aggr : Aggressiveness
  pub cycles : ℕ
  -- the counters and the time of the last step
  pub prev : Option (Dict Text ℕ × ℕ)
  pub load : Load

-- The object, and the world outside.
pub record Station (W : Type 0) : Type 0 where
  pub obj : Controller
  pub world : W

module _ {W : Type 0} where
  abbrev pub outside : {A : Type 0} → Exec W A → Exec (Station W) A
  outside m s = let (r, w) = m s.world in (r, record s { world = w })

  abbrev pub on_window : {A : Type 0} → Exec (Window Text) A → Exec (Station W) A
  on_window m s = let (r, x) = m s.obj.window in (r, record s { obj = record s.obj { window = x } })

  abbrev pub on_aggr : {A : Type 0} → Exec Aggressiveness A → Exec (Station W) A
  on_aggr m s = let (r, x) = m s.obj.aggr in (r, record s { obj = record s.obj { aggr = x } })

  abbrev pub on_blocker : {A : Type 0} → Exec (Blocker Text × W) A → Exec (Station W) A
  on_blocker m s =
      let (r, x) = m (s.obj.blocker, s.world) in
      (r, record { obj = record s.obj { blocker = x.0 }; world = x.1 })

-- `{ip: classify(r) for ip, r in rows.items()}`
unfoldable pub classify_all : Dict Text Row → Dict Text (Option String)
classify_all [] = []
classify_all ((ip, row) ∷ rows) = (ip, classify row) ∷ classify_all rows

-- A changed tier, as the names of the settings that it changes.
abbrev pub tier_changes : ℕ → ℕ → ℕ → Dict Text ℕ
tier_changes rate burst level =
    (Names.rate_pps, rate) ∷ (Names.burst_pkts, burst) ∷ (Names.aggressiveness, level) ∷ []

module _ {W : Type 0} (m : Machine W) (inet_aton : Text → List ℕ) (fw : Firewall) where
  unfoldable pub allow_all : List Text → Exec W (Unit {0})
  allow_all [] = pure tt
  allow_all (cidr ∷ cidrs) = do allow m fw cidr; allow_all cidrs

  -- The object of `__init__`, which puts the sources of `--allow` on the allowlist.
  unfoldable pub new_controller : Args → List Text → Exec W Controller
  new_controller args cidrs = do
    allow_all cidrs
    pure (record {
      window = Window.init;
      blocker = Blocker.init args.dry_run;
      aggr = Aggressiveness.init;
      cycles = 0;
      prev = none;
      load = record { pps = Aggressiveness.whole 0; drop_ratio = Aggressiveness.whole 0 };
    })

  -- The firewall and the clock that the blocker calls.
  abbrev pub services : Env W Text
  services = record {
    is_allowed = is_allowed m fw;
    block = λ ip duration reason. block m fw ip (Aggressiveness.whole duration) reason;
    time = m.time;
    strftime = m.strftime;
  }

  -- The load since the last step, and `self.prev = stats, now`.
  unfoldable pub take_load : Dict Text ℕ → ℕ → Exec (Station W) (Unit {0})
  take_load stats now = do
    prev ← gets (λ s. s.obj.prev)
    old ← gets (λ s. s.obj.load)
    new ← lift (measure_load prev stats now old)
    modify (λ s. record s { obj = record s.obj { load = new; prev = some (stats, now) } })

  -- `self.aggr.update` returned true.
  unfoldable pub apply_tier : Args → Exec (Station W) (Unit {0})
  apply_tier args = do
    aggr ← gets (λ s. s.obj.aggr)
    lim ← lift (Aggressiveness.limits aggr)
    let changes = tier_changes lim.0 lim.1 aggr.level
    if args.dry_run then pure tt else (do outside (update_config m fw changes); pure tt)
    on_blocker (λ s.
        let (r, t) =
          Blocker.note services (Note.tier args.dry_run aggr.level lim.0 lim.1)
            (record { obj = s.0; issued = 0; world = s.1 }) in
        (r, (t.obj, t.world)))

  unfoldable pub tune : Args → Exec (Station W) (Unit {0})
  tune args = if args.no_auto_tune then pure tt else do
    load ← gets (λ s. s.obj.load)
    changed ← on_aggr (Aggressiveness.update load.pps load.drop_ratio)
    if changed then apply_tier args else pure tt

  unfoldable pub clean_up : Args → Exec (Station W) (Unit {0})
  clean_up args = do
    cycles ← gets (λ s. s.obj.cycles)
    if cycles % 5 == 0 && not args.dry_run
        then (do
          outside (remove_expired_blocks m fw)
          outside (remove_idle_states m fw inet_aton idle_timeout_s)
          pure tt)
        else pure tt

  unfoldable pub step :
      Args → Exec (Station W) (Dict Text Row × Dict Text (Option String) × Dict Text ℕ)
  step args = do
    stats ← outside (read_stats m fw)
    now ← outside m.monotonic
    states ← outside (read_states m fw)
    now_ns ← outside m.ktime_ns
    rows ← on_window (Window.update states now_ns)
    let verdicts = classify_all rows
    on_blocker (Blocker.update services verdicts)
    take_load stats now
    tune args
    clean_up args
    modify (λ s. record s { obj = record s.obj { cycles = s.obj.cycles + 1 } })
    pure (rows, verdicts, stats)
