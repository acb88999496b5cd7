-- ===== src/Checks/Policy.antt =====
-- control/policy.py on concrete inputs, with the stand-in for the firewall of
-- tests/test_policy.py.
use Prim.Native.String.{String}
use lookout.Common.{
  ℕ, ◌+◌, ◌*◌, ◌≤◌, ◌<◌, ◌≡◌, ◌≢◌, ◌↔◌, refl, Bool, true, false, List, [], ◌∷◌, Option, none, some,
  arith, nat_eq, ◌==◌, ◌||◌, if◌then◌else◌,
}
use lookout.Common.Dict.{Dict, insert, lookup, erase}
use lookout.Common.Exec.{ok, ◌>>=◌}
use lookout.Policy.Aggressiveness
use lookout.Policy.Aggressiveness.{Aggressiveness, whole}
use lookout.Policy.Aggressiveness.Tiers.{IsValid, wanted, update-IsValid, level-update}
use lookout.Policy.Aggressiveness.Runs.{Load, after, quiet_relaxes}
use lookout.Policy.Blocker
use lookout.Policy.Blocker.{Env, Blocker}
use lookout.Policy.Blocker.Trace.{watched, IsGuarded, blocks_in, update-IsGuarded}
use lookout.Policy.Blocker.Record.{Fate, Has, hits, priors}
use lookout.Policy.Blocker.Timing.{Timed, duration_for}
use lookout.Policy.Blocker.Durations.{update-Timed}
use lookout.Policy.Blocker.Windows.{updates, update-Fate, alternating_never_blocked}

flood : Load
flood = (whole 300000, whole 0)

abbrev calm_load : Load
calm_load = (whole 0, whole 0)

abbrev top : Aggressiveness
top = record { level = 3; calm = 0 }

-- test_escalates_at_once_and_can_skip_tiers
escalates : Aggressiveness.update (whole 300000) (whole 0) Aggressiveness.init ≡ (ok true, top)
unfolding Aggressiveness.update
escalates = refl

-- test_relaxes_slowly_one_tier_at_a_time
relaxes : (after (calm_load ∷ calm_load ∷ calm_load ∷ calm_load ∷ []) top).level ≡ 3
unfolding after Aggressiveness.update
relaxes = refl

update-IsValid_example :
    let (r, a') = Aggressiveness.update (whole 300000) (whole 0) Aggressiveness.init in
    ((changed : Bool) × (r ≡ ok changed))
    × IsValid a'
    × ((rate : ℕ) × (Aggressiveness.limits a' ≡ ok (rate, 2 * rate)) × (200 ≤ rate))
update-IsValid_example =
    update-IsValid (whole 300000) (whole 0) Aggressiveness.init (omega arith) (omega arith)

-- The fifth calm second from the top level.
abbrev fifth : Aggressiveness
fifth = record { level = 3; calm = 4 }

level-update_example :
    let (r, a') = Aggressiveness.update (whole 10) (whole 0) fifth in
    let target = wanted (whole 10) (whole 0) in
    (3 ≤ target → (a'.level ≡ target) × (a'.calm ≡ 0))
    × (target < 3 → ◌≡◌ {A = ℕ} 4 4 → (a'.level + 1 ≡ 3) × (a'.calm ≡ 0))
    × (target < 3 → 4 < 4 → (a'.level ≡ 3) × (a'.calm ≡ 4 + 1))
    × (target ≤ a'.level)
    × ((r ≡ ok true) ↔ (a'.level ≢ 3))
level-update_example = level-update (whole 10) (whole 0) fifth (omega arith) (omega arith)

abbrev four_calm : List Load
four_calm = calm_load ∷ calm_load ∷ calm_load ∷ calm_load ∷ []

quiet_relaxes_example : (after (calm_load ∷ four_calm) (record { level = 1; calm = 0 })).level ≡ 0
quiet_relaxes_example =
    quiet_relaxes (calm_load ∷ four_calm) (record { level = 1; calm = 0 }) (ground arith)
      (omega arith) (omega arith)

-- class FakeFirewall, and a clock that stands still.
pub record FakeFirewall : Type 0 where
  pub allowed : List ℕ
  pub blocks : Dict ℕ ℕ
  pub now : ℕ

has : ℕ → List ℕ → Bool
has ip [] = false
has ip (j ∷ js) = j == ip || has ip js

abbrev fake : Env FakeFirewall ℕ
fake = record {
  is_allowed = λ ip w. (ok (has ip w.allowed), w);
  block = λ ip duration why w. (ok tt, record w { blocks = insert ip duration w.blocks });
  time = λ w. (ok w.now, w);
  strftime = λ w. (ok "12:00:00", w);
}

abbrev open_world : FakeFirewall
open_world = record { allowed = 9 ∷ []; blocks = []; now = 1000 }

abbrev flagged_1_and_9 : Dict ℕ (Option String)
flagged_1_and_9 = (1, some "syn flood") ∷ (9, some "port scan") ∷ []

abbrev clean_1 : Dict ℕ (Option String)
clean_1 = (1, none) ∷ []

-- test_needs_two_windows_in_a_row, test_allowlisted_source_is_never_blocked
two_windows :
    (updates fake
      (flagged_1_and_9 ∷ flagged_1_and_9 ∷ [])
      (Blocker.init false, open_world)).1.1.blocks
    ≡ (1, 60) ∷ []
unfolding updates Blocker.update Blocker.run_pass Blocker.visit_all Blocker.visit Blocker.judge
    Blocker.issue Blocker.note Blocker.pop_strikes Blocker.is_blocked Blocker.strike Blocker.decay
    Blocker.push_log insert lookup erase has ◌>>=◌
two_windows = refl

update-IsGuarded_example :
    let (r, s) =
      Blocker.update (watched fake) flagged_1_and_9 (Blocker.init false, (open_world, [])) in
    IsGuarded s.1.1
    × (r ≡ ok tt
        → (issued : ℕ) × (issued ≤ 32)
          × (s.0.blocks_issued ≡ 0 + issued)
          × (blocks_in s.1.1 ≡ (if false then 0 else issued)))
update-IsGuarded_example = update-IsGuarded fake (Blocker.init false) flagged_1_and_9 open_world

-- One strike on source 1.
abbrev struck : Blocker ℕ
struck = record (Blocker.init false) { strikes = (1, 1) ∷ [] }

update-Fate_example :
    Fate 1
      (hits 1 struck)
      (priors 1 struck)
      (lookup 1 flagged_1_and_9)
      (Blocker.update fake flagged_1_and_9 (struck, open_world)).1.0
unfolding updates Blocker.update Blocker.run_pass Blocker.visit_all Blocker.visit Blocker.judge
    Blocker.issue Blocker.note Blocker.pop_strikes Blocker.is_blocked Blocker.strike Blocker.decay
    Blocker.push_log insert lookup erase has ◌>>=◌
update-Fate_example = update-Fate fake struck open_world flagged_1_and_9 1 (refl, (refl, tt)) refl

alternating_never_blocked_example :
    Has {K = ℕ} 1 0
      (priors {K = ℕ} 1 (Blocker.init false))
      (updates fake (flagged_1_and_9 ∷ clean_1 ∷ []) (Blocker.init false, open_world)).1.0
unfolding updates Blocker.update Blocker.run_pass Blocker.visit_all Blocker.visit Blocker.judge
    Blocker.issue Blocker.note Blocker.pop_strikes Blocker.is_blocked Blocker.strike Blocker.decay
    Blocker.push_log insert lookup erase has ◌>>=◌
alternating_never_blocked_example =
    alternating_never_blocked fake 1 (flagged_1_and_9 ∷ clean_1 ∷ []) (Blocker.init false)
      open_world (("syn flood", refl), refl, (refl, (refl, tt)), (refl, tt), tt) refl refl

update-Timed_example :
    Timed 1
      (duration_for (priors 1 struck))
      (Blocker.update (watched fake) flagged_1_and_9 (struck, (open_world, []))).1.1.1
unfolding lookup
update-Timed_example = update-Timed fake struck flagged_1_and_9 open_world 1 (refl, (refl, tt))
