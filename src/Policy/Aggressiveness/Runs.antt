-- ===== src/Policy/Aggressiveness/Runs.antt =====
-- control/policy.py, class Aggressiveness: many seconds in a row, one update for each.
use lookout.Common.Exec.{Result}
use lookout.Common.{ap, Bool, ◌<◌, ℕ, ◌+◌, ◌*◌, ◌≤◌, ◌≡◌, List, [], ◌∷◌, arith, length, All}
use lookout.Common.Int.{pos, ◌≤ℤ◌}
use lookout.Common.Ratio.{Ratio}
use lookout.Policy.Aggressiveness.{Aggressiveness, update, move_to}
use lookout.Policy.Aggressiveness.Tiers.{
  IsValid, wanted, wanted_le, move_to-IsValid, update-eq-move_to,
}

-- The load of one second: packets a second, and the share that the limiter dropped.
abbrev pub Load : Type 0
Load = Ratio × Ratio

abbrev pub IsLoad : Load → Type 0
IsLoad w = pos 0 ≤ℤ w.0.num

-- The state after a second for each load.
unfoldable pub after : List Load → Aggressiveness → Aggressiveness
after [] a = a
after (w ∷ ws) a = after ws (update w.0 w.1 a).1

move_to_rate :
    (t : ℕ) (a : Aggressiveness)
    → a.calm < 5
    → 5 * a.level + (move_to t a).1.calm ≤ 5 * (move_to t a).1.level + a.calm + 1
unfolding move_to
move_to_rate t a h = ground arith

move_to_floor : (t : ℕ) (a : Aggressiveness) → t ≤ (move_to t a).1.level
unfolding move_to
move_to_floor t a = ground arith

after-cons :
    (w : Load) (ws : List Load) (a : Aggressiveness)
    → IsLoad w
    → after (w ∷ ws) a ≡ after ws (move_to (wanted w.0 w.1) a).1
unfolding after
after-cons w ws a h =
    ap (λ (r : Result Bool × Aggressiveness). after ws r.1) (update-eq-move_to w.0 w.1 a h)

after_rate :
    (ws : List Load) (a : Aggressiveness)
    → All IsLoad ws
    → IsValid a
    → IsValid (after ws a)
      × (5 * a.level + (after ws a).calm ≤ 5 * (after ws a).level + a.calm + length ws)
unfolding after
after_rate [] a h v = (v, omega arith)
after_rate (w ∷ ws) a h v =
    let t = wanted w.0 w.1 in
    let rest = after_rate ws (move_to t a).1 h.1 (move_to-IsValid t a (wanted_le w.0 w.1) v) in
    rw (after-cons w ws a h.0) (rest.0, omega (arith, rest.1, move_to_rate t a v.1))

-- From a valid state, over any loads that are not negative, the level falls by at most one for
-- every five seconds, the calm seconds counted before the run included.
relax_rate :
    (ws : List Load) (a : Aggressiveness)
    → All IsLoad ws
    → IsValid a
    → 5 * a.level ≤ 5 * (after ws a).level + a.calm + length ws
relax_rate ws a h v = omega (arith, after_rate ws a h v)

-- Seconds that ask for no more than the lowest level.
abbrev pub IsQuiet : Load → Type 0
IsQuiet w = IsLoad w × (wanted w.0 w.1 ≡ 0)

move_to_quiet :
    (n : ℕ) (a : Aggressiveness)
    → a.calm < 5
    → 5 * a.level ≤ n + 1 + a.calm
    → 5 * (move_to 0 a).1.level ≤ n + (move_to 0 a).1.calm
unfolding move_to
move_to_quiet n a v h = ground arith

-- From a valid state, quiet seconds bring the level back to 0 as soon as there are five of them for
-- each level, those already counted included.
pub quiet_relaxes :
    (ws : List Load) (a : Aggressiveness)
    → All IsQuiet ws
    → IsValid a
    → 5 * a.level ≤ length ws + a.calm
    → (after ws a).level ≡ 0
unfolding after
quiet_relaxes [] a q v h = omega (arith, v.1)
quiet_relaxes (w ∷ ws) a q v h =
    rw (after-cons w ws a q.0.0, q.0.1)
      (quiet_relaxes ws (move_to 0 a).1 q.1 (move_to-IsValid 0 a (omega arith) v)
        (move_to_quiet (length ws) a v.1 (omega arith)))
