-- ===== src/Policy/Aggressiveness/Tiers.antt =====
-- control/policy.py, class Aggressiveness: one update.
use lookout.Common.{
  ℕ, zero, suc, ◌+◌, ◌*◌, ◌≤◌, ◌<◌, ◌≡◌, ◌≢◌, ◌↔◌, inl, inr, refl, max, Bool, true, arith,
  if◌then◌else◌, get_elem?,
}
use lookout.Common.Int.{pos, ◌≤ℤ◌}
use lookout.Common.Ratio.{Ratio, leb_ratio}
use lookout.Common.Exec.{ok, Result-cases, or_raise, index_error, ◌>>=◌}
use lookout.Policy.Aggressiveness.{
  Aggressiveness, whole, escalate_drop_ratio, target_level, move_to, update, limits, tiers,
}

abbrev pub IsValid : Aggressiveness → Type 0
IsValid a = (a.level ≤ 3) × (a.calm < 5)

-- The level for a load, as a ladder of thresholds.
abbrev pub tier_of : Ratio → ℕ
tier_of pps =
    if leb_ratio (whole 200000) pps
    then 3
    else if leb_ratio (whole 80000) pps
    then 2
    else if leb_ratio (whole 20000) pps
    then 1
    else 0

abbrev pub wanted : Ratio → Ratio → ℕ
wanted pps drop_ratio =
    if leb_ratio escalate_drop_ratio drop_ratio then max (tier_of pps) 2 else tier_of pps

pub target-eq-wanted :
    (pps drop_ratio : Ratio)
    → pos 0 ≤ℤ pps.num
    → target_level pps drop_ratio ≡ ok (wanted pps drop_ratio)
unfolding target_level
target-eq-wanted pps drop_ratio h = ground arith

pub wanted_le : (pps drop_ratio : Ratio) → wanted pps drop_ratio ≤ 3
wanted_le pps drop_ratio = ground arith

pub move_to-IsValid : (t : ℕ) (a : Aggressiveness) → t ≤ 3 → IsValid a → IsValid (move_to t a).1
unfolding move_to
move_to-IsValid t a h v = ground arith

pub update-eq-move_to :
    (pps drop_ratio : Ratio) (a : Aggressiveness)
    → pos 0 ≤ℤ pps.num
    → update pps drop_ratio a ≡ move_to (wanted pps drop_ratio) a
unfolding update ◌>>=◌
update-eq-move_to pps drop_ratio a h = rw (target-eq-wanted pps drop_ratio h)

move_to-total : (t : ℕ) (a : Aggressiveness) → (changed : Bool) × ((move_to t a).0 ≡ ok changed)
unfolding move_to
move_to-total t a = elim (Result-cases (move_to t a).0) [
  | inl returned ↦ returned
  | inr (e, raised) ↦ ground arith
]

limits_at :
    (l : ℕ)
    → l ≤ 3
    → (rate : ℕ) × (or_raise (get_elem? tiers l) index_error ≡ ok (rate, 2 * rate)) × (200 ≤ rate)
limits_at zero h = (20000, refl, omega arith)
limits_at (suc zero) h = (5000, refl, omega arith)
limits_at (suc (suc zero)) h = (1000, refl, omega arith)
limits_at (suc (suc (suc zero))) h = (200, refl, omega arith)
limits_at (suc (suc (suc (suc l)))) h = absurd (omega arith)

limits_lem :
    (a : Aggressiveness)
    → a.level ≤ 3
    → (rate : ℕ) × (limits a ≡ ok (rate, 2 * rate)) × (200 ≤ rate)
unfolding limits
limits_lem a h = limits_at a.level h

level-move_to :
    (t : ℕ) (a : Aggressiveness)
    → a.calm < 5
    → let (r, a') = move_to t a in
      (a.level ≤ t → (a'.level ≡ t) × (a'.calm ≡ 0))
      × (t < a.level → a.calm ≡ 4 → (a'.level + 1 ≡ a.level) × (a'.calm ≡ 0))
      × (t < a.level → a.calm < 4 → (a'.level ≡ a.level) × (a'.calm ≡ a.calm + 1))
      × (t ≤ a'.level)
      × ((r ≡ ok true) ↔ (a'.level ≢ a.level))
unfolding move_to
level-move_to t a h =
    (λ k. ground arith, λ k e. ground arith, λ k e. ground arith, ground arith, ground arith)

-- For a load that is not negative, from a valid state, an update does not raise, the new state is
-- valid, and its limits are a tier whose burst is twice its rate of at least 200.
pub update-IsValid :
    (pps drop_ratio : Ratio) (a : Aggressiveness)
    → pos 0 ≤ℤ pps.num
    → IsValid a
    → let (r, a') = update pps drop_ratio a in
      ((changed : Bool) × (r ≡ ok changed))
      × IsValid a'
      × ((rate : ℕ) × (limits a' ≡ ok (rate, 2 * rate)) × (200 ≤ rate))
update-IsValid pps drop_ratio a h v =
    rw (update-eq-move_to pps drop_ratio a h)
      (move_to-total (wanted pps drop_ratio) a, next, limits_lem (move_to w a).1 next.0)
  where
    w : ℕ
    w = wanted pps drop_ratio

    next : IsValid (move_to w a).1
    next = move_to-IsValid w a (wanted_le pps drop_ratio) v

-- For a load that is not negative, from a valid state. A load that asks for the present level or a
-- higher one sets that level and starts the count of calm seconds again. A load that asks for a lower
-- level is a calm second: the fifth in a row takes the level down by exactly one and starts the count
-- again, and an earlier one is counted and leaves the level. So the level is never below the one asked
-- for, and the call reports a change exactly when the level has changed.
pub level-update :
    (pps drop_ratio : Ratio) (a : Aggressiveness)
    → pos 0 ≤ℤ pps.num
    → IsValid a
    → let (r, a') = update pps drop_ratio a in
      let target = wanted pps drop_ratio in
      (a.level ≤ target → (a'.level ≡ target) × (a'.calm ≡ 0))
      × (target < a.level → a.calm ≡ 4 → (a'.level + 1 ≡ a.level) × (a'.calm ≡ 0))
      × (target < a.level → a.calm < 4 → (a'.level ≡ a.level) × (a'.calm ≡ a.calm + 1))
      × (target ≤ a'.level)
      × ((r ≡ ok true) ↔ (a'.level ≢ a.level))
level-update pps drop_ratio a h v =
    rw (update-eq-move_to pps drop_ratio a h) (level-move_to (wanted pps drop_ratio) a v.1)
