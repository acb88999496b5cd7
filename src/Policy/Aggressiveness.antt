-- ===== src/Policy/Aggressiveness.antt =====
-- control/policy.py, class Aggressiveness: the rate-limit tier picked from the load.
pub mod Tiers
pub mod Runs
use lookout.Common.{
  ℕ, suc, ◌+◌, ◌-◌, max, Bool, true, false, List, [], ◌∷◌, Option, none, some, ltb, leb, ◌==◌,
  if◌then◌else◌, get_elem?,
}
use lookout.Common.Int.{pos}
use lookout.Common.Ratio.{Ratio, leb_ratio}
use lookout.Common.Exec.{Exec, Result, ok, err, value_error, index_error, lift, or_raise, ◌>>=◌}

-- (rate, burst) for each level
abbrev pub tiers : List (ℕ × ℕ)
tiers = (20000, 40000) ∷ (5000, 10000) ∷ (1000, 2000) ∷ (200, 400) ∷ []

abbrev pub escalate_pps : List ℕ
escalate_pps = 0 ∷ 20000 ∷ 80000 ∷ 200000 ∷ []

-- 0.5
abbrev pub escalate_drop_ratio : Ratio
escalate_drop_ratio = record { num = pos 1; den = 2 }

abbrev pub calm_windows : ℕ
calm_windows = 5

pub record Aggressiveness : Type 0 where
  pub level : ℕ
  pub calm : ℕ

abbrev pub init : Aggressiveness
init = record { level = 0; calm = 0 }

abbrev pub whole : ℕ → Ratio
whole n = record { num = pos n; den = 1 }

-- `lvl for lvl, limit in enumerate(ESCALATE_PPS) if pps >= limit`, from level `lvl` on
unfoldable pub reached : Ratio → ℕ → List ℕ → List ℕ
reached pps lvl [] = []
reached pps lvl (limit ∷ limits) =
    let rest = reached pps (lvl + 1) limits in
    if leb_ratio (whole limit) pps then lvl ∷ rest else rest

unfoldable pub largest : ℕ → List ℕ → ℕ
largest m [] = m
largest m (x ∷ xs) = largest (max m x) xs

-- Python's `max` raises on an empty sequence.
unfoldable pub max_of : List ℕ → Result ℕ
unfolding largest
max_of [] = err value_error
max_of (x ∷ xs) = ok (largest x xs)

-- The level that one second of load asks for.
unfoldable pub target_level : Ratio → Ratio → Result ℕ
unfolding reached max_of
target_level pps drop_ratio = elim (max_of (reached pps 0 escalate_pps)) [
  | ok target ↦ ok (if leb_ratio escalate_drop_ratio drop_ratio then max target 2 else target)
  | err e ↦ err e
]

-- The rest of `update`, once the target is known.
unfoldable pub move_to : ℕ → Exec Aggressiveness Bool
move_to target a =
    if ltb a.level target
    then (ok true, record { level = target; calm = 0 })
    else if target == a.level
    then (ok false, record a { calm = 0 })
    else if leb calm_windows (a.calm + 1)
    then (ok true, record { level = a.level - 1; calm = 0 })
    else (ok false, record a { calm = a.calm + 1 })

-- Feed one second of load; true if the tier changed.
unfoldable pub update : Ratio → Ratio → Exec Aggressiveness Bool
unfolding target_level move_to ◌>>=◌
update pps drop_ratio = do target ← lift (target_level pps drop_ratio); move_to target

-- The property `limits`.
unfoldable pub limits : Aggressiveness → Result (ℕ × ℕ)
limits a = or_raise (get_elem? tiers a.level) index_error
