-- ===== src/Bench/Latency.antt =====
-- bench/eval_report.py, `latency_chart`: the curves of the response times.
pub mod Shares
use lookout.Common.{ℕ, zero, suc, ◌-◌, ◌&&◌, List, [], ◌∷◌, length, if◌then◌else◌, Bool}
use lookout.Common.Int.{pos}
use lookout.Common.Ratio.{Ratio}
use lookout.Common.Text.{Text, codes, text_beq}

-- A point of a curve: a response time, and the share of requests slower than it.
pub record Step : Type 0 where
  pub at : ℕ
  pub share : Ratio

-- `1 - (i + 1) / n`
abbrev pub share_after : ℕ → ℕ → Ratio
share_after n i = record { num = pos (n - suc i); den = n }

-- The points for the times from place `i` on, of `n` in all.
unfoldable pub steps_from : ℕ → ℕ → List ℕ → List Step
steps_from n i [] = []
steps_from n i (x ∷ v) = record { at = x; share = share_after n i } ∷ steps_from n (suc i) v

unfoldable pub steps : List ℕ → List Step
unfolding steps_from
steps v = steps_from (length v) 0 v

-- SYSTEMS
abbrev pub systems : List Text
systems = codes "none" ∷ codes "nft-ingress" ∷ codes "xdp" ∷ codes "xdp-adaptive" ∷ []

-- `dist[(a, s)]`: an attack, a system, and the sorted times.
pub record Times : Type 0 where
  pub attack : Text
  pub system : Text
  pub values : List ℕ

-- `dist.get((a, s))`, with no times for none
unfoldable pub times_for : Text → Text → List Times → List ℕ
times_for a s [] = []
times_for a s (t ∷ dist) =
    let rest = times_for a s dist in
    if text_beq t.attack a && text_beq t.system s then t.values else rest

pub record Curve : Type 0 where
  pub system : Text
  pub points : List Step

-- `if not v: continue`
abbrev pub curve_before : Text → List ℕ → List Curve → List Curve
curve_before s [] curves = curves
curve_before s (x ∷ v) curves = record { system = s; points = steps (x ∷ v) } ∷ curves

unfoldable pub curves_from : List Text → Text → List Times → List Curve
unfolding times_for
curves_from [] a dist = []
curves_from (s ∷ ss) a dist = curve_before s (times_for a s dist) (curves_from ss a dist)

-- The panels, one for each attack.
unfoldable pub panels : List Text → List Times → List (List Curve)
unfolding curves_from
panels [] dist = []
panels (a ∷ attacks) dist = curves_from systems a dist ∷ panels attacks dist
