-- ===== src/Bench/Detection/FirstBlock.antt =====
-- bench/eval_report.py, `first_block`: the first row that lists the prefix.
use lookout.Common.{
  ℕ, ◌≡◌, ◌⊎◌, refl, ap, true, false, Bool-cases, inl, inr, List, [], ◌∷◌, ◌++◌, none, some, All,
}
use lookout.Common.Int.{sub_ℕ}
use lookout.Common.Text.{Text}
use lookout.Bench.Collateral.{Watch}
use lookout.Bench.Detection.{lists, first_row, first_block}

-- The first row to list a prefix, after rows that do not.
abbrev pub IsFirst : Text → Watch → List Watch → Type 0
IsFirst prefix w ws =
    (before : List Watch) × ((after : List Watch) × ((ws ≡ before ++ w ∷ after)
        × All (λ v. lists prefix v.blocked ≡ false) before
        × (lists prefix w.blocked ≡ true)))

-- On the rows of a watch, `first_block` gives the time from the start to the first row that lists the
-- prefix; it gives none just if no row does.
pub first_block-IsFirst :
    (start : ℕ) (prefix : Text) (ws : List Watch)
    → ((w : Watch) × (IsFirst prefix w ws
          × (first_block (some ws) start prefix ≡ some (sub_ℕ w.time start))))
      ⊎ (All (λ v. lists prefix v.blocked ≡ false) ws × (first_block (some ws) start prefix ≡ none))
unfolding first_block first_row
first_block-IsFirst start prefix [] = inr (tt, refl)
first_block-IsFirst start prefix (v ∷ ws) = elim (Bool-cases (lists prefix v.blocked)) [
  | inl now ↦ inl (v, (([], (ws, (refl, tt, now))), rw now refl))
  | inr not_yet ↦ elim (first_block-IsFirst start prefix ws) [
    | inr (absent, e) ↦ inr ((not_yet, absent), rw not_yet e)
    | inl (w, ((before, (after, (shape, earlier, now))), e)) ↦
        inl (
          w,
          ((v ∷ before, (after, (ap (λ l. v ∷ l) shape, (not_yet, earlier), now))), rw not_yet e),
        )
  ]
]
