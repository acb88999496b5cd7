-- ===== src/Checks/Detect.antt =====
-- control/detect.py on concrete snapshots.
use lookout.Common.{ℕ, ◌-◌, ◌≤◌, ◌≡◌, refl, [], ◌∷◌, some, arith, nat_eq}
use lookout.Common.Dict.{Dict, lookup}
use lookout.Common.Exec.{ok, err, zero_division}
use lookout.Detect.State.{SrcState, zeros, Row}
use lookout.Detect.Window
use lookout.Detect.Window.{Window, baseline, count_ones, ones_in}
use lookout.Detect.Window.Rows.{row_of, interval}
use lookout.Detect.Window.Snapshots.{own_row, update-own_row, update-raises}
use lookout.Detect.Classify.{classify}

-- A source after its first second, and after a SYN flood of another second.
abbrev calm_state : SrcState
calm_state = record zeros { packets = 10; bytes = 6000; syn = 1; fin = 1 }

abbrev flood_state : SrcState
flood_state = record zeros { packets = 9010; bytes = 546000; syn = 9001; fin = 1 }

flood_verdict : classify (row_of 1_000_000_000 flood_state calm_state) ≡ some "volumetric flood"
unfolding classify
flood_verdict = refl

-- The window after one snapshot, of the source 1.
abbrev one_source : Dict ℕ SrcState
one_source = (1, calm_state) ∷ []

abbrev seen_once : Window ℕ
seen_once = record { prev = some one_source; prev_ns = some 0 }

abbrev now_flooding : Dict ℕ SrcState
now_flooding = (1, flood_state) ∷ []

steady : calm_state.fin ≤ flood_state.fin
steady = omega arith

update-own_row_example :
    (rows : Dict ℕ Row) × ((Window.update now_flooding 1_000_000_000 seen_once).0 ≡ ok rows)
    × ((ip : ℕ)
        → lookup ip rows
          ≡ own_row (interval (1_000_000_000 - 0)) (lookup ip one_source) (lookup ip now_flooding))
unfolding lookup
update-own_row_example =
    update-own_row seen_once one_source 0 1_000_000_000 (refl, refl) (omega arith) now_flooding
      (refl, tt) ((λ h. (omega arith, omega arith)), tt)

-- The entry is made again after a reset: more packets than before, and its FIN is gone.
abbrev reset_state : SrcState
reset_state = record zeros { packets = 20; bytes = 12000; syn = 1 }

update-raises_example :
    (Window.update ((1, reset_state) ∷ []) 1_000_000_000 seen_once).0 ≡ err zero_division
unfolding lookup
update-raises_example =
    update-raises seen_once one_source 0 1_000_000_000 (refl, refl) (omega arith) 1 reset_state
      calm_state [] refl (omega arith) refl
