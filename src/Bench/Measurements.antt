-- ===== src/Bench/Measurements.antt =====
-- bench/plot.py, `load`: the rows of a measurement, by workload, senders and system.
pub mod Groups
use lookout.Common.{
  ℕ, zero, suc, ◌+◌, ◌-◌, ◌*◌, min, Bool, true, false, not, ◌&&◌, ◌||◌, List, [], ◌∷◌, ◌++◌, Option,
  none, some, ltb, ◌==◌, length, if◌then◌else◌,
}
use lookout.Common.Int.{ℤ, pos, negsuc, neg, pos_part, neg_part, sub_ℕ, scale, ◌+ℤ◌}
use lookout.Common.Ratio.{Ratio, ltb_ratio}
use lookout.Common.Exec.{Result, ok, err, value_error, zero_division}
use lookout.Common.Text.{Text, codes, text_beq}
use lookout.Bench.Numbers.{median}

-- A row of results.csv.
pub record Row : Type 0 where
  pub workload : Text
  pub senders : ℕ
  pub system : Text
  pub offered : Ratio
  pub duration_s : Ratio
  pub received : ℕ
  pub fw_dropped : ℕ
  pub ip_in : ℕ
  pub cpu_busy_pct : Ratio
  pub cpu_softirq_pct : Ratio
  pub ns_per_pkt : Ratio

-- (workload, senders)
pub record Key : Type 0 where
  pub workload : Text
  pub senders : ℕ

abbrev pub same_key : Key → Key → Bool
same_key k j = text_beq k.workload j.workload && k.senders == j.senders

abbrev pub Systems : Type 0
Systems = List (Text × List Row)

abbrev pub Data : Type 0
Data = List (Key × Systems)

abbrev pub key_of : Row → Key
key_of r = record { workload = r.workload; senders = r.senders }

-- `[r["system"]].append(r)`, in a defaultdict
unfoldable pub add_row : Row → Systems → Systems
add_row r [] = (r.system, r ∷ []) ∷ []
add_row r ((s, rows) ∷ rest) =
    let more = add_row r rest in
    if text_beq s r.system then (s, rows ++ r ∷ []) ∷ rest else (s, rows) ∷ more

-- `out[(workload, senders)]...`
unfoldable pub add_to : Row → Data → Data
unfolding add_row
add_to r [] = (key_of r, add_row r []) ∷ []
add_to r ((k, systems) ∷ rest) =
    let more = add_to r rest in
    if same_key k (key_of r) then (k, add_row r systems) ∷ rest else (k, systems) ∷ more

-- `load`, from the rows of the file.
unfoldable pub load_from : List Row → Data → Data
unfolding add_to
load_from [] data_so_far = data_so_far
load_from (r ∷ rs) data_so_far = load_from rs (add_to r data_so_far)

-- `data[key].get(s)`
unfoldable pub rows_of_system : Text → Systems → List Row
rows_of_system s [] = []
rows_of_system s ((t, rows) ∷ rest) =
    let later = rows_of_system s rest in if text_beq t s then rows else later

unfoldable pub rows_of_key : Key → Text → Data → List Row
unfolding rows_of_system
rows_of_key k s [] = []
rows_of_key k s ((j, systems) ∷ rest) =
    let later = rows_of_key k s rest in if same_key j k then rows_of_system s systems else later

unfoldable pub load : List Row → Data
unfolding load_from
load rows = load_from rows []
