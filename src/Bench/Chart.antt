-- ===== src/Bench/Chart.antt =====
-- bench/eval_report.py, `detection_chart`: the row of each point, and its mark. What is drawn at a row
-- is matplotlib's.
pub mod Rows
use lookout.Common.{
  ℕ, zero, suc, ◌+◌, Bool, true, false, ◌&&◌, ◌||◌, List, [], ◌∷◌, ◌++◌, Option, none, some, ◌==◌,
  length, if◌then◌else◌,
}
use lookout.Common.Exec.{Result, ok, err, key_error}
use lookout.Common.Text.{Text, codes, text_beq}
use lookout.Bench.Detection.{Key, Point}

-- ATTACK_ROWS and NORMAL_ROWS, by their keys
abbrev pub attack_rows : List Text
attack_rows = codes "syn_flood" ∷ codes "udp_flood" ∷ codes "icmp_flood" ∷ codes "port_scan" ∷ []

abbrev pub normal_rows : List (Text × Text)
normal_rows =
    (codes "browse", codes "-")
    ∷ (codes "download", codes "-")
    ∷ (codes "upload", codes "-")
    ∷ (codes "nat", codes "100")
    ∷ (codes "nat", codes "1000")
    ∷ (codes "udp", codes "1000")
    ∷ (codes "udp", codes "10000")
    ∷ (codes "services", codes "-")
    ∷ []

abbrev pub is_attack : Key → Bool
is_attack k = text_beq k.kind (codes "attack")

abbrev pub is_normal : Key → Bool
is_normal k = text_beq k.kind (codes "normal")

abbrev pub attack_row : Key → Text → Bool
attack_row k t = text_beq t k.traffic

abbrev pub normal_row : Key → Text × Text → Bool
normal_row k r = text_beq r.0 k.traffic && text_beq r.1 k.setting

-- `any(k[1] == t for k, *_ in points if k[0] == "attack")`
unfoldable pub has_attack : Text → List Point → Bool
has_attack t [] = false
has_attack t (p ∷ ps) = let rest = has_attack t ps in is_attack p.key && attack_row p.key t || rest

unfoldable pub has_normal : Text × Text → List Point → Bool
has_normal r [] = false
has_normal r (p ∷ ps) = let rest = has_normal r ps in is_normal p.key && normal_row p.key r || rest

-- The rows that a test keeps, in the order of the table.
unfoldable pub shown : {A : Type 0} → (A → Bool) → List A → List A
shown test [] = []
shown test (x ∷ xs) = let rest = shown test xs in if test x then x ∷ rest else rest

abbrev pub attack_labels : List Point → List Text
attack_labels ps = shown (λ t. has_attack t ps) attack_rows

abbrev pub normal_labels : List Point → List (Text × Text)
normal_labels ps = shown (λ r. has_normal r ps) normal_rows

-- The number of the first row that passes, from `n` on.
unfoldable pub place_of : {A : Type 0} → (A → Bool) → List A → ℕ → Result ℕ
place_of test [] n = err key_error
place_of test (x ∷ xs) n = let rest = place_of test xs (suc n) in if test x then ok n else rest

-- The empty row between the attacks and the normal clients.
abbrev pub gap : List Point → ℕ
gap ps = length (attack_labels ps)

-- `ys[("attack", k[1])] if k[0] == "attack" else ys[k]`
unfoldable pub row_of : List Point → Key → Result ℕ
unfolding has_attack has_normal shown place_of
row_of ps k =
    if is_attack k
    then place_of (attack_row k) (attack_labels ps) 0
    else if is_normal k
    then place_of (normal_row k) (normal_labels ps) (gap ps + 1)
    else err key_error

-- A dot that is filled or hollow, or a diamond, which is hollow.
pub data Mark : Type 0 where
  filled : Mark
  hollow : Mark
  diamond : Mark

abbrev pub mark_of : Point → Mark
mark_of p = if p.blocked == p.runs then filled else if p.blocked == 0 then hollow else diamond
