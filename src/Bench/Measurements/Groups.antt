-- ===== src/Bench/Measurements/Groups.antt =====
-- bench/plot.py, `load`: which rows a group holds.
use lookout.Common.{
  ◌≡◌, ◌↔◌, refl, sym, ◌∙◌, ap, Bool, true, false, ◌&&◌, Bool-cases, inl, inr, List, [], ◌∷◌, ◌++◌,
  arith, if◌then◌else◌,
}
use mathlib.Core.List.{append_assoc, append-nil}
use lookout.Common.Text.{Text, text_beq, text_beq_iff}
use lookout.Bench.Measurements.{
  Row, Key, same_key, key_of, Systems, Data, add_row, add_to, load, load_from, rows_of_system,
  rows_of_key,
}

-- The rows of a key and a system, in their order.
abbrev pub belongs : Key → Text → Row → Bool
belongs k s r = same_key (key_of r) k && text_beq r.system s

abbrev pub rows_with : Key → Text → List Row → List Row
rows_with k s [] = []
rows_with k s (r ∷ rs) = if belongs k s r then r ∷ rows_with k s rs else rows_with k s rs

same_key_iff : (k j : Key) → (same_key k j ≡ true) ↔ (k ≡ j)
same_key_iff k j = ground (arith, text_beq_iff k.workload j.workload)

abbrev if_so : Bool → Row → List Row
if_so b r = if b then r ∷ [] else []

-- One row more in the group that is read, or not.
joined :
    (b c : Bool) (new old later : List Row) (r : Row)
    → new ≡ old ++ if_so c r
    → (if b then new else later) ≡ (if b then old else later) ++ if_so (b && c) r
joined true c new old later r h = h
joined false c new old later r h = sym (append-nil later)

only : (b c : Bool) (r : Row) → (if b then if_so c r else []) ≡ if_so (b && c) r
only true c r = refl
only false c r = refl

joined_here :
    (b : Bool) (rows later : List Row) (r : Row)
    → (if b then rows ++ r ∷ [] else later) ≡ (if b then rows else later) ++ if_so b r
joined_here true rows later r = refl
joined_here false rows later r = sym (append-nil later)

-- A group that the row is not in.
kept :
    (b c : Bool) (rows new old : List Row) (r : Row)
    → (b ≡ true → c ≡ false)
    → new ≡ old ++ if_so c r
    → (if b then rows else new) ≡ (if b then rows else old) ++ if_so c r
kept true c rows new old r apart h = rw (apart refl) (sym (append-nil rows))
kept false c rows new old r apart h = h

other_text : (t u s : Text) → text_beq t u ≡ false → text_beq t s ≡ true → text_beq u s ≡ false
other_text t u s ne e = ground (arith, text_beq_iff t u, text_beq_iff t s, text_beq_iff u s)

other_key : (j u k : Key) → same_key j u ≡ false → same_key j k ≡ true → same_key u k ≡ false
other_key j u k ne e = ground (arith, same_key_iff j u, same_key_iff j k, same_key_iff u k)

add_row-rows :
    (r : Row) (s : Text) (systems : Systems)
    → rows_of_system s (add_row r systems)
      ≡ rows_of_system s systems ++ if_so (text_beq r.system s) r
unfolding rows_of_system add_row
add_row-rows r s [] = refl
add_row-rows r s ((t, rows) ∷ rest) = elim (Bool-cases (text_beq t r.system)) [
  | inl e ↦
      rw (e, ap (λ x. text_beq x s) ((text_beq_iff t r.system).0 e))
        (joined_here (text_beq r.system s) rows (rows_of_system s rest) r)
  | inr e ↦ rw e (
      kept (text_beq t s) (text_beq r.system s) rows _ _ r (other_text t r.system s e)
        (add_row-rows r s rest))
]

add_to-rows :
    (r : Row) (k : Key) (s : Text) (groups : Data)
    → rows_of_key k s (add_to r groups) ≡ rows_of_key k s groups ++ if_so (belongs k s r) r
unfolding rows_of_key add_to
add_to-rows r k s [] = only (same_key (key_of r) k) (text_beq r.system s) r
add_to-rows r k s ((j, systems) ∷ rest) = elim (Bool-cases (same_key j (key_of r))) [
  | inl e ↦
      rw (e, ap (λ x. same_key x k) ((same_key_iff j (key_of r)).0 e))
        (joined (same_key (key_of r) k) (text_beq r.system s) _ _ (rows_of_key k s rest) r
          (add_row-rows r s systems))
  | inr e ↦ rw e (
      kept (same_key j k) (belongs k s r) (rows_of_system s systems) _ _ r
        (λ same. rw (other_key j (key_of r) k e same) refl) (add_to-rows r k s rest))
]

rows_with-cons :
    (b : Bool) (old rest : List Row) (r : Row)
    → old ++ if_so b r ++ rest ≡ old ++ (if b then r ∷ rest else rest)
rows_with-cons true old rest r = append_assoc old (r ∷ []) rest
rows_with-cons false old rest r = ap (λ l. l ++ rest) (append-nil old)

load_from-rows_with :
    (rows : List Row) (groups : Data) (k : Key) (s : Text)
    → rows_of_key k s (load_from rows groups) ≡ rows_of_key k s groups ++ rows_with k s rows
unfolding load_from
load_from-rows_with [] groups k s = sym (append-nil _)
load_from-rows_with (r ∷ rs) groups k s =
    load_from-rows_with rs (add_to r groups) k s
    ∙ rw (add_to-rows r k s groups)
        (rows_with-cons (belongs k s r) (rows_of_key k s groups) (rows_with k s rs) r)

-- After `load`, the group of a workload, a number of senders and a system holds the rows of the file
-- that name all three, in their order, and no others.
pub load-rows_with :
    (rows : List Row) (k : Key) (s : Text) → rows_of_key k s (load rows) ≡ rows_with k s rows
unfolding load rows_of_key
load-rows_with rows k s = load_from-rows_with rows [] k s
