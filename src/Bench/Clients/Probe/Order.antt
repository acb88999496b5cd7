-- ===== src/Bench/Clients/Probe/Order.antt =====
-- bench/clients.py, `probe`: the order of the rows, and that sorting forgets the order in which the
-- requests have finished.
use mathlib.Core.List.{Permᴰ}
use lookout.Common.{
  ◌≡◌, refl, sym, ap, ◌∙◌, true, false, Bool-cases, ◌⊎◌, inl, inr, List, [], ◌∷◌, arith,
}
use lookout.Common.Text.{Text, text_beq, text_beq_iff}
use lookout.Fwctl.Lists.{text_ltb}
use lookout.Fwctl.Lists.Reordering.{IsOrder, sort-Perm}
use lookout.Bench.Clients.Probe.{
  Row, Outcome, failed, answered, outcome_before, row_before, written,
}

text_asym : (s t : Text) → text_ltb s t ≡ true → text_ltb t s ≡ false
unfolding text_ltb
text_asym s [] h = ground (arith, h)
text_asym [] (y ∷ t) h = refl
text_asym (x ∷ s) (y ∷ t) h = ground (arith, h, text_asym s t)

text_total : (s t : Text) → text_ltb s t ≡ false → text_ltb t s ≡ false → s ≡ t
unfolding text_ltb
text_total [] [] h k = refl
text_total [] (y ∷ t) h k = ground (arith, h)
text_total (x ∷ s) [] h k = ground (arith, k)
text_total (x ∷ s) (y ∷ t) h k = ground (arith, h, k, text_total s t)

text_trans : (s t v : Text) → text_ltb s t ≡ true → text_ltb t v ≡ true → text_ltb s v ≡ true
unfolding text_ltb
text_trans s t [] h k = ground (arith, k)
text_trans [] t (z ∷ v) h k = refl
text_trans (x ∷ s) [] (z ∷ v) h k = ground (arith, h)
text_trans (x ∷ s) (y ∷ t) (z ∷ v) h k = ground (arith, h, k, text_trans s t v)

outcome_asym : (a b : Outcome) → outcome_before a b ≡ true → outcome_before b a ≡ false
outcome_asym failed failed h = refl
outcome_asym failed (answered n) h = refl
outcome_asym (answered m) failed h = ground (arith, h)
outcome_asym (answered m) (answered n) h = ground (arith, h)

outcome_total : (a b : Outcome) → outcome_before a b ≡ false → outcome_before b a ≡ false → a ≡ b
outcome_total failed failed h k = refl
outcome_total failed (answered n) h k = ground (arith, h)
outcome_total (answered m) failed h k = ground (arith, k)
outcome_total (answered m) (answered n) h k = ap answered (ground (arith, h, k))

outcome_trans :
    (a b c : Outcome)
    → outcome_before a b ≡ true
    → outcome_before b c ≡ true
    → outcome_before a c ≡ true
outcome_trans failed failed c h k = ground (arith, h)
outcome_trans failed (answered n) failed h k = ground (arith, k)
outcome_trans failed (answered n) (answered p) h k = refl
outcome_trans (answered m) failed c h k = ground (arith, h)
outcome_trans (answered m) (answered n) failed h k = ground (arith, k)
outcome_trans (answered m) (answered n) (answered p) h k = ground (arith, h, k)

text_beq_sym : (s t : Text) → text_beq s t ≡ text_beq t s
unfolding text_beq
text_beq_sym [] [] = refl
text_beq_sym [] (y ∷ t) = refl
text_beq_sym (x ∷ s) [] = refl
text_beq_sym (x ∷ s) (y ∷ t) = ground (arith, text_beq_sym s t)

pub row_asym : (r q : Row) → row_before r q ≡ true → row_before q r ≡ false
unfolding row_before
row_asym r q h = ground (
  arith,
  h,
  text_beq_sym r.time q.time,
  text_asym r.time q.time,
  outcome_asym r.outcome q.outcome,
)

same_row : (r q : Row) → r.time ≡ q.time → r.outcome ≡ q.outcome → r ≡ q
same_row r q e d i = record { time = e i; outcome = d i }

row_total : (r q : Row) → row_before r q ≡ false → row_before q r ≡ false → r ≡ q
unfolding row_before
row_total r q h k = elim (Bool-cases (text_beq r.time q.time)) [
  | inl e ↦ same_row r q ((text_beq_iff r.time q.time).0 e) (
      outcome_total r.outcome q.outcome (ground (arith, h, e))
        (ground (arith, k, e, text_beq_sym r.time q.time)))
  | inr e ↦
      let same =
        text_total r.time q.time (ground (arith, h, e))
          (ground (arith, k, e, text_beq_sym r.time q.time)) in
      let no : ⊥ = ground (arith, e, (text_beq_iff r.time q.time).1 same) in elim no [ ]
]

-- When a row comes before another.
abbrev pub Precedes : Row → Row → Type 0
Precedes r q =
    ((r.time ≡ q.time) × (outcome_before r.outcome q.outcome ≡ true))
    ⊎ (text_ltb r.time q.time ≡ true)

precedes : (r q : Row) → row_before r q ≡ true → Precedes r q
unfolding row_before
precedes r q h = elim (Bool-cases (text_beq r.time q.time)) [
  | inl e ↦ inl ((text_beq_iff r.time q.time).0 e, ground (arith, h, e))
  | inr e ↦ inr (ground (arith, h, e))
]

pub comes_before : (r q : Row) → Precedes r q → row_before r q ≡ true
unfolding row_before
comes_before r q (inl (same, h)) = rw ((text_beq_iff r.time q.time).1 same) h
comes_before r q (inr h) = elim (Bool-cases (text_beq r.time q.time)) [
  | inl e ↦
      let back = text_asym r.time q.time h in
      let again : text_ltb r.time q.time ≡ false =
        rw ((text_beq_iff r.time q.time).0 e) (rw ((text_beq_iff r.time q.time).0 e) at back) in
      let no : ⊥ = ground (arith, h, again) in elim no [ ]
  | inr e ↦ rw (e) h
]

trans_Precedes : (r q p : Row) → Precedes r q → Precedes q p → Precedes r p
trans_Precedes r q p (inl (e, h)) (inl (d, k)) =
    inl (e ∙ d, outcome_trans r.outcome q.outcome p.outcome h k)
trans_Precedes r q p (inl (e, h)) (inr k) = inr (rw (e) k)
trans_Precedes r q p (inr h) (inl (d, k)) = inr (rw (sym d) h)
trans_Precedes r q p (inr h) (inr k) = inr (text_trans r.time q.time p.time h k)

row_trans : (r q p : Row) → row_before r q ≡ true → row_before q p ≡ true → row_before r p ≡ true
row_trans r q p h k = comes_before r p (trans_Precedes r q p (precedes r q h) (precedes q p k))

row-IsOrder : IsOrder row_before
row-IsOrder = record { asym = row_asym; total = row_total; trans = row_trans }

-- The file does not depend on the order in which the requests have finished.
pub written-Perm : {rows others : List Row} → Permᴰ rows others → written rows ≡ written others
unfolding written
written-Perm d = sort-Perm row-IsOrder d
