-- ===== src/Detect/Window/Rows.antt =====
-- control/detect.py, class Window: what `update` returns, and when it raises.
use native.Mathlib.Decide.{dec_lt}
use lookout.Common.{
  ap, ◌∙◌, ℕ, zero, suc, ◌+◌, ◌-◌, ◌*◌, ◌≤◌, ◌<◌, ◌≡◌, refl, false, Option, none, some, arith,
}
use lookout.Common.Int.{ℤ, pos, sub_ℕ, scale, ◌+ℤ◌, leb_ℤ}
use lookout.Common.Ratio.{Ratio}
use lookout.Common.Exec.{ok, err, zero_division}
use lookout.Detect.State.{SrcState, Row}
use lookout.Detect.Window.{divide, divide_by, count_ones, fractions, measure}

-- Since the old snapshot a source has sent more packets, and no counter has fallen.
pub record HasGrown (cur old : SrcState) : Type 0 where
  pub packets : old.packets < cur.packets
  pub bytes : old.bytes ≤ cur.bytes
  pub syn : old.syn ≤ cur.syn
  pub fin : old.fin ≤ cur.fin
  pub rst : old.rst ≤ cur.rst
  pub icmp : old.icmp ≤ cur.icmp
  pub dropped : old.dropped ≤ cur.dropped

abbrev pub part : ℕ → ℕ → Ratio
part a b = record { num = pos a; den = b }

-- The measurements as fractions of natural numbers.
abbrev pub row_of : ℕ → SrcState → SrcState → Row
row_of elapsed cur old =
    let n = cur.packets - old.packets in
    record {
      pps = part (n * 1_000_000_000) elapsed;
      mean_len = part (cur.bytes - old.bytes) n;
      syn_ratio = part (cur.syn - old.syn) n;
      syn_fin_ratio = part (cur.syn - old.syn) (cur.fin - old.fin + (cur.rst - old.rst) + 1);
      icmp_ratio = part (cur.icmp - old.icmp) n;
      port_spread = count_ones cur.port_bitmap;
      drop_ratio = part (cur.dropped - old.dropped) n;
    }

pub sub_ℕ-eq : (a b : ℕ) → b ≤ a → sub_ℕ a b ≡ pos (a - b)
sub_ℕ-eq a b h = ground arith

divide-pos : (a : ℤ) (d : ℕ) → 0 < d → divide a (pos d) ≡ ok (record { num = a; den = d })
unfolding divide
divide-pos a zero h = elim h [ ]
divide-pos a (suc d) h = refl

divide_by-pos :
    (a : ℤ) (k d : ℕ)
    → 0 < d
    → divide_by a (record { num = pos d; den = k }) ≡ ok (record { num = scale a k; den = d })
unfolding divide_by
divide_by-pos a k d h = divide-pos (scale a k) d h

abbrev pub interval : ℕ → Ratio
interval elapsed = record { num = pos elapsed; den = 1_000_000_000 }

-- FINs and RSTs, and one.
abbrev closing : SrcState → SrcState → ℤ
closing cur old = sub_ℕ cur.fin old.fin +ℤ sub_ℕ cur.rst old.rst +ℤ pos 1

abbrev signed_row : ℕ → ℕ → ℕ → SrcState → SrcState → Row
signed_row elapsed n c cur old = record {
  pps = record { num = scale (pos n) 1_000_000_000; den = elapsed };
  mean_len = record { num = sub_ℕ cur.bytes old.bytes; den = n };
  syn_ratio = record { num = sub_ℕ cur.syn old.syn; den = n };
  syn_fin_ratio = record { num = sub_ℕ cur.syn old.syn; den = c };
  icmp_ratio = record { num = sub_ℕ cur.icmp old.icmp; den = n };
  port_spread = count_ones cur.port_bitmap;
  drop_ratio = record { num = sub_ℕ cur.dropped old.dropped; den = n };
}

scale-pos : (a k : ℕ) → scale (pos a) k ≡ pos (a * k)
scale-pos a k = ground arith

signed_row-eq :
    (elapsed n c : ℕ) (cur old : SrcState)
    → HasGrown cur old
    → signed_row elapsed n c cur old ≡ record {
      pps = part (n * 1_000_000_000) elapsed;
      mean_len = part (cur.bytes - old.bytes) n;
      syn_ratio = part (cur.syn - old.syn) n;
      syn_fin_ratio = part (cur.syn - old.syn) c;
      icmp_ratio = part (cur.icmp - old.icmp) n;
      port_spread = count_ones cur.port_bitmap;
      drop_ratio = part (cur.dropped - old.dropped) n;
    }
signed_row-eq elapsed n c cur old g = cc (
  scale-pos n 1_000_000_000,
  sub_ℕ-eq cur.bytes old.bytes g.bytes,
  sub_ℕ-eq cur.syn old.syn g.syn,
  sub_ℕ-eq cur.icmp old.icmp g.icmp,
  sub_ℕ-eq cur.dropped old.dropped g.dropped,
)

closing-eq :
    (cur old : SrcState)
    → old.fin ≤ cur.fin
    → old.rst ≤ cur.rst
    → closing cur old ≡ pos (cur.fin - old.fin + (cur.rst - old.rst) + 1)
closing-eq cur old f g = ground arith

fractions-eq :
    (elapsed n c : ℕ) (cur old : SrcState)
    → 0 < elapsed
    → 0 < n
    → closing cur old ≡ pos c
    → 0 < c
    → fractions (interval elapsed) (pos n) cur old ≡ ok (some (signed_row elapsed n c cur old))
unfolding fractions
fractions-eq elapsed n c cur old h p e q = rw (
  e,
  divide_by-pos (pos n) 1_000_000_000 elapsed h,
  divide-pos (sub_ℕ cur.bytes old.bytes) n p,
  divide-pos (sub_ℕ cur.syn old.syn) n p,
  divide-pos (sub_ℕ cur.syn old.syn) c q,
  divide-pos (sub_ℕ cur.icmp old.icmp) n p,
  divide-pos (sub_ℕ cur.dropped old.dropped) n p,
)

divide-zero : (a : ℤ) → divide a (pos 0) ≡ err zero_division
unfolding divide
divide-zero a = refl

fractions-raises :
    (elapsed n : ℕ) (cur old : SrcState)
    → 0 < elapsed
    → 0 < n
    → closing cur old ≡ pos 0
    → fractions (interval elapsed) (pos n) cur old ≡ err zero_division
unfolding fractions
fractions-raises elapsed n cur old h p e = rw (
  e,
  divide_by-pos (pos n) 1_000_000_000 elapsed h,
  divide-pos (sub_ℕ cur.bytes old.bytes) n p,
  divide-pos (sub_ℕ cur.syn old.syn) n p,
  divide-zero,
)

module _ (secs : Ratio) (cur old : SrcState) where
  measure-fractions :
      old.packets < cur.packets
      → measure secs cur old ≡ fractions secs (pos (cur.packets - old.packets)) cur old
  unfolding measure
  measure-fractions h = rw (sub_ℕ-eq cur.packets old.packets (omega arith), positive)
    where
      positive : leb_ℤ (pos (cur.packets - old.packets)) (pos 0) ≡ false
      positive = ground arith

  pub measure_skips : cur.packets ≤ old.packets → measure secs cur old ≡ ok none
  unfolding measure
  measure_skips h = ground arith

module _ (elapsed : ℕ) (cur old : SrcState) (h : 0 < elapsed) where
  -- A source that has grown gets its row.
  pub measure-row_of :
      HasGrown cur old → measure (interval elapsed) cur old ≡ ok (some (row_of elapsed cur old))
  measure-row_of g =
      let n = cur.packets - old.packets in
      let c = cur.fin - old.fin + (cur.rst - old.rst) + 1 in
      measure-fractions (interval elapsed) cur old g.packets
      ∙ fractions-eq elapsed n c cur old h (omega arith) (closing-eq cur old g.fin g.rst)
          (omega arith)
      ∙ ap (λ (r : Row). ok (some r)) (signed_row-eq elapsed n c cur old g)

  -- Unless the closing counters have fallen, measuring does not raise.
  pub measure-total :
      old.fin ≤ cur.fin
      → old.rst ≤ cur.rst
      → (r : Option Row) × (measure (interval elapsed) cur old ≡ ok r)
  measure-total f g = elim (dec_lt old.packets cur.packets) [
    | yes more ↦ (
      some _,
      measure-fractions (interval elapsed) cur old more
          ∙ fractions-eq elapsed (cur.packets - old.packets)
              (cur.fin - old.fin + (cur.rst - old.rst) + 1) cur old h (omega arith)
              (closing-eq cur old f g) (omega arith),
    )
    | no same ↦ (none, measure_skips (interval elapsed) cur old (omega arith))
  ]

  -- More packets, and one closing packet less, fin and rst together: a division by zero.
  pub measure-raises :
      old.packets < cur.packets
      → cur.fin + cur.rst + 1 ≡ old.fin + old.rst
      → measure (interval elapsed) cur old ≡ err zero_division
  measure-raises p q =
      measure-fractions (interval elapsed) cur old p
      ∙ fractions-raises elapsed (cur.packets - old.packets) cur old h (omega arith) (ground arith)
