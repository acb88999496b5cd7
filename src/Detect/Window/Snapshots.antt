-- ===== src/Detect/Window/Snapshots.antt =====
-- control/detect.py, class Window: what `update` returns for two snapshots, and when it raises.
use mathlib.Core.Path.{subst}
use lookout.Common.{
  ap, ◌∙◌, ℕ, ◌+◌, ◌-◌, ◌≤◌, ◌<◌, ◌≡◌, inl, inr, refl, false, [], ◌∷◌, Option, none, some, arith,
  Eq, ltb, if◌then◌else◌, Bool-cases, All,
}
use lookout.Common.Ratio.{Ratio, ltb_ratio}
use lookout.Common.Dict.{Dict, lookup, lookup-insert, beq_refl}
use lookout.Common.Exec.{ok, err, zero_division, Result-cases}
use lookout.Detect.State.{SrcState, zeros, Row}
use lookout.Detect.Window.{
  Window, seconds, too_short, baseline, measure, collect, compare_with, rows_since, update, add_row,
}
use lookout.Detect.Window.Rows.{
  HasGrown, row_of, interval, sub_ℕ-eq, measure-row_of, measure-total, measure-raises,
}

-- The row of one source, from its two snapshots alone.
abbrev pub own_row : Ratio → Option SrcState → Option SrcState → Option Row
own_row secs old none = none
own_row secs old (some cur) = elim (measure secs cur (baseline cur old)) [ ok r ↦ r | err _ ↦ none ]

own_row-measured :
    (secs : Ratio) (old : Option SrcState) (cur : SrcState) (r : Option Row)
    → measure secs cur (baseline cur old) ≡ ok r
    → own_row secs old (some cur) ≡ r
own_row-measured secs old cur r h = ground arith

baseline-grew : (cur old : SrcState) → old.packets ≤ cur.packets → baseline cur (some old) ≡ old
unfolding baseline
baseline-grew cur old h = ground arith

pub own_row-row_of :
    (elapsed : ℕ) (cur old : SrcState)
    → 0 < elapsed
    → HasGrown cur old
    → own_row (interval elapsed) (some old) (some cur) ≡ some (row_of elapsed cur old)
own_row-row_of elapsed cur old h g =
    own_row-measured (interval elapsed) (some old) cur (some (row_of elapsed cur old))
      (rw (baseline-grew cur old (omega (arith, g.packets))) (measure-row_of elapsed cur old h g))

-- Measured against this snapshot the source does not raise: either its packets have fallen, and it
-- counts from zero, or the counters of closing packets have not fallen.
abbrev pub IsSteady : SrcState → Option SrcState → Type 0
IsSteady cur none = Unit
IsSteady cur (some old) = old.packets ≤ cur.packets → (old.fin ≤ cur.fin) × (old.rst ≤ cur.rst)

measure_steady :
    (elapsed : ℕ) (cur : SrcState) (old : Option SrcState)
    → 0 < elapsed
    → IsSteady cur old
    → (r : Option Row) × (measure (interval elapsed) cur (baseline cur old) ≡ ok r)
unfolding baseline
measure_steady elapsed cur none h steady =
    measure-total elapsed cur zeros h (omega arith) (omega arith)
measure_steady elapsed cur (some old) h steady = elim (Bool-cases (ltb cur.packets old.packets)) [
  | inl fell ↦ rw fell (measure-total elapsed cur zeros h (omega arith) (omega arith))
  | inr grew ↦
      let closed = steady (ground arith) in
      rw grew (measure-total elapsed cur old h closed.0 closed.1)
]

abbrev or_else : Option Row → Option Row → Option Row
or_else none r = r
or_else (some r) _ = some r

module _ {K : Type 0} ⦃e : Eq K⦄ where
  -- Each source has one entry, as in a dict.
  abbrev pub IsDistinct : Dict K SrcState → Type 0
  IsDistinct [] = Unit
  IsDistinct (s ∷ states) = (lookup s.0 states ≡ none) × IsDistinct states

  lookup-add_row_self :
      (ip : K) (r : Option Row) (rows : Dict K Row)
      → lookup ip (add_row ip r rows) ≡ or_else r (lookup ip rows)
  lookup-add_row_self ip none rows = refl
  lookup-add_row_self ip (some r) rows = ground (arith, lookup-insert ip ip r rows, beq_refl ip)

  lookup-add_row_ne :
      (ip j : K) (r : Option Row) (rows : Dict K Row)
      → e.beq j ip ≡ false
      → lookup ip (add_row j r rows) ≡ lookup ip rows
  lookup-add_row_ne ip j none rows h = refl
  lookup-add_row_ne ip j (some r) rows h = ground (arith, lookup-insert j ip r rows)

  lookup-cons :
      {V : Type 0} (ip j : K) (v : V) (d : Dict K V)
      → lookup ip ((j, v) ∷ d) ≡ (if e.beq j ip then some v else lookup ip d)
  unfolding lookup
  lookup-cons ip j v d = refl

  here :
      (secs : Ratio) (old : Option SrcState) (cur : SrcState) (r : Option Row)
      (states : Dict K SrcState) (rows out : Dict K Row) (ip : K)
      → measure secs cur (baseline cur old) ≡ ok r
      → lookup ip states ≡ none
      → lookup ip out
        ≡ or_else (own_row secs old (lookup ip states)) (lookup ip (add_row ip r rows))
      → lookup ip out ≡ or_else (own_row secs old (some cur)) (lookup ip rows)
  here secs old cur r states rows out ip measured absent rest =
      rw (own_row-measured secs old cur r measured)
        (rest ∙ rw absent (lookup-add_row_self ip r rows))

  collect-lookup :
      (secs : Ratio) (prev states : Dict K SrcState) (rows out : Dict K Row) (ip : K)
      → IsDistinct states
      → collect secs prev states rows ≡ ok out
      → lookup ip out ≡ or_else (own_row secs (lookup ip prev) (lookup ip states)) (lookup ip rows)
  unfolding collect
  collect-lookup secs prev [] rows out ip d h = unfold lookup in cc
  collect-lookup secs prev ((j, cur) ∷ states) rows out ip d h =
      elim (Result-cases (measure secs cur (baseline cur (lookup j prev)))) [
        | inl (r, measured) ↦
            let rest =
              collect-lookup secs prev states (add_row j r rows) out ip d.1 (rw measured at h) in
            elim (Bool-cases (e.beq j ip)) [
              | inl same ↦
                  let eq = (e.beq_iff j ip).0 same in
                  rw (lookup-cons, same)
                    (here secs (lookup ip prev) cur r states rows out ip
                      (subst (λ x. measure secs cur (baseline cur (lookup x prev)) ≡ ok r) eq
                        measured)
                      (subst (λ x. lookup x states ≡ none) eq d.0)
                      (subst
                        (λ x.
                          lookup ip out
                          ≡ or_else (own_row secs (lookup ip prev) (lookup ip states))
                              (lookup ip (add_row x r rows)))
                        eq rest))
              | inr other ↦
                  rw (lookup-cons, other) (rest ∙ rw (lookup-add_row_ne ip j r rows other))
            ]
        | inr (c, raised) ↦ cc (rw raised at h)
      ]

  collect-total :
      (elapsed : ℕ) (prev states : Dict K SrcState) (rows : Dict K Row)
      → 0 < elapsed
      → All (λ s. IsSteady s.1 (lookup s.0 prev)) states
      → (out : Dict K Row) × (collect (interval elapsed) prev states rows ≡ ok out)
  unfolding collect
  collect-total elapsed prev [] rows h a = (rows, refl)
  collect-total elapsed prev ((ip, cur) ∷ states) rows h a =
      let (r, measured) = measure_steady elapsed cur (lookup ip prev) h a.0 in
      rw measured (collect-total elapsed prev states (add_row ip r rows) h a.1)

  or_else-nil : (ip : K) (r : Option Row) → or_else r (lookup ip []) ≡ r
  unfolding lookup
  or_else-nil ip none = refl
  or_else-nil ip (some r) = refl

  collect-raises :
      (elapsed : ℕ) (prev states : Dict K SrcState) (ip : K) (cur old : SrcState)
      → 0 < elapsed
      → lookup ip prev ≡ some old
      → old.packets < cur.packets
      → cur.fin + cur.rst + 1 ≡ old.fin + old.rst
      → collect (interval elapsed) prev ((ip, cur) ∷ states) [] ≡ err zero_division
  unfolding collect
  collect-raises elapsed prev states ip cur old h before more fewer =
      rw (before, baseline-grew cur old (omega arith), measure-raises elapsed cur old h more fewer)

  -- After a snapshot `prev` at `prev_ns`, a millisecond or more before this one.
  module _ (w : Window K) (prev : Dict K SrcState) (prev_ns now_ns : ℕ)
      (paired : (w.prev ≡ some prev) × (w.prev_ns ≡ some prev_ns))
      (late : prev_ns + 1_000_000 ≤ now_ns) where
    not_short : ltb_ratio (seconds now_ns prev_ns) too_short ≡ false
    not_short = ground arith

    update-collect :
        (states : Dict K SrcState)
        → (update states now_ns w).0 ≡ collect (interval (now_ns - prev_ns)) prev states []
    unfolding update rows_since compare_with
    update-collect states =
        rw (paired.0, paired.1, not_short)
          (ap (λ z. collect (record { num = z; den = 1_000_000_000 }) prev states [])
            (sub_ℕ-eq now_ns prev_ns (omega arith)))

    -- At least a millisecond after the last snapshot, and with one entry for each source: if no source
    -- has sent as many packets or more and yet counts fewer FINs or RSTs, the update returns, and the
    -- row of each source depends on its own two snapshots alone.
    pub update-own_row :
        (states : Dict K SrcState)
        → IsDistinct states
        → All (λ s. IsSteady s.1 (lookup s.0 prev)) states
        → (rows : Dict K Row) × ((update states now_ns w).0 ≡ ok rows)
          × ((ip : K)
              → lookup ip rows
                ≡ own_row (interval (now_ns - prev_ns)) (lookup ip prev) (lookup ip states))
    update-own_row states d a =
        let (rows, h) = collect-total (now_ns - prev_ns) prev states [] (omega arith) a in
        (
          rows,
          update-collect states ∙ h,
          λ ip.
              collect-lookup (interval (now_ns - prev_ns)) prev states [] rows ip d h
              ∙ or_else-nil ip _,
        )

    -- At least a millisecond after the last snapshot: if the first source has sent more packets, and
    -- counts one closing packet less, FINs and RSTs taken together, the update raises
    -- `ZeroDivisionError`.
    pub update-raises :
        (ip : K) (cur old : SrcState) (states : Dict K SrcState)
        → lookup ip prev ≡ some old
        → old.packets < cur.packets
        → cur.fin + cur.rst + 1 ≡ old.fin + old.rst
        → (update ((ip, cur) ∷ states) now_ns w).0 ≡ err zero_division
    update-raises ip cur old states before more fewer =
        update-collect ((ip, cur) ∷ states)
        ∙ collect-raises (now_ns - prev_ns) prev states ip cur old (omega arith) before more fewer
