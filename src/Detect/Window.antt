-- ===== src/Detect/Window.antt =====
-- control/detect.py, class Window: successive snapshots become measurements.
pub mod Ones
pub mod Rows
pub mod Snapshots
use lookout.Common.{
  ℕ, zero, suc, ◌+◌, ◌/◌, ◌%◌, Bool, true, false, [], ◌∷◌, Option, none, some, ltb, ◌==◌,
  if◌then◌else◌, Eq,
}
use lookout.Common.Int.{ℤ, pos, negsuc, neg, sub_ℕ, scale, ◌+ℤ◌, leb_ℤ}
use lookout.Common.Ratio.{Ratio, ltb_ratio}
use lookout.Common.Dict.{Dict, lookup, insert}
use lookout.Common.Exec.{Exec, Result, ok, err, zero_division, type_error, or_raise}
use lookout.Detect.State.{SrcState, zeros, Row}

pub record Window (K : Type 0) : Type 0 where
  pub prev : Option (Dict K SrcState)
  pub prev_ns : Option ℕ

abbrev pub init : {K : Type 0} → Window K
init = record { prev = none; prev_ns = none }

infixl 10 ◌>>=◌
abbrev ◌>>=◌ : {A B : Type 0} → Result A → (A → Result B) → Result B
ok a >>= f = f a
err c >>= f = err c

-- Python's `/` on two integers, and on an integer and a quotient.
unfoldable pub divide : ℤ → ℤ → Result Ratio
divide a (pos zero) = err zero_division
divide a (pos (suc d)) = ok (record { num = a; den = suc d })
divide a (negsuc d) = ok (record { num = neg a; den = suc d })

unfoldable pub divide_by : ℤ → Ratio → Result Ratio
divide_by a r = divide (scale a r.den) r.num

-- `bin(x).count("1")`
unfoldable pub ones_in : ℕ → ℕ → ℕ
ones_in zero x = 0
ones_in (suc f) x = elim (x == 0) [ true ↦ 0 | false ↦ x % 2 + ones_in f (x / 2) ]

unfoldable pub count_ones : ℕ → ℕ
count_ones x = ones_in x x

-- (now_ns - prev_ns) / 1e9
abbrev pub seconds : ℕ → ℕ → Ratio
seconds now_ns prev_ns = record { num = sub_ℕ now_ns prev_ns; den = 1_000_000_000 }

-- 0.001
abbrev pub too_short : Ratio
too_short = record { num = pos 1; den = 1000 }

-- The snapshot that the counters are compared with.
unfoldable pub baseline : SrcState → Option SrcState → SrcState
baseline cur none = zeros
baseline cur (some old) = if ltb cur.packets old.packets then zeros else old

-- The measurements, over `n` packets.
unfoldable pub fractions : Ratio → ℤ → SrcState → SrcState → Result (Option Row)
fractions secs n cur old = do
  pps ← divide_by n secs
  mean_len ← divide (sub_ℕ cur.bytes old.bytes) n
  syn_ratio ← divide (sub_ℕ cur.syn old.syn) n
  syn_fin_ratio ←
      divide (sub_ℕ cur.syn old.syn) (sub_ℕ cur.fin old.fin +ℤ sub_ℕ cur.rst old.rst +ℤ pos 1)
  icmp_ratio ← divide (sub_ℕ cur.icmp old.icmp) n
  drop_ratio ← divide (sub_ℕ cur.dropped old.dropped) n
  ok (
      some (record {
        pps = pps;
        mean_len = mean_len;
        syn_ratio = syn_ratio;
        syn_fin_ratio = syn_fin_ratio;
        icmp_ratio = icmp_ratio;
        port_spread = count_ones cur.port_bitmap;
        drop_ratio = drop_ratio;
      }))

-- The loop's body for one source; `none` where it goes on with the next.
unfoldable pub measure : Ratio → SrcState → SrcState → Result (Option Row)
measure secs cur old =
    let n = sub_ℕ cur.packets old.packets in
    if leb_ℤ n (pos 0) then ok none else fractions secs n cur old

module _ {K : Type 0} ⦃e : Eq K⦄ where
  -- `rows[ip] = …`, where there is a row
  abbrev pub add_row : K → Option Row → Dict K Row → Dict K Row
  add_row ip none rows = rows
  add_row ip (some row) rows = insert ip row rows

  unfoldable pub collect :
      Ratio → Dict K SrcState → Dict K SrcState → Dict K Row → Result (Dict K Row)
  collect secs prev [] rows = ok rows
  collect secs prev ((ip, cur) ∷ states) rows = do
    row ← measure secs cur (baseline cur (lookup ip prev))
    collect secs prev states (add_row ip row rows)

  unfoldable pub compare_with : Dict K SrcState → ℕ → Dict K SrcState → ℕ → Result (Dict K Row)
  compare_with prev prev_ns states now_ns =
      let secs = seconds now_ns prev_ns in
      if ltb_ratio secs too_short then ok [] else collect secs prev states []

  -- The first call only records a baseline.
  unfoldable pub rows_since :
      Option (Dict K SrcState) → Option ℕ → Dict K SrcState → ℕ → Result (Dict K Row)
  rows_since none prev_ns states now_ns = ok []
  rows_since (some prev) prev_ns states now_ns = do
    then_ns ← or_raise prev_ns type_error
    compare_with prev then_ns states now_ns

  unfoldable pub update : Dict K SrcState → ℕ → Exec (Window K) (Dict K Row)
  update states now_ns w = (
    rows_since w.prev w.prev_ns states now_ns,
    record { prev = some states; prev_ns = some now_ns },
  )
