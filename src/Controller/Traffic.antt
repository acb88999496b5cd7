-- ===== src/Controller/Traffic.antt =====
-- control/controller.py, `Controller.step`: the load over the last interval.
pub mod Resets
use lookout.Common.{
  ℕ, ◌-◌, ◌*◌, Bool, true, false, ◌&&◌, List, [], ◌∷◌, Option, none, some, ltb, ◌==◌, if◌then◌else◌,
}
use lookout.Common.Int.{ℤ, pos, sub_ℕ, scale, ◌+ℤ◌, leb_ℤ, pos_part}
use lookout.Common.Ratio.{Ratio}
use lookout.Common.Dict
use lookout.Common.Dict.{Dict}
use lookout.Common.Exec.{Result, ok, err, key_error, or_raise}
use lookout.Common.Text.{Text, codes, text_eq}
use lookout.Firewall.Layout.{◌>>=◌}
use lookout.Firewall.Names

pub record Load : Type 0 where
  -- packets a second that reached the rate limiter, and the share of them that it dropped
  pub pps : Ratio
  pub drop_ratio : Ratio

-- `d[k]`
abbrev pub at_key : {V : Type 0} → Text → Dict Text V → Result V
at_key k d = or_raise (Dict.lookup k d) key_error

-- `{k: stats[k] - old[k] for k in stats}`
unfoldable pub delta : Dict Text ℕ → Dict Text ℕ → Result (Dict Text ℤ)
delta [] old = ok []
delta ((k, v) ∷ stats) old = do
  before ← at_key k old
  rest ← delta stats old
  ok ((k, sub_ℕ v before) ∷ rest)

-- `sum(d[k] for k in names)`
unfoldable pub total : List Text → Dict Text ℤ → Result ℤ
total [] d = ok (pos 0)
total (k ∷ names) d = do v ← at_key k d; rest ← total names d; ok (v +ℤ rest)

-- The clock is in nanoseconds. Of a load of no packets no share is dropped.
abbrev pub load_of : ℤ → ℤ → ℕ → Load
load_of load dropped elapsed = record {
  pps = record { num = scale load 1_000_000_000; den = elapsed };
  drop_ratio =
      if pos_part load == 0
      then record { num = pos 0; den = 1 }
      else record { num = dropped; den = pos_part load };
}

-- The load becomes `last` again where counters have fallen or the clock has not moved.
unfoldable pub measure_load : Option (Dict Text ℕ × ℕ) → Dict Text ℕ → ℕ → Load → Result Load
unfolding delta total
measure_load none stats now last = ok last
measure_load (some (old, then_)) stats now last = do
  d ← delta stats old
  load ← total Names.limiter_input d
  rx ← at_key (codes "rx_packets") d
  dropped ← at_key (codes "drop_ratelimit") d
  ok (
      if leb_ℤ (pos 0) rx && leb_ℤ (pos 0) load && ltb then_ now
      then load_of load dropped (now - then_)
      else last)
