-- ===== src/Controller/Traffic/Resets.antt =====
-- control/controller.py, `Controller.step`: the load in terms of the counters.
use lookout.Common.{
  ℕ, ◌+◌, ◌-◌, ◌*◌, ◌≤◌, ◌<◌, ◌≡◌, refl, sym, ap, ◌∙◌, [], ◌∷◌, some, Bool-cases, inl, inr, ◌⊎◌,
  ◌==◌, ◌&&◌, ltb, arith, if◌then◌else◌, All,
}
use lookout.Common.Int.{ℤ, pos, sub_ℕ, ◌+ℤ◌, leb_ℤ}
use lookout.Common.Dict
use lookout.Common.Dict.{Dict}
use lookout.Common.Text.{Text, codes, text_eq}
use lookout.Common.Exec.{ok}
use lookout.Firewall.Names
use lookout.Controller.Traffic.{Load, delta, total, load_of, measure_load}

-- Each counter of the new reading is in the old one.
abbrev pub Covers : Dict Text ℕ → Dict Text ℕ → Type 0
Covers old stats = All (λ s. (v : ℕ) × (Dict.lookup s.0 old ≡ some v)) stats

some-inj : {a b : ℕ} → some a ≡ some b → a ≡ b
some-inj {a} {b} h = ground arith

lookup-cons :
    {V : Type 0} (k j : Text) (v : V) (d : Dict Text V)
    → Dict.lookup k ((j, v) ∷ d) ≡ (if text_eq.beq j k then some v else Dict.lookup k d)
unfolding Dict.lookup
lookup-cons k j v d = refl

differ_cons :
    (k j : Text) (v before a b : ℕ) (stats old : Dict Text ℕ) (d : Dict Text ℤ)
    → Dict.lookup j old ≡ some before
    → Dict.lookup k ((j, v) ∷ stats) ≡ some a
    → Dict.lookup k old ≡ some b
    → (Dict.lookup k stats ≡ some a
        → Dict.lookup k old ≡ some b
        → Dict.lookup k d ≡ some (sub_ℕ a b))
    → Dict.lookup k ((j, sub_ℕ v before) ∷ d) ≡ some (sub_ℕ a b)
differ_cons k j v before a b stats old d e h g rest = elim (Bool-cases (text_eq.beq j k)) [
  | inl same ↦
      let here : v ≡ a = some-inj (rw (lookup-cons k j v stats, same) at h) in
      let there : before ≡ b =
        some-inj (sym e ∙ ap (λ x. Dict.lookup x old) ((text_eq.beq_iff j k).0 same) ∙ g) in
      rw (lookup-cons, same, here, there) refl
  | inr other ↦ rw (lookup-cons, other) (rest (rw (lookup-cons k j v stats, other) at h) g)
]

-- Every counter has its difference.
delta-total :
    (stats old : Dict Text ℕ)
    → Covers old stats
    → (d : Dict Text ℤ) × (delta stats old ≡ ok d)
      × ((k : Text) (a b : ℕ)
          → Dict.lookup k stats ≡ some a
          → Dict.lookup k old ≡ some b
          → Dict.lookup k d ≡ some (sub_ℕ a b))
unfolding delta
delta-total [] old c = ([], refl, λ k a b h g. unfold Dict.lookup in cc)
delta-total ((j, v) ∷ stats) old ((before, e), c) =
    let (d, made, differ) = delta-total stats old c in
    (
      (j, sub_ℕ v before) ∷ d,
      rw (e, made) refl,
      λ k a b h g. differ_cons k j v before a b stats old d e h g (differ k a b),
    )

total_limiter :
    (d : Dict Text ℤ) (a b c : ℤ)
    → Dict.lookup (codes "pass_rule") d ≡ some a
    → Dict.lookup (codes "pass_default") d ≡ some b
    → Dict.lookup (codes "drop_ratelimit") d ≡ some c
    → total Names.limiter_input d ≡ ok (a +ℤ (b +ℤ (c +ℤ pos 0)))
unfolding total
total_limiter d a b c h g k = rw (h, g, k) refl

-- The counters that the load is made of.
pub record Counters (stats : Dict Text ℕ) : Type 0 where
  pub rx : ℕ
  pub rule : ℕ
  pub default : ℕ
  pub limited : ℕ
  pub rx_at : Dict.lookup (codes "rx_packets") stats ≡ some rx
  pub rule_at : Dict.lookup (codes "pass_rule") stats ≡ some rule
  pub default_at : Dict.lookup (codes "pass_default") stats ≡ some default
  pub limited_at : Dict.lookup (codes "drop_ratelimit") stats ≡ some limited

-- Packets that have reached the rate limiter.
abbrev pub seen : {stats : Dict Text ℕ} → Counters stats → ℕ
seen c = c.rule + c.default + c.limited

-- No counter of the load has fallen, and time has passed.
pub record IsForward {old stats : Dict Text ℕ} (before : Counters old) (after : Counters stats)
    (then_ now : ℕ) : Type 0 where
  pub rx : before.rx ≤ after.rx
  pub rule : before.rule ≤ after.rule
  pub default : before.default ≤ after.default
  pub limited : before.limited ≤ after.limited
  pub late : then_ < now

abbrev pub natural_load : ℕ → ℕ → ℕ → Load
natural_load load dropped elapsed = record {
  pps = record { num = pos (load * 1_000_000_000); den = elapsed };
  drop_ratio =
      if load == 0
      then record { num = pos 0; den = 1 }
      else record { num = pos dropped; den = load };
}

sub_ℕ-zero : (a x : ℕ) → sub_ℕ a x +ℤ pos 0 ≡ sub_ℕ a x
sub_ℕ-zero a x = ground arith

sub_ℕ-add : (a x b y : ℕ) → sub_ℕ a x +ℤ sub_ℕ b y ≡ sub_ℕ (a + b) (x + y)
sub_ℕ-add a x b y = ground arith

sum_ℕ-sub :
    (a b c x y z : ℕ)
    → sub_ℕ a x +ℤ (sub_ℕ b y +ℤ (sub_ℕ c z +ℤ pos 0)) ≡ sub_ℕ (a + b + c) (x + y + z)
sum_ℕ-sub a b c x y z =
    rw (sub_ℕ-zero c z, sub_ℕ-add b y c z, sub_ℕ-add a x (b + c) (y + z))
      (ap (λ t. sub_ℕ t (x + (y + z))) (omega arith) ∙ ap (λ t. sub_ℕ (a + b + c) t) (omega arith))

abbrev decided : ℤ → ℤ → ℤ → ℕ → ℕ → Load → Load
decided rx load dropped then_ now last =
    if leb_ℤ (pos 0) rx && leb_ℤ (pos 0) load && ltb then_ now
    then load_of load dropped (now - then_)
    else last

sub_ℕ-le : (a b : ℕ) → b ≤ a → sub_ℕ a b ≡ pos (a - b)
sub_ℕ-le a b h = ground arith

forward :
    (r q s p l k then_ now : ℕ) (last : Load)
    → q ≤ r
    → p ≤ s
    → k ≤ l
    → then_ < now
    → decided (sub_ℕ r q) (sub_ℕ s p) (sub_ℕ l k) then_ now last
      ≡ natural_load (s - p) (l - k) (now - then_)
forward r q s p l k then_ now last a b c d =
    rw (sub_ℕ-le r q a, sub_ℕ-le s p b, sub_ℕ-le l k c) (ground arith)

stays :
    (r q s p then_ now : ℕ) (dropped : ℤ) (last : Load)
    → (r < q) ⊎ (s < p) ⊎ (now ≤ then_)
    → decided (sub_ℕ r q) (sub_ℕ s p) dropped then_ now last ≡ last
stays r q s p then_ now dropped last (inl h) = ground arith
stays r q s p then_ now dropped last (inr (inl h)) = ground arith
stays r q s p then_ now dropped last (inr (inr h)) = ground arith

module _ (old stats : Dict Text ℕ) (covers : Covers old stats) (before : Counters old)
    (after : Counters stats) (then_ now : ℕ) (last : Load) where
  measured :
      (d : Dict Text ℤ)
      → delta stats old ≡ ok d
      → total Names.limiter_input d
        ≡ ok (
            sub_ℕ after.rule before.rule
            +ℤ (sub_ℕ after.default before.default
                +ℤ (sub_ℕ after.limited before.limited +ℤ pos 0)))
      → Dict.lookup (codes "rx_packets") d ≡ some (sub_ℕ after.rx before.rx)
      → Dict.lookup (codes "drop_ratelimit") d ≡ some (sub_ℕ after.limited before.limited)
      → measure_load (some (old, then_)) stats now last
        ≡ ok (
            decided
              (sub_ℕ after.rx before.rx)
              (sub_ℕ (seen after) (seen before))
              (sub_ℕ after.limited before.limited)
              then_
              now
              last)
  unfolding measure_load
  measured d made sum rx limited =
      rw
        (
          made,
          sum
              ∙ ap ok (
                  sum_ℕ-sub after.rule after.default after.limited before.rule before.default
                    before.limited),
          rx,
          limited,
        )
        refl

  -- Where the counters have not fallen and the clock has moved on, the load is the number of
  -- packets that reached the rate limiter over the seconds that have passed, and the share that it
  -- dropped (0 of no packets). Where the received packets are fewer than before, or the packets
  -- that reached the limiter are, or the clock has not moved on, the last load stays.
  pub measure_load-seen :
      (IsForward before after then_ now
        → measure_load (some (old, then_)) stats now last
          ≡ ok (
              natural_load
                (seen after - seen before)
                (after.limited - before.limited)
                (now - then_)))
      × ((after.rx < before.rx) ⊎ (seen after < seen before) ⊎ (now ≤ then_)
          → measure_load (some (old, then_)) stats now last ≡ ok last)
  measure_load-seen =
      let (d, made, differ) = delta-total stats old covers in
      let rx = differ (codes "rx_packets") after.rx before.rx after.rx_at before.rx_at in
      let rule = differ (codes "pass_rule") after.rule before.rule after.rule_at before.rule_at in
      let default =
        differ (codes "pass_default") after.default before.default after.default_at
          before.default_at in
      let limited =
        differ (codes "drop_ratelimit") after.limited before.limited after.limited_at
          before.limited_at in
      let sum = total_limiter d _ _ _ rule default limited in
      let result = measured d made sum rx limited in
      (
        λ f.
            result
            ∙ ap ok (
                forward after.rx before.rx (seen after) (seen before) after.limited before.limited
                  then_ now last f.rx (omega (arith, f.rule, f.default, f.limited)) f.limited
                  f.late),
        λ f.
            result ∙ ap ok (stays after.rx before.rx (seen after) (seen before) then_ now _ last f),
      )
