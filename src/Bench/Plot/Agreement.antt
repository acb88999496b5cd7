-- ===== src/Bench/Plot/Agreement.antt =====
-- bench/plot.py, `checks`: the agreement of the kernel's counter with the firewalls'.
use lookout.Common.{
  ℕ, ◌+◌, ◌*◌, ◌≤◌, ◌<◌, ◌≡◌, ◌≢◌, ◌↔◌, refl, ap, ◌∙◌, true, Bool-cases, inl, inr, List, [], ◌∷◌,
  arith, ltb, ◌==◌, All, if◌then◌else◌,
}
use native.Mathlib.Nat.{mul-le-mul_right}
use lookout.Common.Int.{pos}
use lookout.Common.Ratio.{Ratio, ltb_ratio}
use lookout.Common.Text.{Text, codes, text_beq, text_beq_iff}
use lookout.Bench.Measurements.{Row, Systems, Data}
use lookout.Bench.Plot.{
  distance, off_by, worst_of, worst_systems, worst_data, checked, counters_agree,
}

-- Apart by less than a hundredth of the second.
abbrev pub Near : ℕ → ℕ → Type 0
Near a b = (100 * a < 100 * b + b) × (100 * b < 100 * a + b)

-- The kernel's counter agrees with the packets received. With nftables it sees every packet, and with
-- XDP those that the firewall has not dropped before it.
abbrev pub Counted : Text → Row → Type 0
Counted s r =
    (s ≡ codes "nftables" → Near r.ip_in r.received)
    × (s ≢ codes "nftables" → Near (r.ip_in + r.fw_dropped) r.received)

-- Without packets there is nothing to compare, and the empty XDP program has no counters.
abbrev pub Agrees : Text → Row → Type 0
Agrees s r = s ≢ codes "xdp-empty" → 1 ≤ r.received → Counted s r

abbrev pub SystemsAgree : Systems → Type 0
SystemsAgree = All (λ e. All (Agrees e.0) e.1)

abbrev pub AllAgree : Data → Type 0
AllAgree = All (λ e. SystemsAgree e.1)

distance-Near : (a b : ℕ) → (distance a b * 100 < b) ↔ Near a b
distance-Near a b = (λ h. (omega (arith, h), omega (arith, h)), λ h. omega (arith, h.0, h.1))

-- What is compared for a row, as the code computes it.
abbrev Off : Text → Row → Type 0
Off s r = 1 ≤ r.received → off_by s r * 100 < r.received

off_by-Counted : (s : Text) (r : Row) → (off_by s r * 100 < r.received) ↔ Counted s r
off_by-Counted s r = elim (Bool-cases (text_beq s (codes "nftables"))) [
  | inl e ↦
      let same : s ≡ codes "nftables" = (text_beq_iff s (codes "nftables")).0 e in
      rw e (
        λ h. (λ _. (distance-Near r.ip_in r.received).0 h, λ differs. elim (differs same) [ ]),
        λ h. (distance-Near r.ip_in r.received).1 (h.0 same),
      )
  | inr e ↦
      let differs : s ≢ codes "nftables" = λ h. ground (arith, (text_beq_iff s _).1 h, e) in
      rw e (
        λ h. (
          λ same. elim (differs same) [ ],
          λ _. (distance-Near (r.ip_in + r.fw_dropped) r.received).0 h,
        ),
        λ h. (distance-Near (r.ip_in + r.fw_dropped) r.received).1 (h.1 differs),
      )
]

Off-Agrees :
    (s : Text) (rows : List Row) → s ≢ codes "xdp-empty" → All (Off s) rows ↔ All (Agrees s) rows
Off-Agrees s [] has = (λ h. tt, λ h. tt)
Off-Agrees s (r ∷ rows) has =
    let (one, back) = off_by-Counted s r in
    let (rest, back_rest) = Off-Agrees s rows has in
    (
      λ h. (λ _ some_received. one (h.0 some_received), rest h.1),
      λ h. (λ some_received. back (h.0 has some_received), back_rest h.1),
    )

none_asked : (s : Text) (rows : List Row) → s ≡ codes "xdp-empty" → All (Agrees s) rows
none_asked s [] h = tt
none_asked s (r ∷ rows) h = (λ has. elim (has h) [ ], none_asked s rows h)

checked-Agrees : (s : Text) (rows : List Row) → All (Off s) (checked s rows) ↔ All (Agrees s) rows
checked-Agrees s rows = elim (Bool-cases (text_beq s (codes "xdp-empty"))) [
  | inl e ↦ rw e (λ _. none_asked s rows ((text_beq_iff s (codes "xdp-empty")).0 e), λ _. tt)
  | inr e ↦
      let has : s ≢ codes "xdp-empty" = λ h. ground (arith, (text_beq_iff s _).1 h, e) in
      rw e (Off-Agrees s rows has)
]

abbrev one : Ratio
one = record { num = pos 1; den = 1 }

-- The quotient `n / d`.
abbrev over : ℕ → ℕ → Ratio
over n d = record { num = pos n; den = d }

ltb_ratio-over : (a b c d : ℕ) → ltb_ratio (over a b) (over c d) ≡ ltb (a * d) (c * b)
ltb_ratio-over a b c d = ground arith

-- A quotient below another that is below one.
smaller : (a b x d : ℕ) → a * d < x * b → x < d → a < b
smaller a b x d less h = elim (Bool-cases (ltb a b)) [
  | inl e ↦ ground (arith, e)
  | inr e ↦
      let le : b ≤ a = ground (arith, e) in
      omega (arith, less, mul-le-mul_right d le, mul-le-mul_right b h)
]

not_greater : (a b x d : ℕ) → 1 ≤ d → x * b ≤ a * d → a < b → x < d
not_greater a b x d some_packets le h = elim (Bool-cases (ltb x d)) [
  | inl e ↦ ground (arith, e)
  | inr e ↦
      let ge : d ≤ x = ground (arith, e) in
      omega (arith, some_packets, le, mul-le-mul_right b ge, mul-le-mul_right d h)
]

-- A quotient that is below one just if a / b was and `P` holds.
abbrev Narrows : ℕ → ℕ → Type 0 → Ratio → Type 0
Narrows a b P w = (n : ℕ) × ((d : ℕ) × ((w ≡ over n d) × (1 ≤ d) × ((n < d) ↔ ((a < b) × P))))

-- One row more, for the quotient a / b so far.
one_more :
    (a b x d : ℕ)
    → 1 ≤ b
    → Narrows a b (1 ≤ d → x < d) (
        if d == 0 then over a b else if ltb_ratio (over a b) (over x d) then over x d else over a b)
one_more a b x d h = elim (Bool-cases (d == 0)) [
  | inl none_received ↦
      rw none_received
        (a, (b, (refl, h, (λ k. (k, λ l. ground (arith, none_received, l)), λ k. k.0))))
  | inr e ↦
      let some_received : 1 ≤ d = ground (arith, e) in
      elim (Bool-cases (ltb (a * d) (x * b))) [
        | inl less ↦
            rw (e, ltb_ratio-over a b x d, less)
              (
                x,
                (
                  d,
                  (
                    refl,
                    some_received,
                    (
                      λ k. (smaller a b x d (ground (arith, less)) k, λ _. k),
                      λ k. k.1 some_received,
                    ),
                  ),
                ),
              )
        | inr not_less ↦
            rw (e, ltb_ratio-over a b x d, not_less)
              (
                a,
                (
                  b,
                  (
                    refl,
                    h,
                    (
                      λ k. (k, λ _. not_greater a b x d some_received (ground (arith, not_less)) k),
                      λ k. k.0,
                    ),
                  ),
                ),
              )
      ]
]

in_turn :
    (a b : ℕ) (P Q : Type 0) (f : Ratio → Ratio) (w : Ratio)
    → ((n d : ℕ) → 1 ≤ d → Narrows n d Q (f (over n d)))
    → Narrows a b P w
    → Narrows a b (P × Q) (f w)
in_turn a b P Q f w next (n, (d, (e, h, iff))) =
    let (n', (d', (e', h', iff'))) = next n d h in
    (
      n',
      (
        d',
        (
          ap f e ∙ e',
          h',
          (
            λ k. ((iff.0 (iff'.0 k).0).0, ((iff.0 (iff'.0 k).0).1, (iff'.0 k).1)),
            λ k. iff'.1 (iff.1 (k.0, k.1.0), k.1.1),
          ),
        ),
      ),
    )

same_claim : (a b : ℕ) (P Q : Type 0) (w : Ratio) → P ↔ Q → Narrows a b P w → Narrows a b Q w
same_claim a b P Q w (to, back) (n, (d, (e, h, iff))) =
    (n, (d, (e, h, (λ k. ((iff.0 k).0, to (iff.0 k).1), λ k. iff.1 (k.0, back k.1)))))

unchanged : (a b : ℕ) → 1 ≤ b → Narrows a b (Unit {0}) (over a b)
unchanged a b h = (a, (b, (refl, h, (λ k. (k, tt), λ k. k.0))))

worst_of-Narrows :
    (s : Text) (rs : List Row) (a b : ℕ)
    → 1 ≤ b
    → Narrows a b (All (Off s) rs) (worst_of s rs (over a b))
unfolding worst_of
worst_of-Narrows s [] a b h = unchanged a b h
worst_of-Narrows s (r ∷ rs) a b h =
    in_turn a b (Off s r) (All (Off s) rs) (worst_of s rs) _ (worst_of-Narrows s rs)
      (one_more a b (off_by s r * 100) r.received h)

worst_systems-Narrows :
    (systems : Systems) (a b : ℕ)
    → 1 ≤ b
    → Narrows a b (SystemsAgree systems) (worst_systems systems (over a b))
unfolding worst_systems
worst_systems-Narrows [] a b h = unchanged a b h
worst_systems-Narrows ((s, rows) ∷ rest) a b h =
    in_turn a b (All (Agrees s) rows) (SystemsAgree rest) (worst_systems rest) _
      (worst_systems-Narrows rest)
      (same_claim a b _ _ _ (checked-Agrees s rows) (worst_of-Narrows s (checked s rows) a b h))

worst_data-Narrows :
    (groups : Data) (a b : ℕ) → 1 ≤ b → Narrows a b (AllAgree groups) (worst_data groups (over a b))
unfolding worst_data
worst_data-Narrows [] a b h = unchanged a b h
worst_data-Narrows ((k, systems) ∷ rest) a b h =
    in_turn a b (SystemsAgree systems) (AllAgree rest) (worst_data rest) _ (worst_data-Narrows rest)
      (worst_systems-Narrows systems a b h)

ltb_ratio-one : (n d : ℕ) → (ltb_ratio (over n d) one ≡ true) ↔ (n < d)
ltb_ratio-one n d = ground arith

-- `checks` calls the counters in agreement just if, in every row with packets received, of every
-- system but the empty XDP program, the kernel's IP counter is off from the packets received by less
-- than one in a hundred of them: alone with nftables, and with the packets dropped by the firewall
-- added with XDP.
pub counters_agree-AllAgree : (groups : Data) → (counters_agree groups ≡ true) ↔ AllAgree groups
unfolding counters_agree
counters_agree-AllAgree groups =
    let (n, (d, (e, h, iff))) = worst_data-Narrows groups 0 1 (omega arith) in
    rw e (
      λ k. (iff.0 ((ltb_ratio-one n d).0 k)).1,
      λ k. (ltb_ratio-one n d).1 (iff.1 (omega arith, k)),
    )
