-- ===== src/Fwctl/Limits.antt =====
-- control/fwctl.py, `config set`: the limits of the rate and of the burst.
use lookout.Common.{
  ℕ, ◌≤◌, ◌≡◌, ◌⊎◌, inl, inr, refl, sym, ◌∙◌, [], ◌∷◌, ◌++◌, Option, none, some, arith,
}
use lookout.Common.Int.{ℤ, pos, negsuc}
use lookout.Common.Dict
use lookout.Common.Dict.{Dict}
use lookout.Common.Text.{Text, text_eq, text_beq}
use lookout.Common.Exec.{Error, ok, err, key_error, or_raise, lift, ◌>>=◌, Result-cases}
use lookout.Firewall.Machine.{Machine}
use lookout.Firewall.Names
use lookout.Firewall.Maps.{Firewall}
use lookout.Firewall.Rules.{read_config, update_config}
use lookout.Firewall.Rules.Settings.{changed, update_config-changes}
use lookout.Fwctl.{
  Settings, cmd_config_set, check_rate, check_burst, change_bits, set_bit, clear_bit, level_change,
}

-- A rate that was given is one of the kernel's, a burst that was given lets a packet through.
abbrev pub IsRate : Option ℤ → Type 0
IsRate none = Unit
IsRate (some (pos n)) = n ≤ 100_000_000
IsRate (some (negsuc n)) = ⊥

abbrev pub IsBurst : Option ℤ → Type 0
IsBurst none = Unit
IsBurst (some (pos n)) = 1 ≤ n
IsBurst (some (negsuc n)) = ⊥

-- A setting after the command: the value that was given, or the old one.
abbrev pub given_or : Option ℤ → Option ℕ → Option ℕ
given_or (some (pos n)) old = some n
given_or _ old = old

check_rate-IsRate : (rate : Option ℤ) (d : Dict Text ℕ) → check_rate rate ≡ ok d → IsRate rate
unfolding check_rate
check_rate-IsRate none d h = tt
check_rate-IsRate (some (pos n)) d h = ground arith
check_rate-IsRate (some (negsuc n)) d h = ground arith

check_burst-IsBurst :
    (burst : Option ℤ) (d : Dict Text ℕ) → check_burst burst ≡ ok d → IsBurst burst
unfolding check_burst
check_burst-IsBurst none d h = tt
check_burst-IsBurst (some (pos n)) d h = ground arith
check_burst-IsBurst (some (negsuc n)) d h = ground arith

-- The changes that are asked for, in terms of what was given.
abbrev rate_change : Option ℤ → Dict Text ℕ
rate_change (some (pos n)) = (Names.rate_pps, n) ∷ []
rate_change _ = []

abbrev burst_change : Option ℤ → Dict Text ℕ
burst_change (some (pos n)) = (Names.burst_pkts, n) ∷ []
burst_change _ = []

check_rate-eq : (rate : Option ℤ) (d : Dict Text ℕ) → check_rate rate ≡ ok d → d ≡ rate_change rate
unfolding check_rate
check_rate-eq none d h = ground arith
check_rate-eq (some (pos n)) d h = ground arith
check_rate-eq (some (negsuc n)) d h = ground arith

check_burst-eq :
    (burst : Option ℤ) (d : Dict Text ℕ) → check_burst burst ≡ ok d → d ≡ burst_change burst
unfolding check_burst
check_burst-eq none d h = ground arith
check_burst-eq (some (pos n)) d h = ground arith
check_burst-eq (some (negsuc n)) d h = ground arith

-- The keywords of the call of `update_config`.
abbrev changes_of : ℕ → Settings → Dict Text ℕ
changes_of new args =
    (Names.features, new) ∷ rate_change args.rate
    ++ burst_change args.burst
    ++ level_change args.aggressiveness

changed-append :
    (name : Text) (first then_these : Dict Text ℕ) (old : Option ℕ)
    → changed name (first ++ then_these) old ≡ changed name then_these (changed name first old)
changed-append name [] then_these old = refl
changed-append name ((k, v) ∷ first) then_these old = changed-append name first then_these _

module _ (old : Option ℕ) where
  changed-level_change :
      (level : Option ℕ)
      → (changed Names.rate_pps (level_change level) old ≡ old)
        × (changed Names.burst_pkts (level_change level) old ≡ old)
  unfolding text_beq
  changed-level_change none = (refl, refl)
  changed-level_change (some n) = (refl, refl)

  changed-rate_change :
      (rate : Option ℤ)
      → (changed Names.rate_pps (rate_change rate) old ≡ given_or rate old)
        × (changed Names.burst_pkts (rate_change rate) old ≡ old)
  unfolding text_beq
  changed-rate_change none = (refl, refl)
  changed-rate_change (some (pos n)) = (refl, refl)
  changed-rate_change (some (negsuc n)) = (refl, refl)

  changed-burst_change :
      (burst : Option ℤ)
      → (changed Names.rate_pps (burst_change burst) old ≡ old)
        × (changed Names.burst_pkts (burst_change burst) old ≡ given_or burst old)
  unfolding text_beq
  changed-burst_change none = (refl, refl)
  changed-burst_change (some (pos n)) = (refl, refl)
  changed-burst_change (some (negsuc n)) = (refl, refl)

module _ (new : ℕ) (args : Settings) (old : Option ℕ) where
  skips_features :
      (rest : Dict Text ℕ)
      → (changed Names.rate_pps ((Names.features, new) ∷ rest) old
          ≡ changed Names.rate_pps rest old)
        × (changed Names.burst_pkts ((Names.features, new) ∷ rest) old
            ≡ changed Names.burst_pkts rest old)
  unfolding text_beq
  skips_features rest = (refl, refl)

  changed-changes_of :
      (changed Names.rate_pps (changes_of new args) old ≡ given_or args.rate old)
      × (changed Names.burst_pkts (changes_of new args) old ≡ given_or args.burst old)
  changed-changes_of =
      let given = given_or args.rate old in
      let first = (Names.features, new) ∷ rate_change args.rate in
      (
        rw
            (
              changed-append Names.rate_pps (first ++ burst_change args.burst)
                  (level_change args.aggressiveness) old,
              changed-append Names.rate_pps first (burst_change args.burst) old,
              (skips_features (rate_change args.rate)).0,
              (changed-rate_change old args.rate).0,
              (changed-burst_change given args.burst).0,
            )
            ((changed-level_change given args.aggressiveness).0),
        rw
            (
              changed-append Names.burst_pkts (first ++ burst_change args.burst)
                  (level_change args.aggressiveness) old,
              changed-append Names.burst_pkts first (burst_change args.burst) old,
              (skips_features (rate_change args.rate)).1,
              (changed-rate_change old args.rate).1,
              (changed-burst_change old args.burst).1,
            )
            ((changed-level_change (given_or args.burst old) args.aggressiveness).1),
      )

module _ {W : Type 0} (m : Machine W) (fw : Firewall) (args : Settings) (cfg : Dict Text ℕ)
    (w w1 : W) (read : read_config m fw w ≡ (ok cfg, w1)) where
  -- The command raises before it writes, or its values are in their limits.
  set-cases :
      ((c : Error) × (cmd_config_set m fw args w ≡ (err c, w1)))
      ⊎ ((new : ℕ) × (IsRate args.rate
            × IsBurst args.burst
            × (cmd_config_set m fw args w ≡ update_config m fw (changes_of new args) w1)))
  unfolding cmd_config_set ◌>>=◌ lift
  set-cases = elim (Result-cases (or_raise (Dict.lookup Names.features cfg) key_error)) [
    | inr (c, e) ↦ inl (c, rw (read, e) refl)
    | inl (feats, e) ↦ elim (Result-cases (change_bits set_bit args.enable feats)) [
      | inr (c, e2) ↦ inl (c, rw (read, e, e2) refl)
      | inl (enabled, e2) ↦ elim (Result-cases (change_bits clear_bit args.disable enabled)) [
        | inr (c, e3) ↦ inl (c, rw (read, e, e2, e3) refl)
        | inl (new, e3) ↦ elim (Result-cases (check_rate args.rate)) [
          | inr (c, e4) ↦ inl (c, rw (read, e, e2, e3, e4) refl)
          | inl (rate, e4) ↦ elim (Result-cases (check_burst args.burst)) [
            | inr (c, e5) ↦ inl (c, rw (read, e, e2, e3, e4, e5) refl)
            | inl (burst, e5) ↦ inr (
              new,
              (
                check_rate-IsRate args.rate rate e4,
                check_burst-IsBurst args.burst burst e5,
                rw
                    (
                      read,
                      e,
                      e2,
                      e3,
                      e4,
                      e5,
                      check_rate-eq args.rate rate e4,
                      check_burst-eq args.burst burst e5,
                    )
                    refl,
              ),
            )
          ]
        ]
      ]
    ]
  ]

  module _ (now : Dict Text ℕ) (w2 : W) (again : read_config m fw w1 ≡ (ok now, w2)) where
    -- `config set`, whose first read of the settings returns, and the read of `update_config` after
    -- it too: with a rate outside 0 to 100 000 000 or a burst below 1 it raises, having written
    -- nothing; if it returns, the rate and the burst are within these limits, and each of the two is
    -- the one that was given, or else the one that was read.
    pub config_set-limits :
        (¬ (IsRate args.rate × IsBurst args.burst)
          → ((c : Error) × (cmd_config_set m fw args w ≡ (err c, w1))))
        × ((after : Dict Text ℕ) (w3 : W)
            → cmd_config_set m fw args w ≡ (ok after, w3)
            → IsRate args.rate
              × IsBurst args.burst
              × (Dict.lookup Names.rate_pps after
                  ≡ given_or args.rate (Dict.lookup Names.rate_pps now))
              × (Dict.lookup Names.burst_pkts after
                  ≡ given_or args.burst (Dict.lookup Names.burst_pkts now)))
    config_set-limits = elim set-cases [
      | inl (c, e) ↦ (λ outside. (c, e), λ after w3 h. ground (arith, e, h))
      | inr (new, (is_rate, is_burst, e)) ↦ (
        λ outside. elim (outside (is_rate, is_burst)) [ ],
        λ after w3 h.
            let read_again = update_config-changes m fw (changes_of new args) now w1 w2 again in
            let settings = (read_again.1 after w3 (sym e ∙ h)).1 in
            (
              is_rate,
              is_burst,
              settings Names.rate_pps ∙ (changed-changes_of new args _).0,
              settings Names.burst_pkts ∙ (changed-changes_of new args _).1,
            ),
      )
    ]
