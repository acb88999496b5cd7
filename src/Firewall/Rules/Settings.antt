-- ===== src/Firewall/Rules/Settings.antt =====
-- control/firewall.py, `update_config`: what becomes of each setting.
use lookout.Common.{
  ℕ, ◌≡◌, refl, true, false, [], ◌∷◌, Option, some, Bool-cases, inl, inr, arith, if◌then◌else◌,
}
use lookout.Common.Dict
use lookout.Common.Dict.{Dict, lookup-insert}
use lookout.Common.Text.{Text, text_eq}
use lookout.Common.Exec.{ok, err, value_error, Result-cases, ◌>>=◌, pure, raise, lift}
use lookout.Bpf.Map
use lookout.Firewall.Machine.{Machine}
use lookout.Firewall.Maps.{Firewall}
use lookout.Firewall.Rules.{
  merge, all_known, update_config, read_config, write_config, pack_config, index_key,
}

-- The last value that the changes give to a name, or the old one.
abbrev pub changed : Text → Dict Text ℕ → Option ℕ → Option ℕ
changed name [] old = old
changed name ((k, v) ∷ changes) old =
    changed name changes (if text_eq.beq k name then some v else old)

module _ {W : Type 0} (m : Machine W) (fw : Firewall) where
  lookup-merge :
      (changes cfg : Dict Text ℕ) (name : Text)
      → Dict.lookup name (merge m fw changes cfg) ≡ changed name changes (Dict.lookup name cfg)
  unfolding merge
  lookup-merge [] cfg name = refl
  lookup-merge ((k, v) ∷ changes) cfg name =
      rw (lookup-merge changes (Dict.insert k v cfg) name, lookup-insert k name v cfg) refl

  write_config-same :
      (cfg after : Dict Text ℕ) (w w2 : W) → write_config m fw cfg w ≡ (ok after, w2) → after ≡ cfg
  unfolding write_config ◌>>=◌ pure lift
  write_config-same cfg after w w2 h = elim (Result-cases (index_key m fw 0)) [
    | inr (c, e) ↦ ground (arith, e)
    | inl (key, e) ↦ elim (Result-cases (pack_config m fw cfg w).0) [
      | inr (c, p) ↦ ground (arith, e, p)
      | inl (val, p) ↦
          elim (Result-cases (Map.update m.kernel fw.config key val (pack_config m fw cfg w).1).0) [
            | inr (c, u) ↦ ground (arith, e, p, u)
            | inl (done, u) ↦ ground (arith, e, p, u)
          ]
    ]
  ]

  -- Once the settings are read: with a name that is not a setting nothing is written, and a call
  -- that returns hands back each setting with its last change, or as it was read.
  pub update_config-changes :
      (changes cfg : Dict Text ℕ) (w w1 : W)
      → read_config m fw w ≡ (ok cfg, w1)
      → (all_known m fw changes cfg ≡ false → update_config m fw changes w ≡ (err value_error, w1))
        × ((after : Dict Text ℕ) (w2 : W)
            → update_config m fw changes w ≡ (ok after, w2)
            → (all_known m fw changes cfg ≡ true)
              × ((name : Text)
                  → Dict.lookup name after ≡ changed name changes (Dict.lookup name cfg)))
  unfolding update_config ◌>>=◌ raise
  update_config-changes changes cfg w w1 h = (
    λ unknown. rw (h, unknown) refl,
    λ after w2 k. elim (Bool-cases (all_known m fw changes cfg)) [
      | inr unknown ↦ ground (arith, unknown)
      | inl known ↦
          let same = write_config-same (merge m fw changes cfg) after w1 w2 (rw (h, known) at k) in
          (known, λ name. rw same (lookup-merge changes cfg name))
    ],
  )
