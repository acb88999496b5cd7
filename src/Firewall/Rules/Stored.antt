-- ===== src/Firewall/Rules/Stored.antt =====
-- control/firewall.py, `read_config` and `update_config`: the settings as the map stores them.
use mathlib.Core.Path.{subst}
use lookout.Common.{
  ℕ, ◌≡◌, ◌<◌, ◌^◌, refl, sym, ◌∙◌, ap, true, [], ◌∷◌, ◌++◌, some, arith, length, ltb,
}
use lookout.Common.Dict
use lookout.Common.Dict.{Dict}
use lookout.Common.Text.{Text, text_beq}
use lookout.Common.Exec.{Result, ok, ◌>>=◌, lift}
use lookout.Firewall.Layout
use lookout.Firewall.Layout.{Bytes, num, le_bytes, pack, unpack}
use lookout.Firewall.Layout.RoundTrip.{unpack-pack}
use lookout.Firewall.Machine.{Machine}
use lookout.Firewall.Maps.{Firewall}
use lookout.Firewall.Names
use lookout.Firewall.Rules.{pack_config, unpack_config, config_dict}

-- The five settings by their names.
abbrev pub settings_of : ℕ → ℕ → ℕ → ℕ → ℕ → Dict Text ℕ
settings_of rate burst feats level policy =
    (Names.rate_pps, rate)
    ∷ (Names.burst_pkts, burst)
    ∷ (Names.features, feats)
    ∷ (Names.aggressiveness, level)
    ∷ (Names.default_policy, policy)
    ∷ []

-- Two numbers of eight bytes, three of four, and four bytes to fill up.
abbrev pub stored : ℕ → ℕ → ℕ → ℕ → ℕ → Bytes
stored rate burst feats level policy =
    le_bytes 8 rate
    ++ le_bytes 8 burst
    ++ le_bytes 4 feats
    ++ le_bytes 4 level
    ++ le_bytes 4 policy
    ++ 0 ∷ 0 ∷ 0 ∷ 0 ∷ []

fits : (x y : ℕ) → x < y → ltb x y ≡ true
fits x y h = ground arith

ok_same : {A : Type 0} {a b : A} (r : Result A) → r ≡ ok a → r ≡ ok b → a ≡ b
ok_same r h k = ground (arith, h, k)

module _ {W : Type 0} (m : Machine W) (fw : Firewall) (rate burst feats level policy : ℕ)
    (wide : (rate < 256 ^ 8) × (burst < 256 ^ 8))
    (narrow : (feats < 256 ^ 4) × ((level < 256 ^ 4) × (policy < 256 ^ 4))) where
  pack-stored :
      pack Layout.config (num rate ∷ num burst ∷ num feats ∷ num level ∷ num policy ∷ num 0 ∷ [])
      ≡ ok (stored rate burst feats level policy)
  unfolding pack le_bytes
  pack-stored =
      rw
        (
          fits rate (256 ^ 8) wide.0,
          fits burst (256 ^ 8) wide.1,
          fits feats (256 ^ 4) narrow.0,
          fits level (256 ^ 4) narrow.1.0,
          fits policy (256 ^ 4) narrow.1.1,
        )
        refl

  unpack_config-same :
      (bs : Bytes)
      → unpack Layout.config bs
        ≡ ok (num rate ∷ num burst ∷ num feats ∷ num level ∷ num policy ∷ num 0 ∷ [])
      → unpack_config m fw (some bs) ≡ ok (settings_of rate burst feats level policy)
  unfolding unpack_config config_dict
  unpack_config-same bs h = rw (unpack_config, h) refl

  -- Settings of which the rate and the burst fit eight bytes, and the others four: packing them gives
  -- the 32 bytes that the kernel's side expects, each number in its place with the lowest byte first,
  -- and leaves the world as it is; unpacking these bytes gives the five settings back.
  pub unpack_config-pack_config :
      (w : W)
      → (pack_config m fw (settings_of rate burst feats level policy) w
          ≡ (ok (stored rate burst feats level policy), w))
        × (length (stored rate burst feats level policy) ≡ 32)
        × (unpack_config m fw (some (stored rate burst feats level policy))
            ≡ ok (settings_of rate burst feats level policy))
  unfolding pack_config text_beq Dict.lookup ◌>>=◌ lift
  unpack_config-pack_config w =
      let (bs, packed, size, back) =
        unpack-pack Layout.config
          (num rate ∷ num burst ∷ num feats ∷ num level ∷ num policy ∷ num 0 ∷ [])
          (wide.0, (wide.1, (narrow.0, (narrow.1.0, (narrow.1.1, (omega arith, tt)))))) in
      let same : bs ≡ stored rate burst feats level policy =
        ok_same
          (pack Layout.config
            (num rate ∷ num burst ∷ num feats ∷ num level ∷ num policy ∷ num 0 ∷ []))
          packed pack-stored in
      (
        rw pack-stored refl,
        ap length (sym same) ∙ size,
        subst (λ b. unpack_config m fw (some b) ≡ ok (settings_of rate burst feats level policy))
            same (unpack_config-same bs back),
      )
