-- ===== src/Fwctl/Main/Overflow.antt =====
-- control/fwctl.py and control/firewall.py: `config set` with a burst that its eight bytes do not hold.
use lookout.Common.{
  ℕ, ◌++◌, ◌≤◌, ◌^◌, ◌≡◌, refl, sym, false, Bool-cases, inl, inr, List, [], ◌∷◌, Option, none, some,
  arith, length, ◌==◌, ltb,
}
use lookout.Common.Int.{ℤ, pos, negsuc}
use lookout.Common.Dict
use lookout.Common.Dict.{Dict}
use lookout.Common.Text.{Text, text_eq, text_beq}
use lookout.Common.Exec.{Error, ok, err, struct_error, Result-cases, ◌>>=◌, lift, raise}
use lookout.Bpf.Map
use lookout.Bpf.Prog.{System}
use lookout.Firewall.Layout
use lookout.Firewall.Layout.{Format, Field, u, pad, raw, Value, num, bytes, pack, unpack}
use lookout.Firewall.Machine.{Machine}
use lookout.Firewall.Names
use lookout.Firewall.Maps.{Firewall}
use lookout.Firewall.Rules.{
  read_config, update_config, write_config, pack_config, merge, all_known, index_key, unpack_config,
  config_dict,
}
use lookout.Fwctl.{
  Settings, cmd_config, cmd_config_set, check_rate, check_burst, set_bit, clear_bit, level_change,
}
use lookout.Fwctl.Limits.{IsRate}
use lookout.Fwctl.Main.{handler, catch, config}
use lookout.Fwctl.Parser.Usable.{HaveBits}

-- `struct.pack` raises nothing else.
pack-struct_error :
    (f : Format) (vs : List Value) (c : Error) → pack f vs ≡ err c → c ≡ struct_error
unfolding pack
pack-struct_error [] [] c h = ground (arith, h)
pack-struct_error [] (v ∷ vs) c h = ground (arith, h)
pack-struct_error (pad n ∷ fs) vs c h = elim (Result-cases (pack fs vs)) [
  | inl (rest, e) ↦ ground (arith, h, e)
  | inr (d, e) ↦ ground (arith, h, e, pack-struct_error fs vs d e)
]
pack-struct_error (u w ∷ fs) [] c h = ground (arith, h)
pack-struct_error (u w ∷ fs) (num x ∷ vs) c h = elim (Result-cases (pack fs vs)) [
  | inl (rest, e) ↦ ground (arith, h, e)
  | inr (d, e) ↦ ground (arith, h, e, pack-struct_error fs vs d e)
]
pack-struct_error (u w ∷ fs) (bytes b ∷ vs) c h = ground (arith, h)
pack-struct_error (raw n ∷ fs) [] c h = ground (arith, h)
pack-struct_error (raw n ∷ fs) (num x ∷ vs) c h = ground (arith, h)
pack-struct_error (raw n ∷ fs) (bytes b ∷ vs) c h = elim (Result-cases (pack fs vs)) [
  | inl (rest, e) ↦ ground (arith, h, e)
  | inr (d, e) ↦ ground (arith, h, e, pack-struct_error fs vs d e)
]

-- A number that does not fit, with anything around it.
pack-too_big :
    (w : ℕ) (fs : Format) (x : ℕ) (vs : List Value)
    → ltb x (256 ^ w) ≡ false
    → pack (u w ∷ fs) (num x ∷ vs) ≡ err struct_error
unfolding pack
pack-too_big w fs x vs h = elim (Result-cases (pack fs vs)) [
  | inl (rest, e) ↦ rw (e, h) refl
  | inr (d, e) ↦ rw (e, pack-struct_error fs vs d e) refl
]

pack_after :
    (w : ℕ) (fs : Format) (x : ℕ) (vs : List Value)
    → pack fs vs ≡ err struct_error
    → pack (u w ∷ fs) (num x ∷ vs) ≡ err struct_error
unfolding pack
pack_after w fs x vs h = rw (h) refl

-- The settings, as they are read.
abbrev five : ℕ → ℕ → ℕ → ℕ → ℕ → Dict Text ℕ
five rate burst feats lvl policy =
    (Names.rate_pps, rate)
    ∷ (Names.burst_pkts, burst)
    ∷ (Names.features, feats)
    ∷ (Names.aggressiveness, lvl)
    ∷ (Names.default_policy, policy)
    ∷ []

abbrev IsFive : Dict Text ℕ → Type 0
IsFive cfg =
    (rate : ℕ) × (burst : ℕ) × (feats : ℕ) × (lvl : ℕ) × (policy : ℕ) × (cfg
      ≡ five rate burst feats lvl policy)

-- What is asked for, with a burst.
abbrev asked : ℕ → Option ℤ → ℕ → Option ℕ → Dict Text ℕ
asked new none n lvl = (Names.features, new) ∷ (Names.burst_pkts, n) ∷ level_change lvl
asked new (some (pos r)) n lvl =
    (Names.features, new) ∷ (Names.rate_pps, r) ∷ (Names.burst_pkts, n) ∷ level_change lvl
asked new (some (negsuc r)) n lvl = (Names.features, new) ∷ (Names.burst_pkts, n) ∷ level_change lvl

module _ {W : Type 0} (m : Machine W) (fw : Firewall) where
  unpack_config-IsFive :
      (found : Option Layout.Bytes) (cfg : Dict Text ℕ)
      → unpack_config m fw found ≡ ok cfg
      → IsFive cfg
  unfolding unpack_config config_dict unpack
  unpack_config-IsFive none cfg h = let no : ⊥ = ground (arith, h) in elim no [ ]
  unpack_config-IsFive (some bs) cfg h =
      elim (Bool-cases (length bs == Layout.calcsize Layout.config)) [
        | inr other ↦ (let no : ⊥ = ground (arith, h, other) in elim no [ ])
        | inl same ↦ (_, _, _, _, _, sym (ok_injective (rw (unpack_config, unpack, same) at h)))
      ]
    where
      ok_injective : {A : Type 0} {a b : A} → ok a ≡ ok b → a ≡ b
      ok_injective e = ground (arith, e)

  read_config-IsFive :
      (cfg : Dict Text ℕ) (w w1 : W) → read_config m fw w ≡ (ok cfg, w1) → IsFive cfg
  unfolding read_config ◌>>=◌ lift
  read_config-IsFive cfg w w1 h = elim (Result-cases (index_key m fw 0)) [
    | inr (c, e) ↦ (let no : ⊥ = ground (arith, h, e) in elim no [ ])
    | inl (key, e) ↦ elim (Result-cases (Map.lookup m.kernel fw.config key 0 w).0) [
      | inr (c, e2) ↦ (let no : ⊥ = ground (arith, h, e, e2) in elim no [ ])
      | inl (found, e2) ↦ unpack_config-IsFive found cfg (ground (arith, h, e, e2))
    ]
  ]

  pack_config-too_big :
      (r n f l p : ℕ) (w : W)
      → ltb n (256 ^ 8) ≡ false
      → pack_config m fw (five r n f l p) w ≡ (err struct_error, w)
  unfolding pack_config text_beq Dict.lookup ◌>>=◌ lift
  pack_config-too_big r n f l p w h =
      rw
        (pack_after 8 _ r _
          (pack-too_big 8 (u 4 ∷ u 4 ∷ u 4 ∷ u 4 ∷ []) n (num f ∷ num l ∷ num p ∷ num 0 ∷ []) h))
        refl

  write_config-too_big :
      (r n f l p : ℕ) (w : W)
      → ltb n (256 ^ 8) ≡ false
      → write_config m fw (five r n f l p) w ≡ (err struct_error, w)
  unfolding write_config index_key pack ◌>>=◌ lift
  write_config-too_big r n f l p w h = rw (pack_config-too_big r n f l p w h) refl

  -- With the settings that are read replaced by those asked for, whichever they are.
  update_config-too_big :
      (new n : ℕ) (rate : Option ℤ) (lvl : Option ℕ) (cfg : Dict Text ℕ) (w w1 : W)
      → ltb n (256 ^ 8) ≡ false
      → IsFive cfg
      → read_config m fw w ≡ (ok cfg, w1)
      → update_config m fw (asked new rate n lvl) w ≡ (err struct_error, w1)
  unfolding update_config all_known merge text_beq Dict.lookup Dict.insert ◌>>=◌ raise
  update_config-too_big new n none none cfg w w1 h (r, b, f, l, p, is) read =
      rw (read, is, write_config-too_big r n new l p w1 h) refl
  update_config-too_big new n none (some k) cfg w w1 h (r, b, f, l, p, is) read =
      rw (read, is, write_config-too_big r n new k p w1 h) refl
  update_config-too_big new n (some (negsuc q)) none cfg w w1 h (r, b, f, l, p, is) read =
      rw (read, is, write_config-too_big r n new l p w1 h) refl
  update_config-too_big new n (some (negsuc q)) (some k) cfg w w1 h (r, b, f, l, p, is) read =
      rw (read, is, write_config-too_big r n new k p w1 h) refl
  update_config-too_big new n (some (pos q)) none cfg w w1 h (r, b, f, l, p, is) read =
      rw (read, is, write_config-too_big q n new l p w1 h) refl
  update_config-too_big new n (some (pos q)) (some k) cfg w w1 h (r, b, f, l, p, is) read =
      rw (read, is, write_config-too_big q n new k p w1 h) refl

-- The checks of the command let these through.
rate_asked :
    (new n : ℕ) (rate : Option ℤ) (lvl : Option ℕ)
    → IsRate rate
    → (d : Dict Text ℕ) × (check_rate rate ≡ ok d)
      × ((Names.features, new) ∷ d ++ ((Names.burst_pkts, n) ∷ []) ++ level_change lvl
          ≡ asked new rate n lvl)
unfolding check_rate
rate_asked new n none lvl h = ([], refl, refl)
rate_asked new n (some (negsuc r)) lvl h = elim h [ ]
rate_asked new n (some (pos r)) lvl h = ((Names.rate_pps, r) ∷ [], ground (arith, h), refl)

burst_asked : (n : ℕ) → 2 ^ 64 ≤ n → check_burst (some (pos n)) ≡ ok ((Names.burst_pkts, n) ∷ [])
unfolding check_burst
burst_asked n h = ground (arith, h)

module _ {W : Type 0} (m : Machine W) (sys : System W) (pin_dir : Text) (fw : Firewall)
    (args : Settings) where
  -- `config set --burst` of 2 ** 64 or more, with a rate in its limits and features that have bits:
  -- if the settings can be read, the command raises struct.error, which main does not catch.
  pub config_set-struct_error :
      (n : ℕ) (cfg now : Dict Text ℕ) (w w1 w2 : W)
      → args.burst ≡ some (pos n)
      → 2 ^ 64 ≤ n
      → IsRate args.rate
      → HaveBits args.enable
      → HaveBits args.disable
      → read_config m fw w ≡ (ok cfg, w1)
      → read_config m fw w1 ≡ (ok now, w2)
      → catch (handler m sys pin_dir (config (some args)) fw) w ≡ (err struct_error, w2)
  unfolding catch handler cmd_config cmd_config_set ◌>>=◌ lift text_beq Dict.lookup
  config_set-struct_error n cfg now w w1 w2 given big rate on off read again =
      let (_, _, feats, _, _, is) = read_config-IsFive m fw cfg w w1 read in
      let (enabled, e) = on set_bit feats in
      let (new, e2) = off clear_bit enabled in
      let (d, e3, same) = rate_asked new n args.rate args.aggressiveness rate in
      let raised =
        update_config-too_big m fw new n args.rate args.aggressiveness now w1 w2
          (ground (arith, big)) (read_config-IsFive m fw now w1 w2 again) again in
      rw (read, is, e, e2, e3, given, burst_asked n big, same, raised) refl
