-- ===== src/Fwctl/Parser/Usable.antt =====
-- control/fwctl.py: that the handlers find what the parser of options promises.
use lookout.Common.{
  ℕ, true, false, Bool-cases, ◌≡◌, refl, ap, ◌∙◌, inl, inr, List, [], ◌∷◌, ◌++◌, Option, none, some,
  ltb, arith, map,
}
use lookout.Common.Int.{ℤ}
use lookout.Common.Dict
use lookout.Common.Dict.{Dict}
use lookout.Common.Text.{Text, codes, text_eq, text_beq}
use lookout.Common.Exec.{ok}
use lookout.Firewall.Keys.{features}
use lookout.Fwctl.{Settings, change_bits}
use lookout.Fwctl.Lists.{AllowArgs, BlockArgs, PortArgs}
use lookout.Fwctl.Main.{Command, allow, block, port, config}
use lookout.Fwctl.Parser.{
  Value, a_flag, Namespace, Admits, number, level, choices, allow_actions, block_actions,
  port_actions, config_actions, an_action, is_choice, all_choices, feature_names,
}
use lookout.Fwctl.Parser.Attributes.{
  Acted, attribute, allow_args, block_args, port_args, rules_in, acted, settings_in, config_args,
  ◌>>=◌, text_in, texts_in, flag_in, real_in, numbers_in, maybe_integer_in, maybe_level_in,
  texts_or_none,
}

-- Every name has a bit, so a loop over the names ends well.
abbrev pub HaveBits : List Text → Type 0
HaveBits names = (f : ℕ → ℕ → ℕ) (feats : ℕ) → (n : ℕ) × (change_bits f names feats ≡ ok n)

abbrev pub IsLevel : Option ℕ → Type 0
IsLevel none = Unit {0}
IsLevel (some n) = ltb n 4 ≡ true

abbrev pub IsUsable : Command → Type 0
IsUsable (config (some s)) = HaveBits s.enable × HaveBits s.disable × IsLevel s.aggressiveness
IsUsable _ = Unit {0}

choice-lookup :
    (d : Dict Text ℕ) (t : Text)
    → is_choice (map (λ f. f.0) d) t ≡ true
    → (b : ℕ) × (Dict.lookup t d ≡ some b)
unfolding is_choice Dict.lookup
choice-lookup [] t h = let no : ⊥ = ground (arith, h) in elim no [ ]
choice-lookup ((name, b) ∷ d) t h = elim (Bool-cases (text_beq name t)) [
  | inl same ↦ (b, rw (same) refl)
  | inr other ↦
      (let (c, e) = choice-lookup d t (ground (arith, h, other)) in (c, rw (other, e) refl))
]

choices-HaveBits : (ts : List Text) → all_choices feature_names ts ≡ true → HaveBits ts
unfolding all_choices change_bits
choices-HaveBits [] h f feats = (feats, refl)
choices-HaveBits (t ∷ ts) h f feats = elim (Bool-cases (is_choice feature_names t)) [
  | inl same ↦
      (let (b, e) = choice-lookup features t same in
        let (n, done) = choices-HaveBits ts (ground (arith, h, same)) f (f feats b) in
        (n, rw (change_bits, e) done))
  | inr other ↦ (let none_such : ⊥ = ground (arith, h, other) in elim none_such [ ])
]

module _ (ns : Namespace) where
  -- An attribute that is held is used.
  pub reads :
      {A : Type 0} {v : Value} (use_as : Value → Option A) (name : Text)
      → Dict.lookup name ns ≡ some v
      → attribute use_as name ns ≡ use_as v
  unfolding attribute
  reads use_as name held = rw (attribute, held) refl

  pub reads_as :
      {A : Type 0} {v w : Value} (use_as : Value → Option A) (name : Text)
      → Dict.lookup name ns ≡ some v
      → v ≡ w
      → attribute use_as name ns ≡ use_as w
  reads_as use_as name held is = reads use_as name (held ∙ ap some is)

  pub allow_found :
      Acted allow_actions (an_action (codes "list")) ns
      → (args : AllowArgs) × (acted ns (allow_args ns) allow ≡ some (allow args))
  unfolding acted allow_args ◌>>=◌ text_beq
  allow_found (inl (inl (e, ((v, held, (t, ts, is)), _)))) =
      (AllowArgs.add (t ∷ ts), rw (reads text_in _ e, reads_as texts_in _ held is) refl)
  allow_found (inl (inr (inl (e, ((v, held, (t, ts, is)), _))))) =
      (AllowArgs.del (t ∷ ts), rw (reads text_in _ e, reads_as texts_in _ held is) refl)
  allow_found (inl (inr (inr (inl (e, _))))) = (AllowArgs.list, rw (reads text_in _ e) refl)
  allow_found (inl (inr (inr (inr nowhere)))) = elim nowhere [ ]
  allow_found (inr (e, _)) = (AllowArgs.list, rw (reads text_in _ e) refl)

  pub block_found :
      Acted block_actions (an_action (codes "list") ++ (codes "all", a_flag false) ∷ []) ns
      → (args : BlockArgs) × (acted ns (block_args ns) block ≡ some (block args))
  unfolding acted block_args ◌>>=◌ text_beq
  block_found (inl (inl (e, ((v, held, (t, ts, is)), ((w, kept, (r, is_r)), _))))) = (
    BlockArgs.add (t ∷ ts) r,
    rw (reads text_in _ e, reads_as texts_in _ held is, reads_as real_in _ kept is_r) refl,
  )
  block_found (inl (inr (inl (e, ((v, held, (t, ts, is)), _))))) =
      (BlockArgs.del (t ∷ ts), rw (reads text_in _ e, reads_as texts_in _ held is) refl)
  block_found (inl (inr (inr (inl (e, ((v, held, (b, is)), _)))))) =
      (BlockArgs.list b, rw (reads text_in _ e, reads_as flag_in _ held is) refl)
  block_found (inl (inr (inr (inr (inl (e, _)))))) = (BlockArgs.flush, rw (reads text_in _ e) refl)
  block_found (inl (inr (inr (inr (inr nowhere))))) = elim nowhere [ ]
  block_found (inr (e, (held, _))) =
      (BlockArgs.list false, rw (reads text_in _ e, reads flag_in _ held) refl)

  pub port_found :
      Acted port_actions (an_action (codes "list")) ns
      → (args : PortArgs) × (acted ns (port_args ns) port ≡ some (port args))
  unfolding acted port_args rules_in ◌>>=◌ text_beq
  port_found (inl (inl (e, ((v, held, (t, is)), ((w, kept, (n, rest, is_n)), _))))) = (
    PortArgs.set true t (n ∷ rest),
    rw (reads text_in _ e, reads_as numbers_in _ kept is_n, reads_as text_in _ held is) refl,
  )
  port_found (inl (inr (inl (e, ((v, held, (t, is)), ((w, kept, (n, rest, is_n)), _)))))) = (
    PortArgs.set false t (n ∷ rest),
    rw (reads text_in _ e, reads_as numbers_in _ kept is_n, reads_as text_in _ held is) refl,
  )
  port_found (inl (inr (inr (inl (e, ((v, held, (t, is)), ((w, kept, (n, rest, is_n)), _))))))) = (
    PortArgs.del t (n ∷ rest),
    rw (reads text_in _ e, reads_as numbers_in _ kept is_n, reads_as text_in _ held is) refl,
  )
  port_found (inl (inr (inr (inr (inl (e, _)))))) = (PortArgs.list, rw (reads text_in _ e) refl)
  port_found (inl (inr (inr (inr (inr (inl (e, _))))))) =
      (PortArgs.flush, rw (reads text_in _ e) refl)
  port_found (inl (inr (inr (inr (inr (inr nowhere)))))) = elim nowhere [ ]
  port_found (inr (e, _)) = (PortArgs.list, rw (reads text_in _ e) refl)

  -- An integer option, given or not.
  number_found :
      (name : Text)
      → ((v : Value) × (Dict.lookup name ns ≡ some v) × Admits (number none) v)
      → (n : Option ℤ) × (attribute maybe_integer_in name ns ≡ some n)
  number_found name (v, held, inl is) = (none, reads_as maybe_integer_in name held is)
  number_found name (v, held, inr (n, is)) = (some n, reads_as maybe_integer_in name held is)

  level_found :
      (name : Text)
      → ((v : Value) × (Dict.lookup name ns ≡ some v) × Admits (level 4) v)
      → (n : Option ℕ) × (attribute maybe_level_in name ns ≡ some n) × IsLevel n
  level_found name (v, held, inl is) = (none, reads_as maybe_level_in name held is, tt)
  level_found name (v, held, inr (n, is, below)) =
      (some n, reads_as maybe_level_in name held is, below)

  names_found :
      (name : Text)
      → ((v : Value) × (Dict.lookup name ns ≡ some v) × Admits (choices feature_names) v)
      → (ts : List Text) × (attribute texts_or_none name ns ≡ some ts) × HaveBits ts
  unfolding all_choices
  names_found name (v, held, inl is) =
      ([], reads_as texts_or_none name held is, choices-HaveBits [] refl)
  names_found name (v, held, inr (ts, is, chosen)) =
      (ts, reads_as texts_or_none name held is, choices-HaveBits ts chosen)

  pub config_found :
      Acted config_actions (an_action (codes "show")) ns
      → (args : Option Settings) × (acted ns (config_args ns) config ≡ some (config args))
        × IsUsable (config args)
  unfolding acted config_args settings_in ◌>>=◌ text_beq
  config_found (inl (inl (e, _))) = (none, rw (reads text_in _ e) refl, tt)
  config_found (inl (inr (inl (e, (rate, (burst, (lvl, (enable, (disable, _))))))))) =
      let (r, is_rate) = number_found _ rate in
      let (b, is_burst) = number_found _ burst in
      let (n, is_level, below) = level_found _ lvl in
      let (ons, is_on, on) = names_found _ enable in
      let (offs, is_off, off) = names_found _ disable in
      (
        some (record { enable = ons; disable = offs; rate = r; burst = b; aggressiveness = n }),
        rw (reads text_in _ e, is_on, is_off, is_rate, is_burst, is_level) refl,
        (on, off, below),
      )
  config_found (inl (inr (inr nowhere))) = elim nowhere [ ]
  config_found (inr (e, _)) = (none, rw (reads text_in _ e) refl, tt)
