-- ===== src/Fwctl/Parser/Commands.antt =====
-- control/fwctl.py: from the parsed options to a command, for each of the declared commands.
use lookout.Common.{
  ℕ, Bool, true, false, Bool-cases, ◌≡◌, refl, sym, ap, ◌∙◌, ◌⊎◌, inl, inr, [], ◌∷◌, Option, none,
  some, if◌then◌else◌, arith,
}
use lookout.Common.Int.{ℤ, pos}
use lookout.Common.Dict
use lookout.Common.Text.{Text, codes, text_eq, text_beq, text_beq_iff}
use lookout.Fwctl.Main.{
  Command, status, allow, block, port, policy, top, top_watched, stats, config, reset, selftest_all,
}
use lookout.Fwctl.Parser.{
  Value, a_text, Namespace, Admits, commands, choice, flag, number, is_choice,
}
use lookout.Fwctl.Parser.Attributes.{
  Conforms, command_of, attribute, top_args, reset_args, ◌>>=◌, text_in, flag_in, integer_in,
  policy_in,
}
use lookout.Fwctl.Parser.Usable.{
  IsUsable, reads, reads_as, allow_found, block_found, port_found, config_found,
}

one_of_two :
    (t : Text)
    → is_choice (codes "allow" ∷ codes "deny" ∷ []) t ≡ true
    → (t ≡ codes "allow") ⊎ (t ≡ codes "deny")
unfolding is_choice
one_of_two t h = elim (Bool-cases (text_beq (codes "allow") t)) [
  | inl same ↦ inl (sym ((text_beq_iff (codes "allow") t).0 same))
  | inr other ↦ inr (sym ((text_beq_iff (codes "deny") t).0 (ground (arith, h, other))))
]

module _ (ns : Namespace) where
  policy_found :
      ((v : Value) × (Dict.lookup (codes "policy") ns ≡ some v)
        × Admits (choice (codes "allow" ∷ codes "deny" ∷ [])) v)
      → (p : Option Bool) × (attribute policy_in (codes "policy") ns ≡ some p)
  unfolding text_beq
  policy_found (v, held, inl is) = (none, reads_as ns policy_in _ held is)
  policy_found (v, held, inr (t, is, chosen)) = elim (one_of_two t chosen) [
    | inl same ↦ (some true, rw (reads_as ns policy_in _ held (is ∙ ap a_text same)) refl)
    | inr same ↦ (some false, rw (reads_as ns policy_in _ held (is ∙ ap a_text same)) refl)
  ]

  top_found :
      (rounds : ℕ)
      → ((v : Value) × (Dict.lookup (codes "count") ns ≡ some v)
          × Admits (number (some (pos 20))) v)
      → ((v : Value) × (Dict.lookup (codes "watch") ns ≡ some v) × Admits flag v)
      → (n : ℤ) × (b : Bool) × (top_args ns rounds
          ≡ some (if b then top_watched n rounds else top n))
  unfolding top_args ◌>>=◌
  top_found rounds (v, held, inl is) (w, kept, (b, is_b)) =
      (pos 20, b, rw (reads_as ns flag_in _ kept is_b, reads_as ns integer_in _ held is) refl)
  top_found rounds (v, held, inr (n, is)) (w, kept, (b, is_b)) =
      (n, b, rw (reads_as ns flag_in _ kept is_b, reads_as ns integer_in _ held is) refl)

  top_Usable :
      (rounds : ℕ) (n : ℤ) (b : Bool) → IsUsable (if b then top_watched n rounds else top n)
  top_Usable rounds n true = tt
  top_Usable rounds n false = tt

  -- In every namespace that argparse documents for the declared commands the handlers find their
  -- attributes: there is a command, and the features and the level of a config set are known ones.
  pub command_of-IsUsable :
      (rounds : ℕ)
      → Conforms commands ns
      → (c : Command) × (command_of ns rounds ≡ some c) × IsUsable c
  unfolding command_of ◌>>=◌ text_beq Dict.lookup reset_args
  command_of-IsUsable rounds (inl (e, _, _)) = (status, rw (reads ns text_in _ e) refl, tt)
  command_of-IsUsable rounds (inr (inl (e, _, acts))) =
      let (args, is) = allow_found ns acts in (allow args, rw (reads ns text_in _ e, is) refl, tt)
  command_of-IsUsable rounds (inr (inr (inl (e, _, acts)))) =
      let (args, is) = block_found ns acts in (block args, rw (reads ns text_in _ e, is) refl, tt)
  command_of-IsUsable rounds (inr (inr (inr (inl (e, _, acts))))) =
      let (args, is) = port_found ns acts in (port args, rw (reads ns text_in _ e, is) refl, tt)
  command_of-IsUsable rounds (inr (inr (inr (inr (inl (e, (p, _), _)))))) =
      let (args, is) = policy_found p in (policy args, rw (reads ns text_in _ e, is) refl, tt)
  command_of-IsUsable rounds (inr (inr (inr (inr (inr (inl (e, (count, (watched, _)), _))))))) =
      let (n, b, is) = top_found rounds count watched in
      (_, rw (reads ns text_in _ e, is) refl, top_Usable rounds n b)
  command_of-IsUsable rounds (inr (inr (inr (inr (inr (inr (inl (e, _, _)))))))) =
      (stats, rw (reads ns text_in _ e) refl, tt)
  command_of-IsUsable rounds (inr (inr (inr (inr (inr (inr (inr (inl (e, _, acts))))))))) =
      let (args, is, usable) = config_found ns acts in
      (config args, rw (reads ns text_in _ e, is) refl, usable)
  command_of-IsUsable rounds
        (inr (
          inr (
            inr (
              inr (
                inr (
                  inr (
                    inr (inr (inl (e, ((v, held, (b, is)), ((w, kept, (a, is_a)), _)), _)))))))))) =
      (
        reset (record { blocks = b; all = a }),
        rw
            (
              reads ns text_in _ e,
              reset_args,
              reads_as ns flag_in _ held is,
              reads_as ns flag_in _ kept is_a,
            )
            refl,
        tt,
      )
  command_of-IsUsable rounds (inr (inr (inr (inr (inr (inr (inr (inr (inr (inl (e, _, _))))))))))) =
      (selftest_all, rw (reads ns text_in _ e) refl, tt)
  command_of-IsUsable rounds (inr (inr (inr (inr (inr (inr (inr (inr (inr (inr nowhere)))))))))) =
      elim nowhere [ ]
