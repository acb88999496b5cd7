-- ===== src/Checks/Parser.antt =====
-- Concrete runs of Fwctl/Parser: options as argparse hands them over.
use lookout.Common.{true, false, ◌≡◌, refl, inl, inr, [], ◌∷◌, none, some}
use lookout.Common.Int.{pos}
use lookout.Common.Dict
use lookout.Common.Text.{codes, text_beq}
use lookout.Fwctl.Lists.{BlockArgs}
use lookout.Fwctl.Main.{Command, config, block, top_watched}
use lookout.Fwctl.Parser.{
  Namespace, missing, a_text, a_number, a_flag, some_texts, is_choice, all_choices,
}
use lookout.Fwctl.Parser.Attributes.{
  command_of, ◌>>=◌, attribute, acted, block_args, config_args, settings_in, top_args,
}
use lookout.Fwctl.Parser.Usable.{IsUsable}
use lookout.Fwctl.Parser.Commands.{command_of-IsUsable}

-- fwctl config set --rate 500 --aggressiveness 2 --enable frags
abbrev faster : Namespace
faster =
    (codes "cmd", a_text (codes "config"))
    ∷ (codes "action", a_text (codes "set"))
    ∷ (codes "rate", a_number (pos 500))
    ∷ (codes "burst", missing)
    ∷ (codes "aggressiveness", a_number (pos 2))
    ∷ (codes "enable", some_texts (codes "frags" ∷ []))
    ∷ (codes "disable", missing)
    ∷ []

abbrev set_faster : Command
set_faster = config (
    some (record {
      enable = codes "frags" ∷ [];
      disable = [];
      rate = some (pos 500);
      burst = none;
      aggressiveness = some 2;
    }))

sets_faster : command_of faster 0 ≡ some set_faster
unfolding command_of ◌>>=◌ attribute acted config_args settings_in text_beq Dict.lookup
sets_faster = refl

-- fwctl block
lists_blocks :
    command_of
      ((codes "cmd", a_text (codes "block"))
        ∷ (codes "all", a_flag false)
        ∷ (codes "action", a_text (codes "list"))
        ∷ [])
      0
    ≡ some (block (BlockArgs.list false))
unfolding command_of ◌>>=◌ attribute acted block_args text_beq Dict.lookup
lists_blocks = refl

-- fwctl top -w
draws_top :
    command_of
      ((codes "cmd", a_text (codes "top"))
        ∷ (codes "count", a_number (pos 20))
        ∷ (codes "watch", a_flag true)
        ∷ [])
      3
    ≡ some (top_watched (pos 20) 3)
unfolding command_of ◌>>=◌ attribute top_args text_beq Dict.lookup
draws_top = refl

command_of-IsUsable_example : (c : Command) × (command_of faster 0 ≡ some c) × IsUsable c
unfolding text_beq Dict.lookup is_choice all_choices
command_of-IsUsable_example = command_of-IsUsable faster 0 (
    inr (
      inr (
        inr (
          inr (
            inr (
              inr (
                inr (
                  inl (
                    refl,
                    tt,
                    inl (
                        inr (
                          inl (
                            refl,
                            (
                              (_, refl, inr (pos 500, refl)),
                              (
                                (_, refl, inl refl),
                                (
                                  (_, refl, inr (2, refl, refl)),
                                  (
                                    (_, refl, inr (codes "frags" ∷ [], refl, refl)),
                                    ((_, refl, inl refl), tt),
                                  ),
                                ),
                              ),
                            ),
                          ))),
                  )))))))))
