-- ===== src/Fwctl/Parser/Attributes.antt =====
-- control/fwctl.py: the namespaces that argparse makes of the declarations, and the command that
-- `main` finds in one, by the attributes that the handlers read.
use lookout.Common.{
  ℕ, Bool, true, false, ◌≡◌, ◌⊎◌, List, [], ◌∷◌, Option, none, some, if◌then◌else◌,
}
use lookout.Common.Int.{ℤ, pos}
use lookout.Common.Ratio.{Ratio}
use lookout.Common.Dict
use lookout.Common.Dict.{Dict}
use lookout.Common.Text.{Text, codes, text_eq, text_beq}
use lookout.Fwctl.{Settings}
use lookout.Fwctl.Lists.{AllowArgs, BlockArgs, PortArgs}
use lookout.Fwctl.Main.{
  Command, status, allow, block, port, policy, top, top_watched, stats, config, reset, selftest_all,
}
use lookout.Fwctl.Parser.{
  Value, missing, a_text, a_number, a_real, a_flag, some_texts, some_numbers, Namespace, Argument,
  Action, CommandSpec, Admits,
}

-- Each argument is an attribute of its form.
abbrev pub AllAdmitted : List Argument → Namespace → Type 0
AllAdmitted [] ns = Unit {0}
AllAdmitted (a ∷ rest) ns =
    ((v : Value) × (Dict.lookup a.name ns ≡ some v) × Admits a.form v) × AllAdmitted rest ns

abbrev pub AllSet : Dict Text Value → Namespace → Type 0
AllSet [] ns = Unit {0}
AllSet ((name, v) ∷ rest) ns = (Dict.lookup name ns ≡ some v) × AllSet rest ns

-- One of the actions was named, with its arguments.
abbrev pub Chosen : List Action → Namespace → Type 0
Chosen [] ns = ⊥
Chosen (a ∷ rest) ns =
    ((Dict.lookup (codes "action") ns ≡ some (a_text a.name)) × AllAdmitted a.arguments ns)
    ⊎ Chosen rest ns

-- Without a named action the defaults stand.
abbrev pub Acted : List Action → Dict Text Value → Namespace → Type 0
Acted [] defaults ns = Unit {0}
Acted (a ∷ rest) defaults ns = Chosen (a ∷ rest) ns ⊎ AllSet defaults ns

-- The namespace is one of those that argparse documents for the declared commands.
abbrev pub Conforms : List CommandSpec → Namespace → Type 0
Conforms [] ns = ⊥
Conforms (c ∷ rest) ns =
    ((Dict.lookup (codes "cmd") ns ≡ some (a_text c.name))
      × AllAdmitted c.arguments ns
      × Acted c.actions c.defaults ns)
    ⊎ Conforms rest ns

-- An attribute that is read and used as a text, a number, …: none is the exception of an attribute
-- that is missing or is not such a value.
module _ {A B : Type 0} where
  infixl 10 ◌>>=◌
  unfoldable pub ◌>>=◌ : Option A → (A → Option B) → Option B
  none >>= next = none
  some a >>= next = next a

abbrev pub text_in : Value → Option Text
text_in (a_text t) = some t
text_in _ = none

abbrev pub flag_in : Value → Option Bool
flag_in (a_flag b) = some b
flag_in _ = none

abbrev pub real_in : Value → Option Ratio
real_in (a_real r) = some r
real_in _ = none

abbrev pub integer_in : Value → Option ℤ
integer_in (a_number n) = some n
integer_in _ = none

abbrev pub texts_in : Value → Option (List Text)
texts_in (some_texts ts) = some ts
texts_in _ = none

abbrev pub numbers_in : Value → Option (List ℤ)
numbers_in (some_numbers ns) = some ns
numbers_in _ = none

-- `is None`, or used as a number.
abbrev pub maybe_integer_in : Value → Option (Option ℤ)
maybe_integer_in missing = some none
maybe_integer_in (a_number n) = some (some n)
maybe_integer_in _ = none

-- A level is packed as an unsigned number; `choices` keeps others out.
abbrev pub maybe_level_in : Value → Option (Option ℕ)
maybe_level_in missing = some none
maybe_level_in (a_number (pos n)) = some (some n)
maybe_level_in _ = none

-- `args.enable or []`
abbrev pub texts_or_none : Value → Option (List Text)
texts_or_none missing = some []
texts_or_none (some_texts ts) = some ts
texts_or_none _ = none

-- `policy` without and with an argument.
abbrev pub policy_in : Value → Option (Option Bool)
policy_in missing = some none
policy_in (a_text t) =
    if text_beq t (codes "allow")
    then some (some true)
    else if text_beq t (codes "deny")
    then some (some false)
    else none
policy_in _ = none

-- `args.name`, with its use.
unfoldable pub attribute : {A : Type 0} → (Value → Option A) → Text → Namespace → Option A
attribute use_as name ns = elim (Dict.lookup name ns) [ none ↦ none | some v ↦ use_as v ]

module _ (ns : Namespace) where
  -- Which attributes `cmd_allow`, `cmd_block`, `cmd_port` and `cmd_config` read, by `args.action`.
  unfoldable pub allow_args : Text → Option AllowArgs
  allow_args action =
      if text_beq action (codes "add")
      then attribute texts_in (codes "cidr") ns >>= (λ cidrs. some (AllowArgs.add cidrs))
      else if text_beq action (codes "del")
      then attribute texts_in (codes "cidr") ns >>= (λ cidrs. some (AllowArgs.del cidrs))
      else some AllowArgs.list

  unfoldable pub block_args : Text → Option BlockArgs
  block_args action =
      if text_beq action (codes "add")
      then (do
        cidrs ← attribute texts_in (codes "cidr") ns
        duration ← attribute real_in (codes "duration") ns
        some (BlockArgs.add cidrs duration))
      else if text_beq action (codes "del")
      then attribute texts_in (codes "cidr") ns >>= (λ cidrs. some (BlockArgs.del cidrs))
      else if text_beq action (codes "flush")
      then some BlockArgs.flush
      else (attribute flag_in (codes "all") ns >>= (λ all. some (BlockArgs.list all)))

  unfoldable pub rules_in : (Text → List ℤ → PortArgs) → Option PortArgs
  rules_in make = do
    ports ← attribute numbers_in (codes "ports") ns
    proto ← attribute text_in (codes "proto") ns
    some (make proto ports)

  unfoldable pub port_args : Text → Option PortArgs
  port_args action =
      if text_beq action (codes "allow")
      then rules_in (PortArgs.set true)
      else if text_beq action (codes "deny")
      then rules_in (PortArgs.set false)
      else if text_beq action (codes "del")
      then rules_in PortArgs.del
      else if text_beq action (codes "flush")
      then some PortArgs.flush
      else some PortArgs.list

  unfoldable pub settings_in : Option Settings
  settings_in = do
    enable ← attribute texts_or_none (codes "enable") ns
    disable ← attribute texts_or_none (codes "disable") ns
    rate ← attribute maybe_integer_in (codes "rate") ns
    burst ← attribute maybe_integer_in (codes "burst") ns
    level ← attribute maybe_level_in (codes "aggressiveness") ns
    some (record {
      enable = enable;
      disable = disable;
      rate = rate;
      burst = burst;
      aggressiveness = level;
    })

  unfoldable pub config_args : Text → Option (Option Settings)
  config_args action =
      if text_beq action (codes "set") then (do s ← settings_in; some (some s)) else some none

  unfoldable pub acted : {A : Type 0} → (Text → Option A) → (A → Command) → Option Command
  acted args_of make = do
    action ← attribute text_in (codes "action") ns
    args ← args_of action
    some (make args)

  -- `--watch` draws until Ctrl-C, after a number of rounds.
  unfoldable pub top_args : ℕ → Option Command
  top_args rounds = do
    watched ← attribute flag_in (codes "watch") ns
    count ← attribute integer_in (codes "count") ns
    some (if watched then top_watched count rounds else top count)

  unfoldable pub reset_args : Option Command
  reset_args = do
    blocks ← attribute flag_in (codes "blocks") ns
    all ← attribute flag_in (codes "all") ns
    some (reset (record { blocks = blocks; all = all }))

  -- The functions `cmd_…` among the globals, each with what it reads.
  abbrev pub handlers : ℕ → Dict Text (Option Command)
  handlers rounds =
      (codes "status", some status)
      ∷ (codes "allow", acted allow_args allow)
      ∷ (codes "block", acted block_args block)
      ∷ (codes "port", acted port_args port)
      ∷ (codes "policy", (attribute policy_in (codes "policy") ns >>= (λ p. some (policy p))))
      ∷ (codes "top", top_args rounds)
      ∷ (codes "stats", some stats)
      ∷ (codes "config", acted config_args config)
      ∷ (codes "reset", reset_args)
      ∷ (codes "selftest", some selftest_all)
      ∷ []

  unfoldable pub command_of : ℕ → Option Command
  command_of rounds = do
    cmd ← attribute text_in (codes "cmd") ns
    handler ← Dict.lookup cmd (handlers rounds)
    handler
