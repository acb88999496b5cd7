-- ===== src/Fwctl/Parser.antt =====
-- control/fwctl.py, `parser`: the options that it declares, what argparse documents of the namespace
-- that it makes of them, and the attributes that the handlers read.
pub mod Attributes
pub mod Usable
pub mod Commands
use lookout.Common.{
  ℕ, Bool, true, false, ◌||◌, ◌≡◌, ◌⊎◌, List, [], ◌∷◌, ◌++◌, map, Option, none, some, ltb,
  if◌then◌else◌,
}
use lookout.Common.Int.{ℤ, pos, negsuc}
use lookout.Common.Ratio.{Ratio}
use lookout.Common.Dict
use lookout.Common.Dict.{Dict}
use lookout.Common.Text.{Text, codes, text_eq, text_beq}
use lookout.Firewall.Keys.{features}
use lookout.Fwctl.{Settings, ResetArgs}
use lookout.Fwctl.Lists.{AllowArgs, BlockArgs, PortArgs}
use lookout.Fwctl.Main.{Command}

-- The value of an attribute of the namespace.
pub data Value : Type 0 where
  -- None
  missing : Value
  a_text : Text → Value
  a_number : ℤ → Value
  a_real : Ratio → Value
  a_flag : Bool → Value
  some_texts : List Text → Value
  some_numbers : List ℤ → Value

abbrev pub Namespace : Type 0
Namespace = Dict Text Value

-- How an argument is declared.
pub data Form : Type 0 where
  word : Form
  -- nargs="+"
  words : Form
  -- nargs="+", type=int
  numbers : Form
  -- nargs="?" and choices
  choice : List Text → Form
  -- type=int, with a default
  number : Option ℤ → Form
  -- type=float, with a default
  real : Ratio → Form
  -- type=int, choices=range(n)
  level : ℕ → Form
  -- action="store_true"
  flag : Form
  -- action="append" and choices
  choices : List Text → Form

pub record Argument : Type 0 where
  pub name : Text
  pub form : Form

-- A parser added to the subparsers of a command.
pub record Action : Type 0 where
  pub name : Text
  pub arguments : List Argument

pub record CommandSpec : Type 0 where
  pub name : Text
  pub arguments : List Argument
  -- the subparsers, with dest="action"
  pub actions : List Action
  -- set_defaults
  pub defaults : Namespace

abbrev pub takes : Text → Form → Argument
takes name form = record { name = name; form = form }

-- `for name in (…): …add_parser(name)…`
abbrev pub each_takes : List Argument → List Text → List Action
each_takes arguments [] = []
each_takes arguments (name ∷ names) =
    record { name = name; arguments = arguments } ∷ each_takes arguments names

-- A command without actions, and one with.
abbrev pub plain : Text → List Argument → CommandSpec
plain name arguments = record { name = name; arguments = arguments; actions = []; defaults = [] }

abbrev pub acting : Text → Namespace → List Action → CommandSpec
acting name defaults actions = record {
  name = name;
  arguments = [];
  actions = actions;
  defaults = defaults;
}

abbrev pub an_action : Text → Namespace
an_action name = (codes "action", a_text name) ∷ []

abbrev pub cidrs : Argument
cidrs = takes (codes "cidr") words

abbrev pub allow_actions : List Action
allow_actions =
    each_takes (cidrs ∷ []) (codes "add" ∷ codes "del" ∷ []) ++ each_takes [] (codes "list" ∷ [])

abbrev pub block_actions : List Action
block_actions =
    each_takes (cidrs ∷ takes (codes "duration") (real (record { num = pos 60; den = 1 })) ∷ [])
      (codes "add" ∷ [])
    ++ each_takes (cidrs ∷ []) (codes "del" ∷ [])
    ++ each_takes (takes (codes "all") flag ∷ []) (codes "list" ∷ [])
    ++ each_takes [] (codes "flush" ∷ [])

abbrev pub port_actions : List Action
port_actions =
    each_takes (takes (codes "proto") word ∷ takes (codes "ports") numbers ∷ [])
      (codes "allow" ∷ codes "deny" ∷ codes "del" ∷ [])
    ++ each_takes [] (codes "list" ∷ codes "flush" ∷ [])

-- `choices=FEATURES`
abbrev pub feature_names : List Text
feature_names = map (λ f. f.0) features

abbrev pub config_actions : List Action
config_actions =
    each_takes [] (codes "show" ∷ [])
    ++ each_takes
        (takes (codes "rate") (number none)
          ∷ takes (codes "burst") (number none)
          ∷ takes (codes "aggressiveness") (level 4)
          ∷ takes (codes "enable") (choices feature_names)
          ∷ takes (codes "disable") (choices feature_names)
          ∷ [])
        (codes "set" ∷ [])

-- `parser`
abbrev pub commands : List CommandSpec
commands =
    plain (codes "status") []
    ∷ acting (codes "allow") (an_action (codes "list")) allow_actions
    ∷ acting (codes "block") (an_action (codes "list") ++ (codes "all", a_flag false) ∷ [])
        block_actions
    ∷ acting (codes "port") (an_action (codes "list")) port_actions
    ∷ plain (codes "policy")
        (takes (codes "policy") (choice (codes "allow" ∷ codes "deny" ∷ [])) ∷ [])
    ∷ plain (codes "top")
        (takes (codes "count") (number (some (pos 20))) ∷ takes (codes "watch") flag ∷ [])
    ∷ plain (codes "stats") []
    ∷ acting (codes "config") (an_action (codes "show")) config_actions
    ∷ plain (codes "reset") (takes (codes "blocks") flag ∷ takes (codes "all") flag ∷ [])
    ∷ plain (codes "selftest") []
    ∷ []

-- What argparse documents. The value of an argument has its declared form.
unfoldable pub is_choice : List Text → Text → Bool
is_choice [] t = false
is_choice (c ∷ cs) t = text_beq c t || is_choice cs t

unfoldable pub all_choices : List Text → List Text → Bool
unfolding is_choice
all_choices cs [] = true
all_choices cs (t ∷ ts) = let rest = all_choices cs ts in if is_choice cs t then rest else false

abbrev pub default_number : Option ℤ → Value
default_number none = missing
default_number (some n) = a_number n

abbrev pub Admits : Form → Value → Type 0
Admits word v = (t : Text) × (v ≡ a_text t)
Admits words v = (t : Text) × (ts : List Text) × (v ≡ some_texts (t ∷ ts))
Admits numbers v = (n : ℤ) × (ns : List ℤ) × (v ≡ some_numbers (n ∷ ns))
Admits (choice cs) v = (v ≡ missing) ⊎ ((t : Text) × (v ≡ a_text t) × (is_choice cs t ≡ true))
Admits (number d) v = (v ≡ default_number d) ⊎ ((n : ℤ) × (v ≡ a_number n))
Admits (real d) v = (r : Ratio) × (v ≡ a_real r)
Admits (level k) v = (v ≡ missing) ⊎ ((n : ℕ) × (v ≡ a_number (pos n)) × (ltb n k ≡ true))
Admits flag v = (b : Bool) × (v ≡ a_flag b)
Admits (choices cs) v =
    (v ≡ missing) ⊎ ((ts : List Text) × (v ≡ some_texts ts) × (all_choices cs ts ≡ true))
