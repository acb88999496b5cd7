-- ===== src/Fwctl/Lists.antt =====
-- control/fwctl.py: the commands on the allowlist, the blocklist and the port rules.
pub mod Sorting
pub mod Reordering
use lookout.Common.{ℕ, Bool, true, false, List, [], ◌∷◌, ◌++◌, none, some, ltb, ◌==◌, if◌then◌else◌}
use lookout.Common.Int.{ℤ}
use lookout.Common.Ratio.{Ratio}
use lookout.Common.Dict
use lookout.Common.Dict.{Dict}
use lookout.Common.Exec.{Exec, Result, ok, err, key_error, or_raise, pure, lift, ◌>>=◌, ◌>>◌}
use lookout.Common.Text.{Text, codes, split, text_eq, text_beq}
use lookout.Firewall.Names
use lookout.Detect.State.{SrcState}
use lookout.Firewall.Constants.{block_manual}
use lookout.Firewall.Address.{Network, parse_cidr}
use lookout.Firewall.Machine.{Machine}
use lookout.Firewall.Maps.{
  Firewall, Allowed, Blocked, PortRule, allow, unallow, list_allowed, is_allowed, block, unblock,
  clear_blocks, list_blocked, allow_action, deny_action,
}
use lookout.Firewall.Rules.{
  set_port_rule, del_port_rule, clear_port_rules, list_port_rules, read_config,
}

-- `sorted`, a stable sort: `before x y` where x must come first.
module _ {A : Type 0} (before : A → A → Bool) where
  unfoldable pub place : A → List A → List A
  place x [] = x ∷ []
  place x (y ∷ ys) = if before y x then y ∷ place x ys else x ∷ y ∷ ys

  unfoldable pub sort : List A → List A
  unfolding place
  sort [] = []
  sort (x ∷ xs) = place x (sort xs)

-- `key=lambda x: -weight(x)`
abbrev pub heavier : {A : Type 0} → (A → ℕ) → A → A → Bool
heavier weight x y = ltb (weight y) (weight x)

unfoldable pub text_ltb : Text → Text → Bool
text_ltb s [] = false
text_ltb [] (y ∷ t) = true
text_ltb (x ∷ s) (y ∷ t) = if x == y then text_ltb s t else ltb x y

-- `key=lambda r: (r["proto"], r["port"])`
unfoldable pub rule_before : PortRule → PortRule → Bool
unfolding text_ltb
rule_before r q = if text_beq r.proto q.proto then ltb r.port q.port else text_ltb r.proto q.proto

abbrev pub Sources : Type 0
Sources = Dict Text SrcState

-- `sorted(fw.read_states().items(), key=lambda kv: -kv[1]["packets"])`
unfoldable pub by_packets : Sources → Sources
unfolding sort
by_packets states = sort (heavier (λ kv. kv.1.packets)) states

-- `s[name]` for each name
unfoldable pub values_of : List Text → Dict Text ℕ → Result (List ℕ)
values_of [] s = ok []
values_of (name ∷ names) s = elim (Dict.lookup name s) [
  | none ↦ err key_error
  | some v ↦ elim (values_of names s) [ ok rest ↦ ok (v ∷ rest) | err c ↦ err c ]
]

-- The contents of a line.
pub data Line : Type 0 where
  allowed : Network → Line
  removed : Text → Line
  not_found : Text → Line
  refused : Text → Line
  blocked : Network → Ratio → Line
  unblocked : Text → Line
  flushed : ℕ → Line
  allow_entry : Allowed → Line
  block_entry : Blocked → Line
  -- true for allow
  port_set : Bool → Text → ℤ → Line
  port_removed : Text → ℤ → Line
  port_not_found : Text → ℤ → Line
  port_rule : PortRule → Line
  default_rule : Text → Line

module _ {A : Type 0} where
  abbrev pub lines : (A → Line) → List A → List Line
  lines f [] = []
  lines f (x ∷ xs) = f x ∷ lines f xs

-- ACTIONS
abbrev pub action_name : ℕ → Result Text
action_name a =
    if a == allow_action
    then ok (codes "allow")
    else if a == deny_action
    then ok (codes "deny")
    else err key_error

pub data AllowArgs : Type 0 where
  add : List Text → AllowArgs
  del : List Text → AllowArgs
  list : AllowArgs

pub data BlockArgs : Type 0 where
  -- with the duration in seconds
  add : List Text → Ratio → BlockArgs
  del : List Text → BlockArgs
  flush : BlockArgs
  -- true with --all
  list : Bool → BlockArgs

pub data PortArgs : Type 0 where
  -- true for allow
  set : Bool → Text → List ℤ → PortArgs
  del : Text → List ℤ → PortArgs
  flush : PortArgs
  list : PortArgs

-- `cidr.split("/")[0]`
abbrev pub address_part : Text → Text
address_part cidr = (split b'/' cidr).0

module _ {W : Type 0} where
  -- A loop that prints a line for each of its arguments.
  unfoldable pub each : {A : Type 0} → (A → Exec W Line) → List A → Exec W (List Line)
  each f [] = pure []
  each f (x ∷ xs) = do line ← f x; rest ← each f xs; pure (line ∷ rest)

module _ {W : Type 0} (m : Machine W) (fw : Firewall) where
  unfoldable pub allow_one : Text → Exec W Line
  allow_one cidr = do allow m fw cidr; net ← lift (parse_cidr cidr); pure (allowed net)

  unfoldable pub unallow_one : Text → Exec W Line
  unallow_one cidr = do
    gone ← unallow m fw cidr
    pure (if gone then removed cidr else not_found cidr)

  unfoldable pub cmd_allow : AllowArgs → Exec W (List Line)
  cmd_allow (AllowArgs.add cidrs) = each allow_one cidrs
  cmd_allow (AllowArgs.del cidrs) = each unallow_one cidrs
  cmd_allow AllowArgs.list = do
    rows ← list_allowed m fw
    pure (lines allow_entry (sort (heavier (λ e. e.hits)) rows))

  -- An allowlisted address is refused.
  unfoldable pub block_one : Ratio → Text → Exec W Line
  block_one duration cidr = do
    held ← is_allowed m fw (address_part cidr)
    if held then pure (refused cidr) else do
      block m fw cidr duration block_manual
      net ← lift (parse_cidr cidr)
      pure (blocked net duration)

  unfoldable pub unblock_one : Text → Exec W Line
  unblock_one cidr = do
    gone ← unblock m fw cidr
    pure (if gone then unblocked cidr else not_found cidr)

  unfoldable pub cmd_block : BlockArgs → Exec W (List Line)
  cmd_block (BlockArgs.add cidrs duration) = each (block_one duration) cidrs
  cmd_block (BlockArgs.del cidrs) = each unblock_one cidrs
  cmd_block BlockArgs.flush = do n ← clear_blocks m fw; pure (flushed n ∷ [])
  cmd_block (BlockArgs.list all) = do
    rows ← list_blocked m fw all
    pure (lines block_entry (sort (heavier (λ e. e.hits)) rows))

  unfoldable pub set_one : Bool → Text → ℤ → Exec W Line
  set_one allowing proto port = do
    set_port_rule m fw proto port (if allowing then allow_action else deny_action)
    pure (port_set allowing proto port)

  unfoldable pub del_one : Text → ℤ → Exec W Line
  del_one proto port = do
    gone ← del_port_rule m fw proto port
    pure (if gone then port_removed proto port else port_not_found proto port)

  unfoldable pub cmd_port : PortArgs → Exec W (List Line)
  cmd_port (PortArgs.set allowing proto ports) = each (set_one allowing proto) ports
  cmd_port (PortArgs.del proto ports) = each (del_one proto) ports
  cmd_port PortArgs.flush = do n ← clear_port_rules m fw; pure (flushed n ∷ [])
  cmd_port PortArgs.list = do
    cfg ← read_config m fw
    policy ← lift (or_raise (Dict.lookup Names.default_policy cfg) key_error)
    name ← lift (action_name policy)
    rows ← list_port_rules m fw
    pure (lines port_rule (sort rule_before rows) ++ default_rule name ∷ [])
