-- ===== src/Firewall/Maps.antt =====
-- control/firewall.py, class Firewall: the methods, over the maps of control/bpfmap.py.
pub mod Deadlines
use lookout.Common.{
  ℕ, zero, suc, ◌+◌, ◌-◌, ◌*◌, ◌/◌, Bool, true, false, not, ◌&&◌, ◌||◌, List, [], ◌∷◌, ◌++◌, Option,
  none, some, ltb, leb, ◌==◌, if◌then◌else◌, length, take, drop,
}
use lookout.Common.Int.{ℤ, pos, pos_part, ltb_ℤ}
use lookout.Common.Ratio.{Ratio}
use lookout.Common.Dict.{Dict, insert}
use lookout.Common.Dict
use lookout.Common.Exec.{
  Exec, Result, ok, err, value_error, type_error, key_error, or_raise, pure, raise, lift, ◌>>=◌,
  ◌>>◌,
}
use lookout.Common.Text.{Text, codes, text_eq, show, text_beq}
use lookout.Bpf.Map
use lookout.Bpf.Map.{BpfMap, bpf_f_lock}
use lookout.Firewall.Layout
use lookout.Firewall.Layout.{Bytes, Value, num, bytes, pack, unpack, zero_bytes}
use lookout.Firewall.Address.{inet_ntoa}
use lookout.Firewall.Keys.{lpm_key, unpack_cidr, port_key, proto_name}
use lookout.Firewall.Machine.{Machine}
use lookout.Firewall.Names
use lookout.Detect.State.{SrcState}

pub record Firewall : Type 0 where
  pub allowlist : BpfMap
  pub blocklist : BpfMap
  pub portrules : BpfMap
  pub srcstate : BpfMap
  pub stats : BpfMap
  pub config : BpfMap

abbrev pub allow_action : ℕ
allow_action = 0

abbrev pub deny_action : ℕ
deny_action = 1

-- seconds
abbrev pub idle_timeout_s : ℕ
idle_timeout_s = 60

abbrev pub nanoseconds : ℕ
nanoseconds = 1_000_000_000

pub record Allowed : Type 0 where
  pub cidr : Text
  pub hits : ℕ

pub record Blocked : Type 0 where
  pub cidr : Text
  pub hits : ℕ
  pub reason : ℕ
  -- nanoseconds, none for a permanent block
  pub remaining : Option ℕ
  pub expired : Bool

pub record PortRule : Type 0 where
  pub proto : Text
  pub port : ℕ
  pub action : ℕ
  pub hits : ℕ

-- The first number of a value.
unfoldable pub first_num : List Value → Result ℕ
first_num (num n ∷ vs) = ok n
first_num _ = err type_error

-- `int(s * 1e9)`, for s not below zero
abbrev pub to_ns : Ratio → ℕ
to_ns s = pos_part s.num * nanoseconds / s.den

module _ {W : Type 0} (m : Machine W) where
  -- `for k in keys: map.delete(k)`
  unfoldable pub delete_all : BpfMap → List Bytes → Exec W (Unit {0})
  delete_all map [] = pure tt
  delete_all map (key ∷ keys) = do gone ← Map.delete m.kernel map key; delete_all map keys

  unfoldable pub clear : BpfMap → Exec W ℕ
  unfolding delete_all
  clear map = do keys ← Map.keys m.kernel map; delete_all map keys; pure (length keys)

  module _ (fw : Firewall) where
    -- allowlist

    unfoldable pub allow : Text → Exec W (Unit {0})
    allow cidr = do
      key ← lift (lpm_key cidr)
      val ← lift (pack Layout.allow_val (num 0 ∷ num 0 ∷ num 0 ∷ []))
      Map.update m.kernel fw.allowlist key val

    unfoldable pub unallow : Text → Exec W Bool
    unallow cidr = do key ← lift (lpm_key cidr); Map.delete m.kernel fw.allowlist key

    unfoldable pub is_allowed : Text → Exec W Bool
    is_allowed ip = do
      key ← lift (lpm_key ip)
      val ← Map.lookup m.kernel fw.allowlist key 0
      pure (elim val [ none ↦ false | some _ ↦ true ])

    unfoldable pub show_allowed : List (Bytes × Bytes) → Exec W (List Allowed)
    show_allowed [] = pure []
    show_allowed ((key, val) ∷ entries) = do
      cidr ← lift (unpack_cidr key)
      vs ← lift (unpack Layout.allow_val val)
      hits ← lift (first_num vs)
      rest ← show_allowed entries
      pure (record { cidr = cidr; hits = hits } ∷ rest)

    unfoldable pub list_allowed : Exec W (List Allowed)
    list_allowed = do entries ← Map.items m.kernel fw.allowlist 0; show_allowed entries

    -- blocklist

    -- The deadline, or 0 for a permanent block.
    unfoldable pub deadline : Ratio → Exec W ℕ
    deadline duration_s =
        if ltb_ℤ (pos 0) duration_s.num
        then (do now ← m.ktime_ns; pure (now + to_ns duration_s))
        else pure 0

    unfoldable pub block : Text → Ratio → ℕ → Exec W (Unit {0})
    block cidr duration_s reason = do
      expires ← deadline duration_s
      key ← lift (lpm_key cidr)
      val ← lift (pack Layout.block_val (num expires ∷ num 0 ∷ num reason ∷ num 0 ∷ []))
      Map.update m.kernel fw.blocklist key val

    unfoldable pub unblock : Text → Exec W Bool
    unblock cidr = do key ← lift (lpm_key cidr); Map.delete m.kernel fw.blocklist key

    unfoldable pub clear_blocks : Exec W ℕ
    clear_blocks = clear fw.blocklist

    -- The expiry of a value.
    unfoldable pub expiry : Bytes → Result ℕ
    expiry val = elim (unpack Layout.block_val val) [ ok vs ↦ first_num vs | err c ↦ err c ]

    abbrev pub is_expired : ℕ → ℕ → Bool
    is_expired now expires = not (expires == 0) && leb expires now

    unfoldable pub show_block : ℕ → Text → List Value → Result Blocked
    show_block now cidr (num expires ∷ num hits ∷ num reason ∷ num _ ∷ []) = ok (record {
      cidr = cidr;
      hits = hits;
      reason = reason;
      remaining = if expires == 0 then none else some (expires - now);
      expired = is_expired now expires;
    })
    show_block now cidr _ = err type_error

    -- An entry that is listed, before the others.
    unfoldable pub list_entry : ℕ → Bytes → Bytes → Exec W (List Blocked) → Exec W (List Blocked)
    list_entry now key val others = do
      cidr ← lift (unpack_cidr key)
      vs ← lift (unpack Layout.block_val val)
      b ← lift (show_block now cidr vs)
      rest ← others
      pure (b ∷ rest)

    -- An entry is skipped before its key is read.
    unfoldable pub show_blocks : ℕ → Bool → List (Bytes × Bytes) → Exec W (List Blocked)
    show_blocks now include_expired [] = pure []
    show_blocks now include_expired ((key, val) ∷ entries) = do
      expires ← lift (expiry val)
      let others = show_blocks now include_expired entries
      if is_expired now expires && not include_expired
          then others
          else list_entry now key val others

    unfoldable pub list_blocked : Bool → Exec W (List Blocked)
    list_blocked include_expired = do
      now ← m.ktime_ns
      entries ← Map.items m.kernel fw.blocklist 0
      show_blocks now include_expired entries

    -- Blocked for good, or with a deadline ahead. The clock is read for a deadline alone.
    unfoldable pub holds : Option Bytes → Exec W Bool
    holds none = pure false
    holds (some raw) = do
      expires ← lift (expiry raw)
      if expires == 0 then pure true else (do now ← m.ktime_ns; pure (ltb now expires))

    unfoldable pub is_blocked : Text → Exec W Bool
    is_blocked ip = do
      key ← lift (lpm_key ip)
      raw ← Map.lookup m.kernel fw.blocklist key 0
      holds raw

    -- One entry, before the others: `0 < expires <= now`.
    abbrev pub sweep_entry : ℕ → Bytes → Result ℕ → Result (List Bytes) → Result (List Bytes)
    sweep_entry now key (err c) rest = err c
    sweep_entry now key (ok expires) (err c) = err c
    sweep_entry now key (ok expires) (ok rest) =
        ok (if ltb 0 expires && leb expires now then key ∷ rest else rest)

    -- The keys of the entries whose deadline has passed.
    unfoldable pub doomed_blocks : ℕ → List (Bytes × Bytes) → Result (List Bytes)
    doomed_blocks now [] = ok []
    doomed_blocks now ((key, val) ∷ entries) =
        sweep_entry now key (expiry val) (doomed_blocks now entries)

    unfoldable pub remove_expired_blocks : Exec W ℕ
    remove_expired_blocks = do
      now ← m.ktime_ns
      entries ← Map.items m.kernel fw.blocklist 0
      doomed ← lift (doomed_blocks now entries)
      delete_all fw.blocklist doomed
      pure (length doomed)
