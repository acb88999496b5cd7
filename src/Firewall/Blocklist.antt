-- ===== src/Firewall/Blocklist.antt =====
-- control/firewall.py, class Firewall: `block`, `unblock`, `is_blocked` and `remove_expired_blocks` as
-- operations on the deadlines of networks.
pub mod Tables
pub mod Values
pub mod Steps
pub mod Adds
pub mod Sweeps
pub mod Sessions
pub mod Hiding
use lookout.Common.{
  ℕ, zero, suc, ◌+◌, ◌≤◌, ◌<◌, ◌≡◌, refl, sym, ap, ◌∙◌, Bool, true, false, not, ◌&&◌, ◌||◌, List,
  [], ◌∷◌, Option, none, some, ◌==◌, ltb, leb, arith, map, length, if◌then◌else◌,
}
use lookout.Common.Int.{pos, ltb_ℤ}
use lookout.Common.Ratio.{Ratio}
use lookout.Common.Text.{Text}
use lookout.Common.Dict.{Dict, lookup, insert, erase}
use lookout.Common.Exec.{Exec, Result, ok, err, pure, ◌>>=◌, ◌>>◌}
use lookout.Bpf.Kernel.{Kernel, Batch, enoent}
use lookout.Bpf.Map
use lookout.Bpf.Map.{chunk}
use lookout.Firewall.Layout.{Bytes}
use lookout.Firewall.Address.{Network, network}
use lookout.Firewall.Address.RoundTrip.{IsNetwork}
use lookout.Firewall.Machine.{Machine}
use lookout.Firewall.Maps.{
  Firewall, block, unblock, is_blocked, remove_expired_blocks, expiry, is_expired, to_ns,
}
use lookout.Firewall.Trie.{network_eq, key_of}

-- An operation on the blocklist; a block has a duration in seconds and a reason.
pub data Command : Type 0 where
  add : Text → Ratio → ℕ → Command
  remove : Text → Command
  ask : Text → Command
  sweep : Command

-- The specification: the deadline of each network that is on the list, 0 for one that is there for
-- good.
abbrev pub Blocks : Type 0
Blocks = Network → Option ℕ

abbrev pub or_else : Option ℕ → Option ℕ → Option ℕ
or_else none o = o
or_else (some t) o = some t

-- The deadline of the longest prefix of an address that is on the list, of at most `p` bits.
abbrev pub longest_block : ℕ → ℕ → Blocks → Option ℕ
longest_block zero a s = s (network a 0)
longest_block (suc p) a s = or_else (s (network a (suc p))) (longest_block p a s)

abbrev pub is_past : ℕ → ℕ → Bool
is_past now t = not (t == 0) && leb t now

abbrev pub in_force : ℕ → Option ℕ → Bool
in_force now none = false
in_force now (some t) = not (is_past now t)

abbrev pub with_block : Network → ℕ → Blocks → Blocks
with_block n t s m = if network_eq.beq n m then some t else s m

abbrev pub without_block : Network → Blocks → Blocks
without_block n s m = if network_eq.beq n m then none else s m

abbrev pub keep : ℕ → Option ℕ → Option ℕ
keep now none = none
keep now (some t) = if is_past now t then none else some t

abbrev pub ends_at : ℕ → Ratio → ℕ
ends_at now duration = if ltb_ℤ (pos 0) duration.num then now + to_ns duration else 0

abbrev pub is_on : Option ℕ → Bool
is_on none = false
is_on (some _) = true

-- The answer at a time, and the list after it.
abbrev pub answer : Command → Network → ℕ → Blocks → Bool
answer (add _ _ _) n now s = true
answer (remove _) n now s = is_on (s n)
answer (ask _) n now s = in_force now (longest_block n.prefixlen n.address s)
answer sweep n now s = true

abbrev pub next_blocks : Command → Network → ℕ → Blocks → Blocks
next_blocks (add _ duration _) n now s = with_block n (ends_at now duration) s
next_blocks (remove _) n now s = without_block n s
next_blocks (ask _) n now s = s
next_blocks sweep n now s = λ m. keep now (s m)

abbrev pub read_part : Result ℕ → Option ℕ
read_part (ok t) = some t
read_part (err c) = none

-- The commands that may raise.
abbrev pub may_raise : Command → Bool
may_raise (add _ _ _) = true
may_raise _ = false

module _ {W : Type 0} (m : Machine W) (fw : Firewall) where
  -- The methods.
  unfoldable pub execute : Command → Exec W Bool
  execute (add cidr duration reason) = do block m fw cidr duration reason; pure true
  execute (remove cidr) = unblock m fw cidr
  execute (ask ip) = is_blocked m fw ip
  execute sweep = do n ← remove_expired_blocks m fw; pure true

  abbrev pub deadline_in : Bytes → Option ℕ
  deadline_in v = read_part (expiry m fw v)

  abbrev pub due : Option Bytes → Option ℕ
  due none = none
  due (some v) = deadline_in v

  -- The deadlines of the networks in a trie.
  abbrev pub deadlines : Dict Network Bytes → Blocks
  deadlines d n = due (lookup n d)

-- A trie as it is reached by these operations: every key is a network and has one entry, and every
-- value has the size of the format.
abbrev pub IsTable : Dict Network Bytes → Type 0
IsTable [] = Unit
IsTable ((n, v) ∷ d) = IsNetwork n × (length v ≡ 24) × (lookup n d ≡ none) × IsTable d

abbrev pub entry_of : Network × Bytes → Bytes × Bytes
entry_of (n, v) = (key_of n, v)

-- The documented behaviour of the clock, and of the reading of a trie of at most `chunk` entries in
-- one batch; `clock` is the time of a world, which no call turns back.
pub record IsTimed {W : Type 0} (m : Machine W) (fd : ℕ) (view : W → Dict Network Bytes)
    (clock : W → ℕ) : Type 0 where
  pub reads :
      (w : W)
      → (now : ℕ) × (((m.ktime_ns w).0 ≡ ok now)
          × (clock w ≤ now)
          × (now ≤ clock (m.ktime_ns w).1)
          × (view (m.ktime_ns w).1 ≡ view w))
  pub lists :
      (w : W)
      → (((m.kernel.lookup_batch fd none chunk 0 w).0).entries ≡ map entry_of (view w))
        × (((m.kernel.lookup_batch fd none chunk 0 w).0).errno ≡ some enoent)
        × (view (m.kernel.lookup_batch fd none chunk 0 w).1 ≡ view w)
        × (clock w ≤ clock (m.kernel.lookup_batch fd none chunk 0 w).1)
  pub lookup_later :
      (key : Bytes) (flags : ℕ) (w : W) → clock w ≤ clock (m.kernel.lookup_elem fd key flags w).1
  pub update_later :
      (key val : Bytes) (flags : ℕ) (w : W)
      → clock w ≤ clock (m.kernel.update_elem fd key val flags w).1
  pub delete_later : (key : Bytes) (w : W) → clock w ≤ clock (m.kernel.delete_elem fd key w).1
