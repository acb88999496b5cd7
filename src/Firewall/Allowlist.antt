-- ===== src/Firewall/Allowlist.antt =====
-- control/firewall.py, class Firewall: `allow`, `unallow` and `is_allowed` as operations on a set of
-- networks.
pub mod Sessions
use mathlib.Core.Path.{fun_ext}
use lookout.Common.{
  ℕ, zero, suc, ◌+◌, ◌<◌, ◌≤◌, ◌^◌, ◌≡◌, ◌⊎◌, inl, inr, refl, sym, ap, ◌∙◌, Bool, true, false, not,
  ◌&&◌, ◌||◌, ◌++◌, List, [], ◌∷◌, Option, none, some, ◌==◌, arith, Eq, Bool-cases, Option-cases,
  if◌then◌else◌, length, ltb, take,
}
use lookout.Common.Text.{Text}
use lookout.Common.Dict.{Dict, lookup, insert, erase, lookup-insert, lookup-erase}
use lookout.Common.Exec
use lookout.Common.Exec.{Exec, Result, ok, err, pure, raise, lift, ◌>>=◌, ◌>>◌}
use lookout.Common.Exec.Runs.{Ends}
use lookout.Bpf.Map
use lookout.Bpf.Kernel.{Reply, done, fail, enoent}
use lookout.Firewall.Layout
use lookout.Firewall.Layout.{Bytes, num, bytes, pack}
use lookout.Firewall.Layout.RoundTrip.{unpack-pack}
use lookout.Firewall.Address.{Network, network, parse_cidr}
use lookout.Firewall.Address.RoundTrip.{IsNetwork}
use lookout.Firewall.Address.Ranges.{parse_cidr-IsNetwork}
use lookout.Firewall.Keys.{lpm_key}
use lookout.Firewall.Machine.{Machine}
use lookout.Firewall.Maps.{Firewall, allow, unallow, is_allowed}
use lookout.Firewall.Trie.{network_eq, key_of, lpm_key-key_of, longest, reply_of, IsTrie}

-- An operation on the allowlist, with the text that it is given.
pub data Command : Type 0 where
  add : Text → Command
  remove : Text → Command
  ask : Text → Command

abbrev pub text_of : Command → Text
text_of (add cidr) = cidr
text_of (remove cidr) = cidr
text_of (ask ip) = ip

-- The specification: the set of the networks that were allowed.
abbrev pub Networks : Type 0
Networks = Network → Bool

-- The set holds a prefix of the address, of at most `p` bits.
abbrev pub holds_prefix : ℕ → ℕ → Networks → Bool
holds_prefix zero a s = s (network a 0)
holds_prefix (suc p) a s = s (network a (suc p)) || holds_prefix p a s

abbrev pub with_network : Network → Networks → Networks
with_network n s m = if network_eq.beq n m then true else s m

abbrev pub without_network : Network → Networks → Networks
without_network n s m = if network_eq.beq n m then false else s m

-- The answer and the new set.
abbrev pub answer : Command → Network → Networks → Bool
answer (add _) n s = true
answer (remove _) n s = s n
answer (ask _) n s = holds_prefix n.prefixlen n.address s

abbrev pub next_set : Command → Network → Networks → Networks
next_set (add _) n s = with_network n s
next_set (remove _) n s = without_network n s
next_set (ask _) n s = s

abbrev is_some : Option Bytes → Bool
is_some none = false
is_some (some _) = true

-- The set of the networks in a trie.
abbrev pub members : Dict Network Bytes → Networks
members d n = is_some (lookup n d)

longest-holds :
    (p a : ℕ) (d : Dict Network Bytes) → is_some (longest p a d) ≡ holds_prefix p a (members d)
unfolding longest
longest-holds zero a d = refl
longest-holds (suc p) a d = ground (arith, longest-holds p a d)

members-insert :
    (n : Network) (v : Bytes) (d : Dict Network Bytes)
    → members (insert n v d) ≡ with_network n (members d)
members-insert n v d = fun_ext λ k. ground (arith, lookup-insert n k v d)

members-erase :
    (n : Network) (d : Dict Network Bytes) → members (erase n d) ≡ without_network n (members d)
members-erase n d = fun_ext λ k. ground (arith, lookup-erase n k d)

module _ {W : Type 0} (m : Machine W) (fw : Firewall) where
  -- The methods.
  unfoldable pub execute : Command → Exec W Bool
  execute (add cidr) = do allow m fw cidr; pure true
  execute (remove cidr) = unallow m fw cidr
  execute (ask ip) = is_allowed m fw ip

  module _ (view : W → Dict Network Bytes) (trie : IsTrie m.kernel fw.allowlist.fd view)
      (sized : fw.allowlist.value_size ≡ 16) where
    -- What the command with a network means for a call, from a world `w`.
    abbrev pub Steps : Command → Network → W → Result Bool × W → Type 0
    Steps c n w =
        Ends
          (λ r w'.
            (r ≡ answer c n (members (view w)))
            × (members (view w') ≡ next_set c n (members (view w))))
          (λ w'. members (view w') ≡ members (view w))

    -- After the kernel's reply.
    added :
        (cidr : Text) (n : Network) (w w' : W) (val : Bytes) (r : Reply (Unit {0}))
        → ((r ≡ done tt) × (view w' ≡ insert n val (view w)))
          ⊎ ((errno : ℕ) × (r ≡ fail errno) × (view w' ≡ view w))
        → Steps (add cidr) n w (Exec.◌>>=◌ (Map.or_error m.kernel r) (λ _. pure true) w')
    unfolding Map.or_error ◌>>=◌ pure raise
    added cidr n w w' val (done u) (inl (e, h)) =
        (refl, ap members h ∙ members-insert n val (view w))
    added cidr n w w' val (done u) (inr (errno, e, h)) = ground arith
    added cidr n w w' val (fail c) (inl (e, h)) = ground arith
    added cidr n w w' val (fail c) (inr (errno, e, h)) = ap members h

    add_on :
        (cidr : Text) (n : Network) (val : Bytes) (w : W)
        → IsNetwork n
        → length val ≡ 16
        → Steps
            (add cidr)
            n
            w
            (Exec.◌>>=◌ (Map.update m.kernel fw.allowlist (key_of n) val) (λ _. pure true) w)
    unfolding Map.update ◌>>=◌
    add_on cidr n val w v h =
        let fits : (length val == fw.allowlist.value_size) ≡ true = ground (arith, sized) in
        let (r, w') = m.kernel.update_elem fw.allowlist.fd (key_of n) val Map.bpf_any w in
        rw fits (added cidr n w w' val r (trie.updates n val w v))

    add-Steps :
        (cidr : Text) (n : Network) (w : W)
        → parse_cidr cidr ≡ ok n
        → Steps (add cidr) n w (execute (add cidr) w)
    unfolding execute allow ◌>>=◌
    add-Steps cidr n w h =
        let v = parse_cidr-IsNetwork cidr n h in
        let (val, made, size, back) =
          unpack-pack Layout.allow_val (num 0 ∷ num 0 ∷ num 0 ∷ []) (omega arith) in
        rw (lpm_key-key_of cidr n h v, made) (add_on cidr n val w v size)

    removed :
        (cidr : Text) (n : Network) (w w' : W) (r : Reply (Unit {0})) (old : Option Bytes)
        → lookup n (view w) ≡ old
        → r ≡ (elim old [ some _ ↦ done tt | none ↦ fail enoent ])
        → view w' ≡ erase n (view w)
        → Steps (remove cidr) n w (Map.deleted m.kernel fw.allowlist r w')
    unfolding Map.deleted pure raise
    removed cidr n w w' r (some x) e f h =
        rw f (ground (arith, e), ap members h ∙ members-erase n (view w))
    removed cidr n w w' r none e f h =
        rw f (ground (arith, e), ap members h ∙ members-erase n (view w))

    remove-Steps :
        (cidr : Text) (n : Network) (w : W)
        → parse_cidr cidr ≡ ok n
        → Steps (remove cidr) n w (execute (remove cidr) w)
    unfolding execute unallow Map.delete ◌>>=◌
    remove-Steps cidr n w h =
        let v = parse_cidr-IsNetwork cidr n h in
        let (replied, left) = trie.deletes n w v in
        let (r, w') = m.kernel.delete_elem fw.allowlist.fd (key_of n) w in
        rw (lpm_key-key_of cidr n h v) (removed cidr n w w' r (lookup n (view w)) refl replied left)

    asked :
        (ip : Text) (n : Network) (w w' : W) (r : Reply Bytes) (o : Option Bytes)
        → longest n.prefixlen n.address (view w) ≡ o
        → r ≡ reply_of o
        → view w' ≡ view w
        → Steps (ask ip) n w (
            Exec.◌>>=◌
              (Map.found m.kernel fw.allowlist r)
              (λ val. pure (elim val [ none ↦ false | some _ ↦ true ]))
              w')
    unfolding Map.found ◌>>=◌ pure raise
    asked ip n w w' r none e f h =
        rw f (sym (ap is_some e) ∙ longest-holds n.prefixlen n.address (view w), ap members h)
    asked ip n w w' r (some x) e f h =
        rw f (sym (ap is_some e) ∙ longest-holds n.prefixlen n.address (view w), ap members h)

    ask-Steps :
        (ip : Text) (n : Network) (w : W)
        → parse_cidr ip ≡ ok n
        → Steps (ask ip) n w (execute (ask ip) w)
    unfolding execute is_allowed Map.lookup ◌>>=◌
    ask-Steps ip n w h =
        let v = parse_cidr-IsNetwork ip n h in
        let (replied, left) = trie.lookups n 0 w v in
        let (r, w') = m.kernel.lookup_elem fw.allowlist.fd (key_of n) 0 w in
        rw (lpm_key-key_of ip n h v)
          (asked ip n w w' r (longest n.prefixlen n.address (view w)) refl replied left)

    pub execute-Steps :
        (c : Command) (n : Network) (w : W)
        → parse_cidr (text_of c) ≡ ok n
        → Steps c n w (execute c w)
    execute-Steps (add cidr) n w h = add-Steps cidr n w h
    execute-Steps (remove cidr) n w h = remove-Steps cidr n w h
    execute-Steps (ask ip) n w h = ask-Steps ip n w h
