-- ===== src/Firewall/Blocklist/Steps.antt =====
-- control/firewall.py, class Firewall: `unblock` and `is_blocked`, against their specification.
use mathlib.Core.Path.{subst}
use lookout.Common.{
  ℕ, ◌≤◌, ◌≡◌, inl, inr, refl, sym, ap, ◌∙◌, Bool, true, not, Option, none, some, ◌==◌, arith,
  Bool-cases, Option-cases, ltb, leb,
}
use lookout.Common.Text.{Text}
use lookout.Common.Dict.{Dict, lookup, erase}
use lookout.Common.Exec.{Result, ok, pure, raise, ◌>>=◌}
use lookout.Common.Exec.Runs.{Ends}
use lookout.Bpf.Map
use lookout.Bpf.Kernel.{Reply, done, fail, enoent}
use lookout.Firewall.Layout.{Bytes}
use lookout.Firewall.Address.{Network, parse_cidr}
use lookout.Firewall.Address.Ranges.{parse_cidr-IsNetwork}
use lookout.Firewall.Machine.{Machine}
use lookout.Firewall.Maps.{Firewall, unblock, is_blocked, holds}
use lookout.Firewall.Trie.{network_eq, key_of, lpm_key-key_of, longest, IsTrie}
use lookout.Firewall.Blocklist.{
  Command, add, remove, ask, sweep, Blocks, answer, next_blocks, execute, deadlines, IsTable,
  IsTimed, may_raise,
}
use lookout.Firewall.Blocklist.Values.{due-some, due-longest, longest-due, deadlines-erase}
use lookout.Firewall.Blocklist.Tables.{erase-IsTable}

-- The text that names the network of a command; the sweep has none.
abbrev pub Names : Command → Network → Type 0
Names (add cidr _ _) n = parse_cidr cidr ≡ ok n
Names (remove cidr) n = parse_cidr cidr ≡ ok n
Names (ask ip) n = parse_cidr ip ≡ ok n
Names sweep n = Unit

ahead : (now t : ℕ) → ltb now t ≡ not (leb t now)
ahead now t = ground arith

module _ {W : Type 0} (m : Machine W) (fw : Firewall) (view : W → Dict Network Bytes)
    (clock : W → ℕ) (trie : IsTrie m.kernel fw.blocklist.fd view)
    (timed : IsTimed m fw.blocklist.fd view clock) (sized : fw.blocklist.value_size ≡ 24) where
  abbrev pub blocks : W → Blocks
  blocks w = deadlines m fw (view w)

  -- What a command means for a call from a world `w`, with what it sees of the clock.
  abbrev pub Steps : Command → Network → W → Result Bool × W → Type 0
  Steps c n w =
      Ends
        (λ r w'.
          (now : ℕ) × ((clock w ≤ now)
            × (now ≤ clock w')
            × IsTable (view w')
            × (r ≡ answer c n now (blocks w))
            × (blocks w' ≡ next_blocks c n now (blocks w))))
        (λ w'.
          (may_raise c ≡ true) × (clock w ≤ clock w') × IsTable (view w') × (blocks w' ≡ blocks w))

  removed :
      (cidr : Text) (n : Network) (w w' : W) (r : Reply (Unit {0})) (old : Option Bytes)
      → IsTable (view w)
      → lookup n (view w) ≡ old
      → r ≡ (elim old [ some _ ↦ done tt | none ↦ fail enoent ])
      → view w' ≡ erase n (view w)
      → clock w ≤ clock w'
      → Steps (remove cidr) n w (Map.deleted m.kernel fw.blocklist r w')
  unfolding Map.deleted pure raise
  removed cidr n w w' r old t e f h later =
      let table = subst IsTable (sym h) (erase-IsTable n (view w) t) in
      let left = ap (deadlines m fw) h ∙ deadlines-erase m fw n (view w) in
      elim (Option-cases old) [
        | inl o ↦ rw (f, o) (clock w, (omega arith, later, table, rw (e, o) refl, left))
        | inr (x, o) ↦
            let (d, read) = due-some m fw n (view w) x t (e ∙ o) in
            rw (f, o) (clock w, (omega arith, later, table, rw (e, o, read) refl, left))
      ]

  pub remove-Steps :
      (cidr : Text) (n : Network) (w : W)
      → parse_cidr cidr ≡ ok n
      → IsTable (view w)
      → Steps (remove cidr) n w (execute m fw (remove cidr) w)
  unfolding execute unblock Map.delete ◌>>=◌
  remove-Steps cidr n w h t =
      let v = parse_cidr-IsNetwork cidr n h in
      let (replied, left) = trie.deletes n w v in
      let (r, w') = m.kernel.delete_elem fw.blocklist.fd (key_of n) w in
      rw (lpm_key-key_of cidr n h v) (
        removed cidr n w w' r (lookup n (view w)) t refl replied left
          (timed.delete_later (key_of n) w))

  held :
      (ip : Text) (n : Network) (w w' : W) (o : Option Bytes)
      → IsTable (view w)
      → longest n.prefixlen n.address (view w) ≡ o
      → view w' ≡ view w
      → clock w ≤ clock w'
      → Steps (ask ip) n w (holds m fw o w')
  unfolding holds ◌>>=◌ pure
  held ip n w w' none t e h later =
      let same = due-longest m fw n.prefixlen n.address (view w) t in
      (
        clock w,
        (omega arith, later, subst IsTable (sym h) t, rw (same, e) refl, ap (deadlines m fw) h),
      )
  held ip n w w' (some x) t e h later =
      let same = due-longest m fw n.prefixlen n.address (view w) t in
      let (d, read) = longest-due m fw n.prefixlen n.address (view w) x t e in
      let table = subst IsTable (sym h) t in
      elim (Bool-cases (d == 0)) [
        | inl z ↦
            rw (read, z)
              (
                clock w,
                (omega arith, later, table, rw (same, e, read, z) refl, ap (deadlines m fw) h),
              )
        | inr z ↦
            let (now, (told, before, after, kept)) = timed.reads w' in
            rw (read, z, told)
              (
                now,
                (
                  omega (arith, later, before),
                  omega (arith, later, before, after),
                  subst IsTable (sym kept) table,
                  rw (same, e, read, z) (ahead now d),
                  ap (deadlines m fw) (kept ∙ h),
                ),
              )
      ]

  pub ask-Steps :
      (ip : Text) (n : Network) (w : W)
      → parse_cidr ip ≡ ok n
      → IsTable (view w)
      → Steps (ask ip) n w (execute m fw (ask ip) w)
  unfolding execute is_blocked Map.lookup Map.found ◌>>=◌ pure raise
  ask-Steps ip n w h t =
      let v = parse_cidr-IsNetwork ip n h in
      let (replied, left) = trie.lookups n 0 w v in
      let w' = (m.kernel.lookup_elem fw.blocklist.fd (key_of n) 0 w).1 in
      let later = timed.lookup_later (key_of n) 0 w in
      elim (Option-cases (longest n.prefixlen n.address (view w))) [
        | inl e ↦ rw (lpm_key-key_of ip n h v, replied, e) (held ip n w w' none t e left later)
        | inr (x, e) ↦
            rw (lpm_key-key_of ip n h v, replied, e) (held ip n w w' (some x) t e left later)
      ]
