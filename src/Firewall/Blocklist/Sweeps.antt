-- ===== src/Firewall/Blocklist/Sweeps.antt =====
-- control/firewall.py, class Firewall: `remove_expired_blocks`, against its specification.
use mathlib.Core.Path.{subst}
use lookout.Common.{
  ℕ, suc, ◌≤◌, ◌≡◌, refl, sym, ap, ◌∙◌, Bool, true, false, List, [], ◌∷◌, Option, none, some, arith,
  All, map,
}
use lookout.Common.Dict.{Dict, lookup}
use lookout.Common.Exec.{ok, pure, raise, lift, ◌>>=◌}
use lookout.Bpf.Map
use lookout.Bpf.Kernel.{Reply, Batch, done, fail, enoent}
use lookout.Firewall.Layout.{Bytes}
use lookout.Firewall.Address.{Network}
use lookout.Firewall.Address.RoundTrip.{IsNetwork}
use lookout.Firewall.Machine.{Machine}
use lookout.Firewall.Maps.{Firewall, remove_expired_blocks, delete_all, doomed_blocks}
use lookout.Firewall.Maps.Deadlines.{doomed_cons}
use lookout.Firewall.Trie.{network_eq, key_of, IsTrie}
use lookout.Firewall.Blocklist.{sweep, execute, IsTable, IsTimed, entry_of, deadlines, keep}
use lookout.Firewall.Blocklist.Tables.{
  erase-IsTable, erase_all, doomed_of, doomed_of-valid, deadlines-erase_all,
  doomed_blocks-doomed_of,
}
use lookout.Firewall.Blocklist.Steps.{Steps}
use lookout.Firewall.Blocklist.Values.{readable}

module _ {W : Type 0} (m : Machine W) (fw : Firewall) (view : W → Dict Network Bytes)
    (clock : W → ℕ) (trie : IsTrie m.kernel fw.blocklist.fd view)
    (timed : IsTimed m fw.blocklist.fd view clock) (sized : fw.blocklist.value_size ≡ 24) where
  abbrev Deletes : List Network → W → Type 0
  Deletes ns w =
      (w' : W) × ((delete_all m fw.blocklist (map key_of ns) w ≡ (ok tt, w'))
        × (view w' ≡ erase_all ns (view w))
        × IsTable (view w')
        × (clock w ≤ clock w'))

  replied_bool :
      (r : Reply (Unit {0})) (w : W) (old : Option Bytes)
      → r ≡ (elim old [ some _ ↦ done tt | none ↦ fail enoent ])
      → (b : Bool) × (Map.deleted m.kernel fw.blocklist r w ≡ (ok b, w))
  unfolding Map.deleted pure raise
  replied_bool r w none h = rw h (false, refl)
  replied_bool r w (some x) h = rw h (true, refl)

  delete_each : (ns : List Network) (w : W) → All IsNetwork ns → IsTable (view w) → Deletes ns w
  unfolding delete_all Map.delete ◌>>=◌ pure
  delete_each [] w h t = (w, (refl, refl, t, omega arith))
  delete_each (n ∷ ns) w (v, vs) t =
      let (replied, left) = trie.deletes n w v in
      let (r, w1) = m.kernel.delete_elem fw.blocklist.fd (key_of n) w in
      let (b, e) = replied_bool r w1 (lookup n (view w)) replied in
      let (w2, (e2, left2, t2, later2)) =
        delete_each ns w1 vs (subst IsTable (sym left) (erase-IsTable n (view w) t)) in
      (
        w2,
        (
          rw (e, e2) refl,
          left2 ∙ ap (erase_all ns) left,
          t2,
          omega (arith, later2, timed.delete_later (key_of n) w),
        ),
      )

  last_batch :
      (fuel : ℕ) (b : Batch) (w w' : W)
      → m.kernel.lookup_batch fw.blocklist.fd none Map.chunk 0 w ≡ (b, w')
      → b.errno ≡ some enoent
      → Map.batch_from m.kernel fw.blocklist (suc fuel) 0 [] none w ≡ (ok (some b.entries), w')
  unfolding Map.batch_from Map.batch_on ◌>>=◌ pure
  last_batch fuel b w w' h e = rw (h, e) refl

  abbrev Lists : W → Type 0
  Lists w =
      (w' : W) × ((Map.items m.kernel fw.blocklist 0 w ≡ (ok (map entry_of (view w)), w'))
        × (view w' ≡ view w)
        × (clock w ≤ clock w'))

  items-Lists : (w : W) → Lists w
  unfolding Map.items Map.batch ◌>>=◌ pure
  items-Lists w =
      let (entries, errno, kept, later) = timed.lists w in
      let (b, w') = m.kernel.lookup_batch fw.blocklist.fd none Map.chunk 0 w in
      (w', (rw (last_batch 1048575 b w w' refl errno, entries) refl, kept, later))

  doomed_read :
      (now : ℕ) (d : Dict Network Bytes)
      → IsTable d
      → (keys : List Bytes) × (doomed_blocks m fw now (map entry_of d) ≡ ok keys)
  unfolding doomed_blocks
  doomed_read now [] t = ([], refl)
  doomed_read now ((n, v) ∷ d) (valid, long, fresh, t) =
      let (expires, e) = readable m fw v long in
      let (keys, f) = doomed_read now d t in
      (_, doomed_cons m fw now (key_of n) v (map entry_of d) expires keys e f)

  pub sweep-Steps :
      (n : Network) (w : W)
      → IsTable (view w)
      → Steps m fw view clock trie timed sized sweep n w (execute m fw sweep w)
  unfolding execute remove_expired_blocks ◌>>=◌ pure lift
  sweep-Steps n w t =
      let (now, (told, before, after, kept)) = timed.reads w in
      let w1 = (m.ktime_ns w).1 in
      let (w2, (listed, same, later)) = items-Lists w1 in
      let table = subst IsTable (sym (same ∙ kept)) t in
      let t1 = subst IsTable (sym kept) t in
      let (keys, doomed) = doomed_read now (view w1) t1 in
      let which = doomed_blocks-doomed_of m fw now (view w1) keys doomed in
      let (w3, (gone, left, t3, last)) =
        delete_each (doomed_of m fw now (view w1)) w2 (doomed_of-valid m fw now (view w1) t1)
          table in
      rw (told, listed, doomed, which, gone)
        (
          now,
          (
            before,
            omega (arith, after, later, last),
            t3,
            refl,
            ap (deadlines m fw) (left ∙ ap (erase_all (doomed_of m fw now (view w1))) same)
                ∙ deadlines-erase_all m fw now (view w1) t1
                ∙ ap (λ d. λ k. keep now (deadlines m fw d k)) kept,
          ),
        )
