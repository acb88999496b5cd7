-- ===== src/Bpf/Map/Reads.antt =====
-- control/bpfmap.py, class BpfMap: the methods that read.
use lookout.Common.{
  ℕ, zero, suc, ◌+◌, ◌++◌, ◌&&◌, ◌||◌, Bool, List, [], ◌∷◌, Option, none, some, ltb, ◌==◌, length,
}
use lookout.Common.Exec.{Exec, Result, ok, err, os_error, no_fuel, raise, pure}
use lookout.Common.Exec
use lookout.Common.Exec.Keeps.{Keeps, keeps_bind as ◌>>=◌, keeps_pure, keeps_raise, keeps_if}
use lookout.Firewall.Layout.{Bytes}
use lookout.Bpf.Kernel.{Kernel, Reply, done, fail, enoent, erange, einval, enotsupp}
use lookout.Bpf.Map.{
  BpfMap, found, batch_on, is_first, ask_batch, sum_slots, chunk, lookup, walk_on, walk, keys,
  batch_from, batch, read_each, items, sum_percpu, reply, max_walk, max_batches,
}

-- The commands that read keep `I`. Nothing is said about the others.
pub record Reads {W : Type 0} (k : Kernel W) (I : W → Type 0) : Type 0 where
  pub lookup_elem :
      (fd : ℕ) (key : Bytes) (flags : ℕ) (w : W) → I w → I (k.lookup_elem fd key flags w).1
  pub get_next_key : (fd : ℕ) (key : Option Bytes) (w : W) → I w → I (k.get_next_key fd key w).1
  pub lookup_batch :
      (fd : ℕ) (token : Option Bytes) (count flags : ℕ) (w : W)
      → I w
      → I (k.lookup_batch fd token count flags w).1

module _ {W : Type 0} (k : Kernel W) (I : W → Type 0) (r : Reads k I) (m : BpfMap) where
  found-Keeps : (v : Reply Bytes) → Keeps I (found k m v)
  unfolding found
  found-Keeps (done v) = keeps_pure (some v)
  found-Keeps (fail e) = keeps_if (e == enoent) (keeps_pure none) (keeps_raise (os_error e))

  ask_lookup : (key : Bytes) (flags : ℕ) → Keeps I (reply (k.lookup_elem m.fd key flags))
  ask_lookup key flags = record { at = r.lookup_elem m.fd key flags }

  pub lookup-Keeps : (key : Bytes) (flags : ℕ) → Keeps I (lookup k m key flags)
  unfolding lookup
  lookup-Keeps key flags = do v ← ask_lookup key flags; found-Keeps v

  ask_next : (cur : Option Bytes) → Keeps I (reply (k.get_next_key m.fd cur))
  ask_next cur = record { at = r.get_next_key m.fd cur }

  walk_on-Keeps :
      (limit : ℕ) (out : List Bytes) (next_round : Bytes → Exec W (List Bytes)) (v : Reply Bytes)
      → ((next : Bytes) → Keeps I (next_round next))
      → Keeps I (walk_on k m limit out next_round v)
  unfolding walk_on
  walk_on-Keeps limit out next_round (fail e) h =
      keeps_if (e == enoent) (keeps_pure out) (keeps_raise (os_error e))
  walk_on-Keeps limit out next_round (done next) h =
      keeps_if (ltb limit (length (out ++ next ∷ []))) (keeps_raise (os_error erange)) (h next)

  walk-Keeps :
      (limit fuel : ℕ) (out : List Bytes) (cur : Option Bytes)
      → Keeps I (walk k m limit fuel out cur)
  unfolding walk
  walk-Keeps limit zero out cur = keeps_raise no_fuel
  walk-Keeps limit (suc fuel) out cur = do
    v ← ask_next cur
    walk_on-Keeps limit out _ v (λ next. walk-Keeps limit fuel (out ++ next ∷ []) (some next))

  pub keys-Keeps : Keeps I (keys k m)
  unfolding keys
  keys-Keeps = walk-Keeps max_walk (max_walk + 2) [] none

  batch_on-Keeps :
      (first : Bool) (out : List (Bytes × Bytes))
      (next_round : Exec W (Option (List (Bytes × Bytes)))) (errno : Option ℕ)
      → Keeps I next_round
      → Keeps I (batch_on k m first out next_round errno)
  unfolding batch_on
  batch_on-Keeps first out next_round none h = h
  batch_on-Keeps first out next_round (some e) h = keeps_if (e == enoent) (keeps_pure (some out)) (
      keeps_if (first && (e == einval || e == enotsupp)) (keeps_pure none)
        (keeps_raise (os_error e)))

  ask_batch-Keeps : (token : Option Bytes) (flags : ℕ) → Keeps I (ask_batch k m token flags)
  ask_batch-Keeps token flags = record { at = r.lookup_batch m.fd token chunk flags }

  batch_from-Keeps :
      (fuel flags : ℕ) (out : List (Bytes × Bytes)) (token : Option Bytes)
      → Keeps I (batch_from k m fuel flags out token)
  unfolding batch_from
  batch_from-Keeps zero flags out token = keeps_raise no_fuel
  batch_from-Keeps (suc fuel) flags out token = do
    b ← ask_batch-Keeps token flags
    batch_on-Keeps (is_first token) (out ++ b.entries) _ b.errno
        (batch_from-Keeps fuel flags (out ++ b.entries) (some b.token))

  read_each-Keeps :
      (flags : ℕ) (ks : List Bytes) (out : List (Bytes × Bytes))
      → Keeps I (read_each k m flags ks out)
  unfolding read_each
  read_each-Keeps flags [] out = keeps_pure out
  read_each-Keeps flags (key ∷ ks) out = do v ← lookup-Keeps key flags; read_each-Keeps flags ks _

  items_on :
      (flags : ℕ) (b : Option (List (Bytes × Bytes)))
      → Keeps I (elim b [
        | some entries ↦ pure entries
        | none ↦ Exec.◌>>=◌ (keys k m) (λ ks. read_each k m flags ks [])
      ])
  items_on flags none = do ks ← keys-Keeps; read_each-Keeps flags ks []
  items_on flags (some entries) = keeps_pure entries

  pub items-Keeps : (flags : ℕ) → Keeps I (items k m flags)
  unfolding items batch
  items-Keeps flags = do b ← batch_from-Keeps max_batches flags [] none; items_on flags b

  sum_on :
      (v : Option Bytes)
      → Keeps {A = ℕ} I (elim v [ none ↦ pure 0 | some w ↦ pure (sum_slots k m m.ncpu w) ])
  sum_on none = keeps_pure 0
  sum_on (some w) = keeps_pure (sum_slots k m m.ncpu w)

  pub sum_percpu-Keeps : (key : Bytes) → Keeps I (sum_percpu k m key)
  unfolding sum_percpu
  sum_percpu-Keeps key = do v ← lookup-Keeps key 0; sum_on v
