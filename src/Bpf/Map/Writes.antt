-- ===== src/Bpf/Map/Writes.antt =====
-- control/bpfmap.py, class BpfMap: the methods that write.
use lookout.Common.{ℕ, ◌==◌, true, false, length}
use lookout.Common.Exec.{os_error, assertion_error}
use lookout.Common.Exec.Keeps.{Keeps, keeps_bind as ◌>>=◌, keeps_pure, keeps_raise, keeps_if}
use lookout.Firewall.Layout.{Bytes}
use lookout.Bpf.Kernel.{Kernel, Reply, done, fail, enoent}
use lookout.Bpf.Map.{BpfMap, or_error, update, deleted, delete, reply, bpf_any}

-- The commands that write keep `I`.
pub record Writes {W : Type 0} (k : Kernel W) (I : W → Type 0) : Type 0 where
  pub update_elem :
      (fd : ℕ) (key val : Bytes) (flags : ℕ) (w : W) → I w → I (k.update_elem fd key val flags w).1
  pub delete_elem : (fd : ℕ) (key : Bytes) (w : W) → I w → I (k.delete_elem fd key w).1

module _ {W : Type 0} (k : Kernel W) (I : W → Type 0) where
  pub or_error-Keeps : {A : Type 0} (r : Reply A) → Keeps I (or_error k r)
  unfolding or_error
  or_error-Keeps (done a) = keeps_pure a
  or_error-Keeps (fail e) = keeps_raise (os_error e)

  module _ (c : Writes k I) (m : BpfMap) where
    ask_update : (key val : Bytes) → Keeps I (reply (k.update_elem m.fd key val bpf_any))
    ask_update key val = record { at = c.update_elem m.fd key val bpf_any }

    pub update-Keeps : (key val : Bytes) → Keeps I (update k m key val)
    unfolding update
    update-Keeps key val =
        keeps_if (length val == m.value_size) (do r ← ask_update key val; or_error-Keeps r)
          (keeps_raise assertion_error)

    deleted-Keeps : (r : Reply (Unit {0})) → Keeps I (deleted k m r)
    unfolding deleted
    deleted-Keeps (done u) = keeps_pure true
    deleted-Keeps (fail e) = keeps_if (e == enoent) (keeps_pure false) (keeps_raise (os_error e))

    ask_delete : (key : Bytes) → Keeps I (reply (k.delete_elem m.fd key))
    ask_delete key = record { at = c.delete_elem m.fd key }

    pub delete-Keeps : (key : Bytes) → Keeps I (delete k m key)
    unfolding delete
    delete-Keeps key = do r ← ask_delete key; deleted-Keeps r
