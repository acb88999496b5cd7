-- ===== src/Bpf/Map.antt =====
-- control/bpfmap.py, class BpfMap: lookup, update, delete, and reading every entry.
pub mod Walks
pub mod Reads
pub mod Writes
use lookout.Common.{
  ℕ, zero, suc, ◌+◌, ◌*◌, ◌/◌, Bool, true, false, ◌||◌, ◌&&◌, List, [], ◌∷◌, ◌++◌, Option, none,
  some, ltb, ◌==◌, if◌then◌else◌, length, take, drop,
}
use lookout.Common.Int.{ℤ, pos, negsuc, pos_part}
use lookout.Common.Text.{Text}
use lookout.Common.Exec.{
  Exec, Result, ok, err, os_error, assertion_error, no_fuel, pure, raise, lift, ◌>>=◌, ◌>>◌,
}
use lookout.Firewall.Layout.{Bytes, of_le}
use lookout.Bpf.Kernel.{Kernel, Reply, done, fail, Batch, enoent, e2big, einval, erange, enotsupp}
use lookout.Bpf.Cpus.{possible_cpus}

abbrev pub bpf_any : ℕ
bpf_any = 0

abbrev pub bpf_f_lock : ℕ
bpf_f_lock = 4

-- 1 << 20
abbrev pub max_walk : ℕ
max_walk = 1048576

abbrev pub chunk : ℕ
chunk = 4096

-- Rounds of the loop over batches that the model allows for.
abbrev pub max_batches : ℕ
max_batches = 1048576

pub record BpfMap : Type 0 where
  pub path : Text
  pub key_size : ℕ
  pub value_size : ℕ
  pub ncpu : ℕ
  pub fd : ℕ

-- No token yet.
abbrev pub is_first : Option Bytes → Bool
is_first none = true
is_first (some _) = false

abbrev pub reply : {W A : Type 0} → (W → Reply A × W) → Exec W (Reply A)
reply m w = let (r, w') = m w in (ok r, w')

module _ {W : Type 0} (k : Kernel W) where
  -- An errno becomes a BpfError.
  unfoldable pub or_error : {A : Type 0} → Reply A → Exec W A
  or_error (done a) = pure a
  or_error (fail e) = raise (os_error e)

  unfoldable pub open_pinned : Text → Exec W ℕ
  unfolding or_error
  open_pinned path = do r ← reply (k.obj_get path); or_error r

  -- `BpfMap(path, key_size, value_size, percpu)`. A count of CPUs below zero, which no kernel
  -- writes, is taken for zero.
  unfoldable pub new_map : Text → ℕ → ℕ → Bool → Exec W BpfMap
  unfolding open_pinned
  new_map path key_size value_size false = do
    fd ← open_pinned path
    pure (record { path = path; key_size = key_size; value_size = value_size; ncpu = 1; fd = fd })
  new_map path key_size value_size true = do
    n ← possible_cpus k
    fd ← open_pinned path
    pure (record {
      path = path;
      key_size = key_size;
      value_size = (value_size + 7) / 8 * 8 * pos_part n;
      ncpu = pos_part n;
      fd = fd;
    })

  module _ (m : BpfMap) where
    unfoldable pub found : Reply Bytes → Exec W (Option Bytes)
    found (done v) = pure (some v)
    found (fail e) = if e == enoent then pure none else raise (os_error e)

    -- The value for a key, or none.
    unfoldable pub lookup : Bytes → ℕ → Exec W (Option Bytes)
    unfolding found
    lookup key flags = do r ← reply (k.lookup_elem m.fd key flags); found r

    unfoldable pub update : Bytes → Bytes → Exec W (Unit {0})
    unfolding or_error
    update key value =
        if length value == m.value_size
        then (do r ← reply (k.update_elem m.fd key value bpf_any); or_error r)
        else raise assertion_error

    unfoldable pub deleted : Reply (Unit {0}) → Exec W Bool
    deleted (done _) = pure true
    deleted (fail e) = if e == enoent then pure false else raise (os_error e)

    -- True if the key existed.
    unfoldable pub delete : Bytes → Exec W Bool
    unfolding deleted
    delete key = do r ← reply (k.delete_elem m.fd key); deleted r

    -- The rest of a round of the loop of `keys`, which gives up past `limit` keys.
    unfoldable pub walk_on :
        ℕ → List Bytes → (Bytes → Exec W (List Bytes)) → Reply Bytes → Exec W (List Bytes)
    walk_on limit out next_round (fail e) = if e == enoent then pure out else raise (os_error e)
    walk_on limit out next_round (done next) =
        if ltb limit (length (out ++ next ∷ [])) then raise (os_error erange) else next_round next

    unfoldable pub walk : ℕ → ℕ → List Bytes → Option Bytes → Exec W (List Bytes)
    unfolding walk_on
    walk limit zero out cur = raise no_fuel
    walk limit (suc fuel) out cur = do
      r ← reply (k.get_next_key m.fd cur)
      walk_on limit out (λ next. walk limit fuel (out ++ next ∷ []) (some next)) r

    unfoldable pub keys : Exec W (List Bytes)
    unfolding walk
    keys = walk max_walk (max_walk + 2) [] none

    -- The end of a round of the loop of `_batch`, which has `out` and may be its first.
    unfoldable pub batch_on :
        Bool
        → List (Bytes × Bytes)
        → Exec W (Option (List (Bytes × Bytes)))
        → Option ℕ
        → Exec W (Option (List (Bytes × Bytes)))
    batch_on first out next_round none = next_round
    batch_on first out next_round (some e) =
        if e == enoent
        then pure (some out)
        else if first && (e == einval || e == enotsupp)
        then pure none
        else raise (os_error e)

    abbrev pub ask_batch : Option Bytes → ℕ → Exec W Batch
    ask_batch token flags w = let (b, w') = k.lookup_batch m.fd token chunk flags w in (ok b, w')

    -- The loop of `_batch`: none if the kernel knows no batches.
    unfoldable pub batch_from :
        ℕ → ℕ → List (Bytes × Bytes) → Option Bytes → Exec W (Option (List (Bytes × Bytes)))
    unfolding batch_on
    batch_from zero flags out token = raise no_fuel
    batch_from (suc fuel) flags out token = do
      b ← ask_batch token flags
      let next_round = batch_from fuel flags (out ++ b.entries) (some b.token)
      batch_on (is_first token) (out ++ b.entries) next_round b.errno

    unfoldable pub batch : ℕ → Exec W (Option (List (Bytes × Bytes)))
    unfolding batch_from
    batch flags = batch_from max_batches flags [] none

    -- Keys that have gone since the walk are left out.
    unfoldable pub read_each : ℕ → List Bytes → List (Bytes × Bytes) → Exec W (List (Bytes × Bytes))
    unfolding lookup
    read_each flags [] out = pure out
    read_each flags (key ∷ rest) out = do
      val ← lookup key flags
      read_each flags rest (elim val [ none ↦ out | some v ↦ out ++ (key, v) ∷ [] ])

    -- Every entry.
    unfoldable pub items : ℕ → Exec W (List (Bytes × Bytes))
    unfolding batch keys read_each
    items flags = do
      b ← batch flags
      elim b [ some entries ↦ pure entries | none ↦ (do ks ← keys; read_each flags ks []) ]

    unfoldable pub sum_slots : ℕ → Bytes → ℕ
    unfolding of_le
    sum_slots zero raw = 0
    sum_slots (suc n) raw = of_le (take 8 raw) + sum_slots n (drop 8 raw)

    -- The sum of a per-CPU number over the CPUs.
    unfoldable pub sum_percpu : Bytes → Exec W ℕ
    unfolding lookup sum_slots
    sum_percpu key = do
      raw ← lookup key 0
      elim raw [ none ↦ pure 0 | some v ↦ pure (sum_slots m.ncpu v) ]
