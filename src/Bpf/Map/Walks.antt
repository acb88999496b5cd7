-- ===== src/Bpf/Map/Walks.antt =====
-- control/bpfmap.py, `BpfMap.keys`: the walk ends, whatever the kernel answers.
use lookout.Common.{
  ℕ, zero, suc, ◌+◌, ◌≤◌, ◌<◌, ◌≡◌, refl, Bool, true, false, List, [], ◌∷◌, ◌++◌, Option, none,
  some, arith, ltb, ◌==◌, if◌then◌else◌, length, length-append,
}
use lookout.Common.Exec.{Exec, Result, ok, err, os_error, ◌>>=◌, pure, raise}
use lookout.Firewall.Layout.{Bytes}
use lookout.Bpf.Kernel.{Kernel, Reply, done, fail, enoent, erange}
use lookout.Bpf.Map.{BpfMap, walk_on, walk, keys, max_walk}

-- At most `limit` keys, or an error of the operating system.
abbrev pub Walked : ℕ → Result (List Bytes) → Type 0
Walked limit (ok out) = length out ≤ limit
Walked limit (err e) = (errno : ℕ) × (e ≡ os_error errno)

module _ {W : Type 0} (k : Kernel W) (m : BpfMap) where
  either_way :
      (limit : ℕ) (b : Bool) (x y : Exec W (List Bytes)) (w : W)
      → (b ≡ true → Walked limit (x w).0)
      → (b ≡ false → Walked limit (y w).0)
      → Walked limit ((if b then x else y) w).0
  either_way limit true x y w h g = h refl
  either_way limit false x y w h g = g refl

  walk_on-Walked :
      (limit : ℕ) (out : List Bytes) (next_round : Bytes → Exec W (List Bytes)) (r : Reply Bytes)
      (w : W)
      → length out ≤ limit
      → ((next : Bytes) → length (out ++ next ∷ []) ≤ limit → Walked limit (next_round next w).0)
      → Walked limit (walk_on k m limit out next_round r w).0
  unfolding walk_on pure raise
  walk_on-Walked limit out next_round (fail e) w h g =
      either_way limit (e == enoent) (pure out) (raise (os_error e)) w (λ _. h) (λ _. (e, refl))
  walk_on-Walked limit out next_round (done next) w h g =
      either_way limit (ltb limit (length (out ++ next ∷ []))) (raise (os_error erange))
        (next_round next) w (λ _. (erange, refl)) (λ small. g next (ground arith))

  walk-Walked :
      (limit fuel : ℕ) (out : List Bytes) (cur : Option Bytes) (w : W)
      → length out ≤ limit
      → limit < fuel + length out
      → Walked limit (walk k m limit fuel out cur w).0
  unfolding walk ◌>>=◌ pure raise
  walk-Walked limit zero out cur w h g = ground arith
  walk-Walked limit (suc fuel) out cur w h g =
      let (r, w') = k.get_next_key m.fd cur w in
      walk_on-Walked limit out (λ next. walk k m limit fuel (out ++ next ∷ []) (some next)) r w' h
        (λ next small.
          walk-Walked limit fuel (out ++ next ∷ []) (some next) w' small
            (omega (arith, length-append out (next ∷ []))))

  -- `keys` returns at most 2 ^ 20 keys or raises a `BpfError`; it does not walk for ever.
  pub keys-Walked : (w : W) → Walked max_walk (keys k m w).0
  unfolding keys
  keys-Walked w = walk-Walked max_walk (max_walk + 2) [] none w (omega arith) (omega arith)
