-- ===== src/Firewall/Blocklist/Values.antt =====
-- control/firewall.py, class Firewall: the values of the blocklist, and the deadlines that they hold.
use mathlib.Core.Path.{fun_ext}
use lookout.Common.{
  ℕ, zero, suc, ◌^◌, ◌≡◌, ◌⊎◌, inl, inr, refl, ◌∙◌, true, [], ◌∷◌, some, ◌==◌, arith, Bool-cases,
  Option-cases, length, ltb, take,
}
use lookout.Common.Dict.{Dict, lookup, insert, erase, lookup-insert, lookup-erase}
use lookout.Common.Exec.{ok, err, Error, struct_error}
use lookout.Firewall.Layout
use lookout.Firewall.Layout.{Bytes, num, bytes, pack, unpack, unpack_fields, of_le}
use lookout.Firewall.Layout.RoundTrip.{unpack-pack}
use lookout.Firewall.Address.{Network, network}
use lookout.Firewall.Machine.{Machine}
use lookout.Firewall.Maps.{Firewall, expiry, first_num}
use lookout.Firewall.Trie.{network_eq, longest}
use lookout.Firewall.Blocklist.{longest_block, with_block, without_block, due, deadlines, IsTable}

lookup-length :
    (n : Network) (d : Dict Network Bytes) (v : Bytes)
    → IsTable d
    → lookup n d ≡ some v
    → length v ≡ 24
unfolding lookup
lookup-length n [] v t h = ground (arith, h)
lookup-length n ((k, u) ∷ d) v (valid, long, fresh, t) h = elim (Bool-cases (network_eq.beq k n)) [
  | inl e ↦ let eq : some u ≡ some v = rw e at h in ground (arith, eq, long)
  | inr e ↦ lookup-length n d v t (rw e at h)
]

module _ {W : Type 0} (m : Machine W) (fw : Firewall) where
  pub readable : (v : Bytes) → length v ≡ 24 → (t : ℕ) × (expiry m fw v ≡ ok t)
  unfolding expiry first_num unpack_fields unpack
  readable v h =
      let fits : (length v == 24) ≡ true = ground (arith, h) in
      let read : unpack Layout.block_val v ≡ ok (unpack_fields Layout.block_val v) =
        rw (fits, unpack) refl in
      (of_le (take 8 v), rw (expiry, read) refl)

  pub due-some :
      (n : Network) (d : Dict Network Bytes) (v : Bytes)
      → IsTable d
      → lookup n d ≡ some v
      → (t : ℕ) × (expiry m fw v ≡ ok t)
  due-some n d v t h = readable v (lookup-length n d v t h)

  pub due-longest :
      (p a : ℕ) (d : Dict Network Bytes)
      → IsTable d
      → longest_block p a (deadlines m fw d) ≡ due m fw (longest p a d)
  unfolding longest
  due-longest zero a d t = refl
  due-longest (suc p) a d t = elim (Option-cases (lookup (network a (suc p)) d)) [
    | inl h ↦ rw (h, longest) (due-longest p a d t)
    | inr (v, h) ↦ let (e, r) = due-some (network a (suc p)) d v t h in rw (h, r, longest) refl
  ]

  pub longest-due :
      (p a : ℕ) (d : Dict Network Bytes) (v : Bytes)
      → IsTable d
      → longest p a d ≡ some v
      → (t : ℕ) × (expiry m fw v ≡ ok t)
  unfolding longest
  longest-due zero a d v t h = due-some (network a 0) d v t h
  longest-due (suc p) a d v t h = elim (Option-cases (lookup (network a (suc p)) d)) [
    | inl e ↦ longest-due p a d v t (rw (e, longest) at h)
    | inr (u, e) ↦
        let same : some u ≡ some v = rw (e, longest) at h in
        due-some (network a (suc p)) d v t (e ∙ same)
  ]

  -- The value of a block, or struct.error for a number that is too large.
  pub packed_block :
      (t reason : ℕ)
      → ((v : Bytes) × ((pack Layout.block_val (num t ∷ num 0 ∷ num reason ∷ num 0 ∷ []) ≡ ok v)
            × (length v ≡ 24)
            × (expiry m fw v ≡ ok t)))
        ⊎ ((c : Error) × (pack Layout.block_val (num t ∷ num 0 ∷ num reason ∷ num 0 ∷ []) ≡ err c))
  unfolding expiry first_num pack
  packed_block t reason = elim (Bool-cases (ltb reason (256 ^ 4))) [
    | inr f ↦ inr (struct_error, rw f refl)
    | inl f ↦ elim (Bool-cases (ltb t (256 ^ 8))) [
      | inr e ↦ inr (struct_error, rw (f, e) refl)
      | inl e ↦
          let (v, made, size, back) =
            unpack-pack Layout.block_val (num t ∷ num 0 ∷ num reason ∷ num 0 ∷ [])
              (ground (arith, e), (omega arith, (ground (arith, f), (omega arith, tt)))) in
          inl (v, (made, size, rw (expiry, back) refl))
    ]
  ]

  pub deadlines-erase :
      (n : Network) (d : Dict Network Bytes)
      → deadlines m fw (erase n d) ≡ without_block n (deadlines m fw d)
  deadlines-erase n d = fun_ext λ k. ground (arith, lookup-erase n k d)

  pub deadlines-insert :
      (n : Network) (v : Bytes) (t : ℕ) (d : Dict Network Bytes)
      → expiry m fw v ≡ ok t
      → deadlines m fw (insert n v d) ≡ with_block n t (deadlines m fw d)
  deadlines-insert n v t d h = fun_ext λ k. ground (arith, lookup-insert n k v d, h)
