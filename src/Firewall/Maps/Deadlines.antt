-- ===== src/Firewall/Maps/Deadlines.antt =====
-- control/firewall.py: the three places that read a block's deadline.
use lookout.Common.{
  ℕ, suc, ◌+◌, ◌≡◌, inl, inr, refl, sym, ◌∙◌, true, false, not, List, [], ◌∷◌, some, Bool-cases,
  arith, if◌then◌else◌, length,
}
use lookout.Common.Exec.{Exec, Result, ok, err, Result-cases, pure, lift, ◌>>=◌}
use lookout.Firewall.Layout
use lookout.Firewall.Layout.{Bytes, unpack}
use lookout.Firewall.Keys.{unpack_cidr}
use lookout.Firewall.Machine.{Machine}
use lookout.Firewall.Maps.{
  Firewall, Blocked, holds, expiry, is_expired, sweep_entry, doomed_blocks, show_blocks, show_block,
  list_entry,
}

module _ {W : Type 0} (m : Machine W) (fw : Firewall) where
  -- Of a value whose expiry can be read, and with a clock that returns: the check for one address
  -- takes the block to be in force exactly if the listing does not count it as expired.
  holds-is_expired :
      (raw : Bytes) (expires now : ℕ) (w w' : W)
      → expiry m fw raw ≡ ok expires
      → m.ktime_ns w ≡ (ok now, w')
      → (holds m fw (some raw) w).0 ≡ ok (not (is_expired m fw now expires))
  unfolding holds ◌>>=◌
  holds-is_expired raw expires now w w' h k = ground arith

  pub swept_both :
      (now : ℕ) (key : Bytes) (r : Result ℕ) (q : Result (List Bytes)) (swept : List Bytes)
      → sweep_entry m fw now key r q ≡ ok swept
      → ((expires : ℕ) × (r ≡ ok expires)) × ((rest : List Bytes) × (q ≡ ok rest))
  swept_both now key (ok expires) (ok rest) swept h = ((expires, refl), (rest, refl))
  swept_both now key (ok expires) (err c) swept h = ground arith
  swept_both now key (err c) q swept h = ground arith

  list_entry-adds :
      (now : ℕ) (key val : Bytes) (others : Exec W (List Blocked)) (listed : List Blocked)
      (w w' : W)
      → list_entry m fw now key val others w ≡ (ok listed, w')
      → (rest : List Blocked) × (others w ≡ (ok rest, w')) × (length listed ≡ suc (length rest))
  unfolding list_entry ◌>>=◌ pure lift
  list_entry-adds now key val others listed w w' h = elim (Result-cases (unpack_cidr key)) [
    | inr (c, e) ↦ ground (arith, e)
    | inl (cidr, e) ↦ elim (Result-cases (unpack Layout.block_val val)) [
      | inr (c, u) ↦ ground (arith, e, u)
      | inl (vs, u) ↦ elim (Result-cases (show_block m fw now cidr vs)) [
        | inr (c, b) ↦ ground (arith, e, u, b)
        | inl (b, shown) ↦ elim (Result-cases (others w).0) [
          | inr (c, o) ↦ ground (arith, e, u, shown, o)
          | inl (rest, o) ↦ (rest, ground (arith, e, u, shown, o), ground (arith, e, u, shown, o))
        ]
      ]
    ]
  ]

  module _ (now : ℕ) (key val : Bytes) (entries : List (Bytes × Bytes)) where
    pub doomed_cons :
        (expires : ℕ) (rest : List Bytes)
        → expiry m fw val ≡ ok expires
        → doomed_blocks m fw now entries ≡ ok rest
        → doomed_blocks m fw now ((key, val) ∷ entries)
          ≡ ok (if is_expired m fw now expires then key ∷ rest else rest)
    unfolding doomed_blocks
    doomed_cons expires rest e d = rw (e, d) (ground arith)

    doomed_stuck :
        (swept : List Bytes)
        → doomed_blocks m fw now ((key, val) ∷ entries) ≡ ok swept
        → ((expires : ℕ) × (expiry m fw val ≡ ok expires))
          × ((rest : List Bytes) × (doomed_blocks m fw now entries ≡ ok rest))
    unfolding doomed_blocks
    doomed_stuck swept h =
        swept_both now key (expiry m fw val) (doomed_blocks m fw now entries) swept h

    show_skips :
        (expires : ℕ) (w : W)
        → expiry m fw val ≡ ok expires
        → is_expired m fw now expires ≡ true
        → show_blocks m fw now false ((key, val) ∷ entries) w ≡ show_blocks m fw now false entries w
    unfolding show_blocks ◌>>=◌
    show_skips expires w e late = rw (e, late) refl

    show_lists :
        (expires : ℕ) (listed : List Blocked) (w w' : W)
        → expiry m fw val ≡ ok expires
        → is_expired m fw now expires ≡ false
        → show_blocks m fw now false ((key, val) ∷ entries) w ≡ (ok listed, w')
        → (rest : List Blocked) × (show_blocks m fw now false entries w ≡ (ok rest, w'))
          × (length listed ≡ suc (length rest))
    unfolding show_blocks ◌>>=◌
    show_lists expires listed w w' e early h =
        list_entry-adds now key val (show_blocks m fw now false entries) listed w w'
          (rw (e, early) at h)

  -- For the same entries at the same time: if both the listing without the expired blocks and the
  -- sweep of the expired ones return, together they have as many entries as there are.
  pub listed-swept :
      (now : ℕ) (entries : List (Bytes × Bytes)) (swept : List Bytes) (listed : List Blocked)
      (w w' : W)
      → doomed_blocks m fw now entries ≡ ok swept
      → show_blocks m fw now false entries w ≡ (ok listed, w')
      → length listed + length swept ≡ length entries
  unfolding doomed_blocks show_blocks ◌>>=◌ pure
  listed-swept now [] swept listed w w' h k = ground arith
  listed-swept now ((key, val) ∷ entries) swept listed w w' h k =
      let ((expires, e), (rest, d)) = doomed_stuck now key val entries swept h in
      let both = sym h ∙ doomed_cons now key val entries expires rest e d in
      elim (Bool-cases (is_expired m fw now expires)) [
        | inl late ↦
            let skipped = sym (show_skips now key val entries expires w e late) ∙ k in
            ground (arith, listed-swept now entries rest listed w w' d skipped)
        | inr early ↦
            let (others, shown, longer) =
              show_lists now key val entries expires listed w w' e early k in
            ground (arith, listed-swept now entries rest others w w' d shown)
      ]
