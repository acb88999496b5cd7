-- ===== src/Firewall/Blocklist/Tables.antt =====
-- control/firewall.py, `remove_expired_blocks`: the entries of a table that are deleted.
use mathlib.Core.Path.{fun_ext, subst}
use lookout.Common.{
  ℕ, ◌≡◌, refl, sym, ap, ◌∙◌, Bool, true, false, ◌&&◌, ◌||◌, List, [], ◌∷◌, Option, none, some,
  arith, map, All, length, if◌then◌else◌, Bool-cases, inl, inr,
}
use lookout.Common.Dict.{Dict, lookup, insert, erase, lookup-insert, lookup-erase}
use lookout.Common.Exec.{ok}
use lookout.Firewall.Layout.{Bytes}
use lookout.Firewall.Address.{Network}
use lookout.Firewall.Address.RoundTrip.{IsNetwork}
use lookout.Firewall.Machine.{Machine}
use lookout.Firewall.Maps.{Firewall, expiry, is_expired, doomed_blocks}
use lookout.Firewall.Maps.Deadlines.{swept_both, doomed_cons}
use lookout.Firewall.Trie.{network_eq, key_of}
use lookout.Firewall.Blocklist.{IsTable, entry_of, is_past, keep, deadlines, due, deadline_in}

pub insert-IsTable :
    (n : Network) (v : Bytes) (d : Dict Network Bytes)
    → IsNetwork n
    → length v ≡ 24
    → IsTable d
    → IsTable (insert n v d)
unfolding insert lookup
insert-IsTable n v [] h l t = (h, l, refl, tt)
insert-IsTable n v ((k, u) ∷ d) h l (valid, long, fresh, t) =
    elim (Bool-cases (network_eq.beq k n)) [
      | inl e ↦ rw e (valid, l, fresh, t)
      | inr e ↦ rw e (
        valid,
        long,
        ground (
          arith,
          lookup-insert n k v d,
          e,
          fresh,
          network_eq.beq_iff k n,
          network_eq.beq_iff n k,
        ),
        insert-IsTable n v d h l t,
      )
    ]

pub erase-IsTable : (n : Network) (d : Dict Network Bytes) → IsTable d → IsTable (erase n d)
unfolding erase
erase-IsTable n [] t = tt
erase-IsTable n ((k, u) ∷ d) (valid, long, fresh, t) = elim (Bool-cases (network_eq.beq k n)) [
  | inl e ↦ rw e (erase-IsTable n d t)
  | inr e ↦ rw e (valid, long, ground (arith, lookup-erase n k d, fresh), erase-IsTable n d t)
]

-- The table without some networks.
abbrev pub erase_all : List Network → Dict Network Bytes → Dict Network Bytes
erase_all [] d = d
erase_all (n ∷ ns) d = erase_all ns (erase n d)

abbrev pub among : Network → List Network → Bool
among k [] = false
among k (n ∷ ns) = network_eq.beq n k || among k ns

lookup-erase_all :
    (k : Network) (ns : List Network) (d : Dict Network Bytes)
    → lookup k (erase_all ns d) ≡ (if among k ns then none else lookup k d)
lookup-erase_all k [] d = refl
lookup-erase_all k (n ∷ ns) d =
    ground (arith, lookup-erase_all k ns (erase n d), lookup-erase n k d)

missing :
    (k n : Network) (v : Bytes) (d : Dict Network Bytes)
    → lookup k ((n, v) ∷ d) ≡ none
    → (network_eq.beq n k ≡ false) × (lookup k d ≡ none)
unfolding lookup
missing k n v d h = elim (Bool-cases (network_eq.beq n k)) [
  | inl e ↦ let no : some v ≡ none = sym (rw e refl) ∙ h in ground (arith, no)
  | inr e ↦ (e, rw e at h)
]

and_not : (b : Bool) → (b && false || false) ≡ false
and_not b = ground arith

and_yes : (b : Bool) → (b && true || false) ≡ b
and_yes b = ground arith

and_no : (b c : Bool) → (b && false || c) ≡ c
and_no b c = ground arith

among-if :
    (b : Bool) (k n : Network) (ns : List Network)
    → among k (if b then n ∷ ns else ns) ≡ (b && network_eq.beq n k || among k ns)
among-if true k n ns = refl
among-if false k n ns = refl

ok-eq : {A : Type 0} {a b : A} → ok a ≡ ok b → a ≡ b
ok-eq h = ground (arith, h)

module _ {W : Type 0} (m : Machine W) (fw : Firewall) (now : ℕ) where
  -- The networks of a table whose deadline has passed.
  abbrev pub past : Option ℕ → Bool
  past none = false
  past (some t) = is_past now t

  abbrev pub doomed_of : Dict Network Bytes → List Network
  doomed_of [] = []
  doomed_of ((n, v) ∷ d) = if past (deadline_in m fw v) then n ∷ doomed_of d else doomed_of d

  pub doomed_of-valid : (d : Dict Network Bytes) → IsTable d → All IsNetwork (doomed_of d)
  doomed_of-valid [] t = tt
  doomed_of-valid ((n, v) ∷ d) (valid, long, fresh, t) =
      elim (Bool-cases (past (deadline_in m fw v))) [
        | inl e ↦ rw e (valid, doomed_of-valid d t)
        | inr e ↦ rw e (doomed_of-valid d t)
      ]

  -- A network is doomed just if its entry is.
  among-absent :
      (k : Network) (d : Dict Network Bytes) → lookup k d ≡ none → among k (doomed_of d) ≡ false
  unfolding lookup
  among-absent k [] h = refl
  among-absent k ((n, v) ∷ d) h =
      let parts = missing k n v d h in
      rw (among-if (past (deadline_in m fw v)) k n (doomed_of d), parts.0, among-absent k d parts.1)
        (and_not (past (deadline_in m fw v)))

  among-doomed_of :
      (k : Network) (d : Dict Network Bytes)
      → IsTable d
      → among k (doomed_of d) ≡ past (deadlines m fw d k)
  unfolding lookup
  among-doomed_of k [] t = refl
  among-doomed_of k ((n, v) ∷ d) (valid, long, fresh, t) = elim (Bool-cases (network_eq.beq n k)) [
    | inl e ↦
        let gone : lookup k d ≡ none =
          subst (λ x. lookup x d ≡ none) ((network_eq.beq_iff n k).0 e) fresh in
        rw (e, among-if (past (deadline_in m fw v)) k n (doomed_of d), e, among-absent k d gone)
          (and_yes (past (deadline_in m fw v)))
    | inr e ↦
        rw (among-if (past (deadline_in m fw v)) k n (doomed_of d), e, among-doomed_of k d t)
          (and_no (past (deadline_in m fw v)) _)
  ]

  kept_some :
      (t : Option ℕ) (v : Bytes)
      → deadline_in m fw v ≡ t
      → due m fw (if past (due m fw (some v)) then none else some v) ≡ keep now (due m fw (some v))
  kept_some none v h = rw h h
  kept_some (some t) v h = elim (Bool-cases (is_past now t)) [
    | inl e ↦ rw (h, e) refl
    | inr e ↦ rw (h, e) h
  ]

  kept :
      (o : Option Bytes) → due m fw (if past (due m fw o) then none else o) ≡ keep now (due m fw o)
  kept none = refl
  kept (some v) = kept_some (deadline_in m fw v) v refl

  pub deadlines-erase_all :
      (d : Dict Network Bytes)
      → IsTable d
      → deadlines m fw (erase_all (doomed_of d) d) ≡ (λ k. keep now (deadlines m fw d k))
  deadlines-erase_all d t =
      fun_ext
        λ k. rw (lookup-erase_all k (doomed_of d) d, among-doomed_of k d t) (kept (lookup k d))

  pub doomed_blocks-doomed_of :
      (d : Dict Network Bytes) (keys : List Bytes)
      → doomed_blocks m fw now (map entry_of d) ≡ ok keys
      → keys ≡ map key_of (doomed_of d)
  unfolding doomed_blocks
  doomed_blocks-doomed_of [] keys h = ground (arith, h)
  doomed_blocks-doomed_of ((n, v) ∷ d) keys h =
      let ((t, e), (rest, f)) =
        swept_both m fw now (key_of n) (expiry m fw v) (doomed_blocks m fw now (map entry_of d))
          keys h in
      let same = doomed_blocks-doomed_of d rest f in
      let all : ok (if is_expired m fw now t then key_of n ∷ rest else rest) ≡ ok keys =
        sym (doomed_cons m fw now (key_of n) v (map entry_of d) t rest e f) ∙ h in
      elim (Bool-cases (is_past now t)) [
        | inl late ↦ rw (e, late) (sym (ok-eq (rw late at all)) ∙ ap (λ l. key_of n ∷ l) same)
        | inr early ↦ rw (e, early) (sym (ok-eq (rw early at all)) ∙ same)
      ]
