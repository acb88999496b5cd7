-- ===== src/Firewall/PortRules/Steps.antt =====
-- control/firewall.py, class Firewall: one call of `set_port_rule` or `del_port_rule`, as an
-- operation on a table of rules.
use lookout.Common.{
  ℕ, ◌*◌, ◌≡◌, ◌⊎◌, inl, inr, refl, sym, ap, ◌≤◌, ◌<◌, ◌^◌, Bool, true, false, Bool-cases, [], ◌∷◌,
  Option, none, some, ◌==◌, arith, length, if◌then◌else◌,
}
use lookout.Common.Int.{ℤ}
use lookout.Common.Text.{Text}
use lookout.Common.Dict.{Dict, lookup, insert, erase, lookup-insert, lookup-erase}
use lookout.Common.Exec.{Exec, Result, pure, raise, lift, ◌>>=◌, ◌>>◌}
use lookout.Common.Exec.Runs.{Ends}
use lookout.Bpf.Map
use lookout.Bpf.Kernel.{Reply, done, fail, enoent}
use lookout.Firewall.Layout
use lookout.Firewall.Layout.{Bytes, num, pack, unpack}
use lookout.Firewall.Layout.RoundTrip.{unpack-pack}
use lookout.Firewall.Machine.{Machine}
use lookout.Firewall.Maps.{Firewall}
use lookout.Firewall.Rules.{set_port_rule, del_port_rule, repeat}
use lookout.Firewall.PortRules.{
  Port, port_eq, key_of, Names, Names-IsPort, port_key-key_of, IsHash, Shows, length-repeat,
  repeat-Shows,
}

-- An operation on the port rules, with the protocol and the port that it is given.
pub data Command : Type 0 where
  set : Text → ℤ → ℕ → Command
  del : Text → ℤ → Command

-- The specification: the action of each port that has a rule.
abbrev pub Rules : Type 0
Rules = Port → Option ℕ

abbrev pub IsFor : Command → Port → Type 0
IsFor (set proto port action) p = Names proto port p × (action < 256 ^ 4)
IsFor (del proto port) p = Names proto port p

abbrev pub is_some : Option ℕ → Bool
is_some none = false
is_some (some _) = true

-- The answer, and the rules after it.
abbrev pub answer : Command → Port → Rules → Bool
answer (set _ _ _) p s = true
answer (del _ _) p s = is_some (s p)

abbrev pub next_rules : Command → Port → Rules → Rules
next_rules (set _ _ action) p s q = if port_eq.beq p q then some action else s q
next_rules (del _ _) p s q = if port_eq.beq p q then none else s q

-- An entry shows the action of the rule, on a machine with `n` CPUs.
abbrev pub Entry : ℕ → Option Bytes → Option ℕ → Type 0
Entry n none none = Unit {0}
Entry n none (some a) = ⊥
Entry n (some v) none = ⊥
Entry n (some v) (some a) = Shows n v a

abbrev pub Holds : ℕ → Dict Port Bytes → Rules → Type 0
Holds n d s = (p : Port) → Entry n (lookup p d) (s p)

module _ (n : ℕ) (d : Dict Port Bytes) (s : Rules) (p : Port) (h : Holds n d s) where
  insert-Holds :
      (proto : Text) (port : ℤ) (action : ℕ) (v : Bytes)
      → Shows n v action
      → Holds n (insert p v d) (next_rules (set proto port action) p s)
  insert-Holds proto port action v shows q = elim (Bool-cases (port_eq.beq p q)) [
    | inl e ↦ rw (lookup-insert p q v d, e) shows
    | inr e ↦ rw (lookup-insert p q v d, e) (h q)
  ]

  erase-Holds : (proto : Text) (port : ℤ) → Holds n (erase p d) (next_rules (del proto port) p s)
  erase-Holds proto port q = elim (Bool-cases (port_eq.beq p q)) [
    | inl e ↦ rw (lookup-erase p q d, e) tt
    | inr e ↦ rw (lookup-erase p q d, e) (h q)
  ]

module _ {W : Type 0} (m : Machine W) (fw : Firewall) where
  -- The methods.
  unfoldable pub execute : Command → Exec W Bool
  execute (set proto port action) = do set_port_rule m fw proto port action; pure true
  execute (del proto port) = del_port_rule m fw proto port

  module _ (view : W → Dict Port Bytes) (hash : IsHash m.kernel fw.portrules.fd view)
      (cpus : 1 ≤ fw.portrules.ncpu)
      (sized : fw.portrules.value_size ≡ fw.portrules.ncpu * 16) where
    abbrev pub Steps : Command → Port → Rules → Result Bool × W → Type 0
    Steps c p s =
        Ends (λ r w'. (r ≡ answer c p s) × Holds fw.portrules.ncpu (view w') (next_rules c p s))
          (λ w'. Holds fw.portrules.ncpu (view w') s)

    -- After the kernel's reply.
    placed :
        (proto : Text) (port : ℤ) (action : ℕ) (p : Port) (s : Rules) (w w' : W) (v : Bytes)
        (r : Reply (Unit {0}))
        → Holds fw.portrules.ncpu (view w) s
        → Shows fw.portrules.ncpu v action
        → ((r ≡ done tt) × (view w' ≡ insert p v (view w)))
          ⊎ ((errno : ℕ) × (r ≡ fail errno) × (view w' ≡ view w))
        → Steps (set proto port action) p s ((Map.or_error m.kernel r >>= (λ _. pure true)) w')
    unfolding Map.or_error ◌>>=◌ pure raise
    placed proto port action p s w w' v (done u) h shows (inl (e, f)) =
        (refl, rw f (insert-Holds fw.portrules.ncpu (view w) s p h proto port action v shows))
    placed proto port action p s w w' v (done u) h shows (inr (errno, e, f)) =
        let no : ⊥ = ground (arith, e) in elim no [ ]
    placed proto port action p s w w' v (fail c) h shows (inl (e, f)) =
        let no : ⊥ = ground (arith, e) in elim no [ ]
    placed proto port action p s w w' v (fail c) h shows (inr (errno, e, f)) = rw f h

    set-Steps :
        (proto : Text) (port : ℤ) (action : ℕ) (p : Port) (s : Rules) (w : W)
        → IsFor (set proto port action) p
        → Holds fw.portrules.ncpu (view w) s
        → Steps (set proto port action) p s (execute (set proto port action) w)
    unfolding execute set_port_rule Map.update ◌>>=◌ lift
    set-Steps proto port action p s w (named, small) h =
        let (val, made, size, back) =
          unpack-pack Layout.port_val (num 0 ∷ num action ∷ num 0 ∷ [])
            (omega arith, (small, (omega arith, tt))) in
        let n = fw.portrules.ncpu in
        let fits : (length (repeat n val) == fw.portrules.value_size) ≡ true =
          ground (arith, sized, length-repeat n val size) in
        let (r, w') =
          m.kernel.update_elem fw.portrules.fd (key_of p) (repeat n val) Map.bpf_any w in
        rw (port_key-key_of proto port p named, made, fits)
          (placed proto port action p s w w' (repeat n val) r h
            (repeat-Shows n action val cpus size back)
            (hash.updates p (repeat n val) w (Names-IsPort proto port p named)))

    removed :
        (proto : Text) (port : ℤ) (p : Port) (s : Rules) (w w' : W) (r : Reply (Unit {0}))
        (old : Option Bytes) (rule : Option ℕ)
        → Holds fw.portrules.ncpu (view w) s
        → s p ≡ rule
        → Entry fw.portrules.ncpu old rule
        → r ≡ (elim old [ some _ ↦ done tt | none ↦ fail enoent ])
        → view w' ≡ erase p (view w)
        → Steps (del proto port) p s (Map.deleted m.kernel fw.portrules r w')
    unfolding Map.deleted pure raise
    removed proto port p s w w' r (some x) (some a) h e shows f left =
        rw f (sym (ap is_some e), rw left (erase-Holds fw.portrules.ncpu (view w) s p h proto port))
    removed proto port p s w w' r none none h e shows f left =
        rw f (sym (ap is_some e), rw left (erase-Holds fw.portrules.ncpu (view w) s p h proto port))
    removed proto port p s w w' r (some x) none h e shows f left = elim shows [ ]
    removed proto port p s w w' r none (some a) h e shows f left = elim shows [ ]

    del-Steps :
        (proto : Text) (port : ℤ) (p : Port) (s : Rules) (w : W)
        → Names proto port p
        → Holds fw.portrules.ncpu (view w) s
        → Steps (del proto port) p s (execute (del proto port) w)
    unfolding execute del_port_rule Map.delete ◌>>=◌ lift
    del-Steps proto port p s w named h =
        let (replied, left) = hash.deletes p w (Names-IsPort proto port p named) in
        let (r, w') = m.kernel.delete_elem fw.portrules.fd (key_of p) w in
        rw (port_key-key_of proto port p named)
          (removed proto port p s w w' r (lookup p (view w)) (s p) h refl (h p) replied left)

    pub execute-Steps :
        (c : Command) (p : Port) (s : Rules) (w : W)
        → IsFor c p
        → Holds fw.portrules.ncpu (view w) s
        → Steps c p s (execute c w)
    execute-Steps (set proto port action) p s w named h = set-Steps proto port action p s w named h
    execute-Steps (del proto port) p s w named h = del-Steps proto port p s w named h
