-- ===== src/Firewall/PortRules.antt =====
-- The map `portrules` as control/firewall.py uses it, a per-CPU hash map of the kernel by its documented
-- behaviour, and `set_port_rule` and `del_port_rule` as operations on a table of rules.
pub mod Steps
pub mod Sessions
use lookout.Common.{
  ℕ, zero, suc, ◌*◌, ◌≡◌, ◌↔◌, ◌⊎◌, inl, inr, refl, sym, ap, ◌∙◌, ◌≤◌, ◌<◌, ◌^◌, Bool, true, false,
  Bool-cases, Option-cases, ◌&&◌, ◌++◌, List, [], ◌∷◌, Option, none, some, ◌==◌, arith, Eq, leb,
  ltb, length, length-append, take, drop, if◌then◌else◌,
}
use lookout.Common.Int.{ℤ, pos}
use lookout.Common.Text.{Text}
use lookout.Common.Dict.{Dict, lookup, insert, erase, lookup-insert, lookup-erase}
use lookout.Common.Exec
use lookout.Common.Exec.{Exec, Result, ok, err, pure, raise, lift}
use lookout.Common.Exec.Runs.{Ends}
use lookout.Bpf.Map
use lookout.Bpf.Kernel.{Kernel, Reply, done, fail, enoent}
use lookout.Firewall.Layout
use lookout.Firewall.Layout.{Bytes, num, pack, unpack, le_bytes, zero_bytes, ◌>>=◌}
use lookout.Firewall.Layout.RoundTrip.{unpack-pack, take-append, drop-append}
use lookout.Firewall.Keys.{port_key, parse_proto, port_in_range, port_limit}
use lookout.Firewall.Keys.Ports.{parse_proto-le, port_limit-le}
use lookout.Firewall.Machine.{Machine}
use lookout.Firewall.Maps.{Firewall}
use lookout.Firewall.Rules.{set_port_rule, del_port_rule, repeat, copies_of, first_action}

-- What a rule is for.
pub record Port : Type 0 where
  pub proto : ℕ
  pub port : ℕ

abbrev pub port_beq : Port → Port → Bool
port_beq a b = a.proto == b.proto && a.port == b.port

pub port_beq_iff : (a b : Port) → (port_beq a b ≡ true) ↔ (a ≡ b)
port_beq_iff a b = ground arith

instance abbrev pub port_eq : Eq Port
port_eq = record { beq = port_beq; beq_iff = port_beq_iff }

abbrev pub key_of : Port → Bytes
key_of p = le_bytes 1 p.proto ++ zero_bytes 1 ++ le_bytes 2 p.port

-- The text and the number that name a port.
abbrev pub Names : Text → ℤ → Port → Type 0
Names proto port p =
    (parse_proto proto ≡ ok p.proto) × (port ≡ pos p.port) × (p.port ≤ port_limit p.proto)

-- The numbers fit the key.
abbrev pub IsPort : Port → Type 0
IsPort p = (p.proto < 256) × (p.port < 65536)

pub Names-IsPort : (proto : Text) (port : ℤ) (p : Port) → Names proto port p → IsPort p
Names-IsPort proto port p (h, e, le) =
    (omega (arith, parse_proto-le proto p.proto h), omega (arith, le, port_limit-le p.proto))

pub port_key-key_of :
    (proto : Text) (port : ℤ) (p : Port) → Names proto port p → port_key proto port ≡ ok (key_of p)
unfolding port_key port_in_range pack
port_key-key_of proto port p (h, e, le) =
    let bound = parse_proto-le proto p.proto h in
    let small = port_limit-le p.proto in
    let fits : leb p.port (port_limit p.proto) ≡ true = ground (arith, le) in
    let one : ltb p.proto (256 ^ 1) ≡ true = ground (arith, bound) in
    let two : ltb p.port (256 ^ 2) ≡ true = ground (arith, le, small) in
    rw (h, e, fits, two, one) refl

-- What the kernel does with the hash map behind a descriptor; an update may fail, as when it is full.
pub record IsHash {W : Type 0} (k : Kernel W) (fd : ℕ) (view : W → Dict Port Bytes) : Type 0 where
  pub updates :
      (p : Port) (val : Bytes) (w : W)
      → IsPort p
      → (((k.update_elem fd (key_of p) val Map.bpf_any w).0 ≡ done tt)
          × (view (k.update_elem fd (key_of p) val Map.bpf_any w).1 ≡ insert p val (view w)))
        ⊎ ((errno : ℕ) × ((k.update_elem fd (key_of p) val Map.bpf_any w).0 ≡ fail errno)
            × (view (k.update_elem fd (key_of p) val Map.bpf_any w).1 ≡ view w))
  pub deletes :
      (p : Port) (w : W)
      → IsPort p
      → ((k.delete_elem fd (key_of p) w).0
          ≡ (elim (lookup p (view w)) [ some _ ↦ done tt | none ↦ fail enoent ]))
        × (view (k.delete_elem fd (key_of p) w).1 ≡ erase p (view w))

-- A value with a copy of the rule for each of `n` CPUs, which list_port_rules reads as the action,
-- whatever the hits are.
abbrev pub Shows : ℕ → Bytes → ℕ → Type 0
Shows n val action =
    (copies : List (ℕ × ℕ)) × (copies_of n val ≡ ok copies) × (first_action copies ≡ ok action)

pub length-repeat : (n : ℕ) (val : Bytes) → length val ≡ 16 → length (repeat n val) ≡ n * 16
length-repeat zero val h = refl
length-repeat (suc n) val h =
    length-append val (repeat n val) ∙ omega (arith, h, length-repeat n val h)

abbrev same : ℕ → ℕ → List (ℕ × ℕ)
same zero action = []
same (suc n) action = (0, action) ∷ same n action

copies_of-repeat :
    (n action : ℕ) (val : Bytes)
    → length val ≡ 16
    → unpack Layout.port_val val ≡ ok (num 0 ∷ num action ∷ num 0 ∷ [])
    → copies_of n (repeat n val) ≡ ok (same n action)
unfolding copies_of
copies_of-repeat zero action val h back = refl
copies_of-repeat (suc n) action val h back =
    rw
      (
        copies_of,
        take-append 16 val (repeat n val) h,
        back,
        drop-append 16 val (repeat n val) h,
        copies_of-repeat n action val h back,
      )
      refl

pub repeat-Shows :
    (n action : ℕ) (val : Bytes)
    → 1 ≤ n
    → length val ≡ 16
    → unpack Layout.port_val val ≡ ok (num 0 ∷ num action ∷ num 0 ∷ [])
    → Shows n (repeat n val) action
unfolding first_action
repeat-Shows zero action val h size back = ground (arith, h)
repeat-Shows (suc n) action val h size back =
    (same (suc n) action, copies_of-repeat (suc n) action val size back, refl)
