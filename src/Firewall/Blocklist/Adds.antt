-- ===== src/Firewall/Blocklist/Adds.antt =====
-- control/firewall.py, class Firewall: `block`, against its specification.
use mathlib.Core.Path.{subst}
use lookout.Common.{
  ℕ, ◌≤◌, ◌≡◌, ◌⊎◌, inl, inr, refl, sym, ap, ◌∙◌, true, [], ◌∷◌, ◌==◌, arith, Bool-cases, length,
}
use lookout.Common.Ratio.{Ratio}
use lookout.Common.Int.{pos, ltb_ℤ}
use lookout.Common.Text.{Text}
use lookout.Common.Dict.{Dict, insert}
use lookout.Common.Exec
use lookout.Common.Exec.{
  Exec, Result, ok, err, pure, raise, lift, ◌>>=◌, ◌>>◌, Result-cases, Error, struct_error,
}
use lookout.Bpf.Map
use lookout.Bpf.Kernel.{Reply, done, fail}
use lookout.Firewall.Layout
use lookout.Firewall.Layout.{Bytes, num, bytes, pack, unpack, unpack_fields, of_le}
use lookout.Firewall.Address.{Network, parse_cidr}
use lookout.Firewall.Address.RoundTrip.{IsNetwork}
use lookout.Firewall.Address.Ranges.{parse_cidr-IsNetwork}
use lookout.Firewall.Machine.{Machine}
use lookout.Firewall.Maps.{Firewall, block, expiry, deadline}
use lookout.Firewall.Trie.{network_eq, key_of, lpm_key-key_of, IsTrie}
use lookout.Firewall.Blocklist.{add, ends_at, execute, deadlines, IsTable, IsTimed}
use lookout.Firewall.Blocklist.Steps.{Steps}
use lookout.Firewall.Blocklist.Values.{packed_block, deadlines-insert}
use lookout.Firewall.Blocklist.Tables.{insert-IsTable}

module _ {W : Type 0} (m : Machine W) (fw : Firewall) (view : W → Dict Network Bytes)
    (clock : W → ℕ) (trie : IsTrie m.kernel fw.blocklist.fd view)
    (timed : IsTimed m fw.blocklist.fd view clock) (sized : fw.blocklist.value_size ≡ 24) where
  entered :
      (cidr : Text) (duration : Ratio) (reason : ℕ) (n : Network) (now : ℕ) (w w1 w2 : W)
      (val : Bytes) (r : Reply (Unit {0}))
      → IsNetwork n
      → IsTable (view w)
      → clock w ≤ now
      → now ≤ clock w1
      → clock w1 ≤ clock w2
      → view w1 ≡ view w
      → length val ≡ 24
      → expiry m fw val ≡ ok (ends_at now duration)
      → ((r ≡ done tt) × (view w2 ≡ insert n val (view w1)))
        ⊎ ((errno : ℕ) × (r ≡ fail errno) × (view w2 ≡ view w1))
      → Steps m fw view clock trie timed sized
          (add cidr duration reason)
          n
          w
          (Exec.◌>>=◌ (Map.or_error m.kernel r) (λ _. pure true) w2)
  unfolding Map.or_error ◌>>=◌ pure raise
  entered cidr duration reason n now w w1 w2 val r v t before after later same size read
        (inl (e, h)) =
      let put = h ∙ ap (insert n val) same in
      rw e (
        now,
        (
          before,
          omega (arith, after, later),
          subst IsTable (sym put) (insert-IsTable n val (view w) v size t),
          refl,
          ap (deadlines m fw) put
              ∙ deadlines-insert m fw n val (ends_at now duration) (view w) read,
        ),
      )
  entered cidr duration reason n now w w1 w2 val r v t before after later same size read
        (inr (errno, e, h)) =
      rw e (
        refl,
        omega (arith, before, after, later),
        subst IsTable (sym (h ∙ same)) t,
        ap (deadlines m fw) (h ∙ same),
      )

  -- After the clock.
  timed_add :
      (cidr : Text) (duration : Ratio) (reason : ℕ) (n : Network) (now expires : ℕ) (w w1 : W)
      → IsNetwork n
      → IsTable (view w)
      → expires ≡ ends_at now duration
      → clock w ≤ now
      → now ≤ clock w1
      → view w1 ≡ view w
      → Steps m fw view clock trie timed sized (add cidr duration reason) n w (
          Exec.◌>>=◌
            (Exec.◌>>=◌
              (lift (pack Layout.block_val (num expires ∷ num 0 ∷ num reason ∷ num 0 ∷ [])))
              (λ val. Map.update m.kernel fw.blocklist (key_of n) val))
            (λ _. pure true)
            w1)
  unfolding Map.update ◌>>=◌ lift
  timed_add cidr duration reason n now expires w w1 v t until before after same =
      elim (packed_block m fw expires reason) [
        | inr (c, e) ↦ rw e (
          refl,
          omega (arith, before, after),
          subst IsTable (sym same) t,
          ap (deadlines m fw) same,
        )
        | inl (val, (made, size, read)) ↦
            let fits : (length val == fw.blocklist.value_size) ≡ true =
              ground (arith, sized, size) in
            let (r, w2) = m.kernel.update_elem fw.blocklist.fd (key_of n) val Map.bpf_any w1 in
            rw (made, fits)
              (entered cidr duration reason n now w w1 w2 val r v t before after
                (timed.update_later (key_of n) val Map.bpf_any w1) same size (read ∙ ap ok until)
                (trie.updates n val w1 v))
      ]

  abbrev Deadline : Ratio → W → Result ℕ × W → Type 0
  Deadline duration w r =
      (now : ℕ) × ((r.0 ≡ ok (ends_at now duration))
        × (clock w ≤ now)
        × (now ≤ clock r.1)
        × (view r.1 ≡ view w))

  told_deadline : (duration : Ratio) (w : W) → Deadline duration w (deadline m fw duration w)
  unfolding deadline ◌>>=◌ pure
  told_deadline duration w =
      let (now, (told, before, after, kept)) = timed.reads w in
      elim (Bool-cases (ltb_ℤ (pos 0) duration.num)) [
        | inl e ↦ rw (e, told) (now, (refl, before, after, kept))
        | inr e ↦ rw e (clock w, (refl, omega arith, omega arith, refl))
      ]

  pub add-Steps :
      (cidr : Text) (duration : Ratio) (reason : ℕ) (n : Network) (w : W)
      → parse_cidr cidr ≡ ok n
      → IsTable (view w)
      → Steps m fw view clock trie timed sized
          (add cidr duration reason)
          n
          w
          (execute m fw (add cidr duration reason) w)
  unfolding execute block ◌>>=◌ lift
  add-Steps cidr duration reason n w h t =
      let v = parse_cidr-IsNetwork cidr n h in
      let (now, (told, before, after, kept)) = told_deadline duration w in
      let key = lpm_key-key_of cidr n h v in
      rw (told, key)
        (timed_add cidr duration reason n now (ends_at now duration) w (deadline m fw duration w).1
          v t refl before after kept)
