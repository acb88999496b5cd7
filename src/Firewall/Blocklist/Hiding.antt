-- ===== src/Firewall/Blocklist/Hiding.antt =====
-- control/firewall.py, class Firewall: what `remove_expired_blocks` changes for `is_blocked`.
use lookout.Common.{
  ℕ, zero, suc, ◌≤◌, ◌<◌, ◌≡◌, refl, ap, ◌∙◌, Bool, true, false, List, [], ◌∷◌, Option, none, some,
  arith, not,
}
use lookout.Common.Dict.{Dict}
use lookout.Common.Text.{Text}
use lookout.Common.Exec.{Result, ok, err}
use lookout.Firewall.Layout.{Bytes}
use lookout.Firewall.Address.{Network, network, parse_cidr}
use lookout.Firewall.Machine.{Machine}
use lookout.Firewall.Maps.{Firewall}
use lookout.Firewall.Trie.{IsTrie}
use lookout.Firewall.Blocklist.{
  ask, sweep, Blocks, longest_block, or_else, is_past, in_force, keep, IsTable, IsTimed, deadlines,
}
use lookout.Firewall.Blocklist.Sessions.{
  Request, Story, over, then, Follows, session, session-Follows,
}

kept_later :
    (from now : ℕ) (o : Option ℕ) (rest rest' : Option ℕ)
    → from ≤ now
    → or_else (keep from o) rest ≡ some 0
    → (rest ≡ some 0 → rest' ≡ some 0)
    → or_else (keep now o) rest' ≡ some 0
kept_later from now none rest rest' h e f = f e
kept_later from now (some zero) rest rest' h e f = refl
kept_later from now (some (suc t)) rest rest' h e f = ground (arith, h, e, f)

-- A block for good that stands behind blocks that have ended stays behind ended ones.
lasting :
    (p a from now : ℕ) (s : Blocks)
    → from ≤ now
    → longest_block p a (λ k. keep from (s k)) ≡ some 0
    → longest_block p a (λ k. keep now (s k)) ≡ some 0
lasting zero a from now s h e = ground (arith, kept_later from now (s (network a 0)) none none h, e)
lasting (suc p) a from now s h e =
    kept_later from now (s (network a (suc p))) (longest_block p a (λ k. keep from (s k)))
      (longest_block p a (λ k. keep now (s k))) h e (lasting p a from now s h)

overdue : (t now : ℕ) → 0 < t → t ≤ now → not (is_past now t) ≡ false
overdue t now h k = ground (arith, h, k)

-- An address is asked about, the blocks that have ended are removed, and it is asked about again.
abbrev pub three : (ip : Text) (n : Network) → parse_cidr ip ≡ ok n → List Request
three ip n h =
    record { command = ask ip; network = n; read = h }
    ∷ record { command = sweep; network = n; read = tt }
    ∷ record { command = ask ip; network = n; read = h }
    ∷ []

module _ {W : Type 0} (m : Machine W) (fw : Firewall) (view : W → Dict Network Bytes)
    (clock : W → ℕ) (trie : IsTrie m.kernel fw.blocklist.fd view)
    (timed : IsTimed m fw.blocklist.fd view clock) (sized : fw.blocklist.value_size ≡ 24) where
  told :
      (ip : Text) (n : Network) (h : parse_cidr ip ≡ ok n) (from until t : ℕ) (s s' : Blocks)
      (answers : List Bool)
      → longest_block n.prefixlen n.address s ≡ some t
      → 0 < t
      → t ≤ from
      → longest_block n.prefixlen n.address (λ k. keep from (s k)) ≡ some 0
      → Story from until (three ip n h) s answers s'
      → answers ≡ false ∷ true ∷ true ∷ []
  told ip n h from until t s s' answers found started ended behind
        (then {now} b e f (then {now = swept} c g i (then {now = last} d j k (over l o)))) =
      let was = e ∙ ap (in_force now) found ∙ overdue t now started (omega (arith, ended, b)) in
      let cleared = i ∙ ap (λ x. λ q. keep swept (x q)) f in
      let stays = lasting n.prefixlen n.address from swept s (omega (arith, b, c)) behind in
      let is =
        j
        ∙ ap (λ x. in_force last (longest_block n.prefixlen n.address x)) cleared
        ∙ ap (in_force last) stays in
      rw (was, g, is) refl

  answered :
      (ip : Text) (n : Network) (h : parse_cidr ip ≡ ok n) (w : W) (t : ℕ)
      (r : Result (List Bool) × W)
      → longest_block n.prefixlen n.address (deadlines m fw (view w)) ≡ some t
      → 0 < t
      → t ≤ clock w
      → longest_block n.prefixlen n.address (λ k. keep (clock w) (deadlines m fw (view w) k))
        ≡ some 0
      → Follows m fw view clock trie timed sized
          (three ip n h)
          (clock w)
          (deadlines m fw (view w))
          r
      → r.0 ≡ ok (false ∷ true ∷ true ∷ [])
  answered ip n h w t (ok answers, w') found started ended behind (table, story) = ap ok (
      told ip n h (clock w) (clock w') t (deadlines m fw (view w)) (deadlines m fw (view w'))
        answers found started ended behind story)
  answered ip n h w t (err c, w') found started ended behind
        (zero, answers, (stuck, table, story)) =
      ground (arith, stuck)
  answered ip n h w t (err c, w') found started ended behind
        (suc zero, answers, (stuck, table, story)) =
      ground (arith, stuck)
  answered ip n h w t (err c, w') found started ended behind
        (suc (suc zero), answers, (stuck, table, story)) =
      ground (arith, stuck)
  answered ip n h w t (err c, w') found started ended behind
        (suc (suc (suc k)), answers, (stuck, table, story)) =
      ground (arith, stuck)

  -- Over a kernel that keeps the blocklist in an LPM trie, and with a clock that does not run
  -- backwards: if the longest entry for an address has a deadline that has passed, and the longest
  -- of the entries that have not ended is there for good, then `is_blocked` says that the address is
  -- not blocked, and says that it is after `remove_expired_blocks` has run.
  pub session-hidden_block :
      (ip : Text) (n : Network) (h : parse_cidr ip ≡ ok n) (w : W) (t : ℕ)
      → IsTable (view w)
      → longest_block n.prefixlen n.address (deadlines m fw (view w)) ≡ some t
      → 0 < t
      → t ≤ clock w
      → longest_block n.prefixlen n.address (λ k. keep (clock w) (deadlines m fw (view w) k))
        ≡ some 0
      → (session m fw (three ip n h) w).0 ≡ ok (false ∷ true ∷ true ∷ [])
  session-hidden_block ip n h w t table found started ended behind =
      answered ip n h w t (session m fw (three ip n h) w) found started ended behind
        (session-Follows m fw view clock trie timed sized (three ip n h) w table)
