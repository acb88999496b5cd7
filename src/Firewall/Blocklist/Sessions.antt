-- ===== src/Firewall/Blocklist/Sessions.antt =====
-- control/firewall.py, class Firewall: any run of `block`, `unblock`, `is_blocked` and
-- `remove_expired_blocks`.
use lookout.Common.{ℕ, zero, suc, ◌≤◌, ◌≡◌, refl, Bool, true, false, List, [], ◌∷◌, take, arith}
use lookout.Common.Dict.{Dict}
use lookout.Common.Exec.{Exec, Result, ok, err, pure, resume, ◌>>=◌}
use lookout.Common.Exec.Runs.{Ends}
use lookout.Firewall.Layout.{Bytes}
use lookout.Firewall.Address.{Network}
use lookout.Firewall.Machine.{Machine}
use lookout.Firewall.Maps.{Firewall}
use lookout.Firewall.Trie.{IsTrie}
use lookout.Firewall.Blocklist.{
  Command, add, remove, ask, sweep, Blocks, answer, next_blocks, may_raise, execute, IsTable,
  IsTimed, deadlines,
}
use lookout.Firewall.Blocklist.Steps.{Names, Steps, remove-Steps, ask-Steps}
use lookout.Firewall.Blocklist.Adds.{add-Steps}
use lookout.Firewall.Blocklist.Sweeps.{sweep-Steps}

-- A command and the network that its text means.
pub record Request : Type 0 where
  pub command : Command
  pub network : Network
  pub read : Names command network

-- The request after the first `k` may raise.
abbrev pub fails_at : ℕ → List Request → Bool
fails_at k [] = false
fails_at zero (q ∷ qs) = may_raise q.command
fails_at (suc k) (q ∷ qs) = fails_at k qs

-- What the specification answers to requests from one time to another, each at a time between that
-- of the request before it and that of the one after, and the list that it ends with.
pub data Story : ℕ → ℕ → List Request → Blocks → List Bool → Blocks → Type 0 where
  over : {from until : ℕ} {s s' : Blocks} → from ≤ until → s' ≡ s → Story from until [] s [] s'
  then :
      {from now until : ℕ} {q : Request} {qs : List Request} {s next s' : Blocks} {a : Bool}
      {rest : List Bool}
      → from ≤ now
      → a ≡ answer q.command q.network now s
      → next ≡ next_blocks q.command q.network now s
      → Story now until qs next rest s'
      → Story from until (q ∷ qs) s (a ∷ rest) s'

earlier :
    {from since until : ℕ} {qs : List Request} {s s' : Blocks} {answers : List Bool}
    → from ≤ since
    → Story since until qs s answers s'
    → Story from until qs s answers s'
earlier h (over k e) = over (omega (arith, h, k)) e
earlier h (then k e f rest) = then (omega (arith, h, k)) e f rest

module _ {W : Type 0} (m : Machine W) (fw : Firewall) where
  -- The methods, one after the other, up to the first exception.
  unfoldable pub session : List Request → Exec W (List Bool)
  session [] = pure []
  session (q ∷ qs) = do a ← execute m fw q.command; rest ← session qs; pure (a ∷ rest)

module _ {W : Type 0} (m : Machine W) (fw : Firewall) (view : W → Dict Network Bytes)
    (clock : W → ℕ) (trie : IsTrie m.kernel fw.blocklist.fd view)
    (timed : IsTimed m fw.blocklist.fd view clock) (sized : fw.blocklist.value_size ≡ 24) where
  execute-Steps :
      (c : Command) (n : Network) (w : W)
      → Names c n
      → IsTable (view w)
      → Steps m fw view clock trie timed sized c n w (execute m fw c w)
  execute-Steps (add cidr duration reason) n w h t =
      add-Steps m fw view clock trie timed sized cidr duration reason n w h t
  execute-Steps (remove cidr) n w h t = remove-Steps m fw view clock trie timed sized cidr n w h t
  execute-Steps (ask ip) n w h t = ask-Steps m fw view clock trie timed sized ip n w h t
  execute-Steps sweep n w h t = sweep-Steps m fw view clock trie timed sized n w t

  -- A run that returns has the answers of a story; one that raises has run some first part of the
  -- requests.
  abbrev pub Follows : List Request → ℕ → Blocks → Result (List Bool) × W → Type 0
  Follows qs from s =
      Ends
        (λ answers w'.
          IsTable (view w') × Story from (clock w') qs s answers (deadlines m fw (view w')))
        (λ w'.
          (k : ℕ) × (answers : List Bool) × ((fails_at k qs ≡ true)
            × IsTable (view w')
            × Story from (clock w') (take k qs) s answers (deadlines m fw (view w'))))

  since :
      (qs : List Request) (from now : ℕ) (s : Blocks) (r : Result (List Bool) × W)
      → from ≤ now
      → Follows qs now s r
      → Follows qs from s r
  since qs from now s (ok answers, w) h (t, story) = (t, earlier h story)
  since qs from now s (err c, w) h (k, answers, (stuck, t, story)) =
      (k, answers, (stuck, t, earlier h story))

  module _ (q : Request) (qs : List Request) (from now : ℕ) (s next : Blocks) (a : Bool)
      (after : from ≤ now) (e : a ≡ answer q.command q.network now s)
      (f : next ≡ next_blocks q.command q.network now s) where
    later :
        (r : Result (List Bool) × W)
        → Follows qs now next r
        → Follows (q ∷ qs) from s (resume (λ rest. pure (a ∷ rest)) r)
    unfolding pure
    later (ok rest, w) (t, story) = (t, then after e f story)
    later (err c, w) (k, answers, (stuck, t, story)) =
        (suc k, a ∷ answers, (stuck, t, then after e f story))

  first :
      (q : Request) (qs : List Request) (w : W) (r : Result Bool × W)
      → Steps m fw view clock trie timed sized q.command q.network w r
      → ((w' : W)
          → IsTable (view w')
          → Follows qs (clock w') (deadlines m fw (view w')) (session m fw qs w'))
      → Follows
          (q ∷ qs)
          (clock w)
          (deadlines m fw (view w))
          (resume (λ a. session m fw qs >>= λ rest. pure (a ∷ rest)) r)
  unfolding ◌>>=◌
  first q qs w (ok a, w') (now, (before, after, t, e, f)) ih =
      later q qs (clock w) now (deadlines m fw (view w)) (deadlines m fw (view w')) a before e f
        (session m fw qs w')
        (since qs now (clock w') (deadlines m fw (view w')) (session m fw qs w') after (ih w' t))
  first q qs w (err c, w') (stuck, after, t, e) ih = (0, [], (stuck, t, over after e))

  -- Over a kernel that keeps the blocklist in an LPM trie, and with a clock that does not run
  -- backwards: a run of commands whose texts are networks answers as the specification does on the
  -- deadlines of the networks, each command at a time between that of the one before it and that of
  -- the one after, and ends with the deadlines that the specification gives; a run that raises has
  -- done so for some first part of the commands, and the command after that part is a `block`.
  pub session-Follows :
      (qs : List Request) (w : W)
      → IsTable (view w)
      → Follows qs (clock w) (deadlines m fw (view w)) (session m fw qs w)
  unfolding session ◌>>=◌
  session-Follows [] w t = (t, over (omega arith) refl)
  session-Follows (q ∷ qs) w t =
      first q qs w (execute m fw q.command w) (execute-Steps q.command q.network w q.read t)
        (λ w' h. session-Follows qs w' h)
