-- ===== src/Firewall/Allowlist/Sessions.antt =====
-- control/firewall.py, class Firewall: any run of `allow`, `unallow` and `is_allowed`.
use lookout.Common.{ℕ, suc, ◌≡◌, refl, ap, ◌∙◌, Bool, List, [], ◌∷◌, take}
use lookout.Common.Dict.{Dict}
use lookout.Common.Exec.{Exec, Result, ok, err, pure, resume, ◌>>=◌}
use lookout.Common.Exec.Runs.{Ends}
use lookout.Firewall.Layout.{Bytes}
use lookout.Firewall.Address.{Network, parse_cidr}
use lookout.Firewall.Machine.{Machine}
use lookout.Firewall.Maps.{Firewall}
use lookout.Firewall.Trie.{IsTrie}
use lookout.Firewall.Allowlist.{
  Command, text_of, Networks, answer, next_set, members, execute, execute-Steps, Steps,
}

-- A command and the network that its text means.
pub record Request : Type 0 where
  pub command : Command
  pub network : Network
  pub read : parse_cidr (text_of command) ≡ ok network

-- What the specification answers, and the set that it ends with.
abbrev pub answers : List Request → Networks → List Bool
answers [] s = []
answers (q ∷ qs) s = answer q.command q.network s ∷ answers qs (next_set q.command q.network s)

abbrev pub set_after : List Request → Networks → Networks
set_after [] s = s
set_after (q ∷ qs) s = set_after qs (next_set q.command q.network s)

module _ {W : Type 0} (m : Machine W) (fw : Firewall) where
  -- The methods, one after the other, up to the first exception.
  unfoldable pub session : List Request → Exec W (List Bool)
  session [] = pure []
  session (q ∷ qs) = do a ← execute m fw q.command; rest ← session qs; pure (a ∷ rest)

  module _ (view : W → Dict Network Bytes) (trie : IsTrie m.kernel fw.allowlist.fd view)
      (sized : fw.allowlist.value_size ≡ 16) where
    abbrev pub Follows : List Request → Networks → Result (List Bool) × W → Type 0
    Follows qs s =
        Ends (λ r w'. (r ≡ answers qs s) × (members (view w') ≡ set_after qs s))
          (λ w'. (k : ℕ) × (members (view w') ≡ set_after (take k qs) s))

    later :
        (q : Request) (qs : List Request) (s : Networks) (a : Bool) (r : Result (List Bool) × W)
        → a ≡ answer q.command q.network s
        → Follows qs (next_set q.command q.network s) r
        → Follows (q ∷ qs) s (resume (λ rest. pure (a ∷ rest)) r)
    unfolding pure
    later q qs s a (ok rest, w) e (f, h) = (cc, h)
    later q qs s a (err c, w) e (k, h) = (suc k, h)

    first :
        (q : Request) (qs : List Request) (s : Networks) (w : W) (r : Result Bool × W)
        → members (view w) ≡ s
        → Steps m fw view trie sized q.command q.network w r
        → ((w' : W)
            → members (view w') ≡ next_set q.command q.network s
            → Follows qs (next_set q.command q.network s) (session qs w'))
        → Follows (q ∷ qs) s (resume (λ a. session qs >>= λ rest. pure (a ∷ rest)) r)
    unfolding ◌>>=◌
    first q qs s w (ok a, w') e (f, h) ih =
        later q qs s a (session qs w') (f ∙ ap (answer q.command q.network) e)
          (ih w' (h ∙ ap (next_set q.command q.network) e))
    first q qs s w (err c, w') e h ih = (0, h ∙ e)

    -- Over a kernel that keeps the allowlist in an LPM trie: a run of commands whose texts are networks
    -- answers as the specification does on the set of allowed networks, and ends with the set that it
    -- gives; a run that raises ends with the set after some first part of the commands.
    pub session-refines :
        (qs : List Request) (s : Networks) (w : W)
        → members (view w) ≡ s
        → Follows qs s (session qs w)
    unfolding session ◌>>=◌
    session-refines [] s w e = (refl, e)
    session-refines (q ∷ qs) s w e =
        first q qs s w (execute m fw q.command w) e
          (execute-Steps m fw view trie sized q.command q.network w q.read)
          (λ w' h. session-refines qs (next_set q.command q.network s) w' h)
