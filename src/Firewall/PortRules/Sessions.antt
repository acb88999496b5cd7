-- ===== src/Firewall/PortRules/Sessions.antt =====
-- control/firewall.py, class Firewall: any run of `set_port_rule` and `del_port_rule`.
use lookout.Common.{ℕ, suc, ◌*◌, ◌≡◌, refl, ◌≤◌, Bool, List, [], ◌∷◌, take}
use lookout.Common.Dict.{Dict}
use lookout.Common.Exec.{Exec, Result, ok, err, pure, resume, ◌>>=◌}
use lookout.Common.Exec.Runs.{Ends}
use lookout.Firewall.Layout.{Bytes}
use lookout.Firewall.Machine.{Machine}
use lookout.Firewall.Maps.{Firewall}
use lookout.Firewall.PortRules.{Port, IsHash}
use lookout.Firewall.PortRules.Steps.{
  Command, Rules, IsFor, answer, next_rules, Holds, execute, execute-Steps, Steps,
}

-- A command and the port that it names.
pub record Request : Type 0 where
  pub command : Command
  pub named : Port
  pub names : IsFor command named

-- What the specification answers, and the rules that it ends with.
abbrev pub answers : List Request → Rules → List Bool
answers [] s = []
answers (q ∷ qs) s = answer q.command q.named s ∷ answers qs (next_rules q.command q.named s)

abbrev pub rules_after : List Request → Rules → Rules
rules_after [] s = s
rules_after (q ∷ qs) s = rules_after qs (next_rules q.command q.named s)

module _ {W : Type 0} (m : Machine W) (fw : Firewall) where
  -- The methods, one after the other, up to the first exception.
  unfoldable pub session : List Request → Exec W (List Bool)
  session [] = pure []
  session (q ∷ qs) = do a ← execute m fw q.command; rest ← session qs; pure (a ∷ rest)

  module _ (view : W → Dict Port Bytes) (hash : IsHash m.kernel fw.portrules.fd view)
      (cpus : 1 ≤ fw.portrules.ncpu)
      (sized : fw.portrules.value_size ≡ fw.portrules.ncpu * 16) where
    abbrev pub Follows : List Request → Rules → Result (List Bool) × W → Type 0
    Follows qs s =
        Ends (λ r w'. (r ≡ answers qs s) × Holds fw.portrules.ncpu (view w') (rules_after qs s))
          (λ w'. (k : ℕ) × Holds fw.portrules.ncpu (view w') (rules_after (take k qs) s))

    later :
        (q : Request) (qs : List Request) (s : Rules) (a : Bool) (r : Result (List Bool) × W)
        → a ≡ answer q.command q.named s
        → Follows qs (next_rules q.command q.named s) r
        → Follows (q ∷ qs) s (resume (λ rest. pure (a ∷ rest)) r)
    unfolding pure
    later q qs s a (ok rest, w) e (f, h) = (λ i. e i ∷ f i, h)
    later q qs s a (err c, w) e (k, h) = (suc k, h)

    first :
        (q : Request) (qs : List Request) (s : Rules) (r : Result Bool × W)
        → Steps m fw view hash cpus sized q.command q.named s r
        → ((w' : W)
            → Holds fw.portrules.ncpu (view w') (next_rules q.command q.named s)
            → Follows qs (next_rules q.command q.named s) (session qs w'))
        → Follows (q ∷ qs) s (resume (λ a. session qs >>= λ rest. pure (a ∷ rest)) r)
    unfolding ◌>>=◌
    first q qs s (ok a, w') (f, h) ih = later q qs s a (session qs w') f (ih w' h)
    first q qs s (err c, w') h ih = (0, h)

    -- Over a kernel that keeps the port rules in a hash map with a copy for each CPU: a run of
    -- commands on ports that have a key answers as the specification does on the table of rules, and
    -- ends with an entry for just the ports of the table that it gives, each read as its action; a
    -- run that raises ends with the table after some first part of the commands.
    pub rules-Follows :
        (qs : List Request) (s : Rules) (w : W)
        → Holds fw.portrules.ncpu (view w) s
        → Follows qs s (session qs w)
    unfolding session ◌>>=◌
    rules-Follows [] s w h = (refl, h)
    rules-Follows (q ∷ qs) s w h =
        first q qs s (execute m fw q.command w)
          (execute-Steps m fw view hash cpus sized q.command q.named s w q.names h)
          (λ w' k. rules-Follows qs (next_rules q.command q.named s) w' k)
