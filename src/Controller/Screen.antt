-- ===== src/Controller/Screen.antt =====
-- control/controller.py, class Controller: what `draw` shows, without its layout, and `run`.
use Prim.Native.String.{String}
use lookout.Common.{
  ℕ, suc, zero, ◌+◌, ◌-◌, Bool, false, List, [], ◌∷◌, Option, none, some, if◌then◌else◌, length,
  take, drop,
}
use lookout.Common.Int.{ℤ}
use lookout.Common.Dict
use lookout.Common.Dict.{Dict}
use lookout.Common.Ratio.{ltb_ratio}
use lookout.Common.Exec.{Exec, key_error, or_raise, pure, lift, gets, ◌>>=◌, ◌>>◌}
use lookout.Common.Text.{Text, text_eq}
use lookout.Detect.State.{Row}
use lookout.Policy.Blocker
use lookout.Policy.Blocker.{Blocker, Note}
use lookout.Firewall.Machine.{Machine}
use lookout.Firewall.Names
use lookout.Firewall.Maps
use lookout.Firewall.Maps.{Firewall, Blocked, is_allowed, list_blocked}
use lookout.Firewall.Rules.{read_config}
use lookout.Fwctl.{first}
use lookout.Fwctl.Lists.{sort, heavier, action_name}
use lookout.Controller.{Args, Station, outside, on_blocker, services, step}

-- The last column of a source.
pub data Status : Type 0 where
  allowlisted : Status
  blocked : Status
  would_be_blocked : Status
  -- the reason and the strikes
  flagged : String → ℕ → Status
  fine : Status

pub record Screen : Type 0 where
  pub policy : Text
  pub sources : List (Text × Row × Status)
  pub blocks : List Blocked
  pub actions : List (String × Note Text)

abbrev pub Measured : Type 0
Measured = Text × Row

-- `sorted(rows.items(), key=lambda kv: -kv[1]["pps"])`
unfoldable pub by_pps : List Measured → List Measured
unfolding sort
by_pps rows = sort (λ x y. ltb_ratio (y.1.pps) (x.1.pps)) rows

-- `verdicts.get(ip)`
abbrev pub reason_of : Text → Dict Text (Option String) → Option String
reason_of ip verdicts = elim (Dict.lookup ip verdicts) [ none ↦ none | some reason ↦ reason ]

module _ {W : Type 0} (m : Machine W) (inet_aton : Text → List ℕ) (fw : Firewall) where
  abbrev pub blocker_holds : Text → Exec (Blocker Text × W) Bool
  blocker_holds ip s =
      let (r, t) =
        Blocker.is_blocked (services m inet_aton fw) ip
          (record { obj = s.0; issued = 0; world = s.1 }) in
      (r, (t.obj, t.world))

  unfoldable pub flagged_or_fine : Text → Option String → Exec (Station W) Status
  flagged_or_fine ip none = pure fine
  flagged_or_fine ip (some reason) = do
    n ← gets (λ s. Dict.get_or ip 0 s.obj.blocker.strikes)
    pure (flagged reason n)

  unfoldable pub status : Text → Option String → Exec (Station W) Status
  unfolding flagged_or_fine
  status ip reason = do
    allowed ← outside (is_allowed m fw ip)
    if allowed then pure allowlisted else do
      held ← outside (Maps.is_blocked m fw ip)
      if held then pure blocked else do
        would ← on_blocker (blocker_holds ip)
        if would then pure would_be_blocked else flagged_or_fine ip reason

  unfoldable pub statuses :
      Dict Text (Option String) → List Measured → Exec (Station W) (List (Text × Row × Status))
  statuses verdicts [] = pure []
  statuses verdicts ((ip, row) ∷ rows) = do
    s ← status ip (reason_of ip verdicts)
    rest ← statuses verdicts rows
    pure ((ip, row, s) ∷ rest)

  -- `top` is the end of the slice of sources to show.
  unfoldable pub draw : ℤ → Dict Text Row → Dict Text (Option String) → Exec (Station W) Screen
  unfolding by_pps
  draw top rows verdicts = do
    cfg ← outside (read_config m fw)
    entries ← outside (list_blocked m fw false)
    policy ← lift (or_raise (Dict.lookup Names.default_policy cfg) key_error)
    name ← lift (action_name policy)
    shown ← statuses verdicts (first top (by_pps rows))
    log ← gets (λ s. s.obj.blocker.log)
    pure (record {
      policy = name;
      sources = shown;
      blocks = take 8 (sort (heavier (λ b. b.hits)) entries);
      actions = drop (length log - 6) log;
    })

  -- The loop of `run`, for the rounds before a signal stops it: the screens that it has drawn. The
  -- rest of the interval is slept away.
  unfoldable pub run : (ℕ → Exec W (Unit {0})) → Args → ℕ → ℤ → ℕ → Exec (Station W) (List Screen)
  run sleep args interval top zero = pure []
  run sleep args interval top (suc rounds) = do
    start ← outside m.time
    seen ← step m inet_aton fw args
    screen ← draw top seen.0 seen.1
    now ← outside m.time
    outside (sleep (interval + start - now))
    rest ← run sleep args interval top rounds
    pure (screen ∷ rest)
