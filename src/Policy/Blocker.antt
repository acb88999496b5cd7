-- ===== src/Policy/Blocker.antt =====
-- control/policy.py, class Blocker: verdicts become blocklist entries, with guard rails.
pub mod Record
pub mod Source
pub mod Windows
pub mod Trace
pub mod DryRun
pub mod Timing
pub mod Durations
use Prim.Native.String.{String}
use lookout.Common.{
  ℕ, ◌+◌, ◌-◌, ◌*◌, min, Bool, true, false, List, [], ◌∷◌, ◌++◌, Option, none, some, ltb, leb,
  if◌then◌else◌, get_elem?, drop, length, Eq,
}
use lookout.Common.Dict.{Dict, lookup, insert, erase, get_or}
use lookout.Common.Exec.{
  Exec, Result, ok, err, index_error, key_error, or_raise, pure, raise, lift, gets, modify, ◌>>=◌,
  ◌>>◌,
}
use lookout.Firewall.Constants.{block_auto}

abbrev pub strikes_to_block : ℕ
strikes_to_block = 2

-- seconds
abbrev pub durations : List ℕ
durations = 60 ∷ 300 ∷ 900 ∷ []

abbrev pub max_per_window : ℕ
max_per_window = 32

-- `time.time()` is read in nanoseconds, without the rounding of floats.
abbrev pub second : ℕ
second = 1_000_000_000

-- The texts that are logged, by their parts. The Boolean is `dry_run`, which picks the verb.
pub data Note (K : Type 0) : Type 0 where
  allowlisted : K → String → Note K
  blocked : Bool → K → ℕ → String → Note K
  -- from the controller: level, rate, burst
  tier : Bool → ℕ → ℕ → ℕ → Note K

pub record Blocker (K : Type 0) : Type 0 where
  pub dry_run : Bool
  pub strikes : Dict K ℕ
  pub offences : Dict K ℕ
  pub until : Dict K ℕ
  pub blocks_issued : ℕ
  pub log : List (String × Note K)

-- What the class calls: two methods of `Firewall`, and the clock of the module `time`.
pub record Env (W K : Type 0) : Type 0 where
  pub is_allowed : K → Exec W Bool
  pub block : K → ℕ → ℕ → Exec W (Unit {0})
  pub time : Exec W ℕ
  pub strftime : Exec W String

-- `update` at work: the object, its local `issued`, and the world outside.
pub record Pass (W K : Type 0) : Type 0 where
  pub obj : Blocker K
  pub issued : ℕ
  pub world : W

abbrev pub init : {K : Type 0} → Bool → Blocker K
init dry = record {
  dry_run = dry;
  strikes = [];
  offences = [];
  until = [];
  blocks_issued = 0;
  log = [];
}

-- deque(maxlen=12): an append to a full log drops the oldest entry.
unfoldable pub push_log : {A : Type 0} → List A → A → List A
push_log log x = let longer = log ++ x ∷ [] in drop (length longer - 12) longer

module _ {W K : Type 0} where
  abbrev pub call : {A : Type 0} → Exec W A → Exec (Pass W K) A
  call m s = let (r, w) = m s.world in (r, record s { world = w })

  abbrev pub set_obj : (Blocker K → Blocker K) → Exec (Pass W K) (Unit {0})
  set_obj f = modify (λ s. record s { obj = f s.obj })

module _ {K : Type 0} ⦃e : Eq K⦄ where
  -- A clean window takes one strike away.
  unfoldable pub decay : K → Blocker K → Blocker K
  decay ip b =
      let n = get_or ip 0 b.strikes in
      record b { strikes = if ltb 1 n then insert ip (n - 1) b.strikes else erase ip b.strikes }

  unfoldable pub strike : K → Blocker K → Blocker K
  strike ip b = record b { strikes = insert ip (get_or ip 0 b.strikes + 1) b.strikes }

module _ {W K : Type 0} ⦃e : Eq K⦄ where
  -- `self.strikes.pop(ip)`
  unfoldable pub pop_strikes : K → Exec (Pass W K) (Unit {0})
  pop_strikes ip = do
    n ← gets (λ s. lookup ip s.obj.strikes)
    found ← lift (or_raise n key_error)
    set_obj (λ b. record b { strikes = erase ip b.strikes })

  module _ (env : Env W K) where
    unfoldable pub note : Note K → Exec (Pass W K) (Unit {0})
    note msg = do
      stamp ← call env.strftime
      set_obj (λ b. record b { log = push_log b.log (stamp, msg) })

    -- True while a block that we issued, or would have in a dry run, lasts.
    unfoldable pub is_blocked : K → Exec (Pass W K) Bool
    is_blocked ip = do now ← call env.time; gets (λ s. ltb now (get_or ip 0 s.obj.until))

    -- The end of the loop's body, from `n = self.offences.get(ip, 0)` on.
    unfoldable pub issue : ℕ → K → String → Exec (Pass W K) (Unit {0})
    issue now ip reason = do
      n ← gets (λ s. get_or ip 0 s.obj.offences)
      duration ← lift (or_raise (get_elem? durations (min n (length durations - 1))) index_error)
      dry ← gets (λ s. s.obj.dry_run)
      if dry then pure tt else call (env.block ip duration block_auto)
      set_obj (λ b. record b {
        offences = insert ip (n + 1) b.offences;
        until = insert ip (now + duration * second) b.until;
      })
      pop_strikes ip
      modify (λ s. record s {
        obj = record s.obj { blocks_issued = s.obj.blocks_issued + 1 };
        issued = s.issued + 1;
      })
      note (Note.blocked dry ip duration reason)

    -- A source that has its strikes.
    unfoldable pub judge : ℕ → K → String → Exec (Pass W K) (Unit {0})
    judge now ip reason = do
      held ← is_blocked ip
      if held then pop_strikes ip else do
        allowed ← call (env.is_allowed ip)
        if allowed then (do note (Note.allowlisted ip reason); pop_strikes ip) else do
          full ← gets (λ s. leb max_per_window s.issued)
          if full then pure tt else issue now ip reason

    -- The loop's body for one entry of `verdicts`.
    unfoldable pub visit : ℕ → K × Option String → Exec (Pass W K) (Unit {0})
    visit now (ip, none) = set_obj (decay ip)
    visit now (ip, some reason) = do
      set_obj (strike ip)
      n ← gets (λ s. get_or ip 0 s.obj.strikes)
      if ltb n strikes_to_block then pure tt else judge now ip reason

    unfoldable pub visit_all : ℕ → Dict K (Option String) → Exec (Pass W K) (Unit {0})
    visit_all now [] = pure tt
    visit_all now (v ∷ verdicts) = do visit now v; visit_all now verdicts

    unfoldable pub run_pass : Dict K (Option String) → Exec (Pass W K) (Unit {0})
    run_pass verdicts = do now ← call env.time; visit_all now verdicts

    -- verdicts: a reason, or none, for each source of one window.
    unfoldable pub update : Dict K (Option String) → Exec (Blocker K × W) (Unit {0})
    update verdicts (b, w) =
        let (r, s) = run_pass verdicts (record { obj = b; issued = 0; world = w }) in
        (r, (s.obj, s.world))
