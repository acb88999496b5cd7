-- ===== src/Policy/Blocker/DryRun.antt =====
-- control/policy.py, class Blocker: an update in a dry run.
use Prim.Native.String.{String}
use mathlib.Core.Path.{subst, sym}
use lookout.Common.{
  ℕ, ◌≡◌, refl, Bool, true, [], ◌∷◌, Option, none, some, arith, Eq, ltb, get_elem?, min, length,
  ◌-◌,
}
use lookout.Common.Dict.{Dict, lookup}
use lookout.Common.Exec.{Exec, or_raise, index_error, key_error}
use lookout.Common.Exec
use lookout.Common.Exec.Keeps.{
  Keeps, keeps_bind as ◌>>=◌, keeps_then as ◌>>◌, keeps_pure, keeps_lift, keeps_gets, keeps_if,
  keeps_modify,
}
use lookout.Policy.Blocker.{
  Env, Blocker, Note, Pass, visit, visit_all, update, issue, note, pop_strikes, judge, is_blocked,
  call, set_obj, run_pass, decay, strike, strikes_to_block, durations,
}

-- What the dry run calls keeps `I`. Nothing is said about `block`.
pub record Asks {W K : Type 0} (env : Env W K) (I : W → Type 0) : Type 0 where
  pub is_allowed : (ip : K) → Keeps I (env.is_allowed ip)
  pub time : Keeps I env.time
  pub strftime : Keeps I env.strftime

module _ {W K : Type 0} ⦃e : Eq K⦄ (env : Env W K) (I : W → Type 0) (asks : Asks env I) where
  abbrev S : Type 0
  S = Pass W K

  abbrev IsDry : S → Type 0
  IsDry s = (s.obj.dry_run ≡ true) × I s.world

  call-Keeps : {A : Type 0} (m : Exec W A) → Keeps I m → Keeps IsDry (call m)
  call-Keeps m h = record { at = λ s k. (k.0, h.at s.world k.1) }

  set_obj-Keeps :
      (f : Blocker K → Blocker K)
      → ((b : Blocker K) → (f b).dry_run ≡ b.dry_run)
      → Keeps IsDry (set_obj f)
  set_obj-Keeps f h = keeps_modify _ (λ s k. (ground (arith, h s.obj), k.1))

  note-Keeps : (msg : Note K) → Keeps IsDry (note env msg)
  unfolding note
  note-Keeps msg = do stamp ← call-Keeps env.strftime asks.strftime; set_obj-Keeps _ (λ b. refl)

  pop_strikes-Keeps : (ip : K) → Keeps IsDry (pop_strikes ip)
  unfolding pop_strikes
  pop_strikes-Keeps ip = do
    n ← keeps_gets (λ s. lookup ip s.obj.strikes)
    found ← keeps_lift (or_raise n key_error)
    set_obj-Keeps _ (λ b. refl)

  is_blocked-Keeps : (ip : K) → Keeps IsDry (is_blocked env ip)
  unfolding is_blocked
  is_blocked-Keeps ip = do now ← call-Keeps env.time asks.time; keeps_gets _

  -- `dry_run` is read as true.
  reads_true :
      {B : Type 0} (f : Bool → Exec S B)
      → Keeps IsDry (f true)
      → Keeps IsDry (Exec.◌>>=◌ (Exec.gets (λ s. s.obj.dry_run)) f)
  unfolding Exec.◌>>=◌
  reads_true f h = record { at = λ s k. subst (λ b. IsDry (f b s).1) (sym k.0) (h.at s k) }

  issue-Keeps : (now : ℕ) (ip : K) (reason : String) → Keeps IsDry (issue env now ip reason)
  unfolding issue
  issue-Keeps now ip reason = do
    n ← keeps_gets _
    d ← keeps_lift (or_raise (get_elem? durations (min n (length durations - 1))) index_error)
    reads_true _ (do
      keeps_pure tt
      set_obj-Keeps _ (λ b. refl)
      pop_strikes-Keeps ip
      keeps_modify _ (λ s k. k)
      note-Keeps (Note.blocked true ip d reason))

  judge-Keeps : (now : ℕ) (ip : K) (reason : String) → Keeps IsDry (judge env now ip reason)
  unfolding judge
  judge-Keeps now ip reason = do
    held ← is_blocked-Keeps ip
    keeps_if held (pop_strikes-Keeps ip) (do
      allowed ← call-Keeps (env.is_allowed ip) (asks.is_allowed ip)
      keeps_if allowed (do note-Keeps (Note.allowlisted ip reason); pop_strikes-Keeps ip)
          (do full ← keeps_gets _; keeps_if full (keeps_pure tt) (issue-Keeps now ip reason)))

  visit-Keeps : (now : ℕ) (v : K × Option String) → Keeps IsDry (visit env now v)
  unfolding visit decay strike
  visit-Keeps now (ip, none) = set_obj-Keeps _ (λ b. refl)
  visit-Keeps now (ip, some reason) = do
    set_obj-Keeps _ (λ b. refl)
    n ← keeps_gets _
    keeps_if (ltb n strikes_to_block) (keeps_pure tt) (judge-Keeps now ip reason)

  visit_all-Keeps : (now : ℕ) (vs : Dict K (Option String)) → Keeps IsDry (visit_all env now vs)
  unfolding visit_all
  visit_all-Keeps now [] = keeps_pure tt
  visit_all-Keeps now (v ∷ vs) = do visit-Keeps now v; visit_all-Keeps now vs

  run_pass-Keeps : (vs : Dict K (Option String)) → Keeps IsDry (run_pass env vs)
  unfolding run_pass
  run_pass-Keeps vs = do now ← call-Keeps env.time asks.time; visit_all-Keeps now vs

  abbrev pub IsDryPair : Blocker K × W → Type 0
  IsDryPair s = (s.0.dry_run ≡ true) × I s.1

  pub update-Keeps : (vs : Dict K (Option String)) → Keeps IsDryPair (update env vs)
  unfolding update
  update-Keeps vs = record {
    at = λ s k. (run_pass-Keeps vs).at (record { obj = s.0; issued = 0; world = s.1 }) k;
  }

  -- `note` alone, for the controller.
  pub note_pair-Keeps :
      (msg : Note K) (s : Blocker K × W)
      → IsDryPair s
      → let t = (note env msg (record { obj = s.0; issued = 0; world = s.1 })).1 in
        IsDryPair (t.obj, t.world)
  note_pair-Keeps msg s k = (note-Keeps msg).at (record { obj = s.0; issued = 0; world = s.1 }) k

  pub is_blocked_pair-Keeps :
      (ip : K) (s : Blocker K × W)
      → IsDryPair s
      → let t = (is_blocked env ip (record { obj = s.0; issued = 0; world = s.1 })).1 in
        IsDryPair (t.obj, t.world)
  is_blocked_pair-Keeps ip s k =
      (is_blocked-Keeps ip).at (record { obj = s.0; issued = 0; world = s.1 }) k
