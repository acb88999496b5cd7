-- ===== src/Policy/Blocker/Timing.antt =====
-- control/policy.py, class Blocker: the durations of the blocks of a source, while the verdicts of
-- other sources are visited.
use Prim.Native.String.{String}
use lookout.Common.{
  ℕ, ◌+◌, ◌-◌, ◌≡◌, refl, false, List, [], ◌∷◌, Option, none, some, arith, Eq, ltb, ◌==◌,
  if◌then◌else◌, get_elem?, min, length,
}
use lookout.Common.Dict.{insert}
use lookout.Common.Exec.{ok, or_raise, index_error}
use lookout.Common.Exec.Keeps.{
  Keeps, keeps_bind as ◌>>=◌, keeps_then as ◌>>◌, keeps_pure, keeps_lift, keeps_gets, keeps_if,
  keeps_modify,
}
use lookout.Firewall.Constants.{block_auto}
use lookout.Policy.Blocker.{
  Env, Blocker, Note, Pass, visit, issue, note, pop_strikes, judge, is_blocked, call, set_obj,
  decay, strike, strikes_to_block, durations,
}
use lookout.Policy.Blocker.Trace.{Call, asked, placed, watched}

-- A first block is one minute long, a second five, every later one fifteen.
abbrev pub duration_for : ℕ → ℕ
duration_for p = if p == 0 then 60 else if p == 1 then 300 else 900

pub duration-eq :
    (n d : ℕ)
    → or_raise (get_elem? durations (min n (length durations - 1))) index_error ≡ ok d
    → d ≡ duration_for n
duration-eq n d h = ground arith

-- Every block of `ip` among the calls is an automatic one of `d` seconds.
abbrev pub Timed : {K : Type 0} → K → ℕ → List (Call K) → Type 0
Timed ip d [] = Unit
Timed ip d (asked j r ∷ calls) = Timed ip d calls
Timed ip d (placed j k why ∷ calls) = (j ≡ ip → (k ≡ d) × (why ≡ block_auto)) × Timed ip d calls

module _ {W K : Type 0} ⦃e : Eq K⦄ (env : Env W K) (ip : K) (d : ℕ) where
  abbrev pub S : Type 0
  S = Pass (W × List (Call K)) K

  -- A fact about the offences that only those of `ip` bear on.
  pub record IsLocal (C : Blocker K → Type 0) : Type 0 where
    pub same : (b b' : Blocker K) → b'.offences ≡ b.offences → C b → C b'
    pub other :
        (b b' : Blocker K) (j : K) (n : ℕ)
        → e.beq j ip ≡ false
        → b'.offences ≡ insert j n b.offences
        → C b
        → C b'

  module _ (C : Blocker K → Type 0) (l : IsLocal C) where
    abbrev pub I : S → Type 0
    I s = Timed ip d s.world.1 × C s.obj

    pub set_obj-Keeps :
        (f : Blocker K → Blocker K)
        → ((b : Blocker K) → (f b).offences ≡ b.offences)
        → Keeps I (set_obj f)
    set_obj-Keeps f h = keeps_modify _ (λ s k. (k.0, l.same s.obj (f s.obj) (h s.obj) k.1))

    pub strftime-Keeps : Keeps I (call (watched env).strftime)
    unfolding watched
    strftime-Keeps = record { at = λ s k. k }

    pub time-Keeps : Keeps I (call (watched env).time)
    unfolding watched
    time-Keeps = record { at = λ s k. k }

    pub allowed-Keeps : (j : K) → Keeps I (call ((watched env).is_allowed j))
    unfolding watched
    allowed-Keeps j = record { at = λ s k. k }

    pub block-Keeps :
        (j : K) (k : ℕ) → e.beq j ip ≡ false → Keeps I (call ((watched env).block j k block_auto))
    unfolding watched
    block-Keeps j k ne = record {
      at = λ s h. ((λ eq. ground (arith, (e.beq_iff j ip).1 eq), h.0), h.1);
    }

    pub note-Keeps : (msg : Note K) → Keeps I (note (watched env) msg)
    unfolding note
    note-Keeps msg = do stamp ← strftime-Keeps; set_obj-Keeps _ (λ b. refl)

    pub pop_strikes-Keeps : (j : K) → Keeps I (pop_strikes j)
    unfolding pop_strikes
    pop_strikes-Keeps j = do n ← keeps_gets _; found ← keeps_lift _; set_obj-Keeps _ (λ b. refl)

    pub is_blocked-Keeps : (j : K) → Keeps I (is_blocked (watched env) j)
    unfolding is_blocked
    is_blocked-Keeps j = do now ← time-Keeps; keeps_gets _

    pub issue-Keeps :
        (now : ℕ) (j : K) (reason : String)
        → e.beq j ip ≡ false
        → Keeps I (issue (watched env) now j reason)
    unfolding issue
    issue-Keeps now j reason ne = do
      n ← keeps_gets _
      k ← keeps_lift _
      dry ← keeps_gets _
      keeps_if dry (keeps_pure tt) (block-Keeps j k ne)
      keeps_modify _ (λ s h. (h.0, l.other s.obj _ j (n + 1) ne refl h.1))
      pop_strikes-Keeps j
      keeps_modify _ (λ s h. (h.0, l.same s.obj _ refl h.1))
      note-Keeps _

    -- All but the issue of a block.
    pub judge-Keeps :
        (now : ℕ) (j : K) (reason : String)
        → Keeps I (issue (watched env) now j reason)
        → Keeps I (judge (watched env) now j reason)
    unfolding judge
    judge-Keeps now j reason issued = do
      held ← is_blocked-Keeps j
      keeps_if held (pop_strikes-Keeps j) (do
        allowed ← allowed-Keeps j
        keeps_if allowed (do note-Keeps (Note.allowlisted j reason); pop_strikes-Keeps j)
            (do full ← keeps_gets _; keeps_if full (keeps_pure tt) issued))

    pub visit-Keeps :
        (now : ℕ) (v : K × Option String)
        → e.beq v.0 ip ≡ false
        → Keeps I (visit (watched env) now v)
    unfolding visit decay strike
    visit-Keeps now (j, none) ne = set_obj-Keeps _ (λ b. refl)
    visit-Keeps now (j, some reason) ne = do
      set_obj-Keeps _ (λ b. refl)
      n ← keeps_gets _
      keeps_if (ltb n strikes_to_block) (keeps_pure tt)
          (judge-Keeps now j reason (issue-Keeps now j reason ne))

  pub any : IsLocal (λ _. Unit {0})
  any = record { same = λ b b' e k. tt; other = λ b b' j n ne e k. tt }

  -- The blocks so far are right.
  abbrev pub T : S → Type 0
  T = I (λ _. Unit {0}) any

  pub own_block : (k : ℕ) → k ≡ d → Keeps T (call ((watched env).block ip k block_auto))
  unfolding watched
  own_block k eq = record { at = λ s h. ((λ _. (eq, refl), h.0), tt) }
