-- ===== src/Bench/Clients/Rate.antt =====
-- bench/clients.py, `udp`: how many datagrams it sends, and when.
use lookout.Common.{
  ℕ, zero, suc, ◌+◌, ◌-◌, ◌*◌, ◌/◌, ◌≤◌, ◌<◌, ◌≡◌, refl, sym, ◌∙◌, List, [], ◌∷◌, ◌++◌, max, arith,
  ltb, length, All, length-append, if◌then◌else◌,
}
use mathlib.Core.Path.{subst}
use mathlib.Core.List.{append_assoc, append-nil}
use lookout.Common.Exec.{no_fuel}
use lookout.Common.Exec.Runs.{
  Ends, Runs, runs_bind, runs_then, runs_then as ◌>>◌, runs_pure, runs_if, runs_weaken, runs_raise,
  runs_exists, runs_given,
}
use lookout.Bench.Clients.{Env, second, send_each, udp_from, udp}

-- The documented behaviour of `time` and of a UDP socket: the clock does not go back, a sleep lasts
-- at least as long as it is asked to, and a datagram is sent once, while `sendto` runs. `sent` holds
-- the times of the datagrams.
pub record IsSender {W : Type 0} (env : Env W) (time : W → ℕ) (sent : W → List ℕ) : Type 0 where
  pub monotonic :
      (t : ℕ) (ts : List ℕ)
      → Runs
          (λ w. (t ≤ time w) × (sent w ≡ ts))
          env.monotonic
          (λ now w. (t ≤ now) × (now ≤ time w) × (sent w ≡ ts))
          (λ _. ⊥)
  pub sleep :
      (d t : ℕ) (ts : List ℕ)
      → Runs
          (λ w. (t ≤ time w) × (sent w ≡ ts))
          (env.sleep d)
          (λ _ w. (t + d ≤ time w) × (sent w ≡ ts))
          (λ _. ⊥)
  pub sendto :
      (t : ℕ) (ts : List ℕ)
      → Runs
          (λ w. (t ≤ time w) × (sent w ≡ ts))
          env.sendto
          (λ _ w. (at : ℕ) × ((t ≤ at) × (at ≤ time w) × (sent w ≡ ts ++ at ∷ [])))
          (λ _. ⊥)

-- A round of the loop: what the clock showed, and the times of the datagrams that it sent.
pub record Round : Type 0 where
  pub now : ℕ
  pub sent : List ℕ

abbrev pub all_sent : List Round → List ℕ
all_sent [] = []
all_sent (r ∷ rs) = r.sent ++ all_sent rs

-- The datagrams that are due by a time.
abbrev pub due_by : ℕ → ℕ → ℕ → ℕ
due_by pps start now = (now - start) * pps / second

-- With `n` datagrams sent before: each round is before the end, makes up the number of datagrams to
-- what is due by its time, and sends them after its look at the clock.
abbrev pub IsPaced : ℕ → ℕ → ℕ → ℕ → List Round → Type 0
IsPaced seconds pps start n [] = Unit
IsPaced seconds pps start n (r ∷ rs) =
    (r.now < start + seconds)
    × (n + length r.sent ≡ max n (due_by pps start r.now))
    × All (λ at. r.now ≤ at) r.sent
    × IsPaced seconds pps start (n + length r.sent) rs

next_eq :
    (n k due : ℕ) → k ≡ due - n → (n + k ≡ max n due) × ((if ltb n due then due else n) ≡ n + k)
next_eq n k due h = (ground (arith, h), ground (arith, h))

module _ {W : Type 0} (env : Env W) (time : W → ℕ) (sent : W → List ℕ)
    (law : IsSender env time sent) where
  -- What `send_each` has sent.
  abbrev Sent : ℕ → List ℕ → ℕ → W → Type 0
  Sent t old k w =
      (t ≤ time w)
      × ((ts : List ℕ) × ((sent w ≡ old ++ ts) × (length ts ≡ k) × All (λ at. t ≤ at) ts))

  send_each-Runs :
      (t k : ℕ) (old : List ℕ)
      → Runs (λ w. (t ≤ time w) × (sent w ≡ old)) (send_each env k) (λ _. Sent t old k) (λ _. ⊥)
  unfolding send_each
  send_each-Runs t zero old =
      runs_pure _ tt (λ w k. (k.0, ([], (k.1 ∙ sym (append-nil old), refl, tt))))
  send_each-Runs t (suc k) old = do
    law.sendto t old
    runs_exists (λ at.
        runs_weaken {P' = λ w. (t ≤ at) × ((t ≤ time w) × (sent w ≡ old ++ at ∷ []))}
          (runs_given (λ late.
            runs_weaken (send_each-Runs t k (old ++ at ∷ [])) (λ w h. h)
              (λ _ w h. (
                h.0,
                (
                  at ∷ h.1.0,
                  (
                    h.1.1.0 ∙ append_assoc old (at ∷ []) h.1.0,
                    omega (arith, h.1.1.1),
                    (late, h.1.1.2),
                  ),
                ),
              ))
              (λ w h. h)))
          (λ w h. (h.0, (omega (arith, h.0, h.1), h.2))) (λ a w h. h) (λ w h. h))

  -- What the loop has done from `n` datagrams on.
  abbrev Paced : ℕ → ℕ → ℕ → List ℕ → ℕ → ℕ → W → Type 0
  Paced seconds pps start old n total w =
      (rs : List Round) × (IsPaced seconds pps start n rs
        × (sent w ≡ old ++ all_sent rs)
        × (total ≡ n + length (all_sent rs))
        × (start + seconds ≤ time w))

  module _ (seconds pps start : ℕ) where
    -- A round before the others.
    longer :
        (now : ℕ) (ts : List ℕ) (n : ℕ) (old : List ℕ) (total : ℕ) (w : W)
        → now < start + seconds
        → length ts ≡ due_by pps start now - n
        → All (λ at. now ≤ at) ts
        → Paced seconds pps start
            (old ++ ts)
            (if ltb n (due_by pps start now) then due_by pps start now else n)
            total
            w
        → Paced seconds pps start old n total w
    longer now ts n old total w early count late k =
        let next = (if ltb n (due_by pps start now) then due_by pps start now else n) in
        let made_up = next_eq n (length ts) (due_by pps start now) count in
        let (rs, (paced, log, sum, over)) = k in
        (
          record { now = now; sent = ts } ∷ rs,
          (
            (early, made_up.0, late, subst (λ m. IsPaced seconds pps start m rs) made_up.1 paced),
            log ∙ append_assoc old ts (all_sent rs),
            omega (arith, sum, made_up.1, length-append ts (all_sent rs)),
            over,
          ),
        )

    udp_from-Runs :
        (fuel n p : ℕ) (old : List ℕ)
        → 1 ≤ fuel
        → seconds < fuel + p
        → Runs
            (λ w. (start + p ≤ time w) × (sent w ≡ old))
            (udp_from env seconds pps start fuel n)
            (Paced seconds pps start old n)
            (λ _. ⊥)
    unfolding udp_from
    udp_from-Runs zero n p old h enough = runs_raise _ no_fuel (λ w k. omega (arith, h))
    udp_from-Runs (suc fuel) n p old h enough = runs_bind (law.monotonic (start + p) old) (λ now.
        runs_weaken {P' = λ w. (start + p ≤ now) × ((now ≤ time w) × (sent w ≡ old))}
          (runs_given (λ late.
            runs_if _ (ltb now (start + seconds))
              (λ early. runs_bind (send_each-Runs now (due_by pps start now - n) old) (λ _.
                runs_weaken
                  {P' = λ w.
                    (ts : List ℕ) × (((length ts ≡ due_by pps start now - n)
                        × All (λ at. now ≤ at) ts)
                      × ((now ≤ time w) × (sent w ≡ old ++ ts)))}
                  (runs_exists (λ ts. runs_given (λ f.
                    runs_then (law.sleep 1_000_000 now (old ++ ts)) (
                      runs_weaken
                        (udp_from-Runs fuel
                          (if ltb n (due_by pps start now) then due_by pps start now else n)
                          (p + 1_000_000) (old ++ ts) (ground (arith, early, late, enough))
                          (omega (arith, enough)))
                        (λ w k. (omega (arith, late, k.0), k.1))
                        (λ total w k. longer now ts n old total w (ground (arith, early)) f.0 f.1 k)
                        (λ w k. k)))))
                  (λ w k. (k.1.0, ((k.1.1.1, k.1.1.2), (k.0, k.1.1.0)))) (λ a w k. k) (λ w k. k)))
              (λ over. runs_pure _ n (λ w k.
                ([], (tt, k.1 ∙ sym (append-nil old), omega arith, ground (arith, over, k.0)))))))
          (λ w k. (k.0, (k.1, k.2))) (λ a w k. k) (λ w k. k))

  udp-Runs :
      (seconds pps t : ℕ) (old : List ℕ)
      → Runs
          (λ w. (t ≤ time w) × (sent w ≡ old))
          (udp env seconds pps)
          (λ total after.
            (start : ℕ) × ((t ≤ start)
              × ((rs : List Round) × (IsPaced seconds pps start 0 rs
                    × (sent after ≡ old ++ all_sent rs)
                    × (total ≡ length (all_sent rs))
                    × (start + seconds ≤ time after)))))
          (λ _. ⊥)
  unfolding udp
  udp-Runs seconds pps t old = runs_bind (law.monotonic t old) (λ start.
      runs_weaken {P' = λ v. (t ≤ start) × ((start + 0 ≤ time v) × (sent v ≡ old))}
        (runs_given (λ late.
          runs_weaken
            (udp_from-Runs seconds pps start (suc seconds) 0 0 old (omega arith) (omega arith))
            (λ v k. k)
            (λ total v k.
              let (rs, (paced, log, sum, over)) = k in
              (start, (late, (rs, (paced, log, omega (arith, sum), over)))))
            (λ v k. k)))
        (λ v k. (k.0, (omega (arith, k.1), k.2))) (λ a v k. k) (λ v k. k))

  -- `udp` ends, and at least `seconds` after its first look at the clock: its rounds are all before
  -- the end, and each sends, after its look at the clock, just the datagrams that make up the number
  -- so far to the whole part of `(now - start) * pps`, or none if that many have been sent.
  pub udp-IsPaced :
      (seconds pps : ℕ) (w : W)
      → Ends
          (λ total after.
            (start : ℕ) × ((time w ≤ start)
              × ((rs : List Round) × (IsPaced seconds pps start 0 rs
                    × (sent after ≡ sent w ++ all_sent rs)
                    × (total ≡ length (all_sent rs))
                    × (start + seconds ≤ time after)))))
          (λ _. ⊥)
          (udp env seconds pps w)
  udp-IsPaced seconds pps w = (udp-Runs seconds pps (time w) (sent w)).at w (omega arith, refl)
