-- ===== src/Checks/Bench.antt =====
-- bench/clients.py, bench/eval_report.py and bench/plot.py on concrete inputs.
use lookout.Common.{
  ℕ, ◌+◌, ◌*◌, ◌≤◌, ◌≡◌, refl, List, [], ◌∷◌, ◌++◌, some, arith, leb, ◌==◌, length,
}
use lookout.Common.Exec.{ok, pure, ◌>>=◌}
use lookout.Common.Exec.Runs.{Ends}
use lookout.Bench.Clients.{Env, every, every_from, join_each, udp}
use lookout.Bench.Clients.Schedule.{Started, IsScheduler, Scheduled, every-Scheduled}
use lookout.Bench.Clients.Rate.{IsSender, Round, IsPaced, all_sent, udp-IsPaced}
use lookout.Bench.Numbers.{pct}
use lookout.Bench.Numbers.Ascending.{count}
use lookout.Bench.Numbers.Percentiles.{pct-nearest}

-- A machine on which nothing but sleeping takes time.
pub record World : Type 0 where
  pub time : ℕ
  pub calls : List Started
  pub sent : List ℕ

abbrev pub env : Env World
env = record {
  monotonic = λ w. (ok w.time, w);
  sleep = λ d w. (ok tt, record w { time = w.time + d });
  start_thread =
      λ i w. (ok tt, record w { calls = w.calls ++ record { call = i; at = w.time } ∷ [] });
  join = λ i limit w. (ok tt, w);
  sendto = λ w. (ok tt, record w { sent = w.sent ++ w.time ∷ [] });
}

scheduler : IsScheduler env (λ w. w.time) (λ w. w.calls)
scheduler = record {
  monotonic = λ t calls. record { at = λ w k. (k.0, omega arith, k.1) };
  sleep = λ d t calls. record { at = λ w k. (omega (arith, k.0), k.1) };
  start_thread = λ i t calls. record { at = λ w k. (w.time, (k.0, omega arith, rw k.1 refl)) };
  join = λ i limit calls. record { at = λ w k. k };
}

sender : IsSender env (λ w. w.time) (λ w. w.sent)
sender = record {
  monotonic = λ t ts. record { at = λ w k. (k.0, omega arith, k.1) };
  sleep = λ d t ts. record { at = λ w k. (omega (arith, k.0), k.1) };
  sendto = λ t ts. record { at = λ w k. (w.time, (k.0, omega arith, rw k.1 refl)) };
}

abbrev now : World
now = record { time = 100; calls = []; sent = [] }

every-Scheduled_example :
    Ends
      (λ _ after.
        (start : ℕ) × ((100 ≤ start)
          × Scheduled env
              (λ w. w.time)
              (λ w. w.calls)
              scheduler
              10
              25
              (omega arith)
              start
              []
              after))
      (λ _. ⊥)
      (every env 10 25 now)
every-Scheduled_example =
    every-Scheduled env (λ w. w.time) (λ w. w.calls) scheduler 10 25 (omega arith) now

udp-IsPaced_example :
    Ends
      (λ total after.
        (start : ℕ) × ((100 ≤ start)
          × ((rs : List Round) × (IsPaced 5 1000 start 0 rs
                × (after.sent ≡ all_sent rs)
                × (total ≡ length (all_sent rs))
                × (start + 5 ≤ after.time)))))
      (λ _. ⊥)
      (udp env 5 1000 now)
udp-IsPaced_example = udp-IsPaced env (λ w. w.time) (λ w. w.sent) sender 5 1000 now

pct-nearest_example :
    (x : ℕ) × ((pct (30 ∷ 10 ∷ 20 ∷ []) 1 2 ≡ some x)
      × (1 ≤ count (λ y. y == x) (30 ∷ 10 ∷ 20 ∷ []))
      × (2 * (1 * 3) ≤ (2 * count (λ y. leb y x) (30 ∷ 10 ∷ 20 ∷ []) + 1) * 2)
      × (3 * 2 ≤ count (λ y. leb x y) (30 ∷ 10 ∷ 20 ∷ []) * 2 + 1 * 3))
pct-nearest_example = pct-nearest (30 ∷ 10 ∷ 20 ∷ []) 1 2 (omega arith) (omega arith) (omega arith)

-- Calls 0, 1 and 2, ten apart.
every_runs :
    (every env 10 25 now).1.calls
    ≡ record { call = 0; at = 100 }
      ∷ record { call = 1; at = 110 }
      ∷ record { call = 2; at = 120 }
      ∷ []
unfolding every every_from join_each ◌>>=◌ pure
every_runs = refl
