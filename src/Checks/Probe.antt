-- ===== src/Checks/Probe.antt =====
-- Concrete runs of Bench/Clients/Probe.
use mathlib.Core.List.{Permᴰ}
use lookout.Common.{ℕ, zero, suc, ◌+◌, ◌≡◌, refl, [], ◌∷◌, arith}
use lookout.Common.Text.{codes, show, show_digits, text_beq}
use lookout.Common.Exec.{ok, pure, ◌>>=◌}
use lookout.Fwctl.Lists.{place, sort, text_ltb}
use lookout.Bench.Numbers.{round}
use lookout.Bench.Clients.{every, every_from, join_each}
use lookout.Bench.Clients.Requests.{Network}
use lookout.Bench.Clients.Probe.{
  Outcome, failed, answered, row_with, row_before, rows_from, scheduled, hundredths, written, probe,
}
use lookout.Bench.Clients.Probe.Lines.{probe-rows_from}
use lookout.Checks.Bench.{World, env}

-- No network: the requests stand in the list that the threads share.
abbrev net : Network World
net = record {
  socket = λ stream w. (ok 3, w);
  bind_to_device = λ s w. (ok tt, w);
  bind = λ s w. (ok tt, w);
  set_timeout = λ s n w. (ok tt, w);
  connect_to = λ s port w. (ok tt, w);
  close = λ s w. (ok tt, w);
  sendall = λ s data_sent w. (ok tt, w);
  request = λ connect path w. (ok tt, w);
  getresponse = λ w. (ok 200, w);
  read = λ w. (ok tt, w);
  close_connection = λ w. (ok tt, w);
}

-- The first request takes 1.25 ms, the second fails.
abbrev outcome : ℕ → Outcome
outcome zero = answered 125
outcome (suc i) = failed

abbrev today : ℕ
today = 1_700_000_000_000_000_000

written_rows :
    written (row_with today 1 failed ∷ row_with today 0 (answered 125) ∷ [])
    ≡ record { time = codes "1700000000.00"; outcome = answered 125 }
      ∷ record { time = codes "1700000000.10"; outcome = failed }
      ∷ []
unfolding written sort place row_before scheduled hundredths show show_digits round text_ltb
    text_beq
written_rows = refl

abbrev before : World
before = record { time = today; calls = []; sent = [] }

-- The clock of `env` moves when it sleeps.
abbrev after : World
after = record {
  time = today + 100_000_000;
  calls = record { call = 0; at = today } ∷ record { call = 1; at = today + 100_000_000 } ∷ [];
  sent = [];
}

two_started : every env 100_000_000 150_000_000 before ≡ (ok tt, after)
unfolding every every_from join_each ◌>>=◌ pure
two_started = refl

probe-rows_from_example :
    probe env net
      (λ w. (ok today, w))
      (λ t0 w. (ok (row_with t0 1 failed ∷ row_with t0 0 (answered 125) ∷ []), w))
      150_000_000
      before
    ≡ (ok (rows_from today outcome 2 0), after)
probe-rows_from_example =
    probe-rows_from env net (λ w. (ok today, w))
      (λ t0 w. (ok (row_with t0 1 failed ∷ row_with t0 0 (answered 125) ∷ []), w)) 150_000_000 today
      2 outcome (row_with today 1 failed ∷ row_with today 0 (answered 125) ∷ []) before before after
      after (omega arith) (omega arith) refl two_started refl (Permᴰ.swap refl refl)
