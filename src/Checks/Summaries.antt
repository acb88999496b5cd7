-- ===== src/Checks/Summaries.antt =====
-- bench/eval_report.py and bench/plot.py on concrete results.
use lookout.Bench.Latency.{steps}
use lookout.Bench.Latency.Shares.{height, share_of, took_longer, height-dist_of}
use lookout.Bench.Logs.Rates.{ReadsBack, rate_of-human}
use lookout.Fwctl.Human.{human, text_of}
use lookout.Bench.Numbers.{round}
use lookout.Common.Text.{show}
use lookout.Common.{
  ℕ, ◌+◌, ◌≡◌, ◌⊎◌, ◌↔◌, refl, true, false, List, [], ◌∷◌, some, none, inl, All, length, arith,
}
use lookout.Common.Int.{pos, negsuc, sub_ℕ}
use lookout.Common.Dict.{lookup}
use lookout.Common.Exec.{ok}
use lookout.Common.Text.{codes, text_beq, int_of}
use lookout.Bench.Numbers.{median, ascending}
use lookout.Bench.Collateral.{Request, Watch, cell_of, cells_of, dist_of, seconds, windows}
use lookout.Bench.Collateral.Windows.{
  many, in_lead, in_attack, total_of_all, IsSound, dist_of-windows,
}
use lookout.Bench.Logs
use lookout.Bench.Detection
use lookout.Bench.Detection.{Files, Line, lists, first_block, valid_runs, line_of}
use lookout.Bench.Detection.FirstBlock.{IsFirst, first_block-IsFirst}
use lookout.Bench.Detection.Points.{IsRowOf, line_of-IsRowOf}
use lookout.Bench.Chart.Rows.{IsOwn, row_of-IsOwn}
use lookout.Bench.Measurements
use lookout.Bench.Measurements.{load, rows_of_key}
use lookout.Bench.Plot
use lookout.Bench.Plot.{counters_agree}
use lookout.Bench.Measurements.Groups.{rows_with, load-rows_with}
use lookout.Bench.Plot.Agreement.{AllAgree, counters_agree-AllAgree}

-- Answered before the attack, slowly in its first second, and not at all in its tenth.
abbrev requests : List Request
requests =
    record { at = negsuc 5; ok = true; latency = 80 }
    ∷ record { at = seconds 1; ok = true; latency = 20_400 }
    ∷ record { at = seconds 10; ok = false; latency = 300_000 }
    ∷ []

dist_of-windows_example :
    (length (dist_of requests) ≡ many in_attack requests)
    × (total_of_all (cells_of windows requests) ≡ many in_lead requests + many in_attack requests)
    × All IsSound (cells_of windows requests)
dist_of-windows_example = dist_of-windows requests

-- Three requests in the windows, two of them in the attack.
in_windows : (total_of_all (cells_of windows requests) ≡ 3) × (length (dist_of requests) ≡ 2)
unfolding cells_of cell_of dist_of ascending
in_windows = (refl, refl)

abbrev watched : List Watch
watched =
    record { time = 1_250; tier = 0; blocked = [] }
    ∷ record { time = 1_500; tier = 1; blocked = codes "10.10.1.2/32" ∷ [] }
    ∷ []

first_block-IsFirst_example :
    ((w : Watch) × (IsFirst (codes "10.10.1.2/32") w watched
        × (first_block (some watched) 1_000 (codes "10.10.1.2/32") ≡ some (sub_ℕ w.time 1_000))))
    ⊎ (All (λ v. lists (codes "10.10.1.2/32") v.blocked ≡ false) watched
        × (first_block (some watched) 1_000 (codes "10.10.1.2/32") ≡ none))
first_block-IsFirst_example = first_block-IsFirst 1_000 (codes "10.10.1.2/32") watched

-- A scan that reached the rate it was asked for, and one that did not.
abbrev scan : ℕ → Detection.Run
scan rate = record {
  kind = codes "attack";
  traffic = codes "port_scan";
  setting = codes "100";
  run = codes "1";
  source = codes "10.10.1.2";
  start = 1_000;
  rx_pps = rate;
  mean_bytes = 60;
}

-- Every log shows 120 packets per second and no drop.
abbrev files : Files
files = record {
  log = λ tag source. ok (record {
    reasons = codes "port scan" ∷ [];
    seen = record { pps = Logs.whole 120; unit = []; dropped = 0; status = codes "port scan" } ∷ [];
  });
  watch = λ tag. some watched;
}

-- Blocked after 500 ns, in the one run that counts.
abbrev scan_line : Line
scan_line =
    Line.measured (Detection.key_of (scan 100)) (Logs.whole 120) (Logs.whole 60) (Logs.whole 0) 1 1
      1 (Detection.When.all_blocked (Logs.whole 500)) (codes "port scan" ∷ [])

line_of-IsRowOf_example :
    IsRowOf files (Detection.key_of (scan 100)) (scan 100 ∷ scan 30 ∷ []) (scan 100 ∷ []) scan_line
unfolding valid_runs Detection.valid int_of text_beq line_of median lookup
line_of-IsRowOf_example =
    line_of-IsRowOf files (Detection.key_of (scan 100)) (scan 100 ∷ scan 30 ∷ []) (scan 100 ∷ [])
      scan_line refl refl

abbrev a_row : ℕ → Measurements.Row
a_row counted = record {
  workload = codes "block";
  senders = 1;
  system = codes "xdp";
  offered = record { num = pos 1_000; den = 1 };
  duration_s = record { num = pos 10; den = 1 };
  received = 1_000;
  fw_dropped = 900;
  ip_in = counted;
  cpu_busy_pct = record { num = pos 50; den = 1 };
  cpu_softirq_pct = record { num = pos 20; den = 1 };
  ns_per_pkt = record { num = pos 400; den = 1 };
}

load-rows_with_example :
    rows_of_key (Measurements.key_of (a_row 0)) (codes "xdp") (load (a_row 100 ∷ a_row 105 ∷ []))
    ≡ rows_with (Measurements.key_of (a_row 0)) (codes "xdp") (a_row 100 ∷ a_row 105 ∷ [])
load-rows_with_example =
    load-rows_with (a_row 100 ∷ a_row 105 ∷ []) (Measurements.key_of (a_row 0)) (codes "xdp")

counters_agree-AllAgree_example :
    (counters_agree (load (a_row 100 ∷ a_row 105 ∷ [])) ≡ true)
    ↔ AllAgree (load (a_row 100 ∷ a_row 105 ∷ []))
counters_agree-AllAgree_example = counters_agree-AllAgree (load (a_row 100 ∷ a_row 105 ∷ []))

-- Five packets of a thousand, 100 counted and 900 dropped, do not matter.
agrees : counters_agree (load (a_row 100 ∷ a_row 105 ∷ [])) ≡ true
unfolding counters_agree Plot.worst_data load text_beq
agrees = refl

-- A scan that was blocked in its one run.
abbrev scan_point : Detection.Point
scan_point = record {
  key = Detection.key_of (scan 100);
  peak = Logs.whole 120;
  blocked = 1;
  runs = 1;
}

row_of-IsOwn_example : (y : ℕ) × IsOwn (scan_point ∷ []) (Detection.key_of (scan 100)) y
unfolding text_beq
row_of-IsOwn_example = row_of-IsOwn [] scan_point [] (inl (refl, refl))

-- 1,234,567.8 packets a second are shown as 1.2M.
rate_of-human_example : ReadsBack 12_345_678 10 (text_of (human 12_345_678 10))
rate_of-human_example = rate_of-human 12_345_678 10 (omega arith)

human_runs : text_of (human 12_345_678 10) ≡ codes "1.2M"
unfolding human text_of round show
human_runs = refl

-- Of the two requests of the attack, one took longer than half a second: it failed.
height-dist_of_example :
    height none (steps (dist_of requests)) 50_000
    ≡ some (share_of (many (took_longer 50_000) requests) (many in_attack requests))
unfolding many
height-dist_of_example = height-dist_of 50_000 requests (omega arith)
