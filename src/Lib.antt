-- ===== src/Lib.antt =====
-- Lookout: the control plane of the XDP firewall.
--
-- The XDP program in the kernel filters packets by pinned BPF maps. The Python under control/ reads
-- and writes these maps. Once a second the controller takes a snapshot of the counters of every
-- source, measures what each has sent, flags those that misbehave, blocks the persistent ones and
-- picks a rate-limit tier from the load. fwctl gives the same operations to an operator.
--
--   control/bpfmap.py      Bpf/Map (class BpfMap), Bpf/Cpus (possible_cpus), Bpf/Kernel (what the
--                          bpf(2) system call is given and answers), Bpf/Prog (class BpfProg)
--   control/firewall.py    Firewall/Layout (the struct formats), Firewall/Address (IPv4 prefixes),
--                          Firewall/Keys (lpm_key, port_key and the texts), Firewall/Names (the names
--                          of counters and settings), Firewall/Maps (class Firewall: allowlist and
--                          blocklist), Firewall/Rules (class Firewall: port rules, source states,
--                          counters, settings), Firewall/Life (class Firewall: opening, closing
--                          and prog_info), Firewall/Machine (the kernel and the clocks)
--   control/detect.py      Detect/State (counters and measurements), Detect/Window (class Window),
--                          Detect/Classify (classify)
--   control/policy.py      Policy/Aggressiveness (class Aggressiveness), Policy/Blocker (class
--                          Blocker)
--   control/controller.py  Controller (class Controller: __init__ and step), Controller/Traffic (the
--                          load in step), Controller/Screen (what draw shows, and run),
--                          Controller/Process (main)
--   control/fwctl.py       Fwctl (cmd_policy, cmd_top, cmd_stats, cmd_config, cmd_reset), Fwctl/Lists
--                          (cmd_allow, cmd_block, cmd_port), Fwctl/Status (cmd_status),
--                          Fwctl/Human (human),
--                          Fwctl/Selftest (cmd_selftest, checks 1 to 7), Fwctl/Main (main and watch),
--                          Fwctl/Parser (parser, and the attributes that the commands read)
--   bench/clients.py       Bench/Clients (every and udp), Bench/Clients/Watch (watch),
--                          Bench/Clients/Requests (connect and get), Bench/Clients/Probe (probe)
--   bench/eval_report.py   Bench/Numbers (pct and the medians), Bench/Collateral (collateral),
--                          Bench/Logs (from_log), Bench/Detection (detection),
--                          Bench/Chart (the rows of detection_chart), Bench/Latency (the curves of
--                          latency_chart), Bench/Stack (the bars of stack_chart)
--   bench/plot.py          Bench/Measurements (load), Bench/Plot (the medians, the checks,
--                          the rows of the summary and the bars of chart)
--
-- The scripts under bench/ measure the firewall: clients send at a set pace, and the summaries count
-- what became of their requests and of the sources of an attack.
--
-- A method is a function from the object's state to a result and a new state (Common/Exec); an
-- exception is a value, and what was written before it stays. The blocker calls the firewall through
-- a record of operations (Policy/Blocker, Env), which Controller fills with the methods of Firewall.
-- The kernel is a record of the commands of bpf(2) over any world (Bpf/Kernel); the clocks are fields
-- of Machine. The modules below a component hold the lemmas and theorems about it; Checks has
-- concrete runs. The allowlist is compared with a set of networks (Firewall/Allowlist), over a kernel
-- whose map is a trie with the longest match (Firewall/Trie); the blocklist with a map from networks
-- to deadlines (Firewall/Blocklist), over such a kernel and a clock that does not run backwards; the
-- port rules with a table of actions (Firewall/PortRules), over a per-CPU hash map.
-- Controller/Counting counts the calls that write.
--
-- Numbers: Python's integers are natural numbers or integers (Common/Int), floats are exact fractions
-- (Common/Ratio), and decimal constants are taken at their decimal value; times are nanoseconds. So
-- the rounding of floats is not modelled: a measurement that stands exactly at a limit, or within a
-- rounding error of it, may be judged otherwise by the program, in control/detect.py and in the load
-- of control/controller.py as in the summaries; theorems on verdicts leave a margin at the limits. A
-- duration is a fraction, neither infinite nor nan. The settings and rates that bench/eval_report.py
-- compares in `detection` are whole numbers here, as bench/detection.sh writes them.
-- Texts are lists of character codes (Common/Text), and digits are the ASCII ones. Of `struct`,
-- `ipaddress` and `socket` the formats and texts that the program uses are written out in
-- Firewall/Layout and Firewall/Address; numbers out of a format's range raise struct.error, as they
-- do there.
--
-- Bounds: the walk over the keys has 2 ^ 20 + 2 rounds, more than the program's own limit lets it
-- use. The loop over batches has 2 ^ 20 rounds of up to 4096 entries, which is far above the size of
-- any of the maps; the program itself sets no limit there. The loops of bench/clients.py have one
-- round more than the time they are given has nanoseconds, and no round of theirs is shorter than a
-- nanosecond.
--
-- Not modelled: the C program in the kernel and its loader; the shell scripts; the servers and the
-- clients browse, download, upload and nat, the styling of the figures, regular expressions and the
-- layout of the summaries in bench; the ctypes structures of control/bpfmap.py; the layout of printed
-- lines in control/fwctl.py, and how argparse reads a command line; the layout of the screen and the
-- arrival of signals in control/controller.py. They are input and output, or declarations.
pub mod Common
pub mod Bpf
pub mod Firewall
pub mod Detect
pub mod Policy
pub mod Controller
pub mod Fwctl
pub mod Bench
pub mod Checks
