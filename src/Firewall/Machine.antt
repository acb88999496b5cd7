-- ===== src/Firewall/Machine.antt =====
-- The world outside of control/firewall.py: the kernel and the clocks.
use Prim.Native.String.{String}
use lookout.Common.{ℕ}
use lookout.Common.Exec.{Exec}
use lookout.Bpf.Kernel.{Kernel}

pub record Machine (W : Type 0) : Type 0 where
  pub kernel : Kernel W
  -- time.monotonic_ns()
  pub ktime_ns : Exec W ℕ
  -- time.monotonic() and time.time(), in nanoseconds
  pub monotonic : Exec W ℕ
  pub time : Exec W ℕ
  -- time.strftime("%H:%M:%S")
  pub strftime : Exec W String
