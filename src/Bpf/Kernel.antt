-- ===== src/Bpf/Kernel.antt =====
-- What control/bpfmap.py is given: the bpf(2) system call of the kernel, command by command, and
-- two facts about the machine. `W` is the state of the world outside, which a call may change.
use lookout.Common.{ℕ, List, Option}
use lookout.Common.Text.{Text}
use lookout.Firewall.Layout.{Bytes}

-- A return value that is not negative, or the errno.
pub data Reply (A : Type 0) : Type 0 where
  done : A → Reply A
  fail : ℕ → Reply A

-- BPF_MAP_LOOKUP_BATCH: the entries that it copied, the token for the next call, and the errno if
-- it returned a negative number; it may copy entries and fail.
pub record Batch : Type 0 where
  pub entries : List (Bytes × Bytes)
  pub token : Bytes
  pub errno : Option ℕ

pub record Kernel (W : Type 0) : Type 0 where
  pub obj_get : Text → W → Reply ℕ × W
  -- descriptor, key, flags
  pub lookup_elem : ℕ → Bytes → ℕ → W → Reply Bytes × W
  -- descriptor, key, value, flags
  pub update_elem : ℕ → Bytes → Bytes → ℕ → W → Reply (Unit {0}) × W
  pub delete_elem : ℕ → Bytes → W → Reply (Unit {0}) × W
  -- the key before, or none for the first
  pub get_next_key : ℕ → Option Bytes → W → Reply Bytes × W
  -- descriptor, token or none, count, flags
  pub lookup_batch : ℕ → Option Bytes → ℕ → ℕ → W → Batch × W
  -- /sys/devices/system/cpu/possible, none if it cannot be read
  pub cpu_possible : W → Option Text × W
  -- os.cpu_count()
  pub cpu_count : Option ℕ

abbrev pub enoent : ℕ
enoent = 2

abbrev pub e2big : ℕ
e2big = 7

abbrev pub einval : ℕ
einval = 22

abbrev pub erange : ℕ
erange = 34

abbrev pub enotsupp : ℕ
enotsupp = 524
