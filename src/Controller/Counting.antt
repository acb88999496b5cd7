-- ===== src/Controller/Counting.antt =====
-- control/controller.py, class Controller: a machine that counts the calls that write to a map.
use lookout.Common.{ℕ, ◌+◌}
use lookout.Bpf.Kernel.{Kernel}
use lookout.Bpf.Prog.{System}
use lookout.Firewall.Machine.{Machine}

-- The same call, in a world with a counter.
abbrev pub aside : {W A : Type 0} → (W → A × W) → W × ℕ → A × (W × ℕ)
aside f s = let (a, w) = f s.0 in (a, (w, s.1))

-- A call that is counted.
abbrev pub counted : {W A : Type 0} → (W → A × W) → W × ℕ → A × (W × ℕ)
counted f s = let (a, w) = f s.0 in (a, (w, s.1 + 1))

abbrev pub counting_kernel : {W : Type 0} → Kernel W → Kernel (W × ℕ)
counting_kernel k = record {
  obj_get = λ path. aside (k.obj_get path);
  lookup_elem = λ fd key flags. aside (k.lookup_elem fd key flags);
  update_elem = λ fd key val flags. counted (k.update_elem fd key val flags);
  delete_elem = λ fd key. counted (k.delete_elem fd key);
  get_next_key = λ fd key. aside (k.get_next_key fd key);
  lookup_batch = λ fd token count flags. aside (k.lookup_batch fd token count flags);
  cpu_possible = aside k.cpu_possible;
  cpu_count = k.cpu_count;
}

-- The same machine, with the updates and deletions of map entries counted.
abbrev pub counting : {W : Type 0} → Machine W → Machine (W × ℕ)
counting m = record {
  kernel = counting_kernel m.kernel;
  ktime_ns = aside m.ktime_ns;
  monotonic = aside m.monotonic;
  time = aside m.time;
  strftime = aside m.strftime;
}

-- The calls of the system beside those on maps, in a world with a counter.
abbrev pub counting_system : {W : Type 0} → System W → System (W × ℕ)
counting_system sys = record {
  object_info = λ fd size. aside (sys.object_info fd size);
  os_close = λ fd. aside (sys.os_close fd);
  sleep = λ t. aside (sys.sleep t);
  decode = sys.decode;
}
