-- ===== src/Checks/Main.antt =====
-- control/fwctl.py, `main`, over a kernel that counts the open descriptors.
use mathlib.Core.Path.{fun_ext, subst}
use lookout.Common.{
  ℕ, ◌+◌, ◌-◌, ◌<◌, ◌≡◌, inl, refl, true, [], ◌∷◌, ◌++◌, some, none, ◌==◌, arith, Bool-cases, inr,
  if◌then◌else◌,
}
use lookout.Common.Text.{Text, codes}
use lookout.Common.Exec.{ok, pure, ◌>>=◌}
use lookout.Bpf.Cpus
use lookout.Bpf.Kernel.{Kernel, done, fail}
use lookout.Bpf.Map.{BpfMap, new_map, open_pinned, or_error}
use lookout.Bpf.Prog.{System}
use lookout.Firewall.Machine.{Machine}
use lookout.Firewall.Maps.{Firewall}
use lookout.Firewall.Life.{new_firewall}
use lookout.Firewall.Life.Descriptors.{IsSystem, with_fds, one}
use lookout.Fwctl.Main.{Command, main, handler, allow}
use lookout.Fwctl.Main.Closing.{Decides, main-closes}
use lookout.Fwctl.Lists.{AllowArgs}
use lookout.Checks.Firewall.{config_bytes}

-- How often each descriptor is open, and the next one.
record World : Type 0 where
  table : ℕ → ℕ
  next : ℕ

abbrev counting_kernel : Kernel World
counting_kernel = record {
  obj_get =
      λ path w. (done w.next, record { table = with_fds (w.next ∷ []) w.table; next = w.next + 1 });
  lookup_elem = λ fd key flags w. (done config_bytes, w);
  update_elem = λ fd key val flags w. (done tt, w);
  delete_elem = λ fd key w. (done tt, w);
  get_next_key = λ fd key w. (fail 2, w);
  lookup_batch = λ fd token count flags w. (record { entries = []; token = []; errno = some 2 }, w);
  cpu_possible = λ w. (none, w);
  cpu_count = some 2;
}

abbrev counting_machine : Machine World
counting_machine = record {
  kernel = counting_kernel;
  ktime_ns = λ w. (ok 7, w);
  monotonic = λ w. (ok 7, w);
  time = λ w. (ok 7, w);
  strftime = λ w. (ok "12:00:00", w);
}

abbrev counting_system : System World
counting_system = record {
  object_info = λ fd size w. (fail 1, w);
  os_close = λ fd w. (ok tt, record { table = λ x. w.table x - one fd x; next = w.next });
  sleep = λ n w. (ok tt, w);
  decode = λ raw. ok raw;
}

taken : (f : ℕ → ℕ) (fd x : ℕ) → 0 < f fd → f x ≡ one fd x + (f x - one fd x)
taken f fd x h = elim (Bool-cases (fd == x)) [
  | inl e ↦
      let same : fd ≡ x = ground (arith, e) in
      let there : 0 < f x = subst (λ k. 0 < f k) same h in rw e (omega (arith, there))
  | inr e ↦ rw e (omega arith)
]

is_system : IsSystem counting_machine counting_system (λ w. w.table)
is_system = record {
  reads = λ f. record {
    lookup_elem = λ fd key flags w h. h;
    get_next_key = λ fd key w h. h;
    lookup_batch = λ fd token count flags w h. h;
  };
  changes = λ f. record { update_elem = λ fd key val flags w h. h; delete_elem = λ fd key w h. h };
  clock = λ f. record { at = λ w h. h };
  sleeps = λ f n. record { at = λ w h. h };
  cpus = λ w. refl;
  opens = λ path w. inl (w.next, (refl, refl));
  info = λ fd size w. refl;
  closes = λ fd w h. (refl, fun_ext λ x. taken w.table fd x h);
}

abbrev pin_dir : Text
pin_dir = codes "/sys/fs/bpf/adaptfw"

abbrev a_map : Text → ℕ → ℕ → ℕ → ℕ → BpfMap
a_map name key_size value_size ncpu fd = record {
  path = pin_dir ++ name;
  key_size = key_size;
  value_size = value_size;
  ncpu = ncpu;
  fd = fd;
}

abbrev start : World
start = record { table = λ x. if x == 0 then 1 else 0; next = 3 }

abbrev opened : Firewall
opened = record {
  allowlist = a_map (codes "/allowlist") 8 16 1 3;
  blocklist = a_map (codes "/blocklist") 8 24 1 4;
  portrules = a_map (codes "/portrules") 4 32 2 5;
  srcstate = a_map (codes "/srcstate") 4 104 1 6;
  stats = a_map (codes "/stats") 4 16 2 7;
  config = a_map (codes "/config") 4 32 1 8;
}

abbrev after : World
after = (new_firewall counting_kernel counting_system pin_dir start).1

-- `allow add 300.0.0.0/8`, whose prefix is refused
abbrev refused : Command
refused = allow (AllowArgs.add (codes "300.0.0.0/8" ∷ []))

main-closes_example :
    Decides
      (handler counting_machine counting_system pin_dir refused opened after).0
      (main counting_machine counting_system pin_dir true refused start).0
    × ((main counting_machine counting_system pin_dir true refused start).1.table ≡ start.table)
unfolding new_firewall new_map open_pinned or_error Cpus.possible_cpus Cpus.count_cpus ◌>>=◌ pure
main-closes_example =
    main-closes counting_machine counting_system (λ w. w.table) is_system pin_dir refused start
      after opened refl
