-- ===== src/Bpf/Prog.antt =====
-- control/bpfmap.py, class _Pinned and class BpfProg: descriptors that are closed, and the program's
-- own information.
use lookout.Common.{
  ℕ, ◌+◌, ◌/◌, ◌%◌, List, [], ◌∷◌, Option, none, some, ltb, if◌then◌else◌, take, drop,
}
use lookout.Common.Text.{Text, split}
use lookout.Common.Exec.{Exec, Result, ok, err, pure, lift, ◌>>=◌, ◌>>◌}
use lookout.Firewall.Layout.{Bytes, of_le}
use lookout.Bpf.Kernel.{Kernel, Reply}
use lookout.Bpf.Map.{reply, or_error, open_pinned}

-- What the module is given beside the commands on maps.
pub record System (W : Type 0) : Type 0 where
  -- BPF_OBJ_GET_INFO_BY_FD: a descriptor and the size of the buffer, and what is in the buffer then
  pub object_info : ℕ → ℕ → W → Reply Bytes × W
  pub os_close : ℕ → Exec W (Unit {0})
  -- `time.sleep`, of nanoseconds
  pub sleep : ℕ → Exec W (Unit {0})
  -- `bytes.decode()`
  pub decode : Bytes → Result Text

pub record ProgInfo : Type 0 where
  pub id : ℕ
  pub tag : Text
  pub jited_bytes : ℕ
  pub xlated_bytes : ℕ
  pub name : Text
  pub run_time_ns : ℕ
  pub run_cnt : ℕ

abbrev pub info_size : ℕ
info_size = 232

abbrev pub u32 : ℕ → Bytes → ℕ
u32 off raw = of_le (take 4 (drop off raw))

abbrev pub u64 : ℕ → Bytes → ℕ
u64 off raw = of_le (take 8 (drop off raw))

abbrev pub hex_digit : ℕ → ℕ
hex_digit d = if ltb d 10 then d + b'0' else d + 87

-- `raw.hex()`
unfoldable pub hex : Bytes → Text
hex [] = []
hex (b ∷ bs) = hex_digit (b / 16) ∷ hex_digit (b % 16) ∷ hex bs

-- What follows the body of a `with`: an exception of the exit takes the place of the body's result.
abbrev pub leave : {W A : Type 0} → Result A → Result (Unit {0}) × W → Result A × W
leave r (ok _, w) = (r, w)
leave r (err c, w) = (err c, w)

-- `with`: the exit runs whether the body returns or raises.
unfoldable pub with_exit : {W A : Type 0} → Exec W A → Exec W (Unit {0}) → Exec W A
with_exit body exit w = let (r, after) = body w in leave r (exit after)

module _ {W : Type 0} (k : Kernel W) (sys : System W) where
  -- `fd`, none for -1, and what it is after `close`.
  unfoldable pub close : Option ℕ → Exec W (Option ℕ)
  close none = pure none
  close (some fd) = do sys.os_close fd; pure none

  unfoldable pub close_each : List (Option ℕ) → Exec W (List (Option ℕ))
  close_each [] = pure []
  close_each (fd ∷ fds) = do closed ← close fd; rest ← close_each fds; pure (closed ∷ rest)

  unfoldable pub info : ℕ → Exec W ProgInfo
  unfolding hex
  info fd = do
    r ← reply (sys.object_info fd info_size)
    raw ← or_error k r
    name ← lift (sys.decode (split 0 (take 16 (drop 64 raw))).0)
    pure (record {
      id = u32 4 raw;
      tag = hex (take 8 (drop 8 raw));
      jited_bytes = u32 16 raw;
      xlated_bytes = u32 20 raw;
      name = name;
      run_time_ns = u64 192 raw;
      run_cnt = u64 200 raw;
    })

  -- `with BpfProg(path) as prog: return prog.info()`
  unfoldable pub read_info : Text → Exec W ProgInfo
  unfolding info close with_exit
  read_info path = do
    fd ← open_pinned k path
    with_exit (info fd) (do closed ← close (some fd); pure tt)
