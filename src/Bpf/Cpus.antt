-- ===== src/Bpf/Cpus.antt =====
-- control/bpfmap.py, `possible_cpus`: how many slots a per-CPU value has.
use lookout.Common.{ℕ, ◌≡◌, refl, List, [], ◌∷◌, Option, none, some, if◌then◌else◌, ◌==◌}
use lookout.Common.Int.{ℤ, pos, sub_ℕ, ◌+ℤ◌}
use lookout.Common.Exec.{Exec, Result, ok, err}
use lookout.Common.Text.{Text, codes, split, strip, int_of}
use lookout.Bpf.Kernel.{Kernel}

-- `part.partition("-")`, without the separator
unfoldable pub partition : ℕ → Text → Text × Text
partition c [] = ([], [])
partition c (x ∷ s) = let (a, b) = partition c s in if x == c then ([], s) else (x ∷ a, b)

-- `hi or lo`
abbrev pub or_text : Text → Text → Text
or_text [] t = t
or_text (c ∷ s) t = c ∷ s

infixl 10 ◌>>>=◌
abbrev ◌>>>=◌ : {A B : Type 0} → Result A → (A → Result B) → Result B
ok a >>>= f = f a
err c >>>= f = err c

-- `int(hi or lo) - int(lo) + 1`
unfoldable pub count_range : Text → Result ℤ
unfolding partition int_of
count_range part =
    let (lo, hi) = partition b'-' part in
    int_of (or_text hi lo) >>>= λ last. int_of lo >>>= λ first. ok (sub_ℕ last first +ℤ pos 1)

unfoldable pub count_ranges : ℤ → List Text → Result ℤ
unfolding count_range
count_ranges n [] = ok n
count_ranges n (part ∷ parts) = count_range part >>>= λ k. count_ranges (n +ℤ k) parts

unfoldable pub count_spec : Text → Result ℤ
unfolding count_ranges split
count_spec spec = let (first, others) = split b',' spec in count_ranges (pos 0) (first ∷ others)

-- `os.cpu_count() or 1`
abbrev pub or_one : Option ℕ → ℕ
or_one none = 1
or_one (some n) = if n == 0 then 1 else n

module _ {W : Type 0} (k : Kernel W) where
  unfoldable pub count_cpus : Option Text → Result ℤ
  unfolding count_spec strip
  count_cpus none = ok (pos (or_one k.cpu_count))
  count_cpus (some spec) = count_spec (strip spec)

  unfoldable pub possible_cpus : Exec W ℤ
  unfolding count_cpus
  possible_cpus w = let (spec, w') = k.cpu_possible w in (count_cpus spec, w')

-- "0-3,5" and a line's end: five CPUs.
count_spec_runs : count_spec (strip (codes "0-3,5")) ≡ ok (pos 5)
unfolding count_spec strip
count_spec_runs = refl
