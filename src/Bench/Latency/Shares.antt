-- ===== src/Bench/Latency/Shares.antt =====
-- bench/eval_report.py, `latency_chart`: what the height of a curve is.
use lookout.Common.{
  ℕ, suc, ◌+◌, ◌-◌, ◌<◌, ◌≡◌, refl, ap, ◌∙◌, true, false, Bool, ◌&&◌, List, [], ◌∷◌, Option, none,
  some, arith, ltb, leb, length, if◌then◌else◌, Bool-cases, inl, inr,
}
use lookout.Common.Int.{pos}
use lookout.Common.Ratio.{Ratio}
use lookout.Fwctl.Lists.{sort}
use lookout.Bench.Numbers.{ascending}
use lookout.Bench.Numbers.Ascending.{count, IsRising, tail-IsRising, sort-IsRising, count-sort}
use lookout.Bench.Collateral.{Request, between, times_of, dist_of, seconds}
use lookout.Bench.Collateral.Windows.{many, in_attack, length-dist_of}
use lookout.Bench.Latency.{Step, steps, steps_from}

-- The height of a curve that keeps each point's height up to the next point.
abbrev pub height : Option Ratio → List Step → ℕ → Option Ratio
height before [] x = before
height before (p ∷ ps) x = if leb p.at x then height (some p.share) ps x else before

abbrev pub slower : ℕ → List ℕ → ℕ
slower x v = count (ltb x) v

abbrev pub share_of : ℕ → ℕ → Ratio
share_of k n = record { num = pos k; den = n }

all_slower :
    (x y : ℕ) (ys : List ℕ) → x < y → IsRising (y ∷ ys) → slower x (y ∷ ys) ≡ suc (length ys)
all_slower x y [] h f = ground (arith, h)
all_slower x y (z ∷ ys) h f =
    let rest = all_slower x z ys (omega (arith, h, f.0)) f.1 in
    let first : ltb x y ≡ true = ground (arith, h) in rw first (ap suc rest)

height-steps_from :
    (x n i : ℕ) (v : List ℕ)
    → IsRising v
    → n ≡ i + length v
    → height (some (share_of (n - i) n)) (steps_from n i v) x ≡ some (share_of (slower x v) n)
unfolding steps_from
height-steps_from x n i [] f e = ap (λ k. some (share_of k n)) (omega (arith, e))
height-steps_from x n i (y ∷ v) f e = elim (Bool-cases (leb y x)) [
  | inl h ↦
      let here : ltb x y ≡ false = ground (arith, h) in
      rw (h, here) (height-steps_from x n (suc i) v (tail-IsRising y v f) (omega (arith, e)))
  | inr h ↦
      rw h
        (ap (λ k. some (share_of k n)) (omega (arith, e, all_slower x y v (ground (arith, h)) f)))
]

height-steps :
    (x : ℕ) (v : List ℕ)
    → IsRising v
    → slower x v < length v
    → height none (steps v) x ≡ some (share_of (slower x v) (length v))
unfolding steps steps_from
height-steps x [] f h = ground (arith, h)
height-steps x (y ∷ v) f h = elim (Bool-cases (leb y x)) [
  | inl e ↦
      let here : ltb x y ≡ false = ground (arith, e) in
      rw (e, here) (height-steps_from x (suc (length v)) 1 v (tail-IsRising y v f) (omega arith))
  | inr e ↦
      let all = all_slower x y v (ground (arith, e)) f in
      let no : ⊥ = omega (arith, all, h) in elim no [ ]
]

-- The response time of a request: one that failed counts with three seconds.
abbrev pub taken : Request → ℕ
taken q = if q.ok then q.latency else 300_000

-- A request of the attack that took longer than `x`.
abbrev pub took_longer : ℕ → Request → Bool
took_longer x q = in_attack q && ltb x (taken q)

slower-times_of :
    (x : ℕ) (reqs : List Request)
    → slower x (times_of (between (seconds 0) (seconds 40) reqs)) ≡ many (took_longer x) reqs
unfolding between times_of many
slower-times_of x [] = refl
slower-times_of x (q ∷ qs) = elim (Bool-cases (in_attack q)) [
  | inl e ↦ rw (e, slower-times_of x qs) refl
  | inr e ↦ rw e (slower-times_of x qs)
]

-- From the first response on, the height of the curve of some requests at a response time is the
-- share, among the requests of the first forty seconds of the attack, of those that took longer, a
-- request that failed counting with three seconds.
pub height-dist_of :
    (x : ℕ) (reqs : List Request)
    → many (took_longer x) reqs < many in_attack reqs
    → height none (steps (dist_of reqs)) x
      ≡ some (share_of (many (took_longer x) reqs) (many in_attack reqs))
unfolding dist_of ascending
height-dist_of x reqs h =
    let times = times_of (between (seconds 0) (seconds 40) reqs) in
    let same = count-sort (ltb x) times ∙ slower-times_of x reqs in
    let size : length (sort ltb times) ≡ many in_attack reqs = length-dist_of reqs in
    height-steps x (sort ltb times) (sort-IsRising times) (omega (arith, same, size, h))
    ∙ rw (same, size) refl
