-- ===== src/Detect/Classify/Verdict.antt =====
-- control/detect.py: the verdict on a source, in whole numbers.
use Prim.Native.String.{String}
use lookout.Common.{◌∙◌, ℕ, ◌+◌, ◌-◌, ◌*◌, ◌≡◌, Option, none, some, arith, ltb, ◌&&◌, if◌then◌else◌}
use lookout.Common.Ratio.{ltb_ratio}
use lookout.Detect.State.{SrcState}
use lookout.Detect.Window.{count_ones}
use lookout.Detect.Window.Rows.{part, row_of}
use lookout.Detect.Classify.{
  classify, over, flood_pps, small_pkt, scan_pkt, syn_ratio, syn_fin_ratio,
}

-- What a source sent in an interval.
pub record Sent : Type 0 where
  pub packets : ℕ
  pub bytes : ℕ
  pub syn : ℕ
  -- FINs and RSTs
  pub closing : ℕ
  pub icmp : ℕ
  pub ports : ℕ

abbrev pub sent_between : SrcState → SrcState → Sent
sent_between cur old = record {
  packets = cur.packets - old.packets;
  bytes = cur.bytes - old.bytes;
  syn = cur.syn - old.syn;
  closing = cur.fin - old.fin + (cur.rst - old.rst);
  icmp = cur.icmp - old.icmp;
  ports = count_ones cur.port_bitmap;
}

-- The rules, without a division: `elapsed` is the length of the interval in nanoseconds.
abbrev pub verdict : ℕ → Sent → Option String
verdict elapsed s =
    if ltb (8000 * elapsed) (1_000_000_000 * s.packets) && ltb s.bytes (600 * s.packets)
    then some "volumetric flood"
    else if ltb 24 s.ports && ltb s.bytes (100 * s.packets)
    then some "port scan"
    else if ltb (85 * s.packets) (100 * s.syn) && ltb (40 * (s.closing + 1)) s.syn
    then some "syn flood"
    else if ltb (9 * s.packets) (10 * s.icmp) && ltb (2000 * elapsed) (1_000_000_000 * s.packets)
    then some "icmp flood"
    else none

ltb_ratio-part : (a b c d : ℕ) → ltb_ratio (part a b) (part c d) ≡ ltb (a * d) (c * b)
ltb_ratio-part a b c d = ground arith

same_test : (a b c d : ℕ) → a ≡ c → b ≡ d → ltb a b ≡ ltb c d
same_test a b c d p q = cc

module _ (elapsed n b s c i : ℕ) where
  pps_over :
      ltb_ratio (over flood_pps 1) (part (n * 1_000_000_000) elapsed)
      ≡ ltb (8000 * elapsed) (1_000_000_000 * n)
  pps_over =
      ltb_ratio-part 8000 1 (n * 1_000_000_000) elapsed
      ∙ same_test _ _ _ _ (omega arith) (omega arith)

  small : ltb_ratio (part b n) (over small_pkt 1) ≡ ltb b (600 * n)
  small = ltb_ratio-part b n 600 1 ∙ same_test _ _ _ _ (omega arith) (omega arith)

  tiny : ltb_ratio (part b n) (over scan_pkt 1) ≡ ltb b (100 * n)
  tiny = ltb_ratio-part b n 100 1 ∙ same_test _ _ _ _ (omega arith) (omega arith)

  mostly_syn : ltb_ratio syn_ratio (part s n) ≡ ltb (85 * n) (100 * s)
  mostly_syn = ltb_ratio-part 85 100 s n ∙ same_test _ _ _ _ (omega arith) (omega arith)

  unanswered : ltb_ratio (over syn_fin_ratio 1) (part s (c + 1)) ≡ ltb (40 * (c + 1)) s
  unanswered = ltb_ratio-part 40 1 s (c + 1) ∙ same_test _ _ _ _ (omega arith) (omega arith)

  mostly_icmp : ltb_ratio (over 9 10) (part i n) ≡ ltb (9 * n) (10 * i)
  mostly_icmp = ltb_ratio-part 9 10 i n ∙ same_test _ _ _ _ (omega arith) (omega arith)

  quarter :
      ltb_ratio (over flood_pps 4) (part (n * 1_000_000_000) elapsed)
      ≡ ltb (2000 * elapsed) (1_000_000_000 * n)
  quarter = ground (arith, ltb_ratio-part 8000 4 (n * 1_000_000_000) elapsed)

pub classify-row_of :
    (elapsed : ℕ) (cur old : SrcState)
    → classify (row_of elapsed cur old) ≡ verdict elapsed (sent_between cur old)
unfolding classify
classify-row_of elapsed cur old =
    let t = sent_between cur old in
    rw (
      pps_over elapsed t.packets t.bytes t.syn t.closing t.icmp,
      small elapsed t.packets t.bytes t.syn t.closing t.icmp,
      tiny elapsed t.packets t.bytes t.syn t.closing t.icmp,
      mostly_syn elapsed t.packets t.bytes t.syn t.closing t.icmp,
      unanswered elapsed t.packets t.bytes t.syn t.closing t.icmp,
      mostly_icmp elapsed t.packets t.bytes t.syn t.closing t.icmp,
      quarter elapsed t.packets t.bytes t.syn t.closing t.icmp,
    )
