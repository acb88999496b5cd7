-- ===== src/Detect/Classify.antt =====
-- control/detect.py, `classify`: the rules that flag a source.
pub mod Verdict
pub mod Sources
use Prim.Native.String.{String}
use lookout.Common.{ℕ, Option, none, some, ltb, ◌&&◌, if◌then◌else◌}
use lookout.Common.Int.{pos}
use lookout.Common.Ratio.{Ratio, ltb_ratio}
use lookout.Detect.State.{Row}

-- A threshold as a fraction. Decimal constants of the source are taken at their decimal value.
abbrev pub over : ℕ → ℕ → Ratio
over n d = record { num = pos n; den = d }

abbrev pub flood_pps : ℕ
flood_pps = 8000

abbrev pub small_pkt : ℕ
small_pkt = 600

-- 0.85
abbrev pub syn_ratio : Ratio
syn_ratio = over 85 100

abbrev pub syn_fin_ratio : ℕ
syn_fin_ratio = 40

abbrev pub scan_ports : ℕ
scan_ports = 24

abbrev pub scan_pkt : ℕ
scan_pkt = 100

unfoldable pub classify : Row → Option String
classify row =
    if ltb_ratio (over flood_pps 1) row.pps && ltb_ratio row.mean_len (over small_pkt 1)
    then some "volumetric flood"
    else if ltb scan_ports row.port_spread && ltb_ratio row.mean_len (over scan_pkt 1)
    then some "port scan"
    else if ltb_ratio syn_ratio row.syn_ratio && ltb_ratio (over syn_fin_ratio 1) row.syn_fin_ratio
    then some "syn flood"
    else if ltb_ratio (over 9 10) row.icmp_ratio && ltb_ratio (over flood_pps 4) row.pps
    then some "icmp flood"
    else none
