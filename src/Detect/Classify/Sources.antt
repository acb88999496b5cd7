-- ===== src/Detect/Classify/Sources.antt =====
-- control/detect.py: from two snapshots of a source to its verdict.
use Prim.Native.String.{String}
use lookout.Common.{ℕ, ◌+◌, ◌*◌, ◌≤◌, ◌<◌, ◌⊎◌, Option, none, some}
use lookout.Common.Dict.{Dict}
use lookout.Detect.Window.{Window}
use lookout.Detect.Classify.Verdict.{Sent}

-- What a source does, as clearly as two snapshots `elapsed` nanoseconds apart can show: every limit of
-- the rules is kept or passed by a margin, of one packet in a second, one byte in the mean length,
-- one packet in a hundred, or one in the number of SYNs for each FIN or RST, so that the rounding of
-- a division does not matter. (ICMP packets are few if less than 89 in a hundred, and many if more
-- than 91.)
module _ (elapsed : ℕ) (s : Sent) where
  -- More than 8001 packets in a second, of less than 599 bytes.
  abbrev pub Floods : Type 0
  Floods = (8001 * elapsed < 1_000_000_000 * s.packets) × (s.bytes < 599 * s.packets)

  abbrev pub NoFlood : Type 0
  NoFlood = (1_000_000_000 * s.packets < 7999 * elapsed) ⊎ (601 * s.packets < s.bytes)

  -- More than 24 ports, with packets of less than 99 bytes.
  abbrev pub Scans : Type 0
  Scans = (24 < s.ports) × (s.bytes < 99 * s.packets)

  abbrev pub NoScan : Type 0
  NoScan = (s.ports ≤ 24) ⊎ (101 * s.packets < s.bytes)

  -- More than 86 SYNs in a hundred packets, and 41 for each FIN or RST.
  abbrev pub FloodsSyn : Type 0
  FloodsSyn = (86 * s.packets < 100 * s.syn) × (41 * (s.closing + 1) < s.syn)

  abbrev pub NoSynFlood : Type 0
  NoSynFlood = (100 * s.syn < 84 * s.packets) ⊎ (s.syn < 39 * (s.closing + 1))

  -- More than 91 ICMP packets in a hundred, at more than 2001 packets in a second.
  abbrev pub FloodsIcmp : Type 0
  FloodsIcmp = (91 * s.packets < 100 * s.icmp) × (2001 * elapsed < 1_000_000_000 * s.packets)

  abbrev pub NoIcmpFlood : Type 0
  NoIcmpFlood = (100 * s.icmp < 89 * s.packets) ⊎ (1_000_000_000 * s.packets < 1999 * elapsed)

  -- What it does, with its name; of several things the first is named.
  pub data Does : Option String → Type 0 where
    floods : Floods → Does (some "volumetric flood")
    scans : NoFlood → Scans → Does (some "port scan")
    floods_syn : NoFlood → NoScan → FloodsSyn → Does (some "syn flood")
    floods_icmp : NoFlood → NoScan → NoSynFlood → FloodsIcmp → Does (some "icmp flood")
    nothing : NoFlood → NoScan → NoSynFlood → NoIcmpFlood → Does none
