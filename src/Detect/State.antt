-- ===== src/Detect/State.antt =====
-- The counters of one source (control/firewall.py, SRC_STATE_FIELDS) and its measurements over
-- one interval (control/detect.py, the dict that `Window.update` builds for it).
use lookout.Common.{ℕ}
use lookout.Common.Ratio.{Ratio}

pub record SrcState : Type 0 where
  pub lock : ℕ
  pub tokens : ℕ
  pub last_refill_ns : ℕ
  pub last_seen_ns : ℕ
  pub packets : ℕ
  pub bytes : ℕ
  pub dropped : ℕ
  pub syn : ℕ
  pub fin : ℕ
  pub rst : ℕ
  pub udp : ℕ
  pub icmp : ℕ
  pub port_bitmap : ℕ

-- `dict.fromkeys(cur, 0)`
abbrev pub zeros : SrcState
zeros = record {
  lock = 0;
  tokens = 0;
  last_refill_ns = 0;
  last_seen_ns = 0;
  packets = 0;
  bytes = 0;
  dropped = 0;
  syn = 0;
  fin = 0;
  rst = 0;
  udp = 0;
  icmp = 0;
  port_bitmap = 0;
}

pub record Row : Type 0 where
  pub pps : Ratio
  pub mean_len : Ratio
  pub syn_ratio : Ratio
  pub syn_fin_ratio : Ratio
  pub icmp_ratio : Ratio
  pub port_spread : ℕ
  pub drop_ratio : Ratio
