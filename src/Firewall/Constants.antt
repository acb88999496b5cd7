-- ===== src/Firewall/Constants.antt =====
-- control/firewall.py: the constants that mirror bpf/common.h.
use lookout.Common.{ℕ}

abbrev pub block_manual : ℕ
block_manual = 0

abbrev pub block_auto : ℕ
block_auto = 1
