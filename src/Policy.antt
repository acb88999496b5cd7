-- ===== src/Policy.antt =====
-- control/policy.py: the two adaptive mechanisms.
pub mod Aggressiveness
pub mod Blocker
