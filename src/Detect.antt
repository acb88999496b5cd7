-- ===== src/Detect.antt =====
-- control/detect.py: what each source did in the last second, and the rules that flag it.
pub mod State
pub mod Window
pub mod Classify
