-- ===== src/Checks.antt =====
-- Tests on concrete inputs, and each theorem at an input that meets its hypotheses.
pub mod Policy
pub mod Detect
pub mod Firewall
pub mod Listings
pub mod Fwctl
pub mod Allowlist
pub mod Blocklist
pub mod Controller
pub mod Bench
pub mod Summaries
pub mod Main
pub mod Parser
pub mod Overflow
pub mod Probe
pub mod PortRules
