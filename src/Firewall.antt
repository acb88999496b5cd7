-- ===== src/Firewall.antt =====
-- control/firewall.py: typed access to the pinned maps.
pub mod Constants
pub mod Layout
pub mod Address
pub mod Keys
pub mod Machine
pub mod Trie
pub mod Allowlist
pub mod PortRules
pub mod Blocklist
pub mod Names
pub mod Maps
pub mod Rules
pub mod Life
