-- ===== src/Upf.antt =====
-- context/upf.go: the ids of a UPF's rules and the pools that hold the rules.
pub mod Ids
pub mod Types
pub mod Rules
pub mod RuleLaws
pub mod Tracking
pub mod Leaks
pub mod Interfaces
