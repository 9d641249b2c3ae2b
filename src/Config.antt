-- ===== src/Config.antt =====
-- factory/config.go: the comparison of the configuration that is in use with one that was received.
pub mod Compare
pub mod Differences
