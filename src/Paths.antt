-- ===== src/Paths.antt =====
-- context/datapath.go: the nodes of a data path, their links and tunnels, the activation and the
-- deactivation of a path, with GenerateDataPath of context/user_plane_information.go,
-- context/ue_datapath.go and context/bp_manager.go.
pub mod Nodes
pub mod Chains
pub mod Tunnels
pub mod Steps
pub mod Rates
pub mod Qers
pub mod Install
pub mod Forward
pub mod Downlink
pub mod Activate
pub mod Passes
pub mod Kept
pub mod Untouched
pub mod Aimed
pub mod Activation
pub mod Connected
pub mod Uplink
pub mod Refused
pub mod PreConfig
pub mod Unmade
pub mod Teardown
pub mod Branching
pub mod Prefixes
