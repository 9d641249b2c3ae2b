-- ===== src/Topo.antt =====
-- context/user_plane_information.go and context/snssai.go: the user plane topology, the search for a
-- path through it, the default paths, and the changes of nodes and links.
pub mod Types
pub mod Search
pub mod Routes
pub mod Fuel
pub mod Select
pub mod Paths
pub mod NodeIds
pub mod Nodes
pub mod Links
pub mod Plane
pub mod NodeLaws
pub mod LinkLaws
pub mod Relink
pub mod Changes
