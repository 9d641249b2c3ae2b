-- ===== src/Topo/Plane.antt =====
-- context/user_plane_information.go: NewUserPlaneInformation, AllocateUPFID and the look-ups.
use smf_cdac.Base.{ℕ, Option, none, some, List, [], ◌∷◌, Outcome, ok, ◌>>=◌}
use smf_cdac.Base.Text.{Text}
use smf_cdac.Base.Dict.{Dict, lookup, insert}
use smf_cdac.Topo.Types.{other, NodeId}
use smf_cdac.Topo.Select.{UserPlane}
use smf_cdac.Topo.Nodes.{
  no_node_id, NodeConfig, LinkConfig, Hosts, ip_text, insert_smf_user_plane_node,
}
use smf_cdac.Topo.Links.{insert_up_node_links}

-- NewUserPlaneInformation: the nodes, each with the uuid that its UPF draws, and the links in order.
unfoldable pub load_nodes : Hosts → List (Text × Text × NodeConfig) → UserPlane → UserPlane
unfolding insert_smf_user_plane_node
load_nodes w [] u = u
load_nodes w ((uuid, name, c) ∷ nodes) u =
    load_nodes w nodes (insert_smf_user_plane_node w uuid name c u)

unfoldable pub load_links : List LinkConfig → UserPlane → Outcome UserPlane
unfolding insert_up_node_links
load_links [] u = ok u
load_links (l ∷ ls) u = insert_up_node_links l u >>= load_links ls

-- The plane with no node; what stands on its heap is nowhere linked or named.
abbrev pub empty_plane : Dict NodeId → UserPlane
empty_plane pool = record {
  heap = λ n. record { upf_info = none; node_type = other; node_id = no_node_id; links = [] };
  next = 0;
  up_nodes = [];
  upfs = [];
  access_network = [];
  upf_ip_to_name = [];
  upfs_id = [];
  upfs_ip_to_id = [];
  default_user_plane_path = [];
  upf_pool = pool;
}

unfoldable pub new_user_plane_information :
    Hosts → Dict NodeId → List (Text × Text × NodeConfig) → List LinkConfig → Outcome UserPlane
unfolding load_nodes load_links
new_user_plane_information w pool nodes links =
    load_links links (load_nodes w nodes (empty_plane pool))

-- AllocateUPFID; `none` is the panic on a node without a UPF.
unfoldable pub allocate_upf_ids : Hosts → Dict ℕ → UserPlane → Option UserPlane
unfolding insert
allocate_upf_ids w [] u = some u
allocate_upf_ids w ((name, n) ∷ upfs) u = elim (u.heap n).upf_info [
  | none ↦ none
  | some i ↦ allocate_upf_ids w upfs (record u {
    upfs_id = insert name i.uuid u.upfs_id;
    upfs_ip_to_id = insert (ip_text w (u.heap n).node_id) i.uuid u.upfs_ip_to_id;
  })
]

unfoldable pub allocate_upf_id : Hosts → UserPlane → Option UserPlane
unfolding allocate_upf_ids
allocate_upf_id w u = allocate_upf_ids w u.upfs u

-- GetUPFNameByIp, GetUPFNodeIDByName, GetUPFNodeByIP and GetUPFIDByIP; a missing key reads as an empty
-- text or a nil node, whose dereference is `none`.
unfoldable pub text_at : Text → Dict Text → Text
unfolding lookup
text_at k m = elim (lookup k m) [ some v ↦ v | none ↦ [] ]

unfoldable pub get_upf_name_by_ip : UserPlane → Text → Text
unfolding text_at
get_upf_name_by_ip u ip = text_at ip u.upf_ip_to_name

unfoldable pub get_upf_node_id_by_name : UserPlane → Text → Option NodeId
unfolding lookup
get_upf_node_id_by_name u name = elim (lookup name u.upfs) [
  | some n ↦ some (u.heap n).node_id
  | none ↦ none
]

unfoldable pub get_upf_node_by_ip : UserPlane → Text → Option ℕ
unfolding lookup get_upf_name_by_ip
get_upf_node_by_ip u ip = lookup (get_upf_name_by_ip u ip) u.upfs

unfoldable pub get_upf_id_by_ip : UserPlane → Text → Text
unfolding text_at
get_upf_id_by_ip u ip = text_at ip u.upfs_ip_to_id
