-- ===== src/Topo/Nodes.antt =====
-- context/user_plane_information.go: the changes of nodes. What a node ID resolves to is a parameter here,
-- as is each new uuid.
use smf_cdac.Base.{
  ℕ, suc, ◌&&◌, Bool, Option, none, some, List, [], ◌∷◌, ◌==◌, if◌then◌else◌, Outcome, ok, err,
  panic,
}
use smf_cdac.Base.Text.{Text, text_eq}
use smf_cdac.Base.Dict.{Dict, lookup, insert, delete}
use smf_cdac.Topo.Types.{SnssaiUpfInfo, UpNodeType, an, upf, other, NodeId, UpfInfo, UpNode, Heap}
use smf_cdac.Topo.NodeIds.{Network, new_node_id, remove_upf_node_by_node_id}
use smf_cdac.Topo.Select.{UserPlane}

-- UPNode of the configuration, in the fields that the topology keeps.
pub record NodeConfig : Type 0 where
  pub node_type : UpNodeType
  pub node_id : Text
  pub snssai_infos : List SnssaiUpfInfo

-- UPLink.
pub record LinkConfig : Type 0 where
  pub a : Text
  pub b : Text

-- What the network answers: the parsers, the address that a node ID resolves to, and whether two node
-- IDs are the same.
pub record Hosts : Type 0 where
  pub net : Network
  pub resolve : NodeId → List ℕ

abbrev pub ip_text : Hosts → NodeId → Text
ip_text w n = w.net.ip_string (w.resolve n)

unfoldable pub set_node : ℕ → UpNode → Heap → Heap
set_node n x h m = if m == n then x else h m

-- A NodeID that nothing was stored to.
abbrev pub no_node_id : NodeId
no_node_id = record { node_id_value = []; node_id_type = 0 }

-- The node that InsertSmfUserPlaneNode makes of a configuration.
unfoldable pub new_node : Hosts → Text → NodeConfig → UpNode
unfolding new_node_id
new_node w uuid c = elim c.node_type [
  | upf ↦ record {
    upf_info = some (record { uuid = uuid; snssai_infos = c.snssai_infos });
    node_type = upf;
    node_id = new_node_id w.net c.node_id;
    links = [];
  }
  | an ↦ record { upf_info = none; node_type = an; node_id = no_node_id; links = [] }
  | other ↦ record { upf_info = none; node_type = other; node_id = no_node_id; links = [] }
]

-- The tables that depend on the node's type.
unfoldable pub register : Text → ℕ → Text → UpNode → UserPlane → UserPlane
unfolding insert
register name n uuid x u = elim x.node_type [
  | an ↦ record u { access_network = insert name n u.access_network }
  | upf ↦ record u { upfs = insert name n u.upfs; upf_pool = insert uuid x.node_id u.upf_pool }
  | other ↦ u
]

-- The tables that every node is in.
unfoldable pub name_node : Hosts → Text → ℕ → NodeId → UserPlane → UserPlane
unfolding insert
name_node w name n id u = record u {
  up_nodes = insert name n u.up_nodes;
  upf_ip_to_name = insert (ip_text w id) name u.upf_ip_to_name;
}

-- InsertSmfUserPlaneNode.
unfoldable pub insert_smf_user_plane_node : Hosts → Text → Text → NodeConfig → UserPlane → UserPlane
unfolding new_node register name_node set_node
insert_smf_user_plane_node w uuid name c u =
    let x = new_node w uuid c in
    let v = register name u.next uuid x u in
    name_node w name u.next x.node_id
      (record v { heap = set_node u.next x u.heap; next = suc u.next })

unfoldable pub same_id : NodeId → NodeId → Bool
same_id a b = a.node_id_type == b.node_id_type && text_eq a.node_id_value b.node_id_value

-- A UPF node with the configuration's node ID and slices, and a new UPF where the node ID changed; a
-- node without a UPF would be dereferenced.
unfoldable pub updated_upf : Hosts → Text → NodeConfig → UpNode → Option UpNode
unfolding new_node_id same_id
updated_upf w uuid c x =
    let id = new_node_id w.net c.node_id in
    if same_id x.node_id id
    then elim x.upf_info [
      | none ↦ none
      | some i ↦ some (record x { upf_info = some (record i { snssai_infos = c.snssai_infos }) })
    ]
    else some (record x {
      node_id = id;
      upf_info = some (record { uuid = uuid; snssai_infos = c.snssai_infos });
    })

-- NewUPF stores a UPF in the pool, where the node ID changed.
unfoldable pub pooled : Text → UpNode → UpNode → Dict NodeId → Dict NodeId
unfolding insert same_id
pooled uuid x y pool = if same_id x.node_id y.node_id then pool else insert uuid y.node_id pool

-- UpdateSmfUserPlaneNode.
unfoldable pub update_smf_user_plane_node :
    Hosts → Text → Text → NodeConfig → UserPlane → Outcome UserPlane
unfolding lookup insert updated_upf name_node set_node pooled
update_smf_user_plane_node w uuid name c u = elim (lookup name u.up_nodes) [
  | none ↦ err
  | some n ↦
      let x = u.heap n in
      elim x.node_type [
        | an ↦ ok (name_node w name n x.node_id u)
        | other ↦ ok (name_node w name n x.node_id u)
        | upf ↦ elim (updated_upf w uuid c x) [
          | none ↦ panic
          | some y ↦ ok (
              name_node w name n y.node_id (record u {
                heap = set_node n y u.heap;
                upfs = insert name n u.upfs;
                upf_pool = pooled uuid x y u.upf_pool;
              }))
        ]
      ]
]

-- The loops that delete every entry with a value.
unfoldable pub delete_value : Text → Dict Text → Dict Text
delete_value v [] = []
delete_value v ((k, x) ∷ m) = if text_eq x v then delete_value v m else (k, x) ∷ delete_value v m

-- UPFsIPtoID without a UPF's entries; `none` where the node has no UPF to ask for its uuid, which is
-- asked for each entry.
unfoldable pub ids_without : Option UpfInfo → Dict Text → Option (Dict Text)
unfolding delete_value
ids_without (some i) m = some (delete_value i.uuid m)
ids_without none [] = some []
ids_without none (e ∷ m) = none

unfoldable pub forget_upf : Hosts → Text → UpNode → Dict Text → UserPlane → UserPlane
unfolding delete remove_upf_node_by_node_id
forget_upf w name x ids u = record u {
  upfs = delete name u.upfs;
  upfs_id = delete name u.upfs_id;
  upfs_ip_to_id = ids;
  upf_pool = (remove_upf_node_by_node_id w.resolve x.node_id u.upf_pool).1;
}

unfoldable pub forget_name : Text → UserPlane → UserPlane
unfolding delete delete_value
forget_name name u = record u {
  up_nodes = delete name u.up_nodes;
  upf_ip_to_name = delete_value name u.upf_ip_to_name;
}

unfoldable pub forget_node : Hosts → Text → ℕ → UserPlane → Outcome UserPlane
unfolding forget_upf ids_without forget_name delete
forget_node w name n u =
    let x = u.heap n in
    elim x.node_type [
      | an ↦ ok (forget_name name (record u { access_network = delete name u.access_network }))
      | upf ↦ elim (ids_without x.upf_info u.upfs_ip_to_id) [
        | none ↦ panic
        | some ids ↦ ok (forget_name name (forget_upf w name x ids u))
      ]
      | other ↦ panic
    ]

-- DeleteSmfUserPlaneNode, which takes the node ID for the name where the name is not known.
unfoldable pub delete_smf_user_plane_node : Hosts → Text → Text → UserPlane → Outcome UserPlane
unfolding lookup forget_node
delete_smf_user_plane_node w name id u = elim (lookup name u.up_nodes) [
  | some n ↦ forget_node w name n u
  | none ↦ elim (lookup id u.up_nodes) [ some n ↦ forget_node w id n u | none ↦ ok u ]
]
