-- ===== src/Paths/PreConfig.antt =====
-- context/ue_datapath.go: the data paths that are configured for a UE, in NewUEDataPathNode and
-- NewUEPreConfigPaths; and GetDefaultPath of context/datapath.go. A name of UPNodes leads to the place of
-- its UPF.
use smf_cdac.Base.{
  ℕ, suc, Bool, true, false, Option, none, some, List, [], ◌∷◌, if◌then◌else◌, Outcome, ok, err,
  ◌>>=◌,
}
use smf_cdac.Base.Text.{Text}
use smf_cdac.Base.Dict.{Dict, lookup}
use smf_cdac.Upf.Ids.{IdGenerator}
use smf_cdac.Paths.Nodes.{DpNode, NodeHeap, empty_tunnel, set_node, add_next, add_prev}

-- Path of the configuration.
pub record PathConfig : Type 0 where
  pub destination_ip : Text
  pub destination_port : Text
  pub upf : List Text

-- DataPath, with its place in the pool.
pub record UeDataPath : Type 0 where
  pub path_id : ℕ
  pub first_dp_node : Option ℕ
  pub is_default_path : Bool
  pub destination_ip : Text
  pub destination_port : Text

-- NewUEDataPathNode: a node whose tunnels have no maps.
abbrev pub bare_node : ℕ → DpNode
bare_node u = record { upf = u; up_link_tunnel = empty_tunnel; down_link_tunnel = empty_tunnel }

unfoldable pub new_ue_data_path_node : Dict ℕ → Text → Outcome DpNode
unfolding lookup
new_ue_data_path_node up_nodes name = elim (lookup name up_nodes) [
  | none ↦ err
  | some u ↦ ok (bare_node u)
]

-- The links between a new node and its parent.
unfoldable pub link_parent : Option ℕ → ℕ → NodeHeap → NodeHeap
unfolding add_next add_prev
link_parent none n h = h
link_parent (some p) n h = add_next p (some n) (add_prev n (some p) h)

-- The loop over the UPFs of a path, whose nodes are allocated one behind the other; the next place.
unfoldable pub ue_nodes : Dict ℕ → Option ℕ → List Text → ℕ → NodeHeap → Outcome (ℕ × NodeHeap)
unfolding new_ue_data_path_node link_parent
ue_nodes up_nodes parent [] next h = ok (next, h)
ue_nodes up_nodes parent (name ∷ names) next h = new_ue_data_path_node up_nodes name >>= λ x.
    ue_nodes up_nodes (some next) names (suc next) (link_parent parent next (set_node next x h))

abbrev pub first_of : List Text → ℕ → Option ℕ
first_of [] next = none
first_of (name ∷ names) next = some next

-- NewUEPreConfigPaths; the first of the paths is the default.
module _ (g : IdGenerator) (up_nodes : Dict ℕ) where
  unfoldable pub ue_paths :
      List PathConfig → Bool → g.State → ℕ → NodeHeap → Outcome (List UeDataPath × NodeHeap)
  unfolding ue_nodes
  ue_paths [] is_first ids next h = ok ([], h)
  ue_paths (p ∷ ps) is_first ids next h = elim (g.allocate ids) [
    | none ↦ err
    | some (id, more) ↦ ue_nodes up_nodes none p.upf next h >>= λ made.
        ue_paths ps false more made.0 made.1 >>= λ rest. ok (
          record {
            path_id = id;
            first_dp_node = first_of p.upf next;
            is_default_path = is_first;
            destination_ip = p.destination_ip;
            destination_port = p.destination_port;
          }
              ∷ rest.0,
          rest.1,
        )
  ]

  unfoldable pub new_ue_pre_config_paths :
      List PathConfig → g.State → ℕ → NodeHeap → Outcome (List UeDataPath × NodeHeap)
  unfolding ue_paths
  new_ue_pre_config_paths ps ids next h = ue_paths ps true ids next h

-- GetDefaultPath.
unfoldable pub get_default_path : List UeDataPath → Option UeDataPath
get_default_path [] = none
get_default_path (p ∷ ps) = if p.is_default_path then some p else get_default_path ps
