-- ===== src/Examples/Topo.antt =====
-- A plane of an access network and two UPFs in a row, as a configuration describes it.
use smf_cdac.Base.{◌≡◌, refl, false, none, some, [], ◌∷◌, ok, err, panic, List}
use smf_cdac.Base.Int.{ℤ, pos}
use smf_cdac.Base.Text.{Text, codes, text_eq}
use smf_cdac.Base.Dict.{lookup, insert}
use smf_cdac.Topo.Types.{Snssai, SnssaiUpfInfo, an, upf, UpfSelectionParams, Heap}
use smf_cdac.Topo.Search.{found, get_path_between}
use smf_cdac.Topo.Fuel.{Answer, get_path_between-Answer}
use smf_cdac.Topo.Select.{
  UserPlane, select_match_upf, selection_string, default_path, get_default_user_plane_path_by_dnn,
}
use smf_cdac.Topo.Paths.{Offer, default_path-Offer}
use smf_cdac.Topo.Nodes.{Hosts, NodeConfig, LinkConfig, delete_smf_user_plane_node}
use smf_cdac.Topo.Plane.{new_user_plane_information, empty_plane}
use smf_cdac.Topo.NodeLaws.{WellFormed}
use smf_cdac.Topo.Links.{insert_up_node_links, delete_up_node_links}
use smf_cdac.Topo.Relink.{Linked, insert_up_node_links-delete}
use smf_cdac.Topo.Changes.{
  new_user_plane_information-WellFormed, Forgotten, delete_smf_user_plane_node-Forgotten,
}

abbrev slice : Snssai
slice = record { sd = codes "010203"; sst = pos 1 }

abbrev offer : SnssaiUpfInfo
offer = record { snssai = slice; dnn_list = record { dnn = codes "internet"; dnai_list = [] } ∷ [] }

abbrev transit : SnssaiUpfInfo
transit = record { snssai = slice; dnn_list = [] }

-- Hosts whose names are their addresses.
abbrev hosts : Hosts
hosts = record {
  net = record { parse_ip = λ s. none; lookup_host = λ s. some s; ip_string = λ b. b };
  resolve = λ n. n.node_id_value;
}

abbrev nodes : List (Text × Text × NodeConfig)
nodes =
    (codes "u0", codes "gnb", record { node_type = an; node_id = []; snssai_infos = [] })
    ∷ (
      codes "u1",
      codes "upf1",
      record { node_type = upf; node_id = codes "one"; snssai_infos = transit ∷ [] },
    )
    ∷ (
      codes "u2",
      codes "upf2",
      record { node_type = upf; node_id = codes "two"; snssai_infos = offer ∷ [] },
    )
    ∷ []

abbrev links : List LinkConfig
links =
    record { a = codes "gnb"; b = codes "upf1" }
    ∷ record { a = codes "upf1"; b = codes "upf2" }
    ∷ []

abbrev selection : UpfSelectionParams
selection = record { dnn_list = codes "internet" ∷ []; snssai = slice; dnai = [] }

-- The plane that the configuration builds.
abbrev plane : UserPlane
unfolding new_user_plane_information
plane = elim (new_user_plane_information hosts [] nodes links) [
  | ok u ↦ u
  | err ↦ empty_plane []
  | panic ↦ empty_plane []
]

plane-WellFormed : WellFormed plane
unfolding new_user_plane_information text_eq
plane-WellFormed = new_user_plane_information-WellFormed hosts [] nodes links plane refl

default_path_test : default_path plane selection ≡ found (1 ∷ 2 ∷ [])
unfolding default_path new_user_plane_information text_eq
default_path_test = refl

get_path_between-Answer_example :
    Answer plane.heap slice 2 0 (get_path_between 4 plane.heap slice 2 0 (λ _. false))
unfolding new_user_plane_information text_eq
get_path_between-Answer_example =
    get_path_between-Answer plane.heap slice 2 0 3 plane-WellFormed.links_lead

default_path-Offer_example :
    Offer plane.heap slice 2 plane.access_network (default_path plane selection)
unfolding select_match_upf new_user_plane_information text_eq
default_path-Offer_example =
    default_path-Offer plane selection 2 [] plane-WellFormed.links_lead refl

-- %d of the one slice type that occurs here.
abbrev one : ℤ → Text
one z = codes "1"

abbrev cached : UserPlane
unfolding selection_string new_user_plane_information text_eq
cached = record plane {
  default_user_plane_path = insert (selection_string one selection) (1 ∷ 2 ∷ []) [];
}

default_path_kept_test :
    get_default_user_plane_path_by_dnn one plane selection ≡ ok (1 ∷ 2 ∷ [], cached)
unfolding get_default_user_plane_path_by_dnn new_user_plane_information insert selection_string
    cached text_eq
default_path_kept_test = refl

-- A link between the access network and the second UPF.
abbrev shortcut : LinkConfig
shortcut = record { a = codes "gnb"; b = codes "upf2" }

insert_up_node_links-delete_example :
    (k : Heap) × (insert_up_node_links shortcut plane ≡ ok (record plane { heap = k }))
    × Linked 0 2 plane.heap k
    × (delete_up_node_links shortcut (record plane { heap = k }) ≡ ok plane)
unfolding new_user_plane_information text_eq
insert_up_node_links-delete_example =
    insert_up_node_links-delete shortcut plane 0 2 refl refl (λ e. cc) (λ e. cc, tt) (λ e. cc, tt)

without_upf2 : UserPlane
unfolding delete_smf_user_plane_node new_user_plane_information text_eq
without_upf2 = elim (delete_smf_user_plane_node hosts (codes "upf2") [] cached) [
  | ok u ↦ u
  | err ↦ plane
  | panic ↦ plane
]

delete_smf_user_plane_node-Forgotten_example : Forgotten (codes "upf2") cached without_upf2
unfolding delete_smf_user_plane_node new_user_plane_information without_upf2 lookup text_eq cached
delete_smf_user_plane_node-Forgotten_example =
    delete_smf_user_plane_node-Forgotten hosts (codes "upf2") [] cached without_upf2 2 refl refl
