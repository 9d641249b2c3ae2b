-- ===== src/Topo/Select.antt =====
-- context/user_plane_information.go: selectMatchUPF, GenerateDefaultPath and
-- GetDefaultUserPlanePathByDNN, with String of the selection from context/upf.go. The maps of the plane
-- are ranged over in the order of their lists.
use smf_cdac.Base.{
  ℕ, suc, Bool, true, false, ◌&&◌, ◌||◌, Option, none, some, List, [], ◌∷◌, ◌++◌, if◌then◌else◌,
  Outcome, ok, err, panic,
}
use mathlib.Core.Option
use smf_cdac.Base.Int.{ℤ}
use smf_cdac.Base.Text.{Text, codes, text_eq}
use smf_cdac.Base.Dict.{Dict, lookup, insert}
use smf_cdac.Topo.Types.{
  Snssai, snssai_equal, DnnUpfInfoItem, SnssaiUpfInfo, contains_dnai, an, upf, other, NodeId, Heap,
  UpfSelectionParams,
}
use smf_cdac.Topo.Search.{Seen, Search, found, missed, panicked, unfinished, get_path_between}

-- UserPlaneInformation, with the heap of its nodes, of which the first `next` are in use, and upfPool:
-- the node ID of each UPF by its uuid.
pub record UserPlane : Type 0 where
  pub heap : Heap
  pub next : ℕ
  pub up_nodes : Dict ℕ
  pub upfs : Dict ℕ
  pub access_network : Dict ℕ
  pub upf_ip_to_name : Dict Text
  pub upfs_id : Dict Text
  pub upfs_ip_to_id : Dict Text
  pub default_user_plane_path : Dict (List ℕ)
  pub upf_pool : Dict NodeId

-- Whether the loop over the selection's DNNs comes to its break.
unfoldable pub dnn_selected : DnnUpfInfoItem → Text → List Text → Bool
unfolding contains_dnai
dnn_selected d dnai [] = false
dnn_selected d dnai (n ∷ ns) = (text_eq d.dnn n && contains_dnai d dnai) || dnn_selected d dnai ns

-- The node once for each DNN entry that is selected.
unfoldable pub matches_in : ℕ → UpfSelectionParams → List DnnUpfInfoItem → List ℕ
unfolding dnn_selected
matches_in n sel [] = []
matches_in n sel (d ∷ ds) =
    if dnn_selected d sel.dnai sel.dnn_list then n ∷ matches_in n sel ds else matches_in n sel ds

unfoldable pub upf_matches : ℕ → UpfSelectionParams → List SnssaiUpfInfo → List ℕ
unfolding matches_in snssai_equal
upf_matches n sel [] = []
upf_matches n sel (i ∷ is) =
    (if snssai_equal i.snssai sel.snssai then matches_in n sel i.dnn_list else [])
    ++ upf_matches n sel is

-- selectMatchUPF; `none` is the panic on a node without a UPF.
unfoldable pub select_match_upf : Heap → UpfSelectionParams → Dict ℕ → Option (List ℕ)
unfolding upf_matches
select_match_upf h sel [] = some []
select_match_upf h sel ((name, n) ∷ upfs) = elim (h n).upf_info [
  | none ↦ none
  | some u ↦
      Option.map (λ rest. upf_matches n sel u.snssai_infos ++ rest) (select_match_upf h sel upfs)
]

-- `path = path[1:]` where the path starts at an access network.
unfoldable pub without_an : Heap → List ℕ → List ℕ
without_an h [] = []
without_an h (n ∷ ns) = elim (h n).node_type [ an ↦ ns | upf ↦ n ∷ ns | other ↦ n ∷ ns ]

-- The loop over the access networks, which share what is visited.
unfoldable pub search_from : ℕ → Heap → Snssai → ℕ → Dict ℕ → Seen → Search
unfolding get_path_between without_an
search_from fuel h s dest [] seen = missed seen
search_from fuel h s dest ((name, n) ∷ nodes) seen = elim (h n).node_type [
  | an ↦ elim (get_path_between fuel h s dest n seen) [
    | found path ↦ found (without_an h path)
    | missed seen' ↦ search_from fuel h s dest nodes seen'
    | panicked ↦ panicked
    | unfinished ↦ unfinished
  ]
  | upf ↦ search_from fuel h s dest nodes seen
  | other ↦ search_from fuel h s dest nodes seen
]

-- The guards of GenerateDefaultPath on its access networks and on the UPFs that match, and its search.
unfoldable pub first_path : UserPlane → Snssai → Dict ℕ → Option (List ℕ) → Search
unfolding search_from
first_path u s [] dests = missed (λ n. false)
first_path u s (a ∷ more) none = panicked
first_path u s (a ∷ more) (some []) = missed (λ n. false)
first_path u s (a ∷ more) (some (dest ∷ others)) =
    search_from (suc u.next) u.heap s dest (a ∷ more) (λ n. false)

-- The path that GenerateDefaultPath stores.
unfoldable pub default_path : UserPlane → UpfSelectionParams → Search
unfolding select_match_upf first_path
default_path u sel = first_path u sel.snssai u.access_network (select_match_upf u.heap sel u.upfs)

-- GenerateDefaultPath with the key of the selection; an error stands for a search short of fuel.
unfoldable pub generate_default_path :
    UserPlane → Text → UpfSelectionParams → Outcome (Bool × UserPlane)
unfolding default_path insert
generate_default_path u key sel = elim (default_path u sel) [
  | found path ↦
      ok (true, record u { default_user_plane_path = insert key path u.default_user_plane_path })
  | missed seen ↦ ok (false, u)
  | panicked ↦ panic
  | unfinished ↦ err
]

-- The DNNs, with a blank behind each.
unfoldable pub dnn_words : List Text → Text
dnn_words [] = []
dnn_words (d ∷ ds) = d ++ (codes " " ++ dnn_words ds)

-- String of UPFSelectionParams; how %d prints a number is a parameter.
unfoldable pub selection_string : (ℤ → Text) → UpfSelectionParams → Text
unfolding dnn_words
selection_string decimal sel =
    elim sel.dnn_list [
      | [] ↦ codes "Dnn List is empty\n"
      | d ∷ ds ↦ codes "Dnn List: " ++ (dnn_words (d ∷ ds) ++ codes "\n")
    ]
    ++ ((codes "Sst: "
          ++ (decimal sel.snssai.sst ++ (codes ", Sd: " ++ (sel.snssai.sd ++ codes "\n"))))
        ++ elim sel.dnai [ [] ↦ [] | c ∷ cs ↦ codes "DNAI: " ++ ((c ∷ cs) ++ codes "\n") ])

-- What is stored at a key; no path is an empty one, like Go's nil.
unfoldable pub stored_path : Text → UserPlane → List ℕ
unfolding lookup
stored_path key u = elim (lookup key u.default_user_plane_path) [ some path ↦ path | none ↦ [] ]

-- What GetDefaultUserPlanePathByDNN returns once a path was generated, and from a path that is there.
unfoldable pub after_generation : Text → Outcome (Bool × UserPlane) → Outcome (List ℕ × UserPlane)
unfolding stored_path
after_generation key (ok (true, u)) = ok (stored_path key u, u)
after_generation key (ok (false, u)) = ok ([], u)
after_generation key err = err
after_generation key panic = panic

unfoldable pub path_at :
    Text → UserPlane → UpfSelectionParams → Option (List ℕ) → Outcome (List ℕ × UserPlane)
unfolding generate_default_path after_generation
path_at key u sel (some path) = ok (path, u)
path_at key u sel none = after_generation key (generate_default_path u key sel)

-- GetDefaultUserPlanePathByDNN.
unfoldable pub get_default_user_plane_path_by_dnn :
    (ℤ → Text) → UserPlane → UpfSelectionParams → Outcome (List ℕ × UserPlane)
unfolding lookup selection_string path_at
get_default_user_plane_path_by_dnn decimal u sel =
    let key = selection_string decimal sel in
    path_at key u sel (lookup key u.default_user_plane_path)

-- ResetDefaultUserPlanePath and ExistDefaultPath.
unfoldable pub reset_default_user_plane_path : UserPlane → UserPlane
reset_default_user_plane_path u = record u { default_user_plane_path = [] }

unfoldable pub exist_default_path : UserPlane → Text → Bool
unfolding lookup
exist_default_path u dnn = elim (lookup dnn u.default_user_plane_path) [
  | some path ↦ true
  | none ↦ false
]
