-- ===== src/Topo/Links.antt =====
-- context/user_plane_information.go: InsertUPNodeLinks and DeleteUPNodeLinks.
use smf_cdac.Base.{
  ℕ, Option, none, some, List, [], ◌∷◌, ◌++◌, if◌then◌else◌, Outcome, ok, panic, ◌>>=◌,
}
use smf_cdac.Base.Text.{text_eq}
use smf_cdac.Base.Dict.{lookup}
use smf_cdac.Topo.Types.{Heap}
use smf_cdac.Topo.Select.{UserPlane}
use smf_cdac.Topo.Nodes.{LinkConfig, set_node}

unfoldable pub add_link : ℕ → ℕ → Heap → Heap
unfolding set_node
add_link n m h = set_node n (record (h n) { links = (h n).links ++ (m ∷ []) }) h

-- InsertUPNodeLinks.
unfoldable pub insert_up_node_links : LinkConfig → UserPlane → Outcome UserPlane
unfolding lookup add_link
insert_up_node_links l u = elim (lookup l.a u.up_nodes) [
  | none ↦ panic
  | some n ↦ elim (lookup l.b u.up_nodes) [
    | none ↦ panic
    | some m ↦ ok (record u { heap = add_link m n (add_link n m u.heap) })
  ]
]

-- The links without the first whose node ID has the value.
unfoldable pub remove_link : Heap → List ℕ → List ℕ → List ℕ
remove_link h value [] = []
remove_link h value (n ∷ ns) =
    if text_eq (h n).node_id.node_id_value value then ns else n ∷ remove_link h value ns

-- One of the two loops of DeleteUPNodeLinks: the links of one node, and the other node, which is
-- dereferenced for each of them.
unfoldable pub unlink : Option ℕ → Option ℕ → Heap → Outcome Heap
unfolding remove_link set_node
unlink none m h = ok h
unlink (some n) (some m) h =
    ok (
      set_node n (record (h n) { links = remove_link h (h m).node_id.node_id_value (h n).links }) h)
unlink (some n) none h = elim (h n).links [ [] ↦ ok h | l ∷ more ↦ panic ]

-- DeleteUPNodeLinks.
unfoldable pub delete_up_node_links : LinkConfig → UserPlane → Outcome UserPlane
unfolding lookup unlink
delete_up_node_links l u =
    let n = lookup l.a u.up_nodes in
    let m = lookup l.b u.up_nodes in
    unlink n m u.heap >>= λ h. unlink m n h >>= λ k. ok (record u { heap = k })
