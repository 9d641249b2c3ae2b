-- ===== src/Topo/Changes.antt =====
-- The plane that NewUserPlaneInformation builds, and DeleteSmfUserPlaneNode.
use smf_cdac.Base.{
  ℕ, ◌≡◌, ◌≢◌, refl, sym, inl, inr, none, some, List, [], ◌∷◌, arith, Outcome, ok, err, panic,
  ok-injective, ◌>>=◌, ◌∙◌, Bool-cases,
}
use mathlib.Core.Path.{subst}
use smf_cdac.Base.Text.{Text, text_eq, text_eq_iff, text_eq_self}
use smf_cdac.Base.Dict.{Dict, lookup, delete, lookup-delete}
use smf_cdac.Topo.Types.{NodeId}
use smf_cdac.Topo.Select.{UserPlane}
use smf_cdac.Topo.Nodes.{
  NodeConfig, LinkConfig, Hosts, insert_smf_user_plane_node, delete_value, ids_without, forget_upf,
  forget_name, forget_node, delete_smf_user_plane_node,
}
use smf_cdac.Topo.Plane.{load_nodes, load_links, new_user_plane_information, empty_plane}
use smf_cdac.Topo.Links.{insert_up_node_links}
use smf_cdac.Topo.NodeLaws.{
  WellFormed, Keeps, option_cases, type_cases, insert_smf_user_plane_node-WellFormed,
}
use smf_cdac.Topo.LinkLaws.{insert_up_node_links-Keeps}

load_nodes-WellFormed :
    (w : Hosts) (nodes : List (Text × Text × NodeConfig)) (u : UserPlane)
    → WellFormed u
    → WellFormed (load_nodes w nodes u)
unfolding load_nodes
load_nodes-WellFormed w [] u f = f
load_nodes-WellFormed w ((uuid, name, c) ∷ nodes) u f =
    load_nodes-WellFormed w nodes (insert_smf_user_plane_node w uuid name c u)
      (insert_smf_user_plane_node-WellFormed w uuid name c u f)

bind-Keeps :
    (f : UserPlane → Outcome UserPlane) (r : Outcome UserPlane)
    → ((u : UserPlane) → WellFormed u → Keeps (f u))
    → Keeps r
    → Keeps (r >>= f)
bind-Keeps f (ok v) g k = g v k
bind-Keeps f err g k = k
bind-Keeps f panic g k = k

load_links-Keeps : (ls : List LinkConfig) (u : UserPlane) → WellFormed u → Keeps (load_links ls u)
unfolding load_links
load_links-Keeps [] u f = f
load_links-Keeps (l ∷ ls) u f =
    bind-Keeps (load_links ls) (insert_up_node_links l u) (load_links-Keeps ls)
      (insert_up_node_links-Keeps l u f)

empty_plane-WellFormed : (pool : Dict NodeId) → WellFormed (empty_plane pool)
unfolding lookup
empty_plane-WellFormed pool = record { links_lead = λ a b i. elim i [ ]; names_lead = λ k v e. cc }

-- The plane that NewUserPlaneInformation builds of a configuration is well-formed.
pub new_user_plane_information-WellFormed :
    (w : Hosts) (pool : Dict NodeId) (nodes : List (Text × Text × NodeConfig))
    (links : List LinkConfig) (v : UserPlane)
    → new_user_plane_information w pool nodes links ≡ ok v
    → WellFormed v
unfolding new_user_plane_information
new_user_plane_information-WellFormed w pool nodes links v e = subst Keeps e (
    load_links-Keeps links (load_nodes w nodes (empty_plane pool))
      (load_nodes-WellFormed w nodes (empty_plane pool) (empty_plane-WellFormed pool)))

-- No entry has the value.
abbrev pub NoValue : Text → Dict Text → Type 0
NoValue v [] = Unit
NoValue v ((k, x) ∷ m) = (x ≢ v) × NoValue v m

delete_value-NoValue : (v : Text) (m : Dict Text) → NoValue v (delete_value v m)
unfolding delete_value
delete_value-NoValue v [] = tt
delete_value-NoValue v ((k, x) ∷ m) =
    let rest = delete_value-NoValue v m in
    elim (Bool-cases (text_eq x v)) [
      | inl e ↦ rw (delete_value, e) rest
      | inr e ↦ rw (delete_value, e) (λ q. let w = (text_eq_iff x v).1 q in cc, rest)
    ]

-- What a deleted node leaves: no entry under its name and no address that leads to the name, every
-- other name as it was, and all links and default paths as they were.
abbrev pub Forgotten : Text → UserPlane → UserPlane → Type 0
Forgotten name u v =
    (lookup name v.up_nodes ≡ none)
    × ((j : Text) → j ≢ name → lookup j v.up_nodes ≡ lookup j u.up_nodes)
    × NoValue name v.upf_ip_to_name
    × (v.heap ≡ u.heap)
    × (v.default_user_plane_path ≡ u.default_user_plane_path)

forget_name-Forgotten :
    (name : Text) (u v : UserPlane)
    → v.up_nodes ≡ u.up_nodes
    → v.heap ≡ u.heap
    → v.default_user_plane_path ≡ u.default_user_plane_path
    → Forgotten name u (forget_name name v)
unfolding forget_name
forget_name-Forgotten name u v e h d = (
  lookup-delete name name v.up_nodes ∙ rw (text_eq_self name) refl,
  λ j ne.
      let gone = lookup-delete name j v.up_nodes in
      let same = text_eq_iff name j in rw (sym e) (ground arith),
  delete_value-NoValue name v.upf_ip_to_name,
  h,
  d,
)

-- Where DeleteSmfUserPlaneNode returns for a name in UPNodes, the name and the addresses that lead to
-- it are gone and every other name is as it was; the links of all nodes and the default paths are
-- unchanged, so that the deleted node stays linked, and stays on the default paths that cross it.
pub delete_smf_user_plane_node-Forgotten :
    (w : Hosts) (name id : Text) (u v : UserPlane) (n : ℕ)
    → lookup name u.up_nodes ≡ some n
    → delete_smf_user_plane_node w name id u ≡ ok v
    → Forgotten name u v
unfolding delete_smf_user_plane_node forget_node forget_upf
delete_smf_user_plane_node-Forgotten w name id u v n e r =
    let s : forget_node w name n u ≡ ok v = rw (delete_smf_user_plane_node, e) at r in
    elim (type_cases (u.heap n).node_type) [
      | inl t ↦ subst (Forgotten name u) (ok-injective (rw (forget_node, t) at s)) (
          forget_name-Forgotten name u (record u { access_network = delete name u.access_network })
            refl refl refl)
      | inr (inr t) ↦ let no : panic ≡ ok v = rw (forget_node, t) at s in cc
      | inr (inl t) ↦ elim (option_cases (ids_without (u.heap n).upf_info u.upfs_ip_to_id)) [
        | inl q ↦ let no : panic ≡ ok v = rw (forget_node, t, q) at s in cc
        | inr (ids, q) ↦
            subst (Forgotten name u) (ok-injective (rw (forget_node, t, q) at s))
              (forget_name-Forgotten name u (forget_upf w name (u.heap n) ids u) refl refl refl)
      ]
    ]
