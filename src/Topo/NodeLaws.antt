-- ===== src/Topo/NodeLaws.antt =====
-- Planes whose links and names lead to nodes that were made, and InsertSmfUserPlaneNode.
use smf_cdac.Base.{
  ℕ, suc, ◌<◌, ◌≡◌, refl, ◌⊎◌, inl, inr, Bool-cases, Option, none, some, List, [], ◌∷◌, ◌++◌, arith,
  ◌==◌, Outcome, ok, err, panic,
}
use mathlib.Core.Path.{subst}
use smf_cdac.Base.Text.{Text}
use smf_cdac.Base.Dict.{Dict, lookup, insert, delete, lookup-insert, lookup-delete}
use smf_cdac.Topo.Types.{UpNodeType, an, upf, other, UpNode, Heap}
use smf_cdac.Topo.Routes.{Member}
use smf_cdac.Topo.Fuel.{InPool}
use smf_cdac.Topo.Select.{UserPlane}
use smf_cdac.Topo.Nodes.{
  NodeConfig, Hosts, set_node, new_node, register, name_node, insert_smf_user_plane_node,
}

-- A dictionary's values are below a bound.
abbrev pub Below : ℕ → Dict ℕ → Type 0
Below n m = (k : Text) (v : ℕ) → lookup k m ≡ some v → v < n

-- Links, and names in UPNodes, lead to nodes that were made.
pub record WellFormed (u : UserPlane) : Type 0 where
  pub links_lead : InPool u.next u.heap
  pub names_lead : Below u.next u.up_nodes

pub Member-append : (b y : ℕ) (xs : List ℕ) → Member b (xs ++ (y ∷ [])) → Member b xs ⊎ (b ≡ y)
Member-append b y [] (inl e) = inr e
Member-append b y [] (inr i) = elim i [ ]
Member-append b y (x ∷ xs) (inl e) = inl (inl e)
Member-append b y (x ∷ xs) (inr i) = elim (Member-append b y xs i) [
  | inl j ↦ inl (inr j)
  | inr e ↦ inr e
]

-- A node whose links lead to the pool keeps the heap there.
pub InPool-set_node :
    (pool n : ℕ) (x : UpNode) (h : Heap)
    → InPool pool h
    → ((b : ℕ) → Member b x.links → b < pool)
    → InPool pool (set_node n x h)
unfolding set_node
InPool-set_node pool n x h i j a b m = elim (Bool-cases (a == n)) [
  | inl e ↦ j b (rw e at m)
  | inr e ↦ i a b (rw e at m)
]

Below-insert :
    (pool n : ℕ) (name : Text) (m : Dict ℕ) → Below pool m → n < pool → Below pool (insert name n m)
Below-insert pool n name m b l k v e =
    let w = lookup-insert name k n m in let old = b k v in ground arith

Below-delete : (pool : ℕ) (name : Text) (m : Dict ℕ) → Below pool m → Below pool (delete name m)
Below-delete pool name m b k v e = let w = lookup-delete name k m in let old = b k v in ground arith

new_node-no_links : (w : Hosts) (uuid : Text) (c : NodeConfig) → (new_node w uuid c).links ≡ []
unfolding new_node
new_node-no_links w uuid c = ground arith

-- What registering a node leaves alone.
register-frame :
    (name : Text) (n : ℕ) (uuid : Text) (x : UpNode) (u : UserPlane)
    → ((register name n uuid x u).up_nodes ≡ u.up_nodes)
unfolding register
register-frame name n uuid x u = ground arith

pub insert_smf_user_plane_node-WellFormed :
    (w : Hosts) (uuid name : Text) (c : NodeConfig) (u : UserPlane)
    → WellFormed u
    → WellFormed (insert_smf_user_plane_node w uuid name c u)
unfolding insert_smf_user_plane_node name_node
insert_smf_user_plane_node-WellFormed w uuid name c u f = record {
  links_lead =
      InPool-set_node (suc u.next) u.next (new_node w uuid c) u.heap
        (λ a b i. let l = f.links_lead a b i in omega arith)
        (λ b i. elim (subst (Member b) (new_node-no_links w uuid c) i) [ ]);
  names_lead =
      Below-insert (suc u.next) u.next name _
        (rw (register-frame name u.next uuid (new_node w uuid c) u)
          (λ k v e. let l = f.names_lead k v e in omega arith))
        (omega arith);
}

pub option_cases {ℓ} : {A : Type ℓ} (o : Option A) → (o ≡ none) ⊎ ((a : A) × (o ≡ some a))
option_cases none = inl refl
option_cases (some a) = inr (a, refl)

pub type_cases : (t : UpNodeType) → (t ≡ an) ⊎ ((t ≡ upf) ⊎ (t ≡ other))
type_cases an = inl refl
type_cases upf = inr (inl refl)
type_cases other = inr (inr refl)

-- A result that is well-formed where there is one.
abbrev pub Keeps : Outcome UserPlane → Type 0
Keeps (ok u) = WellFormed u
Keeps err = Unit
Keeps panic = Unit
