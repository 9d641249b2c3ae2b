-- ===== src/Paths/Branching.antt =====
-- context/bp_manager.go: BPManager, SelectPSA2 and FindULCL. A data path is the list of its nodes over
-- Next, each with the place of its UPF and the UPF's node ID.
use smf_cdac.Base.{
  ℕ, suc, Bool, true, false, ◌||◌, Option, none, some, List, [], ◌∷◌, ◌++◌, ◌==◌, if◌then◌else◌,
  ltb, Outcome, ok, panic, ◌>>=◌,
}
use smf_cdac.Topo.Types.{NodeId}
use smf_cdac.Topo.Nodes.{same_id}

abbrev pub PathNodes : Type 0
PathNodes = List (ℕ × NodeId)

-- UpdatedBranchingPoint: the depth of each UPF.
abbrev pub Points : Type 0
Points = List (ℕ × ℕ)

-- What FindULCL and SelectPSA2 work on.
pub record BpManager : Type 0 where
  pub ulcl : Option ℕ
  pub activating_path : Option PathNodes
  pub updated_branching_point : Points
  pub activated_paths : List PathNodes

-- A data path of the pool, and whether it is activated.
abbrev pub DataPaths : Type 0
DataPaths = List (Bool × PathNodes)

-- The loop of SelectPSA2 over the pool: the first path that is not activated is the one to activate.
unfoldable pub sort_paths : DataPaths → Bool → BpManager → BpManager
sort_paths [] chosen b = b
sort_paths ((true, p) ∷ ps) chosen b =
    sort_paths ps chosen (record b { activated_paths = b.activated_paths ++ (p ∷ []) })
sort_paths ((false, p) ∷ ps) true b = sort_paths ps true b
sort_paths ((false, p) ∷ ps) false b = sort_paths ps true (record b { activating_path = some p })

-- SelectPSA2.
unfoldable pub select_psa2 : DataPaths → BpManager → BpManager
unfolding sort_paths
select_psa2 ps b = sort_paths ps false (record b { activated_paths = [] })

unfoldable pub known_upf : ℕ → Points → Bool
known_upf u [] = false
known_upf u ((v, d) ∷ pts) = u == v || known_upf u pts

unfoldable pub note_depth : ℕ → ℕ → Points → Points
unfolding known_upf
note_depth u d pts = if known_upf u pts then pts else pts ++ ((u, d) ∷ [])

-- The inner loop of FindULCL, along the path to activate and an activated one, whose end is a nil node.
unfoldable pub branch : PathNodes → PathNodes → ℕ → Points → Outcome Points
unfolding note_depth same_id
branch [] other depth pts = ok pts
branch (x ∷ xs) [] depth pts = panic
branch (x ∷ xs) (y ∷ ys) depth pts =
    let rest = branch xs ys (suc depth) (note_depth x.0 (suc depth) pts) in
    if same_id x.1 y.1 then rest else ok pts

-- The outer loop, over the activated paths; the path to activate may be nil.
unfoldable pub branch_of : Option PathNodes → PathNodes → Points → Outcome Points
unfolding branch
branch_of none p pts = panic
branch_of (some path) p pts = branch path p 0 pts

unfoldable pub branches : Option PathNodes → List PathNodes → Points → Outcome Points
unfolding branch_of
branches path [] pts = ok pts
branches path (p ∷ ps) pts = branch_of path p pts >>= branches path ps

-- The last loop: the UPF of the greatest depth.
unfoldable pub deepest : Points → ℕ → Option ℕ → Option ℕ
deepest [] depth u = u
deepest ((v, d) ∷ pts) depth u = if ltb depth d then deepest pts d (some v) else deepest pts depth u

-- FindULCL.
unfoldable pub find_ulcl : BpManager → Outcome BpManager
unfolding branches deepest
find_ulcl b = branches b.activating_path b.activated_paths [] >>= λ pts.
    ok (record b { updated_branching_point = pts; ulcl = deepest pts 0 b.ulcl })
