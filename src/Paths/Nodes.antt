-- ===== src/Paths/Nodes.antt =====
-- context/datapath.go: DataPathNode and GTPTunnel on a heap, AddNext, AddPrev, Next and Prev;
-- context/user_plane_information.go: GenerateDataPath.
use smf_cdac.Base.{
  ℕ, zero, suc, Bool, true, false, Option, none, some, List, [], ◌∷◌, ◌==◌, if◌then◌else◌,
}
use smf_cdac.Base.Dict.{Dict}
use smf_cdac.Upf.Rules.{Pdr}

-- GTPTunnel; a data path node is the number of its place on the heap, and `made` tells its PDR map from a nil one.
pub record Tunnel : Type 0 where
  pub src_end_point : Option ℕ
  pub dest_end_point : Option ℕ
  pub pdr : Dict Pdr
  pub teid : ℕ
  pub made : Bool

-- DataPathNode; neither tunnel of a node is ever nil. The UPF is the number of its place.
pub record DpNode : Type 0 where
  pub upf : ℕ
  pub up_link_tunnel : Tunnel
  pub down_link_tunnel : Tunnel

abbrev pub NodeHeap : Type 0
NodeHeap = ℕ → DpNode

abbrev pub empty_tunnel : Tunnel
empty_tunnel = record {
  src_end_point = none;
  dest_end_point = none;
  pdr = [];
  teid = 0;
  made = false;
}

-- NewDataPathNode, with the UPF that GenerateDataPath sets.
abbrev pub new_data_path_node : ℕ → DpNode
new_data_path_node u = record {
  upf = u;
  up_link_tunnel = record empty_tunnel { made = true };
  down_link_tunnel = record empty_tunnel { made = true };
}

abbrev pub set_node : ℕ → DpNode → NodeHeap → NodeHeap
set_node n x h m = if m == n then x else h m

abbrev pub with_next : Option ℕ → DpNode → DpNode
with_next next x = record x {
  down_link_tunnel = record x.down_link_tunnel { src_end_point = next };
}

abbrev pub with_prev : Option ℕ → DpNode → DpNode
with_prev prev x = record x { up_link_tunnel = record x.up_link_tunnel { src_end_point = prev } }

-- AddNext and AddPrev.
unfoldable pub add_next : ℕ → Option ℕ → NodeHeap → NodeHeap
add_next n next h = set_node n (with_next next (h n)) h

unfoldable pub add_prev : ℕ → Option ℕ → NodeHeap → NodeHeap
add_prev n prev h = set_node n (with_prev prev (h n)) h

-- Next and Prev.
unfoldable pub next_node : NodeHeap → ℕ → Option ℕ
next_node h n = (h n).down_link_tunnel.src_end_point

unfoldable pub prev_node : NodeHeap → ℕ → Option ℕ
prev_node h n = (h n).up_link_tunnel.src_end_point

-- IsANUPF and IsAnchorUPF.
unfoldable pub is_an_upf : NodeHeap → ℕ → Bool
unfolding prev_node
is_an_upf h n = elim (prev_node h n) [ none ↦ true | some m ↦ false ]

unfoldable pub is_anchor_upf : NodeHeap → ℕ → Bool
unfolding next_node
is_anchor_upf h n = elim (next_node h n) [ none ↦ true | some m ↦ false ]

-- The links between a new node and the one before it.
unfoldable pub link_back : Option ℕ → ℕ → NodeHeap → NodeHeap
unfolding add_next add_prev
link_back none cur h = h
link_back (some p) cur h = add_prev cur (some p) (add_next p (some cur) h)

-- The nils that the ends of the path get.
unfoldable pub mark_first : Option ℕ → ℕ → NodeHeap → NodeHeap
unfolding add_prev
mark_first none cur h = add_prev cur none h
mark_first (some p) cur h = h

unfoldable pub mark_last : List ℕ → ℕ → NodeHeap → NodeHeap
unfolding add_next
mark_last [] cur h = add_next cur none h
mark_last (u ∷ us) cur h = h

-- The loop of GenerateDataPath, whose nodes are allocated one behind the other.
unfoldable pub generate_nodes : Option ℕ → List ℕ → ℕ → NodeHeap → NodeHeap
unfolding link_back mark_first mark_last
generate_nodes prev [] next h = h
generate_nodes prev (u ∷ us) next h = generate_nodes (some next) us (suc next) (
    link_back prev next
      (mark_last us next (mark_first prev next (set_node next (new_data_path_node u) h))))

-- GenerateDataPath: the first node, where there is one, and the heap.
unfoldable pub generate_data_path : List ℕ → ℕ → NodeHeap → Option ℕ × NodeHeap
unfolding generate_nodes
generate_data_path [] next h = (none, h)
generate_data_path (u ∷ us) next h = (some next, generate_nodes none (u ∷ us) next h)

-- The UPFs on the way from a node over Next, as the loops over a data path visit them.
unfoldable pub upfs_along : ℕ → NodeHeap → Option ℕ → List ℕ
unfolding next_node
upfs_along fuel h none = []
upfs_along zero h (some n) = []
upfs_along (suc fuel) h (some n) = (h n).upf ∷ upfs_along fuel h (next_node h n)

-- And over Prev.
unfoldable pub upfs_back : ℕ → NodeHeap → Option ℕ → List ℕ
unfolding prev_node
upfs_back fuel h none = []
upfs_back zero h (some n) = []
upfs_back (suc fuel) h (some n) = (h n).upf ∷ upfs_back fuel h (prev_node h n)
