-- ===== src/Examples/Paths.antt =====
-- A data path over the UPFs 7 and 8, with a PDR in each tunnel of its first node, torn down.
use smf_cdac.Base.{
  panic, ℕ, ◌≡◌, refl, false, none, some, [], ◌∷◌, arith, ok, ◌==◌, if◌then◌else◌, true,
}
use smf_cdac.Base.Text.{Text, codes, text_eq}
use smf_cdac.Base.Dict.{lookup}
use smf_cdac.Upf.Ids.{IdGenerator}
use smf_cdac.Upf.Rules.{associated_set_up_success, Shelf, Upf, Pdr, store, new_far, new_pdr}
use smf_cdac.Paths.Nodes.{DpNode, NodeHeap, new_data_path_node, generate_data_path, upfs_along}
use smf_cdac.Topo.Types.{NodeId}
use smf_cdac.Paths.Branching.{BpManager, find_ulcl}
use smf_cdac.Paths.Prefixes.{PanicsFor, SomeEndsWithin, find_ulcl-PanicsFor}
use smf_cdac.Paths.Chains.{Chain, generate_data_path-Chain}
use smf_cdac.Paths.Tunnels.{PfcpSession, PathState, deactivate_tunnel_and_pdr}
use smf_cdac.Paths.Teardown.{UplinkOnly, deactivate_tunnel_and_pdr-UplinkOnly}

abbrev blank : NodeHeap
blank n = new_data_path_node 0

generate_data_path-Chain_example :
    let made = generate_data_path (7 ∷ 8 ∷ []) 3 blank in
    (made.0 ≡ some 3) × Chain made.1 none 3 (7 ∷ 8 ∷ []) × (upfs_along 9 made.1 made.0 ≡ 7 ∷ 8 ∷ [])
generate_data_path-Chain_example = generate_data_path-Chain 7 (8 ∷ []) 3 blank 9 (omega arith)

-- A generator that never has an id.
abbrev spent : IdGenerator
spent = record {
  State = Unit {0};
  allocate = λ s. none;
  free_id = λ n s. s;
  max_id = λ s. 0;
  is_out = λ s n. false;
}

abbrev held : ℕ → Shelf spent
held n = record { ids = tt; pool = store n (λ m. false) }

abbrev busy_upf : Upf spent
busy_upf = record {
  status = associated_set_up_success;
  pdrs = record { ids = tt; pool = store 1 (store 2 (λ m. false)) };
  fars = held 0;
  bars = held 0;
  qers = held 0;
}

abbrev plain : ℕ → Pdr
plain n = record (new_pdr spent n (new_far spent 0)) { far = none }

abbrev first_node : DpNode
first_node = record {
  upf = 7;
  up_link_tunnel = record {
    src_end_point = none;
    dest_end_point = some 3;
    pdr = (codes "default", plain 1) ∷ [];
    teid = 0;
    made = true;
  };
  down_link_tunnel = record {
    src_end_point = some 4;
    dest_end_point = some 3;
    pdr = (codes "default", plain 2) ∷ [];
    teid = 0;
    made = true;
  };
}

abbrev address : ℕ → Text
address n = n ∷ []

abbrev first_session : PfcpSession
first_session = record {
  pdrs = store 1 (store 2 (λ m. false));
  node = 7;
  local_seid = 1;
  remote_seid = 0;
}

abbrev two_upfs : PathState spent
two_upfs = record {
  nodes = λ n. if n == 3 then first_node else new_data_path_node 8;
  upfs = λ n. busy_upf;
  pfcp_context = (address 7, first_session) ∷ [];
  seids = λ n. false;
  local_seid_count = 1;
  draws = 0;
}

deactivate_tunnel_and_pdr-UplinkOnly_example :
    (t : PathState spent) × (deactivate_tunnel_and_pdr spent address 12 (some 3) two_upfs ≡ ok t)
    × UplinkOnly spent address 3 two_upfs t
unfolding lookup text_eq
deactivate_tunnel_and_pdr-UplinkOnly_example =
    deactivate_tunnel_and_pdr-UplinkOnly spent address 10 3 two_upfs first_session refl

-- An activated path over the UPF 7, which the path over 7 and 8 is to branch from.
abbrev node_id : ℕ → NodeId
node_id n = record { node_id_value = n ∷ []; node_id_type = 0 }

abbrev branching : BpManager
branching = record {
  ulcl = none;
  activating_path = some ((7, node_id 7) ∷ (8, node_id 8) ∷ []);
  updated_branching_point = [];
  activated_paths = ((7, node_id 7) ∷ []) ∷ [];
}

find_ulcl-PanicsFor_example :
    PanicsFor
      (SomeEndsWithin branching.activated_paths ((7, node_id 7) ∷ (8, node_id 8) ∷ []))
      (find_ulcl branching)
find_ulcl-PanicsFor_example =
    find_ulcl-PanicsFor branching ((7, node_id 7) ∷ (8, node_id 8) ∷ []) refl

short_path_test : find_ulcl branching ≡ panic
unfolding find_ulcl text_eq
short_path_test = refl

-- Beside a path over 7 and 9, the paths part behind 7.
parting_test :
    find_ulcl (record branching { activated_paths = ((7, node_id 7) ∷ (9, node_id 9) ∷ []) ∷ [] })
    ≡ ok (record branching {
      ulcl = some 7;
      updated_branching_point = (7, 1) ∷ [];
      activated_paths = ((7, node_id 7) ∷ (9, node_id 9) ∷ []) ∷ [];
    })
unfolding find_ulcl text_eq
parting_test = refl
