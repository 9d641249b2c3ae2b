-- ===== src/Examples/Activation.antt =====
-- A data path over the UPFs 7 and 8, activated for a session with an address.
use smf_cdac.Base.{ℕ, ◌+◌, suc, ◌≡◌, refl, false, none, some, List, [], ◌∷◌, arith, err, panic, inl}
use mathlib.Core.List.Memᴰ.{head}
use smf_cdac.Base.Int.{pos}
use smf_cdac.Base.Text.{codes, text_eq}
use smf_cdac.Base.Dict.{lookup}
use smf_cdac.Qos.Policy.{PolicyUpdate, SessionRule}
use smf_cdac.Session.Types.{ipv4}
use smf_cdac.Upf.Ids.{IdGenerator}
use smf_cdac.Upf.Rules.{
  UpfStatus, associated_set_up_success, not_associated, Shelf, Upf, Pdr, new_pdr, new_far, new_qer,
  add_pdr,
}
use smf_cdac.Upf.Interfaces.{UpfInterfaceInfo}
use smf_cdac.Upf.Types.{OuterHeaderCreation}
use smf_cdac.Paths.Nodes.{
  NodeHeap, next_node, prev_node, empty_tunnel, new_data_path_node, set_node, generate_data_path,
}
use smf_cdac.Paths.Tunnels.{PathState}
use smf_cdac.Paths.Steps.{PathEnv, PathSession}
use smf_cdac.Paths.Rates.{first_update}
use smf_cdac.Paths.Activate.{activate_tunnel_and_pdr}
use smf_cdac.Paths.Downlink.{activate_dl_link_pdr}
use smf_cdac.Paths.Install.{activate_up_link_tunnel}
use smf_cdac.Paths.Activation.{passes, activate_tunnel_and_pdr-passes}
use smf_cdac.Paths.Connected.{Connected}
use smf_cdac.Paths.Uplink.{activate_tunnel_and_pdr-Connected}
use smf_cdac.Paths.Refused.{
  activate_tunnel_and_pdr-Unassociated, activate_dl_link_pdr-PanicsWithoutDefault,
}
use smf_cdac.Paths.PreConfig.{PathConfig, bare_node, new_ue_pre_config_paths}
use smf_cdac.Paths.Unmade.{new_ue_pre_config_paths-Panics}
use smf_cdac.Examples.Policy.{policy}
use smf_cdac.Examples.Rules.{video}

-- A generator that counts.
abbrev counting : IdGenerator
counting = record {
  State = ℕ;
  allocate = λ n. some (n, suc n);
  free_id = λ n s. s;
  max_id = λ s. 9;
  is_out = λ s n. false;
}

abbrev empty_shelf : Shelf counting
empty_shelf = record { ids = 1; pool = λ n. false }

abbrev free_upf : UpfStatus → Upf counting
free_upf status = record {
  status = status;
  pdrs = empty_shelf;
  fars = empty_shelf;
  bars = empty_shelf;
  qers = empty_shelf;
}

abbrev n9 : ℕ → UpfInterfaceInfo
n9 n = record {
  network_instance = codes "internet";
  endpoint_fqdn = [];
  ipv4_end_point_addresses = (10 ∷ 0 ∷ 0 ∷ n ∷ []) ∷ [];
  ipv6_end_point_addresses = [];
}

abbrev env : PathEnv
env = record {
  address = λ n. n ∷ [];
  n9_interfaces = λ n. n9 n ∷ [];
  up_function_features = λ n. none;
  resolve_ip_addr = λ t. none;
  draw_seid = none;
  flow_status_disabled = codes "DISABLED";
}

abbrev rule : SessionRule
rule = record {
  auth_def_5qi = pos 9;
  auth_sess_ambr = some (record { uplink = codes "1 Mbps"; downlink = codes "2 Mbps" });
}

abbrev update : PolicyUpdate
update = record {
  sess_rule_update = none;
  pcc_rule_update = none;
  qos_flow_update = none;
  tc_update = none;
  sm_policy_decision = record {
    qos_decs = (codes "5", some video) ∷ [];
    pcc_rules = [];
    sess_rules = [];
    traff_cont_decs = [];
  };
}

abbrev session : PathSession
session = record {
  dnn = codes "internet";
  pdu_address = some (10 ∷ 1 ∷ 0 ∷ 5 ∷ []);
  selected_pdu_session_type = ipv4;
  an_address = none;
  an_teid = 0;
  sm_policy_updates = update ∷ [];
  sm_policy_data = record policy { active_rule = some rule };
}

abbrev blank : NodeHeap
blank n = new_data_path_node 0

-- Uplink tunnels with a TEID each.
abbrev numbered : NodeHeap → NodeHeap
numbered h n = record (h n) { up_link_tunnel = record (h n).up_link_tunnel { teid = 40 + n } }

abbrev made : UpfStatus → PathState counting
made status = record {
  nodes = numbered (generate_data_path (7 ∷ 8 ∷ []) 3 blank).1;
  upfs = λ n. free_upf status;
  pfcp_context = [];
  seids = λ n. false;
  local_seid_count = 0;
  draws = 0;
}

activate_tunnel_and_pdr-passes_example :
    activate_tunnel_and_pdr counting env session 3 (some 3) 255 (made associated_set_up_success)
    ≡ passes counting env session (some 3) 255 (3 ∷ 4 ∷ []) (made associated_set_up_success)
unfolding generate_data_path next_node
activate_tunnel_and_pdr-passes_example =
    activate_tunnel_and_pdr-passes counting env session 3 (some 3) 255 (3 ∷ 4 ∷ [])
      (made associated_set_up_success) (refl, (refl, refl)) (omega arith)

-- The header from node 3 to node 4, over the UPF 8.
abbrev to_node_4 : OuterHeaderCreation
to_node_4 = record {
  ipv4_address = some (10 ∷ 0 ∷ 0 ∷ 8 ∷ []);
  ipv6_address = none;
  teid = 44;
  port_number = 0;
  outer_header_creation_description = 256;
}

abbrev activated : PathState counting
unfolding activate_tunnel_and_pdr generate_data_path
activated =
    (activate_tunnel_and_pdr counting env session 3 (some 3) 255 (made associated_set_up_success)).0

activate_tunnel_and_pdr-Connected_example : Connected env session activated.nodes (3 ∷ 4 ∷ [])
unfolding activate_tunnel_and_pdr generate_data_path activated
activate_tunnel_and_pdr-Connected_example =
    activate_tunnel_and_pdr-Connected counting env session 3 (some 3) 255 (3 ∷ 4 ∷ [])
      (made associated_set_up_success) activated tt (refl, (refl, refl))
      ((omega arith, tt), (tt, tt)) (omega arith) ((to_node_4, (n9 8, _, refl, refl, refl)), tt)
      refl

activate_tunnel_and_pdr-Unassociated_example :
    activate_tunnel_and_pdr counting env session 3 (some 3) 255 (made not_associated)
    ≡ (made not_associated, err)
unfolding generate_data_path next_node
activate_tunnel_and_pdr-Unassociated_example =
    activate_tunnel_and_pdr-Unassociated counting env session 3 (some 3) 255 (3 ∷ 4 ∷ [])
      (made not_associated) (refl, (refl, refl)) (omega arith) (inl (λ e. cc))

-- A first node with a PDR for a PCC rule, once the access network is known.
abbrev known : PathSession
known = record session { an_address = some (10 ∷ 9 ∷ 0 ∷ 1 ∷ []); an_teid = 77 }

abbrev for_rule : Pdr
for_rule = new_pdr counting 1 (new_far counting 1)

abbrev with_rule : PathState counting
with_rule = record (made associated_set_up_success) {
  nodes = λ n. record (new_data_path_node 7) {
    down_link_tunnel = record empty_tunnel { pdr = (codes "video", for_rule) ∷ [] };
  };
}

activate_dl_link_pdr-PanicsWithoutDefault_example :
    (activate_dl_link_pdr counting env known (some 3) 3 (new_qer 2) 255 with_rule).1 ≡ panic
unfolding lookup text_eq prev_node
activate_dl_link_pdr-PanicsWithoutDefault_example =
    activate_dl_link_pdr-PanicsWithoutDefault counting env known 3 (new_qer 2) 255 with_rule
      (codes "video") for_rule [] (10 ∷ 9 ∷ 0 ∷ 1 ∷ []) refl refl refl refl

-- A path over the node "upf", configured for a UE.
abbrev configured : List PathConfig
configured = record { destination_ip = []; destination_port = []; upf = codes "upf" ∷ [] } ∷ []

abbrev bare : PathState counting
bare = record (made associated_set_up_success) { nodes = set_node 3 (bare_node 7) blank }

new_ue_pre_config_paths-Panics_example :
    (activate_up_link_tunnel counting env session 3 bare).1 ≡ panic
unfolding new_ue_pre_config_paths lookup text_eq first_update add_pdr
new_ue_pre_config_paths-Panics_example =
    new_ue_pre_config_paths-Panics counting env session ((codes "upf", 7) ∷ []) configured 1 3 blank
      _ bare update _ 3 refl refl (head refl) refl (_, _, refl)
