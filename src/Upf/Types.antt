-- ===== src/Upf/Types.antt =====
-- context/pfcp_rules.go, outer_header.go, interface.go, apply_action.go, gate.go and mbr.go of context:
-- the parts of the rules for a UPF. A nil IP is none.
use smf_cdac.Base.{ℕ, Bool, false, Option, none, List, []}
use smf_cdac.Base.Text.{Text}

-- RuleState.
pub data RuleState : Type 0 where
  rule_initial rule_create rule_update rule_remove : RuleState

-- SDFFilter, in the fields that BuildCreatePdrFromPccRule sets.
pub record SdfFilter : Type 0 where
  pub flow_description : Text
  pub tos_traffic_class : Text
  pub security_parameter_index : Text
  pub flow_label : Text
  pub sdf_filter_id : ℕ
  pub length_of_flow_description : ℕ
  pub fl : Bool
  pub spi : Bool
  pub ttc : Bool
  pub fd : Bool

-- FTEID.
pub record Fteid : Type 0 where
  pub ipv4_address : Option (List ℕ)
  pub ipv6_address : Option (List ℕ)
  pub chid : Bool
  pub ch : Bool
  pub v6 : Bool
  pub v4 : Bool
  pub teid : ℕ
  pub choose_id : ℕ

abbrev pub no_fteid : Fteid
no_fteid = record {
  ipv4_address = none;
  ipv6_address = none;
  chid = false;
  ch = false;
  v6 = false;
  v4 = false;
  teid = 0;
  choose_id = 0;
}

-- UEIPAddress, less the IPv6 prefix length and its flag, which nothing reads.
pub record UeIpAddress : Type 0 where
  pub ipv4_address : Option (List ℕ)
  pub ipv6_address : Option (List ℕ)
  pub v6 : Bool
  pub v4 : Bool
  pub sd : Bool
  pub ipv6d : Bool
  pub chv4 : Bool
  pub chv6 : Bool
  pub ipv6_prefix_delegation_bits : ℕ

abbrev pub no_ue_ip_address : UeIpAddress
no_ue_ip_address = record {
  ipv4_address = none;
  ipv6_address = none;
  v6 = false;
  v4 = false;
  sd = false;
  ipv6d = false;
  chv4 = false;
  chv6 = false;
  ipv6_prefix_delegation_bits = 0;
}

-- The values of SourceInterface and DestinationInterface.
pub data Interface : Type 0 where
  access core sgi_lan_n6_lan : Interface

-- PDI.
pub record Pdi : Type 0 where
  pub local_fteid : Option Fteid
  pub ue_ip_address : Option UeIpAddress
  pub sdf_filter : Option SdfFilter
  pub application_id : Text
  pub network_instance : Text
  pub source_interface : Interface

abbrev pub no_pdi : Pdi
no_pdi = record {
  local_fteid = none;
  ue_ip_address = none;
  sdf_filter = none;
  application_id = [];
  network_instance = [];
  source_interface = access;
}

-- ApplyAction.
pub record ApplyAction : Type 0 where
  pub dupl : Bool
  pub nocp : Bool
  pub buff : Bool
  pub forw : Bool
  pub drop : Bool

-- OuterHeaderCreation, and the one description that the code uses of it.
pub record OuterHeaderCreation : Type 0 where
  pub ipv4_address : Option (List ℕ)
  pub ipv6_address : Option (List ℕ)
  pub teid : ℕ
  pub port_number : ℕ
  pub outer_header_creation_description : ℕ

abbrev pub gtp_u_udp_ipv4 : ℕ
gtp_u_udp_ipv4 = 256

-- PFCPSMReqFlags.
pub record PfcpsmReqFlags : Type 0 where
  pub qaurr : Bool
  pub sndem : Bool
  pub drobu : Bool

-- ForwardingParameters.
pub record ForwardingParameters : Type 0 where
  pub outer_header_creation : Option OuterHeaderCreation
  pub pfcpsm_req_flags : Option PfcpsmReqFlags
  pub forwarding_policy_id : Text
  pub network_instance : Text
  pub destination_interface : Interface

-- GateStatus, whose gates are open or closed; MBR and GBR.
pub data Gate : Type 0 where
  gate_open gate_close : Gate

pub record GateStatus : Type 0 where
  pub ul_gate : Gate
  pub dl_gate : Gate

pub record Rates : Type 0 where
  pub ul : ℕ
  pub dl : ℕ
