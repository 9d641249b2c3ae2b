-- ===== src/Pfcp/Messages.antt =====
-- pfcp/message/build.go: the session requests as what they hold, a grouped IE being the record of its
-- IEs; an address stands for its text. The State of a rule of a UPF is found by its id.
use smf_cdac.Base.{
  ℕ, ◌-◌, ◌^◌, Bool, ◌||◌, Option, none, some, List, [], ◌∷◌, ltb, if◌then◌else◌, bit_or, bit_and,
}
use smf_cdac.Base.Text.{Text}
use smf_cdac.Upf.Types.{
  SdfFilter, Fteid, UeIpAddress, Interface, Pdi, ApplyAction, OuterHeaderCreation, PfcpsmReqFlags,
  ForwardingParameters, GateStatus, Rates,
}
use smf_cdac.Upf.Rules.{Bar, Far, Qer, Pdr}

-- setBit of Flag, a byte.
unfoldable pub set_bit : ℕ → Bool → ℕ → ℕ
set_bit position value f =
    if ltb position 1 || ltb 8 position
    then f
    else if value
    then bit_or f (2 ^ (position - 1))
    else f - bit_and f (2 ^ (position - 1))

-- The IEs of createPDIIE.
pub record FteidIe : Type 0 where
  pub flags : ℕ
  pub teid : ℕ
  pub ipv4_address : Option (List ℕ)
  pub ipv6_address : Option (List ℕ)
  pub choose_id : ℕ

pub record UeIpAddressIe : Type 0 where
  pub flags : ℕ
  pub ipv4_address : Option (List ℕ)
  pub ipv6_address : Option (List ℕ)
  pub ipv6_prefix_delegation_bits : ℕ

pub record SdfFilterIe : Type 0 where
  pub flow_description : Text
  pub tos_traffic_class : Text
  pub security_parameter_index : Text
  pub flow_label : Text

pub record PdiIe : Type 0 where
  pub source_interface : Interface
  pub fteid : Option FteidIe
  pub network_instance : Text
  pub ue_ip_address : Option UeIpAddressIe
  pub application_id : Option Text
  pub sdf_filter : Option SdfFilterIe

unfoldable pub fteid_ie : Fteid → FteidIe
unfolding set_bit
fteid_ie t = record {
  flags = set_bit 4 t.chid (set_bit 3 t.ch (set_bit 2 t.v6 (set_bit 1 t.v4 0)));
  teid = t.teid;
  ipv4_address = t.ipv4_address;
  ipv6_address = t.ipv6_address;
  choose_id = t.choose_id;
}

unfoldable pub ue_ip_address_ie : UeIpAddress → UeIpAddressIe
unfolding set_bit
ue_ip_address_ie a = record {
  flags =
      set_bit 6 a.chv6
        (set_bit 5 a.chv4 (set_bit 4 a.ipv6d (set_bit 3 a.sd (set_bit 2 a.v4 (set_bit 1 a.v6 0)))));
  ipv4_address = a.ipv4_address;
  ipv6_address = a.ipv6_address;
  ipv6_prefix_delegation_bits = a.ipv6_prefix_delegation_bits;
}

abbrev sdf_filter_ie : SdfFilter → SdfFilterIe
sdf_filter_ie f = record {
  flow_description = f.flow_description;
  tos_traffic_class = f.tos_traffic_class;
  security_parameter_index = f.security_parameter_index;
  flow_label = f.flow_label;
}

abbrev map_some : {A B : Type 0} → (A → B) → Option A → Option B
map_some f none = none
map_some f (some a) = some (f a)

-- A text that is not empty.
abbrev given : Text → Option Text
given [] = none
given (c ∷ cs) = some (c ∷ cs)

unfoldable pub create_pdi_ie : Pdi → PdiIe
unfolding fteid_ie ue_ip_address_ie
create_pdi_ie p = record {
  source_interface = p.source_interface;
  fteid = map_some fteid_ie p.local_fteid;
  network_instance = p.network_instance;
  ue_ip_address = map_some ue_ip_address_ie p.ue_ip_address;
  application_id = given p.application_id;
  sdf_filter = map_some sdf_filter_ie p.sdf_filter;
}

-- pdrToCreatePDR and pdrToUpdatePDR, which hold the same.
pub record PdrIe : Type 0 where
  pub pdr_id : ℕ
  pub precedence : ℕ
  pub pdi : PdiIe
  pub outer_header_removal : Option ℕ
  pub far_id : Option ℕ
  pub qer_ids : List ℕ

unfoldable pub ids_of : List (Option Qer) → List ℕ
ids_of [] = []
ids_of (none ∷ qs) = ids_of qs
ids_of (some q ∷ qs) = q.qer_id ∷ ids_of qs

unfoldable pub pdr_ie : Pdr → PdrIe
unfolding create_pdi_ie ids_of
pdr_ie p = record {
  pdr_id = p.pdr_id;
  precedence = p.precedence;
  pdi = create_pdi_ie p.pdi;
  outer_header_removal = p.outer_header_removal;
  far_id = map_some (λ (f : Far). f.far_id) p.far;
  qer_ids = ids_of p.qer;
}

-- farToCreateFAR, and farToUpdateFAR with its flags; qerToCreateQER.
pub record ForwardingIe : Type 0 where
  pub destination_interface : Interface
  pub network_instance : Text
  pub outer_header_creation : Option OuterHeaderCreation
  pub pfcpsm_req_flags : Option ℕ
  pub forwarding_policy : Option Text

pub record FarIe : Type 0 where
  pub far_id : ℕ
  pub apply_action : ℕ
  pub bar_id : Option ℕ
  pub forwarding : Option ForwardingIe

pub record QerIe : Type 0 where
  pub qer_id : ℕ
  pub gate_status : Option GateStatus
  pub qfi : ℕ
  pub mbr : Option Rates
  pub gbr : Option Rates

unfoldable pub action_flags : ApplyAction → ℕ
unfolding set_bit
action_flags a =
    set_bit 5 a.dupl (set_bit 4 a.nocp (set_bit 3 a.buff (set_bit 2 a.forw (set_bit 1 a.drop 0))))

unfoldable pub request_flags : PfcpsmReqFlags → ℕ
unfolding set_bit
request_flags f = set_bit 3 f.qaurr (set_bit 2 f.sndem (set_bit 1 f.drobu 0))

abbrev forwarding_ie : (PfcpsmReqFlags → Option ℕ) → ForwardingParameters → ForwardingIe
forwarding_ie flags p = record {
  destination_interface = p.destination_interface;
  network_instance = p.network_instance;
  outer_header_creation = p.outer_header_creation;
  pfcpsm_req_flags = elim p.pfcpsm_req_flags [ none ↦ none | some f ↦ flags f ];
  forwarding_policy = given p.forwarding_policy_id;
}

abbrev far_ie : (PfcpsmReqFlags → Option ℕ) → Far → FarIe
far_ie flags f = record {
  far_id = f.far_id;
  apply_action = action_flags f.apply_action;
  bar_id = map_some (λ (b : Bar). b.bar_id) f.bar;
  forwarding = map_some (forwarding_ie flags) f.forwarding_parameters;
}

unfoldable pub far_to_create_far : Far → FarIe
unfolding action_flags
far_to_create_far f = far_ie (λ s. none) f

unfoldable pub far_to_update_far : Far → FarIe
unfolding action_flags request_flags
far_to_update_far f = far_ie (λ s. some (request_flags s)) f

unfoldable pub qer_to_create_qer : Qer → QerIe
qer_to_create_qer q = record {
  qer_id = q.qer_id;
  gate_status = q.gate_status;
  qfi = q.qfi;
  mbr = q.mbr;
  gbr = q.gbr;
}
