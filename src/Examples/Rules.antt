-- ===== src/Examples/Rules.antt =====
-- QoS rules and flow descriptions as in qos/qos_rule_test.go and qos/qos_flow_test.go.
use smf_cdac.Base.{◌≤◌, ◌<◌, ◌≡◌, refl, true, false, none, some, [], ◌∷◌, arith, ok, panic, length}
use smf_cdac.Base.{map, ◌++◌, ◌%◌}
use smf_cdac.Qos.FlowTypes.{qfd_bytes}
use smf_cdac.Qos.FlowWire.{read_description, param_view, read_description-add_description}
use smf_cdac.Base.Int.{pos, to_u8}
use smf_cdac.Base.Text.{codes, text_eq}
use smf_cdac.GoStd.Strings.{split, fields}
use smf_cdac.GoStd.Strconv.{atoi}
use smf_cdac.GoStd.Net.{cidr_mask}
use smf_cdac.Qos.Types.{uplink, FlowInformation, QosData, IpFilterRule, PacketFilter, QosRule}
use smf_cdac.Qos.FlowDesc.{
  decode_flow_desc_to_ip_filters, decode_ip_filter_addrv4, decode_ip_filter_port_info,
}
use smf_cdac.Qos.Filters.{component, get_pf_id, get_packet_filter_from_flow_info}
use smf_cdac.Qos.Rules.{get_qos_flow_id_from_qos_id}
use smf_cdac.Qos.Encode.{
  marshal_content, marshal_filter, marshal_filters, rule_content, marshal_rule, marshal_rules,
}
use smf_cdac.Qos.Wire.{component_size, FilterFits, RuleFits, read_rules, rule_view}
use smf_cdac.Qos.RoundTrip.{read_rules-marshal}
use smf_cdac.Qos.FilterLengths.{CanEncode, packet_filter-FilterFits}
use smf_cdac.Qos.BitRates.{bit_rate_to_kbps, normalize_bit_rate}
use smf_cdac.Qos.FlowTypes.{QosFlowDescription}
use smf_cdac.Qos.Flows.{get_bit_rate, add_description}
use smf_cdac.Qos.FlowLengths.{HasRates}

abbrev udp_filter : PacketFilter
udp_filter = record {
  content = component 0x30 (17 ∷ []) ∷ component 0x50 (31 ∷ 64 ∷ []) ∷ [];
  direction = 1;
  identifier = 3;
  content_length = 5;
}

abbrev create_rule : QosRule
create_rule = record {
  packet_filter_list = udp_filter ∷ [];
  rule_identifier = 1;
  operation_code = 1;
  dqr = 1;
  segregation = 0;
  rule_precedence = 200;
  qfi = 5;
}

abbrev delete_rule : QosRule
delete_rule = record {
  packet_filter_list = [];
  rule_identifier = 2;
  operation_code = 2;
  dqr = 0;
  segregation = 0;
  rule_precedence = 0;
  qfi = 0;
}

udp_filter_fits : FilterFits udp_filter
unfolding marshal_content
udp_filter_fits = record {
  direction_fits = omega arith;
  identifier_fits = omega arith;
  length_right = refl;
}

create_rule_fits : RuleFits create_rule
unfolding rule_content marshal_filters marshal_filter marshal_content component_size
create_rule_fits = record {
  components_fit = ((refl, (refl, tt)), tt);
  filters_fit = (udp_filter_fits, tt);
  operation_fits = omega arith;
  dqr_fits = omega arith;
  count_fits = omega arith;
  segregation_fits = omega arith;
  qfi_fits = omega arith;
  content_fits = omega arith;
}

delete_rule_fits : RuleFits delete_rule
unfolding rule_content marshal_filters
delete_rule_fits = record {
  components_fit = tt;
  filters_fit = tt;
  operation_fits = omega arith;
  dqr_fits = omega arith;
  count_fits = omega arith;
  segregation_fits = omega arith;
  qfi_fits = omega arith;
  content_fits = omega arith;
}

create_rule_bytes :
    marshal_rules (create_rule ∷ [])
    ≡ 1 ∷ 0 ∷ 10 ∷ 49 ∷ 19 ∷ 5 ∷ 48 ∷ 17 ∷ 80 ∷ 31 ∷ 64 ∷ 200 ∷ 5 ∷ []
unfolding marshal_rules marshal_rule rule_content marshal_filters marshal_filter marshal_content
create_rule_bytes = refl

read_rules-marshal_example :
    read_rules 3 (marshal_rules (create_rule ∷ delete_rule ∷ []))
    ≡ some (rule_view create_rule ∷ rule_view delete_rule ∷ [])
read_rules-marshal_example =
    read_rules-marshal 3 (create_rule ∷ delete_rule ∷ []) (create_rule_fits, (delete_rule_fits, tt))
      (omega arith)

abbrev flow : FlowInformation
flow = record {
  flow_description = codes "permit out 17 from 10.0.0.1/24 5000-5010 to assigned";
  pack_filt_id = codes "3";
  flow_direction = uplink;
  tos_traffic_class = [];
  flow_label = [];
  spi = [];
}

abbrev flow_filter : IpFilterRule
flow_filter = record {
  proto_id = codes "17";
  s_port = [];
  d_port = [];
  s_port_range = record { low_limit = codes "5000"; high_limit = codes "5010" };
  d_port_range = record { low_limit = []; high_limit = [] };
  s_addrv4 = record { addr = codes "10.0.0.1"; mask = codes "24" };
  d_addrv4 = record { addr = codes "assigned"; mask = [] };
}

flow_decodes : decode_flow_desc_to_ip_filters flow.flow_description ≡ ok flow_filter
unfolding decode_flow_desc_to_ip_filters fields split text_eq decode_ip_filter_addrv4
    decode_ip_filter_port_info
flow_decodes = refl

flow-CanEncode : CanEncode flow_filter
unfolding atoi cidr_mask
flow-CanEncode = record {
  s_mask = refl;
  d_mask = refl;
  s_limits = λ h k. (refl, refl);
  d_limits = λ h k. absurd (h refl);
}

flow_id : get_pf_id flow.pack_filt_id < 16
unfolding get_pf_id atoi to_u8
flow_id = omega arith

packet_filter-FilterFits_example :
    (pf : PacketFilter) × (get_packet_filter_from_flow_info flow ≡ ok pf)
    × FilterFits pf
    × (pf.content_length ≤ 36)
packet_filter-FilterFits_example =
    packet_filter-FilterFits flow flow_filter flow_decodes flow-CanEncode flow_id

abbrev pub video : QosData
video = record {
  qos_id = codes "5";
  var_5qi = pos 2;
  maxbr_ul = codes "101 Mbps";
  maxbr_dl = codes "201 Mbps";
  gbr_ul = codes "11 Mbps";
  gbr_dl = [];
  qnc = false;
  qos_priority_level = pos 0;
  aver_window = pos 0;
  max_data_burst_vol = pos 0;
  reflective_qos = false;
  sharing_key_dl = [];
  sharing_key_ul = [];
  max_packet_loss_rate_dl = pos 0;
  max_packet_loss_rate_ul = pos 0;
  def_qos_flow_indication = true;
  arp = none;
}

-- The rate is the number of characters: any conversion will do.
video_rates : HasRates length video
unfolding get_bit_rate fields text_eq
video_rates = record {
  maxbr_ul_rate = ((3, 6), refl);
  maxbr_dl_rate = ((3, 6), refl);
  gbr_ul_rate = ((2, 6), refl);
  gbr_dl_rate = tt;
}

read_description-add_description_example :
    (d : QosFlowDescription) × (add_description length video ≡ ok d)
    × (read_description (qfd_bytes d ++ (7 ∷ []))
        ≡ some (
          record {
            qfi = get_qos_flow_id_from_qos_id (codes "5") % 64;
            operation = 1;
            e_bit = 1;
            parameters = map param_view d.param_list;
          },
          7 ∷ [],
        ))
read_description-add_description_example =
    read_description-add_description length video (7 ∷ []) video_rates

-- A rate with a fraction becomes one in Kbps, whatever its unit; a number without a unit is a panic.
bit_rate_test : bit_rate_to_kbps (codes "20 Mbps") ≡ ok 20000
unfolding bit_rate_to_kbps text_eq
bit_rate_test = refl

fraction_test : bit_rate_to_kbps (normalize_bit_rate (codes "20.5 Mbps")) ≡ ok 20
unfolding bit_rate_to_kbps normalize_bit_rate text_eq
fraction_test = refl

no_unit_test : bit_rate_to_kbps (codes "20") ≡ panic
unfolding bit_rate_to_kbps text_eq
no_unit_test = refl
