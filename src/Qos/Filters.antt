-- ===== src/Qos/Filters.antt =====
-- qos/qos_rule.go: the components of a packet filter, GetPfContent and GetPacketFilterFromFlowInfo.
-- A component comes with the length that its builder reports.
use smf_cdac.Base.{
  ℕ, ◌+◌, ◌/◌, ◌%◌, Bool, true, false, ◌||◌, Option, none, some, List, [], ◌∷◌, ◌++◌, if◌then◌else◌,
  Outcome, ok, ◌>>=◌,
}
use smf_cdac.Base.Int.{ℤ, pos, to_u8, to_u16}
use smf_cdac.Base.Text.{Text, codes, text_eq}
use smf_cdac.GoStd.Strconv.{atoi}
use smf_cdac.GoStd.Net.{parse_ip_to4, cidr_mask}
use smf_cdac.Qos.Types.{
  FlowDirection, uplink, downlink, bidirectional, unspecified, FlowInformation,
  IpFilterRulePortRange, IpFilterRuleIpAddrV4, IpFilterRule, PacketFilterComponent, PacketFilter,
}
use smf_cdac.Qos.FlowDesc.{decode_flow_desc_to_ip_filters, is_match_all_ip_filter}

abbrev pub Built : Type 0
Built = Option (PacketFilterComponent × ℕ)

abbrev pub component : ℕ → List ℕ → PacketFilterComponent
component kind value = record { component_value = value; component_type = kind }

-- A nil mask appends nothing.
abbrev pub or_nil : Option (List ℕ) → List ℕ
or_nil none = []
or_nil (some bs) = bs

abbrev pub mask_text : Text → Option (List ℕ)
mask_text [] = cidr_mask (pos 32)
mask_text (c ∷ cs) = cidr_mask (atoi (c ∷ cs)).0

abbrev pub addr_component : ℕ → Option (List ℕ) → Text → Built
addr_component kind none m = none
addr_component kind (some a) m = some (component kind (a ++ or_nil (mask_text m)), 9)

-- buildPFCompAddr.
unfoldable pub build_pf_comp_addr : Bool → IpFilterRuleIpAddrV4 → Built
unfolding parse_ip_to4
build_pf_comp_addr true v =
    if text_eq v.addr (codes "assigned")
    then none
    else addr_component 0x11 (parse_ip_to4 v.addr) v.mask
build_pf_comp_addr false v =
    if text_eq v.addr (codes "any") then none else addr_component 0x10 (parse_ip_to4 v.addr) v.mask

-- The two bytes of `uint16(port)`.
abbrev pub port_bytes : ℤ → List ℕ
port_bytes port = to_u16 port / 256 ∷ to_u16 port % 256 ∷ []

abbrev pub single_port : ℤ × Bool → List ℕ
single_port (port, true) = 0 ∷ 0 ∷ []
single_port (port, false) = port_bytes port

-- buildPFCompPort.
unfoldable pub build_pf_comp_port : Bool → Text → Built
unfolding atoi
build_pf_comp_port loc [] = none
build_pf_comp_port loc (c ∷ cs) =
    some (component (if loc then 0x40 else 0x50) (single_port (atoi (c ∷ cs))), 3)

-- The low port takes the place of the four zeroes, the high port is appended.
abbrev pub low_port : ℤ × Bool → List ℕ
low_port (port, true) = 0 ∷ 0 ∷ 0 ∷ 0 ∷ []
low_port (port, false) = port_bytes port

abbrev pub high_port : ℤ × Bool → List ℕ
high_port (port, true) = []
high_port (port, false) = port_bytes port

-- buildPFCompPortRange.
unfoldable pub build_pf_comp_port_range : Bool → IpFilterRulePortRange → Built
unfolding atoi
build_pf_comp_port_range loc v =
    if text_eq v.low_limit [] || text_eq v.high_limit []
    then none
    else some (
      component (if loc then 0x41 else 0x51)
          (low_port (atoi v.low_limit) ++ high_port (atoi v.high_limit)),
      5,
    )

abbrev pub protocol : ℤ × Bool → Built
protocol (val, true) = none
protocol (val, false) = some (component 0x30 (to_u8 val ∷ []), 2)

-- BuildPFCompProtocolId: the last byte of the number.
unfoldable pub build_pf_comp_protocol_id : Text → Built
unfolding atoi
build_pf_comp_protocol_id val = if text_eq val (codes "ip") then none else protocol (atoi val)

-- One step of GetPfContent: a component that is built is appended, and its length counted.
unfoldable pub add_component : Built → PacketFilter → PacketFilter
add_component none pf = pf
add_component (some (c, n)) pf = record pf {
  content = pf.content ++ (c ∷ []);
  content_length = (pf.content_length + n) % 256;
}

-- GetPfContent, behind the decoding; the filter has no content before.
unfoldable pub pf_content : IpFilterRule → PacketFilter → PacketFilter
unfolding add_component is_match_all_ip_filter
pf_content f pf =
    if is_match_all_ip_filter f
    then record pf {
      content = component 0x01 [] ∷ [];
      content_length = (pf.content_length + 1) % 256;
    }
    else (let pf1 =
          add_component (build_pf_comp_protocol_id f.proto_id) (record pf { content = [] }) in
        let pf2 = add_component (build_pf_comp_addr false f.s_addrv4) pf1 in
        let pf3 = add_component (build_pf_comp_port false f.s_port) pf2 in
        let pf4 = add_component (build_pf_comp_port_range false f.s_port_range) pf3 in
        let pf5 = add_component (build_pf_comp_addr true f.d_addrv4) pf4 in
        let pf6 = add_component (build_pf_comp_port true f.d_port) pf5 in
        add_component (build_pf_comp_port_range true f.d_port_range) pf6)

-- GetPfContent.
unfoldable pub get_pf_content : Text → PacketFilter → Outcome PacketFilter
unfolding decode_flow_desc_to_ip_filters pf_content
get_pf_content flow_desc pf = decode_flow_desc_to_ip_filters flow_desc >>= λ f. ok (pf_content f pf)

abbrev pub id_or_zero : ℤ × Bool → ℕ
id_or_zero (id, true) = 0
id_or_zero (id, false) = to_u8 id

-- GetPfId.
unfoldable pub get_pf_id : Text → ℕ
unfolding atoi
get_pf_id [] = 0
get_pf_id (c ∷ cs) = id_or_zero (atoi (c ∷ cs))

-- GetPfDirectionFromPccFlowInfo.
unfoldable pub get_pf_direction_from_pcc_flow_info : FlowDirection → ℕ
get_pf_direction_from_pcc_flow_info uplink = 2
get_pf_direction_from_pcc_flow_info downlink = 1
get_pf_direction_from_pcc_flow_info bidirectional = 3
get_pf_direction_from_pcc_flow_info unspecified = 3

-- GetPacketFilterFromFlowInfo.
unfoldable pub get_packet_filter_from_flow_info : FlowInformation → Outcome PacketFilter
unfolding get_pf_content get_pf_id get_pf_direction_from_pcc_flow_info
get_packet_filter_from_flow_info info = get_pf_content info.flow_description (record {
  content = [];
  direction = get_pf_direction_from_pcc_flow_info info.flow_direction;
  identifier = get_pf_id info.pack_filt_id;
  content_length = 0;
})
