-- ===== src/Qos/FilterLengths.antt =====
-- The length that GetPfContent counts is that of the components it writes.
use smf_cdac.Base.{
  ℕ, ◌+◌, ◌≤◌, ◌<◌, ◌≡◌, ◌≢◌, refl, Bool, true, false, inl, inr, Bool-cases, Option, none, some,
  List, [], ◌∷◌, ◌++◌, arith, length, length-append, ok,
}
use smf_cdac.Base.Int.{ℤ}
use smf_cdac.Base.Text.{Text, text_eq, text_eq_iff, codes}
use smf_cdac.GoStd.Strconv.{atoi}
use smf_cdac.GoStd.Net.{octets, four_bytes, parse_ip_to4}
use smf_cdac.GoStd.Strings.{split}
use smf_cdac.Qos.Types.{
  FlowDirection, uplink, downlink, bidirectional, unspecified, FlowInformation,
  IpFilterRulePortRange, IpFilterRuleIpAddrV4, IpFilterRule, PacketFilterComponent, PacketFilter,
}
use smf_cdac.Qos.FlowDesc.{decode_flow_desc_to_ip_filters, is_match_all_ip_filter}
use smf_cdac.Qos.Filters.{
  Built, or_nil, mask_text, addr_component, build_pf_comp_addr, single_port, build_pf_comp_port,
  low_port, high_port, build_pf_comp_port_range, protocol, build_pf_comp_protocol_id, add_component,
  pf_content, get_pf_content, get_pf_id, get_pf_direction_from_pcc_flow_info,
  get_packet_filter_from_flow_info,
}
use smf_cdac.Qos.Encode.{marshal_content}
use smf_cdac.Qos.Wire.{FilterFits}

-- The masks can be read, and the limits of port ranges are numbers.
abbrev pub HasMask : IpFilterRuleIpAddrV4 → Type 0
HasMask a = length (or_nil (mask_text a.mask)) ≡ 4

abbrev pub HasLimits : IpFilterRulePortRange → Type 0
HasLimits v =
    v.low_limit ≢ []
    → v.high_limit ≢ []
    → ((atoi v.low_limit).1 ≡ false) × ((atoi v.high_limit).1 ≡ false)

pub record CanEncode (f : IpFilterRule) : Type 0 where
  pub s_mask : HasMask f.s_addrv4
  pub d_mask : HasMask f.d_addrv4
  pub s_limits : HasLimits f.s_port_range
  pub d_limits : HasLimits f.d_port_range

-- A component takes the bytes that its builder reports, and they are at most `j`.
abbrev BuiltFits : ℕ → Built → Type 0
BuiltFits j none = Unit
BuiltFits j (some (c, n)) = (n ≡ 1 + length c.component_value) × (n ≤ j)

four_bytes-length : (o : Option (List ℕ)) (a : List ℕ) → four_bytes o ≡ some a → length a ≡ 4
four_bytes-length none a h = ground arith
four_bytes-length (some bs) a h = ground (arith, h)

addr_component-BuiltFits :
    (kind : ℕ) (o : Option (List ℕ)) (m : Text)
    → ((a : List ℕ) → o ≡ some a → length a ≡ 4)
    → length (or_nil (mask_text m)) ≡ 4
    → BuiltFits 9 (addr_component kind o m)
addr_component-BuiltFits kind none m h k = tt
addr_component-BuiltFits kind (some a) m h k =
    (omega (arith, h a refl, k, length-append a (or_nil (mask_text m))), omega arith)

addr-BuiltFits :
    (loc : Bool) (v : IpFilterRuleIpAddrV4) → HasMask v → BuiltFits 9 (build_pf_comp_addr loc v)
unfolding build_pf_comp_addr parse_ip_to4
addr-BuiltFits true v h = elim (Bool-cases (text_eq v.addr (codes "assigned"))) [
  | inl e ↦ rw e tt
  | inr e ↦
      rw e
        (addr_component-BuiltFits 0x11 _ v.mask (four_bytes-length (octets (split b'.' v.addr))) h)
]
addr-BuiltFits false v h = elim (Bool-cases (text_eq v.addr (codes "any"))) [
  | inl e ↦ rw e tt
  | inr e ↦
      rw e
        (addr_component-BuiltFits 0x10 _ v.mask (four_bytes-length (octets (split b'.' v.addr))) h)
]

single_port-length : (a : ℤ × Bool) → length (single_port a) ≡ 2
single_port-length (n, true) = refl
single_port-length (n, false) = refl

port-BuiltFits : (loc : Bool) (v : Text) → BuiltFits 3 (build_pf_comp_port loc v)
unfolding build_pf_comp_port
port-BuiltFits loc [] = tt
port-BuiltFits loc (c ∷ cs) = (omega (arith, single_port-length (atoi (c ∷ cs))), omega arith)

low_port-length : (a : ℤ × Bool) → a.1 ≡ false → length (low_port a) ≡ 2
low_port-length (n, true) h = ground (arith, h)
low_port-length (n, false) h = refl

high_port-length : (a : ℤ × Bool) → a.1 ≡ false → length (high_port a) ≡ 2
high_port-length (n, true) h = ground (arith, h)
high_port-length (n, false) h = refl

range-BuiltFits :
    (loc : Bool) (v : IpFilterRulePortRange)
    → HasLimits v
    → BuiltFits 5 (build_pf_comp_port_range loc v)
unfolding build_pf_comp_port_range
range-BuiltFits loc v h = elim (Bool-cases (text_eq v.low_limit [])) [
  | inl e ↦ rw e tt
  | inr e ↦ elim (Bool-cases (text_eq v.high_limit [])) [
    | inl k ↦ rw (e, k) tt
    | inr k ↦
        let low : v.low_limit ≢ [] = ground (arith, text_eq_iff v.low_limit []) in
        let high : v.high_limit ≢ [] = ground (arith, text_eq_iff v.high_limit []) in
        let a = low_port-length (atoi v.low_limit) (h low high).0 in
        let b = high_port-length (atoi v.high_limit) (h low high).1 in
        rw (e, k)
          (
            omega (
              arith,
              a,
              b,
              length-append (low_port (atoi v.low_limit)) (high_port (atoi v.high_limit)),
            ),
            omega arith,
          )
  ]
]

protocol-BuiltFits : (a : ℤ × Bool) → BuiltFits 2 (protocol a)
protocol-BuiltFits (n, true) = tt
protocol-BuiltFits (n, false) = (omega arith, omega arith)

protocol_id-BuiltFits : (v : Text) → BuiltFits 2 (build_pf_comp_protocol_id v)
unfolding build_pf_comp_protocol_id
protocol_id-BuiltFits v = elim (Bool-cases (text_eq v (codes "ip"))) [
  | inl e ↦ rw e tt
  | inr e ↦ rw e (protocol-BuiltFits (atoi v))
]

-- The count is right and at most `k`; direction and identifier are those of `q`.
record Sized (k : ℕ) (q pf : PacketFilter) : Type 0 where
  right : pf.content_length ≡ length (marshal_content pf.content)
  small : pf.content_length ≤ k
  same_direction : pf.direction ≡ q.direction
  same_identifier : pf.identifier ≡ q.identifier

marshal_content-length :
    (xs : List PacketFilterComponent) (c : PacketFilterComponent)
    → length (marshal_content (xs ++ (c ∷ [])))
      ≡ length (marshal_content xs) + (1 + length c.component_value)
unfolding marshal_content
marshal_content-length [] c = omega (arith, length-append c.component_value [])
marshal_content-length (x ∷ xs) c = omega (
  arith,
  length-append x.component_value (marshal_content (xs ++ (c ∷ []))),
  length-append x.component_value (marshal_content xs),
  marshal_content-length xs c,
)

add_component-Sized :
    (j k : ℕ) (b : Built) (q pf : PacketFilter)
    → BuiltFits j b
    → k + j < 256
    → Sized k q pf
    → Sized (k + j) q (add_component b pf)
unfolding add_component
add_component-Sized j k none q pf f l s = record {
  right = s.right;
  small = omega (arith, s.small);
  same_direction = s.same_direction;
  same_identifier = s.same_identifier;
}
add_component-Sized j k (some (c, n)) q pf f l s = record {
  right = omega (arith, s.right, s.small, f.0, f.1, marshal_content-length pf.content c);
  small = omega (arith, s.small, f.1);
  same_direction = s.same_direction;
  same_identifier = s.same_identifier;
}

pf_content-Sized :
    (f : IpFilterRule) (pf : PacketFilter)
    → CanEncode f
    → pf.content_length ≡ 0
    → Sized 36 pf (pf_content f pf)
unfolding pf_content marshal_content
pf_content-Sized f pf c z = elim (Bool-cases (is_match_all_ip_filter f)) [
  | inl e ↦
      rw (e, z)
        (record {
          right = refl;
          small = omega arith;
          same_direction = refl;
          same_identifier = refl;
        })
  | inr e ↦
      let s0 : Sized 0 pf (record pf { content = [] }) = record {
        right = z;
        small = omega (arith, z);
        same_direction = refl;
        same_identifier = refl;
      } in
      let s1 =
        add_component-Sized 2 0 (build_pf_comp_protocol_id f.proto_id) pf _
          (protocol_id-BuiltFits f.proto_id) (omega arith) s0 in
      let s2 =
        add_component-Sized 9 2 (build_pf_comp_addr false f.s_addrv4) pf _
          (addr-BuiltFits false f.s_addrv4 c.s_mask) (omega arith) s1 in
      let s3 =
        add_component-Sized 3 11 (build_pf_comp_port false f.s_port) pf _
          (port-BuiltFits false f.s_port) (omega arith) s2 in
      let s4 =
        add_component-Sized 5 14 (build_pf_comp_port_range false f.s_port_range) pf _
          (range-BuiltFits false f.s_port_range c.s_limits) (omega arith) s3 in
      let s5 =
        add_component-Sized 9 19 (build_pf_comp_addr true f.d_addrv4) pf _
          (addr-BuiltFits true f.d_addrv4 c.d_mask) (omega arith) s4 in
      let s6 =
        add_component-Sized 3 28 (build_pf_comp_port true f.d_port) pf _
          (port-BuiltFits true f.d_port) (omega arith) s5 in
      rw e (
        add_component-Sized 5 31 (build_pf_comp_port_range true f.d_port_range) pf _
          (range-BuiltFits true f.d_port_range c.d_limits) (omega arith) s6)
]

direction-small : (d : FlowDirection) → get_pf_direction_from_pcc_flow_info d < 4
unfolding get_pf_direction_from_pcc_flow_info
direction-small uplink = omega arith
direction-small downlink = omega arith
direction-small bidirectional = omega arith
direction-small unspecified = omega arith

-- A flow description of which every mask and every limit of a port range can be read, and an
-- identifier of at most four bits, make a packet filter that the format has room for, and whose length
-- field is the length of its components, at most 36 bytes.
pub packet_filter-FilterFits :
    (info : FlowInformation) (f : IpFilterRule)
    → decode_flow_desc_to_ip_filters info.flow_description ≡ ok f
    → CanEncode f
    → get_pf_id info.pack_filt_id < 16
    → (pf : PacketFilter) × (get_packet_filter_from_flow_info info ≡ ok pf)
      × FilterFits pf
      × (pf.content_length ≤ 36)
unfolding get_packet_filter_from_flow_info get_pf_content
packet_filter-FilterFits info f e c small =
    let start : PacketFilter = record {
      content = [];
      direction = get_pf_direction_from_pcc_flow_info info.flow_direction;
      identifier = get_pf_id info.pack_filt_id;
      content_length = 0;
    } in
    let s = pf_content-Sized f start c refl in
    (
      pf_content f start,
      rw e refl,
      record {
        direction_fits = rw s.same_direction (direction-small info.flow_direction);
        identifier_fits = rw s.same_identifier small;
        length_right = s.right;
      },
      s.small,
    )
