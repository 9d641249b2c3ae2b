-- ===== src/Qos/FlowDesc.antt =====
-- qos/qos_rule.go: DecodeFlowDescToIPFilters and its helpers. An index past the last word panics.
use smf_cdac.Base.{
  ℕ, ◌+◌, Bool, true, false, ◌&&◌, none, some, List, [], ◌∷◌, ◌==◌, if◌then◌else◌, length,
  get_elem?, Outcome, ok, panic, ◌>>=◌,
}
use smf_cdac.Base.Text.{Text, codes, text_eq}
use smf_cdac.GoStd.Strings.{split, fields}
use smf_cdac.Qos.Types.{IpFilterRulePortRange, IpFilterRuleIpAddrV4, IpFilterRule}

abbrev pub at_index : List Text → ℕ → Outcome Text
at_index ws i = elim (get_elem? ws i) [ none ↦ panic | some w ↦ ok w ]

abbrev pub no_range : IpFilterRulePortRange
no_range = record { low_limit = []; high_limit = [] }

abbrev pub no_addr : IpFilterRuleIpAddrV4
no_addr = record { addr = []; mask = [] }

abbrev pub empty_rule : IpFilterRule
empty_rule = record {
  proto_id = [];
  s_port = [];
  d_port = [];
  s_port_range = no_range;
  d_port_range = no_range;
  s_addrv4 = no_addr;
  d_addrv4 = no_addr;
}

-- decodeIpFilterPortInfo; the split has one part at least.
abbrev pub ports_of : Bool → List Text → IpFilterRule → IpFilterRule
ports_of source [] f = f
ports_of true (p ∷ []) f = record f { s_port = p }
ports_of false (p ∷ []) f = record f { d_port = p }
ports_of true (p ∷ q ∷ more) f = record f {
  s_port_range = record { low_limit = p; high_limit = q };
}
ports_of false (p ∷ q ∷ more) f = record f {
  d_port_range = record { low_limit = p; high_limit = q };
}

unfoldable pub decode_ip_filter_port_info : Bool → Text → IpFilterRule → IpFilterRule
unfolding split
decode_ip_filter_port_info source tag f = ports_of source (split b'-' tag) f

-- decodeIpFilterAddrv4.
abbrev pub addr_of : List Text → IpFilterRuleIpAddrV4 → IpFilterRuleIpAddrV4
addr_of [] a = a
addr_of (ip ∷ []) a = record a { addr = ip }
addr_of (ip ∷ m ∷ more) a = record { addr = ip; mask = m }

unfoldable pub decode_ip_filter_addrv4 : Bool → Text → IpFilterRule → IpFilterRule
unfolding split
decode_ip_filter_addrv4 true tag f = record f { s_addrv4 = addr_of (split b'/' tag) f.s_addrv4 }
decode_ip_filter_addrv4 false tag f = record f { d_addrv4 = addr_of (split b'/' tag) f.d_addrv4 }

-- The destination port, if the description has as many words as that takes.
abbrev pub last_port : ℕ → List Text → IpFilterRule → Outcome IpFilterRule
last_port i ws f =
    if length ws == i + 1
    then (at_index ws i >>= λ port. ok (decode_ip_filter_port_info false port f))
    else ok f

-- What follows the source address.
abbrev pub decode_rest : List Text → IpFilterRule → Outcome IpFilterRule
decode_rest ws f = at_index ws 6 >>= λ w6.
    if text_eq w6 (codes "to")
    then (at_index ws 5 >>= λ w5. at_index ws 7 >>= λ w7.
        last_port 8 ws (decode_ip_filter_addrv4 false w7 (decode_ip_filter_port_info true w5 f)))
    else last_port 7 ws (decode_ip_filter_addrv4 false w6 f)

abbrev pub decode_words : List Text → Outcome IpFilterRule
decode_words ws = at_index ws 2 >>= λ w2. at_index ws 4 >>= λ w4.
    decode_rest ws (decode_ip_filter_addrv4 true w4 (record empty_rule { proto_id = w2 }))

-- DecodeFlowDescToIPFilters.
unfoldable pub decode_flow_desc_to_ip_filters : Text → Outcome IpFilterRule
unfolding fields
decode_flow_desc_to_ip_filters flow_desc = decode_words (fields flow_desc)

-- IsMatchAllIPFilter.
unfoldable pub is_match_all_ip_filter : IpFilterRule → Bool
is_match_all_ip_filter f =
    text_eq f.s_addrv4.addr (codes "any") && text_eq f.d_addrv4.addr (codes "assigned")
