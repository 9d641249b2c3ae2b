-- ===== src/Qos/Types.antt =====
-- The types of qos/qos_rule.go, and what the package reads of the PCF's models.
use smf_cdac.Base.{ℕ, Bool, Option, List}
use smf_cdac.Base.Int.{ℤ}
use smf_cdac.Base.Text.{Text}
use smf_cdac.Base.Dict.{Dict}

-- models.FlowDirectionRm: its three values, and any other text.
pub data FlowDirection : Type 0 where
  uplink downlink bidirectional unspecified : FlowDirection

-- models.FlowInformation.
pub record FlowInformation : Type 0 where
  pub flow_description : Text
  pub pack_filt_id : Text
  pub flow_direction : FlowDirection
  pub tos_traffic_class : Text
  pub flow_label : Text
  pub spi : Text

-- models.PccRule.
pub record PccRule : Type 0 where
  pub pcc_rule_id : Text
  pub app_id : Text
  pub cont_ver : ℤ
  pub precedence : ℤ
  pub af_sig_protocol : Text
  pub app_reloc : Bool
  pub ref_cond_data : Text
  pub ref_qos_data : List Text
  pub ref_tc_data : List Text
  pub ref_chg_data : List Text
  pub ref_um_data : List Text
  pub flow_infos : List FlowInformation

-- models.Arp.
pub record Arp : Type 0 where
  pub priority_level : ℤ
  pub preempt_cap : Text
  pub preempt_vuln : Text

-- models.QosData.
pub record QosData : Type 0 where
  pub qos_id : Text
  pub var_5qi : ℤ
  pub maxbr_ul : Text
  pub maxbr_dl : Text
  pub gbr_ul : Text
  pub gbr_dl : Text
  pub qnc : Bool
  pub qos_priority_level : ℤ
  pub aver_window : ℤ
  pub max_data_burst_vol : ℤ
  pub reflective_qos : Bool
  pub sharing_key_dl : Text
  pub sharing_key_ul : Text
  pub max_packet_loss_rate_dl : ℤ
  pub max_packet_loss_rate_ul : ℤ
  pub def_qos_flow_indication : Bool
  pub arp : Option Arp

-- IPFilterRulePortRange and IPFilterRuleIpAddrV4.
pub record IpFilterRulePortRange : Type 0 where
  pub low_limit : Text
  pub high_limit : Text

pub record IpFilterRuleIpAddrV4 : Type 0 where
  pub addr : Text
  pub mask : Text

pub record IpFilterRule : Type 0 where
  pub proto_id : Text
  pub s_port : Text
  pub d_port : Text
  pub s_port_range : IpFilterRulePortRange
  pub d_port_range : IpFilterRulePortRange
  pub s_addrv4 : IpFilterRuleIpAddrV4
  pub d_addrv4 : IpFilterRuleIpAddrV4

pub record PacketFilterComponent : Type 0 where
  pub component_value : List ℕ
  pub component_type : ℕ

pub record PacketFilter : Type 0 where
  pub content : List PacketFilterComponent
  pub direction : ℕ
  pub identifier : ℕ
  pub content_length : ℕ

-- QosRule, less Length, which nothing sets or reads.
pub record QosRule : Type 0 where
  pub packet_filter_list : List PacketFilter
  pub rule_identifier : ℕ
  pub operation_code : ℕ
  pub dqr : ℕ
  pub segregation : ℕ
  pub rule_precedence : ℕ
  pub qfi : ℕ

-- A map from names to pointers; `none` is nil.
abbrev pub PointerMap : Type 0 → Type 0
PointerMap V = Dict (Option V)
