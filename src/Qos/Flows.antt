-- ===== src/Qos/Flows.antt =====
-- qos/qos_flow.go: the builders of QoS flow descriptions. `rate16` stands for `uint16` of what
-- strconv.ParseFloat returns, 0 at an error; the conversion of a float is not modelled.
use smf_cdac.Base.{
  ℕ, ◌%◌, Bool, true, false, Option, none, some, List, [], ◌∷◌, length, ◌==◌, if◌then◌else◌,
  Outcome, ok, panic, ◌>>=◌,
}
use smf_cdac.Base.Int.{ℤ, pos, to_u8, ◌==ℤ◌}
use smf_cdac.Base.Text.{Text, codes, text_eq}
use smf_cdac.GoStd.Strings.{fields}
use smf_cdac.GoStd.Strconv.{atoi}
use smf_cdac.Qos.Types.{QosData, PccRule, PointerMap}
use smf_cdac.Qos.Rules.{get_qos_flow_id_from_qos_id, RulesUpdate}
use smf_cdac.Qos.FlowTypes.{
  QosFlowDescription, QosFlowDescriptionsAuthorized, empty_qfd, set_qos_flow_desc_qfi,
  set_qos_flow_desc_op_code, set_qfd_e_bit_create_new_qfd, set_qfd_e_bit_delete_existing_qfd,
  set_qos_flow_param_bit_rate, add_param, add_qos_flow_param_5qi, add_qfd,
}

abbrev pub unit_code : Text → ℕ
unit_code w =
    if text_eq w (codes "Kbps") then 0x01 else (if text_eq w (codes "Gbps") then 0x0B else 0x06)

abbrev pub rate_words : (Text → ℕ) → List Text → Outcome (ℕ × ℕ)
rate_words rate16 (w ∷ u ∷ more) = ok (rate16 w, unit_code u)
rate_words rate16 _ = panic

-- GetBitRate: the rate and the unit; fewer than two words panic.
unfoldable pub get_bit_rate : (Text → ℕ) → Text → Outcome (ℕ × ℕ)
unfolding fields
get_bit_rate rate16 s = rate_words rate16 (fields s)

-- addQosFlowRateParam, where the rate is not empty.
unfoldable pub add_qos_flow_rate_param :
    (Text → ℕ) → Text → ℕ → QosFlowDescription → Outcome QosFlowDescription
unfolding get_bit_rate set_qos_flow_param_bit_rate
add_qos_flow_rate_param rate16 [] rate_type d = ok d
add_qos_flow_rate_param rate16 (c ∷ cs) rate_type d = get_bit_rate rate16 (c ∷ cs) >>= λ r.
    ok (add_param (set_qos_flow_param_bit_rate rate_type r.1 r.0) 5 d)

-- MFBR and GFBR, up and down.
unfoldable pub add_rates : (Text → ℕ) → QosData → QosFlowDescription → Outcome QosFlowDescription
add_rates rate16 q d0 = add_qos_flow_rate_param rate16 q.maxbr_ul 0x04 d0 >>= λ d1.
    add_qos_flow_rate_param rate16 q.maxbr_dl 0x05 d1 >>= λ d2.
    add_qos_flow_rate_param rate16 q.gbr_ul 0x02 d2 >>= λ d3.
    add_qos_flow_rate_param rate16 q.gbr_dl 0x03 d3

-- BuildAddQosFlowDescFromQoSDesc, up to AddQFD.
unfoldable pub add_description : (Text → ℕ) → QosData → Outcome QosFlowDescription
unfolding add_rates set_qos_flow_desc_qfi set_qos_flow_desc_op_code add_qos_flow_param_5qi
    set_qfd_e_bit_create_new_qfd
add_description rate16 q =
    let d = add_qos_flow_param_5qi (to_u8 q.var_5qi) (
      set_qos_flow_desc_op_code 0x20
        (set_qos_flow_desc_qfi (get_qos_flow_id_from_qos_id q.qos_id) empty_qfd)) in
    add_rates rate16 q d >>= λ d'. ok (set_qfd_e_bit_create_new_qfd d')

-- BuildModQosFlowDescFromQoSDesc, up to AddQFD: the 5QI only where it is not 0.
unfoldable pub mod_description : (Text → ℕ) → QosData → Outcome QosFlowDescription
unfolding add_rates set_qos_flow_desc_qfi set_qos_flow_desc_op_code add_qos_flow_param_5qi
    set_qfd_e_bit_create_new_qfd
mod_description rate16 q =
    let d =
      set_qos_flow_desc_op_code 0x40
        (set_qos_flow_desc_qfi (get_qos_flow_id_from_qos_id q.qos_id) empty_qfd) in
    let e = if q.var_5qi ==ℤ pos 0 then d else add_qos_flow_param_5qi (to_u8 q.var_5qi) d in
    add_rates rate16 q e >>= λ d'. ok (set_qfd_e_bit_create_new_qfd d')

-- BuildDelQosFlowDescFromQoSDesc, up to AddQFD.
unfoldable pub del_description : ℕ → QosFlowDescription
unfolding set_qos_flow_desc_qfi set_qos_flow_desc_op_code set_qfd_e_bit_delete_existing_qfd
del_description id =
    set_qfd_e_bit_delete_existing_qfd
      (set_qos_flow_desc_op_code 0x60 (set_qos_flow_desc_qfi id empty_qfd))

-- The description of AddDefaultQosFlowDescription, from the 5QI of the session rule.
unfoldable pub default_description : ℤ → QosFlowDescription
unfolding set_qos_flow_desc_qfi set_qos_flow_desc_op_code add_qos_flow_param_5qi
    set_qfd_e_bit_create_new_qfd
default_description five_qi = set_qfd_e_bit_create_new_qfd (
    add_qos_flow_param_5qi (to_u8 five_qi)
      (set_qos_flow_desc_op_code 0x20 (set_qos_flow_desc_qfi (to_u8 five_qi) empty_qfd)))

-- The three loops of BuildAuthorizedQosFlowDescriptions that add to the IE. A nil QoS data panics.
unfoldable pub add_flows :
    (Text → ℕ)
    → PointerMap QosData
    → QosFlowDescriptionsAuthorized
    → Outcome QosFlowDescriptionsAuthorized
unfolding add_description add_qfd
add_flows rate16 [] ie = ok ie
add_flows rate16 ((name, none) ∷ flows) ie = panic
add_flows rate16 ((name, some q) ∷ flows) ie =
    add_description rate16 q >>= λ d. add_flows rate16 flows (add_qfd d ie)

abbrev pub delete_flow : ℤ × Bool → QosFlowDescriptionsAuthorized → QosFlowDescriptionsAuthorized
delete_flow (id, true) ie = ie
delete_flow (id, false) ie = add_qfd (del_description (to_u8 id)) ie

unfoldable pub delete_flows :
    PointerMap QosData → QosFlowDescriptionsAuthorized → QosFlowDescriptionsAuthorized
unfolding del_description add_qfd
delete_flows [] ie = ie
delete_flows ((name, q) ∷ flows) ie = delete_flows flows (delete_flow (atoi name) ie)

-- Where the update has no flows: the PCC rules to delete, less those whose QFI is 0.
abbrev pub delete_rule_flow :
    ℤ × Bool → QosFlowDescriptionsAuthorized → QosFlowDescriptionsAuthorized
delete_rule_flow (id, true) ie = ie
delete_rule_flow (id, false) ie =
    if to_u8 id == 0 then ie else add_qfd (del_description (to_u8 id)) ie

unfoldable pub delete_rule_flows :
    PointerMap PccRule → QosFlowDescriptionsAuthorized → QosFlowDescriptionsAuthorized
unfolding del_description add_qfd
delete_rule_flows [] ie = ie
delete_rule_flows ((name, rule) ∷ rules) ie =
    delete_rule_flows rules (delete_rule_flow (atoi name) ie)

abbrev pub empty_ie : QosFlowDescriptionsAuthorized
empty_ie = record { content = []; ie_len = 0 }

abbrev pub with_length : QosFlowDescriptionsAuthorized → QosFlowDescriptionsAuthorized
with_length ie = record ie { ie_len = length ie.content % 65536 }

-- BuildAuthorizedQosFlowDescriptions, on the updates of the flows and of the PCC rules; `none` is nil.
unfoldable pub build_authorized_qos_flow_descriptions :
    (Text → ℕ)
    → Option (RulesUpdate QosData)
    → Option (RulesUpdate PccRule)
    → Outcome QosFlowDescriptionsAuthorized
unfolding add_flows delete_flows delete_rule_flows
build_authorized_qos_flow_descriptions rate16 none none = panic
build_authorized_qos_flow_descriptions rate16 none (some rules) =
    ok (with_length (delete_rule_flows rules.del empty_ie))
build_authorized_qos_flow_descriptions rate16 (some flows) rules =
    add_flows rate16 flows.add empty_ie >>= λ ie.
    add_flows rate16 flows.modify ie >>= λ ie'. ok (with_length (delete_flows flows.del ie'))
