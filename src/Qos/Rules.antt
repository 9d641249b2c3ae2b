-- ===== src/Qos/Rules.antt =====
-- qos/qos_rule.go: the builders of QoS rules, and qos/qos_flow.go: the look-up of QoS data. A Go map
-- has no order; a Dict is visited from its front.
use smf_cdac.Base.{
  ℕ, Bool, true, false, ◌||◌, Option, none, some, List, [], ◌∷◌, ◌++◌, ◌==◌, if◌then◌else◌, Outcome,
  ok, panic, ◌>>=◌,
}
use smf_cdac.Base.Int.{to_u8}
use smf_cdac.Base.Text.{Text}
use smf_cdac.Base.Dict.{lookup}
use smf_cdac.GoStd.Strconv.{atoi}
use smf_cdac.Qos.Types.{FlowInformation, PccRule, QosData, PacketFilter, QosRule, PointerMap}
use smf_cdac.Qos.Filters.{component, id_or_zero, get_packet_filter_from_flow_info}

-- BuildAddDefaultQosRule.
unfoldable pub build_add_default_qos_rule : ℕ → QosRule
build_add_default_qos_rule def_qfi = record {
  packet_filter_list =
      record {
        content = component 0x01 [] ∷ [];
        direction = 3;
        identifier = 255;
        content_length = 1;
      }
      ∷ [];
  rule_identifier = 255;
  operation_code = 1;
  dqr = 1;
  segregation = 0;
  rule_precedence = 255;
  qfi = def_qfi;
}

-- btou.
abbrev pub btou : Bool → ℕ
btou true = 1
btou false = 0

-- GetQosRuleIdFromPccRuleId.
unfoldable pub get_qos_rule_id_from_pcc_rule_id : Text → ℕ
unfolding atoi
get_qos_rule_id_from_pcc_rule_id s = id_or_zero (atoi s)

-- GetQosFlowIdFromQosId.
unfoldable pub get_qos_flow_id_from_qos_id : Text → ℕ
unfolding atoi
get_qos_flow_id_from_qos_id s = id_or_zero (atoi s)

-- BuildPacketFilterListFromPccRule, on its FlowInfos.
unfoldable pub build_packet_filter_list : List FlowInformation → Outcome (List PacketFilter)
unfolding get_packet_filter_from_flow_info
build_packet_filter_list [] = ok []
build_packet_filter_list (f ∷ fs) = get_packet_filter_from_flow_info f >>= λ pf.
    build_packet_filter_list fs >>= λ pfs. ok (pf ∷ pfs)

abbrev pub rule_head : PccRule → QosData → ℕ → QosRule
rule_head rule qos_data op = record {
  packet_filter_list = [];
  rule_identifier = get_qos_rule_id_from_pcc_rule_id rule.pcc_rule_id;
  operation_code = op;
  dqr = btou qos_data.def_qos_flow_indication;
  segregation = 0;
  rule_precedence = to_u8 rule.precedence;
  qfi = get_qos_flow_id_from_qos_id qos_data.qos_id;
}

-- BuildAddQoSRuleFromPccRule; nil QoS data panics.
unfoldable pub build_add_qos_rule_from_pcc_rule : PccRule → Option QosData → ℕ → Outcome QosRule
unfolding build_packet_filter_list
build_add_qos_rule_from_pcc_rule rule none op = panic
build_add_qos_rule_from_pcc_rule rule (some q) op =
    build_packet_filter_list rule.flow_infos >>= λ pfs.
    ok (record (rule_head rule q op) { packet_filter_list = pfs })

-- BuildModifyQosRuleFromPccRule: packet filters for three of the operation codes.
unfoldable pub build_modify_qos_rule_from_pcc_rule : PccRule → Option QosData → ℕ → Outcome QosRule
unfolding build_packet_filter_list
build_modify_qos_rule_from_pcc_rule rule none op = panic
build_modify_qos_rule_from_pcc_rule rule (some q) op =
    if op == 3 || op == 4 || op == 5
    then (build_packet_filter_list rule.flow_infos >>= λ pfs.
        ok (record (rule_head rule q op) { packet_filter_list = pfs }))
    else ok (rule_head rule q op)

-- BuildDeleteQosRuleFromPccRule; `none` is nil.
unfoldable pub build_delete_qos_rule_from_pcc_rule : Text → Option QosRule
unfolding get_qos_rule_id_from_pcc_rule_id
build_delete_qos_rule_from_pcc_rule [] = none
build_delete_qos_rule_from_pcc_rule (c ∷ cs) = some (record {
  packet_filter_list = [];
  rule_identifier = get_qos_rule_id_from_pcc_rule_id (c ∷ cs);
  operation_code = 2;
  dqr = 0;
  segregation = 0;
  rule_precedence = 0;
  qfi = 0;
})

-- GetQoSDataFromPolicyDecision, on the decision's QosDecs (empty for a nil decision or a nil map).
unfoldable pub get_qos_data_from_policy_decision : PointerMap QosData → Text → Option QosData
unfolding lookup
get_qos_data_from_policy_decision decs ref = elim (lookup ref decs) [ none ↦ none | some q ↦ q ]

-- PccRulesUpdate and the like: three maps.
pub record RulesUpdate (V : Type 0) : Type 0 where
  pub add : PointerMap V
  pub modify : PointerMap V
  pub del : PointerMap V

-- The first QoS data that a rule refers to; a rule without a reference panics.
abbrev pub first_ref : PccRule → Outcome Text
first_ref rule = elim rule.ref_qos_data [ [] ↦ panic | r ∷ rs ↦ ok r ]

abbrev pub build_one : PointerMap QosData → Option PccRule → Outcome QosRule
build_one decs none = panic
build_one decs (some rule) = first_ref rule >>= λ ref.
    build_add_qos_rule_from_pcc_rule rule (get_qos_data_from_policy_decision decs ref) 1

-- The loop over the rules to add, and that over the rules to modify.
unfoldable pub build_all : PointerMap QosData → PointerMap PccRule → Outcome (List QosRule)
build_all decs [] = ok []
build_all decs ((name, rule) ∷ rules) =
    build_one decs rule >>= λ q. build_all decs rules >>= λ qs. ok (q ∷ qs)

abbrev pub or_skip : Option QosRule → List QosRule → List QosRule
or_skip none qs = qs
or_skip (some q) qs = q ∷ qs

-- The loop over the rules to delete, by their names.
unfoldable pub delete_all : PointerMap PccRule → List QosRule
delete_all [] = []
delete_all ((name, rule) ∷ rules) =
    or_skip (build_delete_qos_rule_from_pcc_rule name) (delete_all rules)

-- BuildQosRules and BuildQosRulespdumod, on the decision's QosDecs and the update of the PCC rules.
unfoldable pub build_qos_rules :
    PointerMap QosData → Option (RulesUpdate PccRule) → Outcome (List QosRule)
unfolding build_all delete_all
build_qos_rules decs none = ok []
build_qos_rules decs (some update) = build_all decs update.add >>= λ added.
    build_all decs update.modify >>= λ modified. ok (added ++ modified ++ delete_all update.del)
