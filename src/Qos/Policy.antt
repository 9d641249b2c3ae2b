-- ===== src/Qos/Policy.antt =====
-- qos/smPolicyData.go with qos/pcc_rule.go, qos/qos_flow.go, qos/traffic_control_data.go and
-- qos/session_rule.go: the update that a policy decision makes, and its commit.
use smf_cdac.Base.{Bool, Option, none, some, [], ◌∷◌, if◌then◌else◌}
use smf_cdac.Base.Int.{ℤ}
use smf_cdac.Base.Text.{Text}
use smf_cdac.Base.Dict.{lookup, insert, delete}
use smf_cdac.Qos.Types.{FlowInformation, PccRule, QosData, PointerMap}
use smf_cdac.Qos.Rules.{RulesUpdate}
use smf_cdac.Qos.Changes.{
  get_pcc_rule_changes, get_qos_data_changes, TrafficControlData, get_tc_data_changes,
}

-- What a map gives for a name: nil where it has none.
abbrev pub nil_or : {V : Type 0} → Option (Option V) → Option V
nil_or none = none
nil_or (some p) = p

abbrev pub pointer : {V : Type 0} → Text → PointerMap V → Option V
pointer name m = nil_or (lookup name m)

abbrev pub no_update : {V : Type 0} → RulesUpdate V
no_update = record { add = []; modify = []; del = [] }

-- A rule that is not nil is added where the context has none, and modified where it has another.
abbrev pub note :
    {V : Type 0} → (V → V → Bool) → Text → V → Option V → RulesUpdate V → RulesUpdate V
note changes name v none u = record u { add = insert name (some v) u.add }
note changes name v (some w) u =
    if changes v w then record u { modify = insert name (some v) u.modify } else u

-- The loop over the PCF's map.
unfoldable pub collect :
    {V : Type 0} → (V → V → Bool) → PointerMap V → PointerMap V → RulesUpdate V → RulesUpdate V
unfolding lookup insert
collect changes ctxt [] u = u
collect changes ctxt ((name, none) ∷ rules) u =
    collect changes ctxt rules (record u { del = insert name none u.del })
collect changes ctxt ((name, some v) ∷ rules) u =
    collect changes ctxt rules (note changes name v (pointer name ctxt) u)

-- An empty map makes no update.
unfoldable pub get_update :
    {V : Type 0} → (V → V → Bool) → PointerMap V → PointerMap V → Option (RulesUpdate V)
unfolding collect
get_update changes [] ctxt = none
get_update changes (e ∷ rules) ctxt = some (collect changes ctxt (e ∷ rules) no_update)

unfoldable pub get_pcc_rules_update :
    (FlowInformation → FlowInformation → Bool)
    → PointerMap PccRule
    → PointerMap PccRule
    → Option (RulesUpdate PccRule)
unfolding get_update get_pcc_rule_changes
get_pcc_rules_update same_flow = get_update (get_pcc_rule_changes same_flow)

unfoldable pub get_qos_flow_desc_update :
    PointerMap QosData → PointerMap QosData → Option (RulesUpdate QosData)
unfolding get_update get_qos_data_changes
get_qos_flow_desc_update = get_update get_qos_data_changes

unfoldable pub get_traffic_control_update :
    PointerMap TrafficControlData
    → PointerMap TrafficControlData
    → Option (RulesUpdate TrafficControlData)
unfolding get_update get_tc_data_changes
get_traffic_control_update = get_update get_tc_data_changes

-- models.Ambr, and models.SessionRule, with the 5QI of its AuthDefQos.
pub record Ambr : Type 0 where
  pub uplink : Text
  pub downlink : Text

pub record SessionRule : Type 0 where
  pub auth_def_5qi : ℤ
  pub auth_sess_ambr : Option Ambr

-- SessRulesUpdate: the maps, and the rule to activate.
pub record SessRulesUpdate : Type 0 where
  pub rules : RulesUpdate SessionRule
  pub active : Option SessionRule
  pub active_name : Text

-- Session rules that the context has count as modified.
abbrev pub note_session :
    Text → SessionRule → Option SessionRule → SessRulesUpdate → SessRulesUpdate
note_session name v none u = record {
  rules = record u.rules { add = insert name (some v) u.rules.add };
  active = some v;
  active_name = name;
}
note_session name v (some w) u = record u {
  rules = record u.rules { modify = insert name (some v) u.rules.modify };
}

unfoldable pub collect_session :
    PointerMap SessionRule → PointerMap SessionRule → SessRulesUpdate → SessRulesUpdate
unfolding lookup insert
collect_session ctxt [] u = u
collect_session ctxt ((name, none) ∷ more) u =
    collect_session ctxt more
      (record u { rules = record u.rules { del = insert name none u.rules.del } })
collect_session ctxt ((name, some v) ∷ more) u =
    collect_session ctxt more (note_session name v (pointer name ctxt) u)

unfoldable pub get_session_rules_update :
    PointerMap SessionRule → PointerMap SessionRule → Option SessRulesUpdate
unfolding collect_session
get_session_rules_update [] ctxt = none
get_session_rules_update (e ∷ more) ctxt = some (
    collect_session ctxt (e ∷ more) (record { rules = no_update; active = none; active_name = [] }))

-- The loops of a commit: what is added is put, what is deleted is removed.
unfoldable pub put_all : {V : Type 0} → PointerMap V → PointerMap V → PointerMap V
unfolding insert
put_all [] m = m
put_all ((name, p) ∷ more) m = put_all more (insert name p m)

unfoldable pub delete_names : {V : Type 0} → PointerMap V → PointerMap V → PointerMap V
unfolding delete
delete_names [] m = m
delete_names ((name, p) ∷ more) m = delete_names more (delete name m)

-- CommitPccRulesUpdate, CommitQosFlowDescUpdate and CommitTrafficControlUpdate, each on its map: what is
-- modified is left for later.
unfoldable pub commit_update : {V : Type 0} → RulesUpdate V → PointerMap V → PointerMap V
unfolding put_all delete_names
commit_update u m = delete_names u.del (put_all u.add m)

-- SmCtxtPolicyData, less the charging and condition data, which nothing changes.
pub record SmCtxtPolicyData : Type 0 where
  pub pcc_rules : PointerMap PccRule
  pub qos_data : PointerMap QosData
  pub traffic_control_data : PointerMap TrafficControlData
  pub session_rules : PointerMap SessionRule
  pub active_rule : Option SessionRule
  pub active_rule_name : Text

-- models.SmPolicyDecision.
pub record SmPolicyDecision : Type 0 where
  pub qos_decs : PointerMap QosData
  pub pcc_rules : PointerMap PccRule
  pub sess_rules : PointerMap SessionRule
  pub traff_cont_decs : PointerMap TrafficControlData

-- PolicyUpdate; the condition update is always empty.
pub record PolicyUpdate : Type 0 where
  pub sess_rule_update : Option SessRulesUpdate
  pub pcc_rule_update : Option (RulesUpdate PccRule)
  pub qos_flow_update : Option (RulesUpdate QosData)
  pub tc_update : Option (RulesUpdate TrafficControlData)
  pub sm_policy_decision : SmPolicyDecision

unfoldable pub build_sm_policy_update :
    (FlowInformation → FlowInformation → Bool) → SmCtxtPolicyData → SmPolicyDecision → PolicyUpdate
unfolding get_pcc_rules_update get_qos_flow_desc_update get_traffic_control_update
    get_session_rules_update
build_sm_policy_update same_flow c d = record {
  sess_rule_update = get_session_rules_update d.sess_rules c.session_rules;
  pcc_rule_update = get_pcc_rules_update same_flow d.pcc_rules c.pcc_rules;
  qos_flow_update = get_qos_flow_desc_update d.qos_decs c.qos_data;
  tc_update = get_traffic_control_update d.traff_cont_decs c.traffic_control_data;
  sm_policy_decision = d;
}

-- A nil update is not committed.
abbrev pub commit_if : {V : Type 0} → Option (RulesUpdate V) → PointerMap V → PointerMap V
commit_if none m = m
commit_if (some u) m = commit_update u m

-- CommitSessionRulesUpdate: the active rule is set in any case.
abbrev pub commit_session : Option SessRulesUpdate → SmCtxtPolicyData → SmCtxtPolicyData
commit_session none c = c
commit_session (some u) c = record c {
  session_rules = commit_update u.rules c.session_rules;
  active_rule = u.active;
  active_rule_name = u.active_name;
}

unfoldable pub commit_sm_policy_decision : PolicyUpdate → SmCtxtPolicyData → SmCtxtPolicyData
unfolding commit_update
commit_sm_policy_decision u c = commit_session u.sess_rule_update (record c {
  qos_data = commit_if u.qos_flow_update c.qos_data;
  pcc_rules = commit_if u.pcc_rule_update c.pcc_rules;
  traffic_control_data = commit_if u.tc_update c.traffic_control_data;
})
