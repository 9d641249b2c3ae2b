-- ===== src/Qos/Decisions.antt =====
-- A whole policy decision, built and committed: all four maps, and the active session rule.
use smf_cdac.Base.{◌≡◌, refl, sym, ap, ◌∙◌, Bool, true, Option, none, some, [], ◌∷◌, All}
use smf_cdac.Base.Text.{Text}
use smf_cdac.Base.Dict.{lookup}
use smf_cdac.Qos.Types.{FlowInformation, PointerMap}
use smf_cdac.Qos.Changes.{get_pcc_rule_changes, get_qos_data_changes, get_tc_data_changes}
use smf_cdac.Qos.Policy.{
  pointer, no_update, note_session, collect, get_update, SessionRule, SessRulesUpdate,
  collect_session, get_session_rules_update, get_pcc_rules_update, get_qos_flow_desc_update,
  get_traffic_control_update, commit_update, commit_if, commit_session, SmCtxtPolicyData,
  SmPolicyDecision, build_sm_policy_update, commit_sm_policy_decision,
}
use smf_cdac.Qos.PolicyLaws.{Distinct, settled, commit_if-get_update}

note_session-rules :
    (ctxt : PointerMap SessionRule) (name : Text) (v : SessionRule) (o : Option SessionRule)
    (more : PointerMap SessionRule) (u : SessRulesUpdate)
    → o ≡ pointer name ctxt
    → collect (λ _ _. true) ctxt more (note_session name v o u).rules
      ≡ collect (λ _ _. true) ctxt ((name, some v) ∷ more) u.rules
unfolding collect
note_session-rules ctxt name v none more u h = rw (sym h) refl
note_session-rules ctxt name v (some w) more u h = rw (sym h) refl

-- The maps of a session update are those of the other updates, where every rule counts as changed.
collect_session-rules :
    (ctxt xs : PointerMap SessionRule) (u : SessRulesUpdate)
    → (collect_session ctxt xs u).rules ≡ collect (λ _ _. true) ctxt xs u.rules
unfolding collect_session collect
collect_session-rules ctxt [] u = refl
collect_session-rules ctxt ((name, none) ∷ more) u = collect_session-rules ctxt more _
collect_session-rules ctxt ((name, some v) ∷ more) u =
    collect_session-rules ctxt more (note_session name v (pointer name ctxt) u)
    ∙ note_session-rules ctxt name v (pointer name ctxt) more u refl

commit_session-rules :
    (pcf : PointerMap SessionRule) (c : SmCtxtPolicyData)
    → (commit_session (get_session_rules_update pcf c.session_rules) c).session_rules
      ≡ commit_if (get_update (λ _ _. true) pcf c.session_rules) c.session_rules
unfolding get_session_rules_update get_update
commit_session-rules [] c = refl
commit_session-rules (e ∷ more) c =
    ap (λ u. commit_update u c.session_rules)
      (collect_session-rules c.session_rules (e ∷ more)
        (record { rules = no_update; active = none; active_name = [] }))

keeps_pcc :
    (o : Option SessRulesUpdate) (c : SmCtxtPolicyData)
    → (commit_session o c).pcc_rules ≡ c.pcc_rules
keeps_pcc none c = refl
keeps_pcc (some u) c = refl

keeps_qos :
    (o : Option SessRulesUpdate) (c : SmCtxtPolicyData) → (commit_session o c).qos_data ≡ c.qos_data
keeps_qos none c = refl
keeps_qos (some u) c = refl

keeps_tc :
    (o : Option SessRulesUpdate) (c : SmCtxtPolicyData)
    → (commit_session o c).traffic_control_data ≡ c.traffic_control_data
keeps_tc none c = refl
keeps_tc (some u) c = refl

-- A committed decision settles every name of the four maps: what the PCF did not send stays, what it
-- sent as nil goes, what the context did not have is put, and what the context had stays as it was,
-- even where the PCF sent something else. No name may occur twice in a map of the decision.
pub commit-build_settled :
    (same_flow : FlowInformation → FlowInformation → Bool) (c : SmCtxtPolicyData)
    (d : SmPolicyDecision) (name : Text)
    → Distinct d.pcc_rules
    → Distinct d.qos_decs
    → Distinct d.traff_cont_decs
    → Distinct d.sess_rules
    → let c' = commit_sm_policy_decision (build_sm_policy_update same_flow c d) c in
      (pointer name c'.pcc_rules ≡ settled (lookup name d.pcc_rules) (pointer name c.pcc_rules))
      × (pointer name c'.qos_data ≡ settled (lookup name d.qos_decs) (pointer name c.qos_data))
      × (pointer name c'.traffic_control_data
          ≡ settled (lookup name d.traff_cont_decs) (pointer name c.traffic_control_data))
      × (pointer name c'.session_rules
          ≡ settled (lookup name d.sess_rules) (pointer name c.session_rules))
unfolding commit_sm_policy_decision build_sm_policy_update get_pcc_rules_update
    get_qos_flow_desc_update get_traffic_control_update
commit-build_settled same_flow c d name hp hq ht hs =
    let u = build_sm_policy_update same_flow c d in
    let c1 : SmCtxtPolicyData = record c {
      qos_data = commit_if u.qos_flow_update c.qos_data;
      pcc_rules = commit_if u.pcc_rule_update c.pcc_rules;
      traffic_control_data = commit_if u.tc_update c.traffic_control_data;
    } in
    (
      ap (pointer name) (keeps_pcc u.sess_rule_update c1)
          ∙ commit_if-get_update (get_pcc_rule_changes same_flow) c.pcc_rules d.pcc_rules name hp,
      ap (pointer name) (keeps_qos u.sess_rule_update c1)
          ∙ commit_if-get_update get_qos_data_changes c.qos_data d.qos_decs name hq,
      ap (pointer name) (keeps_tc u.sess_rule_update c1)
          ∙ commit_if-get_update get_tc_data_changes c.traffic_control_data d.traff_cont_decs name
              ht,
      ap (pointer name) (commit_session-rules d.sess_rules c1)
          ∙ commit_if-get_update (λ _ _. true) c.session_rules d.sess_rules name hs,
    )

-- The context has every one of the rules.
abbrev pub AllKnown : PointerMap SessionRule → PointerMap SessionRule → Type 0
AllKnown ctxt =
    All (λ (e : Text × Option SessionRule). (w : SessionRule) × (pointer e.0 ctxt ≡ some w))

collect_session-active :
    (ctxt xs : PointerMap SessionRule) (u : SessRulesUpdate)
    → AllKnown ctxt xs
    → (collect_session ctxt xs u).active ≡ u.active
unfolding collect_session
collect_session-active ctxt [] u h = refl
collect_session-active ctxt ((name, none) ∷ more) u h = collect_session-active ctxt more _ h.1
collect_session-active ctxt ((name, some v) ∷ more) u ((w, e), h) =
    collect_session-active ctxt more (note_session name v (pointer name ctxt) u) h
    ∙ ap (λ o. (note_session name v o u).active) e

commit_session-active :
    (pcf : PointerMap SessionRule) (c : SmCtxtPolicyData)
    → ¬ (pcf ≡ [])
    → AllKnown c.session_rules pcf
    → (commit_session (get_session_rules_update pcf c.session_rules) c).active_rule ≡ none
unfolding get_session_rules_update
commit_session-active [] c n h = absurd (n refl)
commit_session-active (e ∷ more) c n h = collect_session-active c.session_rules (e ∷ more) _ h

-- Where a decision has session rules, and the context has a rule under each of their names, there is no active rule behind
-- the commit, whichever there was before.
pub known_rules_deactivate :
    (same_flow : FlowInformation → FlowInformation → Bool) (c : SmCtxtPolicyData)
    (d : SmPolicyDecision)
    → ¬ (d.sess_rules ≡ [])
    → AllKnown c.session_rules d.sess_rules
    → (commit_sm_policy_decision (build_sm_policy_update same_flow c d) c).active_rule ≡ none
unfolding commit_sm_policy_decision build_sm_policy_update
known_rules_deactivate same_flow c d n h =
    let u = build_sm_policy_update same_flow c d in
    commit_session-active d.sess_rules
      (record c {
        qos_data = commit_if u.qos_flow_update c.qos_data;
        pcc_rules = commit_if u.pcc_rule_update c.pcc_rules;
        traffic_control_data = commit_if u.tc_update c.traffic_control_data;
      })
      n h
