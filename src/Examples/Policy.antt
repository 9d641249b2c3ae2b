-- ===== src/Examples/Policy.antt =====
-- The policy data of a session, and a decision that keeps, adds and removes.
use smf_cdac.Base.{◌≡◌, refl, true, false, none, some, [], ◌∷◌}
use smf_cdac.Base.Int.{pos}
use smf_cdac.Base.Text.{Text, codes, text_eq}
use smf_cdac.Base.Dict.{lookup}
use smf_cdac.Qos.Types.{PccRule}
use smf_cdac.Qos.Policy.{
  pointer, SessionRule, SmCtxtPolicyData, SmPolicyDecision, build_sm_policy_update,
  commit_sm_policy_decision,
}
use smf_cdac.Qos.PolicyLaws.{settled}
use smf_cdac.Qos.Decisions.{commit-build_settled, known_rules_deactivate}

abbrev pub pcc : Text → PccRule
pcc id = record {
  pcc_rule_id = id;
  app_id = [];
  cont_ver = pos 0;
  precedence = pos 200;
  af_sig_protocol = [];
  app_reloc = false;
  ref_cond_data = [];
  ref_qos_data = codes "1" ∷ [];
  ref_tc_data = [];
  ref_chg_data = [];
  ref_um_data = [];
  flow_infos = [];
}

abbrev session : SessionRule
session = record { auth_def_5qi = pos 9; auth_sess_ambr = none }

abbrev pub policy : SmCtxtPolicyData
policy = record {
  pcc_rules = (codes "1", some (pcc (codes "1"))) ∷ (codes "2", some (pcc (codes "2"))) ∷ [];
  qos_data = [];
  traffic_control_data = [];
  session_rules = (codes "s", some session) ∷ [];
  active_rule = some session;
  active_rule_name = codes "s";
}

abbrev decision : SmPolicyDecision
decision = record {
  qos_decs = [];
  pcc_rules = (codes "1", none) ∷ (codes "2", some (pcc (codes "9"))) ∷ [];
  sess_rules = (codes "s", some session) ∷ [];
  traff_cont_decs = [];
}

abbrev after : SmCtxtPolicyData
after = commit_sm_policy_decision (build_sm_policy_update (λ _ _. true) policy decision) policy

names_differ : lookup (codes "1") ((codes "2", some (pcc (codes "9"))) ∷ []) ≡ none
unfolding lookup text_eq
names_differ = refl

nothing_behind : {V : Type 0} (name : Text) → lookup {V = V} name [] ≡ none
unfolding lookup
nothing_behind name = refl

some_rules : ¬ (decision.sess_rules ≡ [])
some_rules h = cc

commit-build_settled_example :
    (pointer (codes "2") after.pcc_rules
      ≡ settled (lookup (codes "2") decision.pcc_rules) (pointer (codes "2") policy.pcc_rules))
    × (pointer (codes "2") after.qos_data
        ≡ settled (lookup (codes "2") decision.qos_decs) (pointer (codes "2") policy.qos_data))
    × (pointer (codes "2") after.traffic_control_data
        ≡ settled
            (lookup (codes "2") decision.traff_cont_decs)
            (pointer (codes "2") policy.traffic_control_data))
    × (pointer (codes "2") after.session_rules
        ≡ settled
            (lookup (codes "2") decision.sess_rules)
            (pointer (codes "2") policy.session_rules))
commit-build_settled_example =
    commit-build_settled (λ _ _. true) policy decision (codes "2")
      (names_differ, (nothing_behind (codes "2"), tt)) tt tt (nothing_behind (codes "s"), tt)

session_known : pointer (codes "s") policy.session_rules ≡ some session
unfolding lookup text_eq
session_known = refl

known_rules_deactivate_example : after.active_rule ≡ none
known_rules_deactivate_example =
    known_rules_deactivate (λ _ _. true) policy decision some_rules ((session, session_known), tt)
