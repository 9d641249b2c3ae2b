-- ===== src/Paths/Qers.antt =====
-- context/datapath.go: CreatePccRuleQer, CreateSessRuleQer and CreateDedicatedQosQer.
use smf_cdac.Base.{ℕ, Option, none, some, [], ◌∷◌, if◌then◌else◌, ok, panic}
use smf_cdac.Base.Text.{Text}
use smf_cdac.Qos.Types.{QosData, PointerMap}
use smf_cdac.Upf.Ids.{IdGenerator}
use smf_cdac.Upf.Types.{gate_open}
use smf_cdac.Upf.Rules.{Qer, add_qer}
use smf_cdac.Paths.Steps.{PathEnv, PathSession, Act, ◌>>=◌, lift, on_upf}
use smf_cdac.Paths.Rates.{
  first_update, selected_session_rule, default_qos_data, flow_qer, pcc_rule_qer, session_rates,
  dedicated_qer,
}

module _ (g : IdGenerator) where
  -- CreatePccRuleQer, on the UPF of the node.
  unfoldable pub create_pcc_rule_qer : PathEnv → PathSession → ℕ → Text → Text → Act g Qer
  unfolding first_update add_qer pcc_rule_qer
  create_pcc_rule_qer e c u qos_data tc_data = do
    p ← lift (first_update c)
    q ← on_upf g u (add_qer g)
    lift (pcc_rule_qer e p.sm_policy_decision qos_data tc_data q)

  -- CreateSessRuleQer.
  unfoldable pub create_sess_rule_qer : PathSession → ℕ → Act g Qer
  unfolding first_update default_qos_data add_qer flow_qer session_rates selected_session_rule
  create_sess_rule_qer c u = do
    p ← lift (first_update c)
    d ← lift (default_qos_data p.sm_policy_decision.qos_decs)
    q ← on_upf g u (add_qer g)
    lift (flow_qer d.qos_id gate_open (session_rates (selected_session_rule c)) q)

  -- CreateDedicatedQosQer: the last QER made, if any.
  unfoldable pub dedicated_qers : ℕ → PointerMap QosData → Option Qer → Act g (Option Qer)
  unfolding add_qer dedicated_qer
  dedicated_qers u [] last = lift (ok last)
  dedicated_qers u ((id, none) ∷ m) last = lift panic
  dedicated_qers u ((id, some d) ∷ m) last =
      let skipped = dedicated_qers u m last in
      let made : Act g (Option Qer) = on_upf g u (add_qer g) >>= λ q.
      lift (dedicated_qer d q) >>= λ r. dedicated_qers u m (some r) in
      if d.def_qos_flow_indication then skipped else made

  unfoldable pub create_dedicated_qos_qer : PathSession → ℕ → Act g (Option Qer)
  unfolding first_update dedicated_qers
  create_dedicated_qos_qer c u = do
    p ← lift (first_update c)
    dedicated_qers u p.sm_policy_decision.qos_decs none
