-- ===== src/Paths/Rates.antt =====
-- What a QER is made of: SelectedSessionRule of context/sm_context.go, the look-ups in a policy decision
-- of qos/qos_flow.go and qos/traffic_control_data.go, and the settings in CreatePccRuleQer,
-- CreateSessRuleQer and CreateDedicatedQosQer of context/datapath.go.
use smf_cdac.Base.{Option, none, some, [], ◌∷◌, if◌then◌else◌, Outcome, ok, panic, ◌>>=◌}
use smf_cdac.Base.Text.{Text, text_eq}
use smf_cdac.Qos.Types.{QosData, PointerMap}
use smf_cdac.Qos.Changes.{TrafficControlData}
use smf_cdac.Qos.Rules.{get_qos_flow_id_from_qos_id}
use smf_cdac.Qos.BitRates.{bit_rate_to_kbps, normalize_bit_rate}
use smf_cdac.Qos.Policy.{PolicyUpdate, SmPolicyDecision, SessRulesUpdate, SessionRule, pointer}
use smf_cdac.Upf.Types.{Gate, gate_open, gate_close, Rates}
use smf_cdac.Upf.Rules.{Qer}
use smf_cdac.Paths.Steps.{PathEnv, PathSession}

-- `smContext.SmPolicyUpdates[0]`.
unfoldable pub first_update : PathSession → Outcome PolicyUpdate
first_update c = elim c.sm_policy_updates [ [] ↦ panic | u ∷ us ↦ ok u ]

-- SelectedSessionRule; a nil rule is none.
abbrev active_of : Option SessionRule → Option SessRulesUpdate → Option SessionRule
active_of old none = old
active_of old (some u) = elim u.active [ none ↦ old | some r ↦ some r ]

unfoldable pub selected_session_rule : PathSession → Option SessionRule
selected_session_rule c = elim c.sm_policy_updates [
  | [] ↦ c.sm_policy_data.active_rule
  | u ∷ us ↦ active_of c.sm_policy_data.active_rule u.sess_rule_update
]

-- GetDefaultQoSDataFromPolicyDecision; without a default the process ends, which counts as a panic.
unfoldable pub default_qos_data : PointerMap QosData → Outcome QosData
default_qos_data [] = panic
default_qos_data ((id, none) ∷ m) = panic
default_qos_data ((id, some q) ∷ m) = if q.def_qos_flow_indication then ok q else default_qos_data m

-- The rates of both directions, in kbps.
unfoldable pub rates : Text → Text → Outcome Rates
unfolding bit_rate_to_kbps
rates ul dl = do u ← bit_rate_to_kbps ul; d ← bit_rate_to_kbps dl; ok (record { ul = u; dl = d })

-- The gate of a rule's traffic.
unfoldable pub gate_of : PathEnv → Option TrafficControlData → Gate
unfolding text_eq
gate_of e none = gate_open
gate_of e (some t) = if text_eq t.flow_status e.flow_status_disabled then gate_close else gate_open

-- A new QER for a flow, with a gate and a maximum rate.
unfoldable pub flow_qer : Text → Gate → Outcome Rates → Qer → Outcome Qer
unfolding get_qos_flow_id_from_qos_id
flow_qer qos_id gate mbr q = mbr >>= λ m. ok (record q {
  qfi = get_qos_flow_id_from_qos_id qos_id;
  gate_status = some (record { ul_gate = gate; dl_gate = gate });
  mbr = some m;
})

unfoldable pub pcc_rule_qer : PathEnv → SmPolicyDecision → Text → Text → Qer → Outcome Qer
unfolding flow_qer rates gate_of
pcc_rule_qer e d qos_data tc_data q = elim (pointer qos_data d.qos_decs) [
  | none ↦ panic
  | some ref ↦
      flow_qer ref.qos_id (gate_of e (pointer tc_data d.traff_cont_decs))
        (rates ref.maxbr_ul ref.maxbr_dl) q
]

unfoldable pub session_rates : Option SessionRule → Outcome Rates
unfolding rates
session_rates none = panic
session_rates (some r) = elim r.auth_sess_ambr [ none ↦ panic | some a ↦ rates a.uplink a.downlink ]

-- A rate of a dedicated flow, unless one of its directions is not given.
unfoldable pub given_rates : Text → Text → Outcome (Option Rates)
unfolding rates normalize_bit_rate
given_rates [] dl = ok none
given_rates (c ∷ cs) [] = ok none
given_rates (c ∷ cs) (d ∷ ds) = do
  r ← rates (normalize_bit_rate (c ∷ cs)) (normalize_bit_rate (d ∷ ds))
  ok (some r)

unfoldable pub dedicated_qer : QosData → Qer → Outcome Qer
unfolding given_rates get_qos_flow_id_from_qos_id
dedicated_qer d q = do
  guaranteed ← given_rates d.gbr_ul d.gbr_dl
  maximum ← given_rates d.maxbr_ul d.maxbr_dl
  ok (record q {
    qfi = get_qos_flow_id_from_qos_id d.qos_id;
    gate_status = some (record { ul_gate = gate_open; dl_gate = gate_open });
    gbr = guaranteed;
    mbr = maximum;
  })
