-- ===== src/Fsm/Handlers.antt =====
-- fsm/handler.go. A handler returns the next state or an error; the states that the producer's
-- functions leave behind on their way, and whether they fail, are parameters.
use smf_cdac.Base.{Bool, true, false, Outcome, ok, err, panic}

-- SMContextState.
pub data SmState : Type 0 where
  init active_pending active in_active_pending modify pfcp_create_pending : SmState
  pfcp_modify pfcp_release release n1n2_transfer_pending : SmState

-- SmEvent.
pub data SmEvent : Type 0 where
  invalid pdu_sess_create pdu_sess_modify pdu_sess_release pfcp_sess_create : SmEvent
  pfcp_sess_create_failure pfcp_sess_modify pfcp_sess_release pdu_sess_n1n2_transfer : SmEvent
  pdu_sess_n1n2_transfer_failure_indication policy_update_notify : SmEvent

-- The calls that the handlers make: HandlePDUSessionSMContextCreate, -Update and -Release,
-- SendPFCPRules with the wait for its response, SendPduSessN1N2Transfer,
-- HandlePduSessN1N2TransFailInd and HandleSMPolicyUpdateNotify of the package producer.
pub data ProducerCall : Type 0 where
  sm_context_create sm_context_update sm_context_release send_pfcp_rules : ProducerCall
  n1n2_transfer : Bool → ProducerCall
  n1n2_trans_fail_ind sm_policy_update_notify : ProducerCall

-- What the calls do: whether each succeeds and the state that it leaves, and whether metrics can be
-- published.
pub record Producer : Type 0 where
  pub succeeds : ProducerCall → SmState → Bool
  pub leaves : ProducerCall → SmState → SmState
  pub publishes : Bool

-- A handler's call, and what it returns on success and on an error: with the state that the call
-- leaves.
abbrev on_call :
    Producer
    → ProducerCall
    → SmState
    → Outcome SmState
    → Outcome SmState
    → SmState × Outcome SmState
on_call p c s done failed = (p.leaves c s, elim (p.succeeds c s) [ true ↦ done | false ↦ failed ])

-- `err := stats.PublishMsgEvent(…)` hides the producer's error, and `err.Error()` is called on it: on
-- a nil error, where the event was published.
abbrev hidden_error : Producer → Outcome SmState
hidden_error p = elim p.publishes [ true ↦ panic | false ↦ err ]

-- SmfFsmHandler[state][event] as InitFsm fills it, EmptyEventHandler elsewhere.
unfoldable pub handler : SmState → SmEvent → Producer → SmState → SmState × Outcome SmState
handler init pdu_sess_create p s = on_call p sm_context_create s (ok pfcp_create_pending) err
handler pfcp_create_pending pfcp_sess_create p s =
    on_call p send_pfcp_rules s (ok n1n2_transfer_pending) err
handler pfcp_create_pending pfcp_sess_create_failure p s =
    on_call p (n1n2_transfer false) s (ok init) err
handler n1n2_transfer_pending pdu_sess_n1n2_transfer p s =
    on_call p (n1n2_transfer true) s (ok active) (hidden_error p)
handler active pdu_sess_modify p s = on_call p sm_context_update s (ok active) err
handler active pdu_sess_release p s = on_call p sm_context_release s (ok init) (hidden_error p)
handler active pdu_sess_n1n2_transfer_failure_indication p s =
    on_call p n1n2_trans_fail_ind s (ok init) err
handler active policy_update_notify p s = on_call p sm_policy_update_notify s (ok active) err
handler _ _ p s = (s, err)

-- ChangeState on success; an error leaves the state to what the handler's call made of it.
abbrev pub conclude : SmState × Outcome SmState → SmState × Outcome (Unit {0})
conclude (left, ok next) = (next, ok tt)
conclude (left, err) = (left, err)
conclude (left, panic) = (left, panic)

-- HandleEvent.
unfoldable pub handle_event : Producer → SmState → SmEvent → SmState × Outcome (Unit {0})
unfolding handler
handle_event p s e = conclude (handler s e p s)
