-- ===== src/Examples/Fsm.antt =====
-- The state machine of fsm/handler.go, with a producer that always succeeds and one that always fails.
use smf_cdac.Base.{◌≡◌, refl, true, false, ok, err, panic, ◌↔◌, ◌⊎◌}
use smf_cdac.Fsm.Handlers.{
  SmState, modify, init, active, active_pending, release, n1n2_transfer_pending,
  pfcp_create_pending, SmEvent, pdu_sess_create, pdu_sess_modify, pdu_sess_release,
  pdu_sess_n1n2_transfer, ProducerCall, sm_context_create, sm_context_update, sm_context_release,
  Producer, handle_event,
}
use smf_cdac.Fsm.Handlers
use smf_cdac.Fsm.Edges.{
  Edge, update, stuck_modify, handle_event-Edge, failed_call_sticks, failed_call_panics,
}

abbrev willing : Producer
willing = record { succeeds = λ _ _. true; leaves = λ _ s. s; publishes = false }

abbrev failing : Producer
failing = record { succeeds = λ _ _. false; leaves = λ _ _. modify; publishes = true }

abbrev loud : Producer
loud = record { succeeds = λ _ _. false; leaves = λ _ s. s; publishes = true }

created : handle_event willing init pdu_sess_create ≡ (pfcp_create_pending, ok tt)
unfolding handle_event
created = refl

handle_event-Edge_example :
    (c : ProducerCall) × Edge init pdu_sess_create c pfcp_create_pending
    × (willing.succeeds c init ≡ true)
handle_event-Edge_example =
    handle_event-Edge willing init pdu_sess_create pfcp_create_pending created

failed_call_sticks_example :
    (handle_event failing active pdu_sess_modify ≡ (modify, err))
    × (handle_event willing modify pdu_sess_release ≡ (modify, err))
failed_call_sticks_example =
    failed_call_sticks failing willing active pdu_sess_modify pdu_sess_release sm_context_update
      active update (λ e. cc) (λ e. cc) refl stuck_modify

failed_call_panics_example : ((handle_event loud active pdu_sess_release).1 ≡ panic) ↔ (
    (loud.publishes ≡ true)
    × (((active ≡ n1n2_transfer_pending)
          × (pdu_sess_release ≡ pdu_sess_n1n2_transfer)
          × (loud.succeeds (Handlers.n1n2_transfer true) active ≡ false))
        ⊎ ((active ≡ active)
            × (pdu_sess_release ≡ pdu_sess_release)
            × (loud.succeeds sm_context_release active ≡ false))))
failed_call_panics_example = failed_call_panics loud active pdu_sess_release
