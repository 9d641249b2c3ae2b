-- ===== src/Examples/Pfcp.antt =====
-- A heartbeat that is answered in the second round, and one that never is; the establishment of a
-- session with one PDR, which names a FAR and a QER.
use smf_cdac.Base.{ℕ, zero, suc, ◌≡◌, refl, inl, true, false, none, some, [], ◌∷◌, ok, err, All}
use smf_cdac.Base.Text.{Text, codes, text_eq}
use smf_cdac.Base.Dict.{lookup}
use smf_cdac.Upf.Ids.{IdGenerator}
use smf_cdac.Upf.Types.{rule_initial, rule_create}
use smf_cdac.Upf.Rules.{Pdr, new_pdr, new_far, new_qer}
use smf_cdac.Paths.Nodes.{DpNode, new_data_path_node, empty_tunnel}
use smf_cdac.Paths.Tunnels.{PfcpSession}
use smf_cdac.Pfcp.Messages.{pdr_ie, ids_of, far_to_create_far, qer_to_create_qer}
use smf_cdac.Pfcp.Requests.{
  RuleStates, SessionRequest, create_pdr, create_far, create_qer, set_state,
}
use smf_cdac.Pfcp.Sending.{node_pdrs, rule_request}
use smf_cdac.Pfcp.Established.{Served}
use smf_cdac.Pfcp.Sessions.{rule_request-Closed}
use smf_cdac.Pfcp.Closed.{Has}
use smf_cdac.Pfcp.Repeats.{CreatesPdrOf, rule_request-repeats}
use smf_cdac.Pfcp.Transactions.{
  Message, heartbeat_request, Transaction, sending_request, event, timer, receive_valid_response,
  Environment, num_of_resend, new_transaction, start,
}
use smf_cdac.Pfcp.Rounds.{Report, start-Report}
use smf_cdac.Pfcp.Server.{ConsumerTable, put_transaction, start_tx_life_cycle}
use smf_cdac.Pfcp.Tables.{view, putting, on_tables, on_view, Refines, on_tables-Refines}
use smf_cdac.Pfcp.LifeCycle.{HandlerSettled, start_tx_life_cycle-HandlerSettled}

abbrev second_round : Environment
second_round zero = timer
second_round (suc n) = event receive_valid_response

abbrev heartbeat : Message
heartbeat = record { message_type = heartbeat_request; sequence = 7 }

abbrev beat : Transaction
beat = record {
  consumer_addr = codes "10.0.0.1:8805";
  sequence_number = 7;
  message_type = heartbeat_request;
  tx_type = sending_request;
  has_err_handler = true;
}

new_transaction_test :
    new_transaction heartbeat (codes "10.0.0.1:8805") (codes "10.0.0.2:8805") true ≡ beat
unfolding new_transaction
new_transaction_test = refl

start_test : start second_round beat ≡ (ok tt, 2)
unfolding start
start_test = refl

silence_test : start (λ n. timer) beat ≡ (err, 3)
unfolding start
silence_test = refl

start-Report_example : Report second_round num_of_resend 0 (start second_round beat)
start-Report_example = start-Report second_round beat refl

abbrev no_tables : ConsumerTable
no_tables a = none

on_tables-Refines_example :
    Refines (on_tables (putting beat) no_tables) (on_view (putting beat) (view no_tables))
on_tables-Refines_example = on_tables-Refines (putting beat) no_tables

-- The tables with the transaction in its place.
abbrev with_beat : ConsumerTable
unfolding put_transaction
with_beat = (put_transaction beat no_tables).0

start_tx_life_cycle-HandlerSettled_example :
    let r = start_tx_life_cycle second_round beat with_beat in
    ((b : Text) (m : ℕ) → view r.0 b m ≡ view no_tables b m) × HandlerSettled second_round r.1
unfolding put_transaction with_beat
start_tx_life_cycle-HandlerSettled_example =
    start_tx_life_cycle-HandlerSettled second_round beat no_tables with_beat refl refl refl

abbrev counter : IdGenerator
counter = record {
  State = ℕ;
  allocate = λ n. some (n, suc n);
  free_id = λ n s. s;
  max_id = λ s. 9;
  is_out = λ s n. false;
}

abbrev first_pdr : Pdr
first_pdr = record (new_pdr counter 1 (new_far counter 4)) { qer = some (new_qer 6) ∷ [] }

abbrev anchor : DpNode
anchor = record (new_data_path_node 7) {
  up_link_tunnel = record empty_tunnel { pdr = (codes "default", first_pdr) ∷ [] };
}

abbrev all_new : RuleStates
all_new = record { pdr = λ n. rule_initial; far = λ n. rule_initial; qer = λ n. rule_initial }

abbrev unanswered : PfcpSession
unanswered = record { pdrs = λ n. true; node = 7; local_seid = 2; remote_seid = 0 }

abbrev establishment : SessionRequest × RuleStates
establishment = (
  record {
    sequence_number = 5;
    local_seid = 2;
    remote_seid = 0;
    items =
        create_pdr (pdr_ie first_pdr)
        ∷ create_far (far_to_create_far (new_far counter 4))
        ∷ create_qer (qer_to_create_qer (new_qer 6))
        ∷ [];
  },
  record {
    pdr = λ n. rule_initial;
    far = set_state 4 rule_create (λ n. rule_initial);
    qer = set_state 6 rule_create (λ n. rule_initial);
  },
)

rule_request-Closed_example :
    (r : SessionRequest × RuleStates) × (rule_request 5
        (codes "10.0.0.7")
        ((codes "10.0.0.7", unanswered) ∷ [])
        anchor
        all_new
      ≡ ok r)
    × All (Served r.0.items) r.0.items
unfolding lookup text_eq node_pdrs ids_of
rule_request-Closed_example =
    rule_request-Closed 5 (codes "10.0.0.7") ((codes "10.0.0.7", unanswered) ∷ []) anchor all_new
      unanswered refl refl (((_, refl), tt), tt) (λ i. (λ f e. refl, (refl, tt)), tt)

rule_request_test :
    rule_request 5 (codes "10.0.0.7") ((codes "10.0.0.7", unanswered) ∷ []) anchor all_new
    ≡ ok establishment
unfolding rule_request lookup text_eq
rule_request_test = refl

-- The session, once the UPF has answered.
abbrev answered : PfcpSession
answered = record unanswered { remote_seid = 9 }

rule_request-repeats_example :
    (r s : SessionRequest × RuleStates) × (rule_request 5
        (codes "10.0.0.7")
        ((codes "10.0.0.7", unanswered) ∷ [])
        anchor
        all_new
      ≡ ok r)
    × Has (CreatesPdrOf 1) r.0.items
    × (rule_request 6 (codes "10.0.0.7") ((codes "10.0.0.7", answered) ∷ []) anchor r.1 ≡ ok s)
    × Has (CreatesPdrOf 1) s.0.items
unfolding lookup text_eq node_pdrs
rule_request-repeats_example =
    rule_request-repeats 5 6 (codes "10.0.0.7") ((codes "10.0.0.7", unanswered) ∷ [])
      ((codes "10.0.0.7", answered) ∷ []) anchor all_new unanswered answered 1 8 refl refl refl refl
      (((_, refl), tt), tt) (inl refl) refl
