-- ===== src/Pfcp/Transactions.antt =====
-- pfcp/udp/transaction.go and pfcp/udp/pfcp_message_type.go. The network, the timers and the channel of
-- events of a transaction are an environment, which says for each round how it goes.
use smf_cdac.Base.{ℕ, zero, suc, Bool, true, false, [], if◌then◌else◌, Outcome, ok, err}
use smf_cdac.Base.Text.{Text}

-- The message types of the switch statements; `other` is any that is in neither.
pub data MessageType : Type 0 where
  heartbeat_request pfd_management_request association_setup_request : MessageType
  association_update_request association_release_request node_report_request : MessageType
  session_set_deletion_request session_establishment_request : MessageType
  session_modification_request session_deletion_request session_report_request : MessageType
  heartbeat_response pfd_management_response association_setup_response : MessageType
  association_update_response association_release_response node_report_response : MessageType
  session_set_deletion_response session_establishment_response : MessageType
  session_modification_response session_deletion_response session_report_response : MessageType
  other : MessageType

-- message.Message, in what is asked of it.
pub record Message : Type 0 where
  pub message_type : MessageType
  pub sequence : ℕ

-- IsRequest and IsResponse.
unfoldable pub is_request : Message → Bool
is_request m = elim m.message_type [
  | heartbeat_request ↦ true
  | pfd_management_request ↦ true
  | association_setup_request ↦ true
  | association_update_request ↦ true
  | association_release_request ↦ true
  | node_report_request ↦ true
  | session_set_deletion_request ↦ true
  | session_establishment_request ↦ true
  | session_modification_request ↦ true
  | session_deletion_request ↦ true
  | session_report_request ↦ true
  | _ ↦ false
]

unfoldable pub is_response : Message → Bool
is_response m = elim m.message_type [
  | heartbeat_response ↦ true
  | pfd_management_response ↦ true
  | association_setup_response ↦ true
  | association_update_response ↦ true
  | association_release_response ↦ true
  | node_report_response ↦ true
  | session_set_deletion_response ↦ true
  | session_establishment_response ↦ true
  | session_modification_response ↦ true
  | session_deletion_response ↦ true
  | session_report_response ↦ true
  | _ ↦ false
]

-- EventType, and TransactionType.
pub data EventType : Type 0 where
  receive_resend_request receive_valid_response : EventType

pub data TransactionType : Type 0 where
  sending_request sending_response : TransactionType

-- Transaction; whether its event data carries an error handler is all that is asked of them.
pub record Transaction : Type 0 where
  pub consumer_addr : Text
  pub sequence_number : ℕ
  pub message_type : MessageType
  pub tx_type : TransactionType
  pub has_err_handler : Bool

-- NewTransaction: a message that is neither keeps the zero value of the type and no address.
unfoldable pub new_transaction : Message → Text → Text → Bool → Transaction
unfolding is_request is_response
new_transaction m local dest handler = record {
  consumer_addr = if is_request m then local else if is_response m then dest else [];
  sequence_number = m.sequence;
  message_type = m.message_type;
  tx_type =
      if is_request m
      then sending_request
      else if is_response m
      then sending_response
      else sending_request;
  has_err_handler = handler;
}

-- How a round goes: the write fails, or it succeeds and an event comes, or the timer runs out first.
pub data Round : Type 0 where
  write_fails : Round
  event : EventType → Round
  timer : Round

abbrev pub Environment : Type 0
Environment = ℕ → Round

-- NumOfResend.
abbrev pub num_of_resend : ℕ
num_of_resend = 3

-- The loop of Start over the rounds that are left, from the round `i`: what it returns, and how many
-- packets were written.
unfoldable pub request_rounds : Environment → ℕ → ℕ → Outcome (Unit {0}) × ℕ
request_rounds env zero i = (err, 0)
request_rounds env (suc left) i = elim (env i) [
  | write_fails ↦ (err, 0)
  | event receive_valid_response ↦ (ok tt, 1)
  | event receive_resend_request ↦
      (let rest = request_rounds env left (suc i) in (rest.0, suc rest.1))
  | timer ↦ (let rest = request_rounds env left (suc i) in (rest.0, suc rest.1))
]

unfoldable pub response_rounds : Environment → ℕ → ℕ → Outcome (Unit {0}) × ℕ
response_rounds env zero i = (ok tt, 0)
response_rounds env (suc left) i = elim (env i) [
  | write_fails ↦ (err, 0)
  | event e ↦ (let rest = response_rounds env left (suc i) in (rest.0, suc rest.1))
  | timer ↦ (err, 1)
]

-- Start.
unfoldable pub start : Environment → Transaction → Outcome (Unit {0}) × ℕ
unfolding request_rounds response_rounds
start env t = elim t.tx_type [
  | sending_request ↦ request_rounds env num_of_resend 0
  | sending_response ↦ response_rounds env num_of_resend 0
]
