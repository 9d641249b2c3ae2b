-- ===== src/Txn/Types.antt =====
-- transaction/transaction.go, the message types of msgtypes/svcmsgtypes/svc_msgtypes.go, and the parts
-- of SMContext and of the context pool that transactions use.
use smf_cdac.Base.{ℕ, Bool, Option, none, some, List, [], ◌∷◌, ◌++◌}
use smf_cdac.Fsm.Handlers.{SmState}

-- SmfMsgType.
pub data MsgType : Type 0 where
  msg_type_none create_sm_context update_sm_context release_sm_context : MsgType
  notify_sm_context_status retrieve_sm_context nsmf_pdu_session_create : MsgType
  nsmf_pdu_session_update nsmf_pdu_session_release nnrf_nf_register nnrf_nf_de_register : MsgType
  nnrf_nf_instance_de_register nnrf_nf_discovery_udm nnrf_nf_discovery_pcf : MsgType
  nnrf_nf_discovery_amf sm_subscription_data_retrieval sm_policy_association_create : MsgType
  sm_policy_association_delete sm_policy_update_notification : MsgType
  sm_policy_termination_notification n1n2_message_transfer pfcp_sess_create_failure : MsgType
  n1n2_message_transfer_failure_notification pfcp_sess_create pfcp_sess_modify : MsgType
  pfcp_sess_release : MsgType

-- TxnEvent.
pub data TxnEvent : Type 0 where
  init decode load_ctxt ctxt_post run process success failure timeout abort : TxnEvent
  save collision queue end exit : TxnEvent

-- The interface value `txn.Ctxt`: nil, a nil *SMContext (which is not nil as an interface), or a
-- context, by its place on the heap.
pub data Ctxt : Type 0 where
  no_ctxt nil_ctxt : Ctxt
  ctxt : ℕ → Ctxt

-- Transaction, less its clock, its log and the status channel; `ue` is the pair of SUPI and session id
-- of a create request, `rsp` the status of the response that the FSM itself sets.
pub record Txn : Type 0 where
  pub txn_id : ℕ
  pub msg_type : MsgType
  pub ue : ℕ
  pub ctxt_key : Option ℕ
  pub context : Ctxt
  pub rsp : Option ℕ

-- TxnBus.
abbrev pub TxnBus : Type 0
TxnBus = List Txn

unfoldable pub add_txn : TxnBus → Txn → TxnBus
add_txn bus t = bus ++ (t ∷ [])

unfoldable pub pop_txn : TxnBus → Option Txn × TxnBus
pop_txn [] = (none, [])
pop_txn (t ∷ bus) = (some t, bus)

-- SMContext: ActiveTxn (by its id), TxnBus and SMContextState.
-- Supi and PDUSessionID are `ue`; Supi, which the procedure of a create request sets, is the Identifier
-- that NewSMContext is given.
pub record SmContext : Type 0 where
  pub ue : ℕ
  pub active_txn : Option ℕ
  pub txn_bus : TxnBus
  pub state : SmState

-- The heap of contexts, smContextPool (by reference) and canonicalRef (by UE); a reference is the
-- number of the context's place. `database` is what the database holds under a reference, read back
-- onto the heap. `replies` lists what was sent on the status channels, oldest first.
pub record Smf : Type 0 where
  pub contexts : ℕ → SmContext
  pub pool : ℕ → Option ℕ
  pub canonical : ℕ → Option ℕ
  pub next_ref : ℕ
  pub next_txn_id : ℕ
  pub enable_db_store : Bool
  pub database : ℕ → Option ℕ
  pub replies : List (ℕ × Bool)
