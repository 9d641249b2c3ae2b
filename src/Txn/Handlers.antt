-- ===== src/Txn/Handlers.antt =====
-- fsm/txnFsm.go: the stages of a transaction. A stage returns the SMF, the transaction, the
-- transaction to go on with (NextTxn) and the next event; errors are only logged.
use smf_cdac.Base.{
  ℕ, suc, Bool, true, false, Option, none, some, Outcome, ok, err, panic, List, [], ◌∷◌, ◌++◌, ◌==◌,
  if◌then◌else◌,
}
use smf_cdac.Fsm.Handlers.{SmState, SmEvent, Producer, handle_event}
use smf_cdac.Fsm.Handlers
use smf_cdac.Txn.Types.{
  MsgType, create_sm_context, update_sm_context, release_sm_context, sm_policy_update_notification,
  n1n2_message_transfer, pfcp_sess_create_failure, n1n2_message_transfer_failure_notification,
  pfcp_sess_create, TxnEvent, init, decode, load_ctxt, ctxt_post, run, process, success, failure,
  timeout, abort, save, collision, queue, end, exit, Ctxt, no_ctxt, nil_ctxt, ctxt, Txn, add_txn,
  pop_txn, SmContext, Smf,
}

abbrev pub put {ℓ} : {A : Type ℓ} → (ℕ → A) → ℕ → A → ℕ → A
put f k v j = if j == k then v else f j

pub record Stage : Type 0 where
  pub smf : Smf
  pub txn : Txn
  pub next_txn : Option Txn
  pub event : TxnEvent

abbrev pub goes_on : Smf → Txn → TxnEvent → Outcome Stage
goes_on m t e = ok (record { smf = m; txn = t; next_txn = none; event = e })

abbrev pub set_context : Smf → ℕ → SmContext → Smf
set_context m r c = record m { contexts = put m.contexts r c }

-- RemoveSMContext, as far as contexts and look-ups go.
unfoldable pub remove_sm_context : ℕ → Smf → Smf
remove_sm_context r m = record m {
  contexts = put m.contexts r (record (m.contexts r) { state = Handlers.release });
  pool = put m.pool r none;
  canonical = put m.canonical (m.contexts r).ue none;
  database = if m.enable_db_store then put m.database r none else m.database;
}

-- NewSMContext: a fresh context, known by its reference and to its UE.
unfoldable pub new_sm_context : ℕ → Smf → Smf
new_sm_context ue m = record m {
  contexts =
      put m.contexts m.next_ref
        (record { ue = ue; active_txn = none; txn_bus = []; state = Handlers.init });
  pool = put m.pool m.next_ref (some m.next_ref);
  canonical = put m.canonical ue (some m.next_ref);
  next_ref = suc m.next_ref;
}

-- GetSMContext. A miss in memory reads the database, if that is on, and puts what it finds in the
-- pool; but the variable that is returned is the outer one, and still nil.
abbrev pub missed : ℕ → Bool → Smf → Smf
missed key on m = if on then record m { pool = put m.pool key (m.database key) } else m

abbrev pub fetch : ℕ → Option ℕ → Smf → Smf × Ctxt
fetch key (some r) m = (m, ctxt r)
fetch key none m = (missed key m.enable_db_store m, nil_ctxt)

abbrev pub get_sm_context : Smf → Option ℕ → Smf × Ctxt
get_sm_context m none = (m, nil_ctxt)
get_sm_context m (some key) = fetch key (m.pool key) m

-- HandlePduSessionContextReplacement, less the release of the tunnel.
abbrev pub remove_found : ℕ → Option ℕ → Smf → Smf
remove_found r none m = missed r m.enable_db_store m
remove_found r (some c) m = remove_sm_context c m

abbrev pub replace_known : Option ℕ → Smf → Smf
replace_known none m = m
replace_known (some r) m = remove_found r (m.pool r) m

unfoldable pub replace_context : ℕ → Smf → Smf
replace_context ue m = replace_known (m.canonical ue) m

-- `txn.Ctxt.(*SMContext) == nil`: the assertion panics on a nil interface.
abbrev pub check_ctxt : Smf → Txn → Ctxt → Outcome Stage
check_ctxt m t no_ctxt = panic
check_ctxt m t nil_ctxt = goes_on m t failure
check_ctxt m t (ctxt r) = goes_on m t ctxt_post

abbrev pub look_up : Smf → Txn → Outcome Stage
look_up m t =
    let (m', c) = get_sm_context m t.ctxt_key in check_ctxt m' (record t { context = c }) c

abbrev pub create : Smf → Txn → Outcome Stage
create m t =
    let m' = replace_context t.ue m in
    goes_on (new_sm_context t.ue m')
      (record t { context = ctxt m'.next_ref; ctxt_key = some m'.next_ref }) ctxt_post

-- TxnLoadCtxt.
unfoldable pub load_ctxt_by : MsgType → Smf → Txn → Outcome Stage
load_ctxt_by create_sm_context m t = create m t
load_ctxt_by update_sm_context m t = look_up m t
load_ctxt_by release_sm_context m t = look_up m t
load_ctxt_by sm_policy_update_notification m t = look_up m t
load_ctxt_by pfcp_sess_create m t = check_ctxt m t t.context
load_ctxt_by n1n2_message_transfer m t = check_ctxt m t t.context
load_ctxt_by pfcp_sess_create_failure m t = check_ctxt m t t.context
load_ctxt_by n1n2_message_transfer_failure_notification m t = look_up m t
load_ctxt_by _ m t = goes_on m t failure

-- A stage that works on the context: it panics where there is none.
abbrev pub on_context : Ctxt → (ℕ → Outcome Stage) → Outcome Stage
on_context no_ctxt f = panic
on_context nil_ctxt f = panic
on_context (ctxt r) f = f r

-- TxnCtxtPost.
unfoldable pub txn_ctxt_post : Smf → Txn → Outcome Stage
txn_ctxt_post m t = on_context t.context λ r.
    let c = m.contexts r in
    elim c.active_txn [
      | some other ↦ goes_on (set_context m r (record c { txn_bus = add_txn c.txn_bus t })) t queue
      | none ↦ goes_on m t run
    ]

-- TxnCtxtRun: another active transaction is only logged.
unfoldable pub txn_ctxt_run : Smf → Txn → Outcome Stage
txn_ctxt_run m t =
    on_context t.context λ r.
      goes_on (set_context m r (record (m.contexts r) { active_txn = some t.txn_id })) t process

-- The event of the context's state machine for a message.
unfoldable pub sm_event : MsgType → SmEvent
sm_event create_sm_context = Handlers.pdu_sess_create
sm_event update_sm_context = Handlers.pdu_sess_modify
sm_event release_sm_context = Handlers.pdu_sess_release
sm_event pfcp_sess_create = Handlers.pfcp_sess_create
sm_event pfcp_sess_create_failure = Handlers.pfcp_sess_create_failure
sm_event n1n2_message_transfer = Handlers.pdu_sess_n1n2_transfer
sm_event n1n2_message_transfer_failure_notification =
    Handlers.pdu_sess_n1n2_transfer_failure_indication
sm_event sm_policy_update_notification = Handlers.policy_update_notify
sm_event _ = Handlers.invalid

-- With the database on, a context that the pool lacks is put there.
abbrev pub ensure_pooled : Smf → ℕ → Smf
ensure_pooled m r =
    if m.enable_db_store
    then record m { pool = put m.pool r (elim (m.pool r) [ none ↦ some r | some c ↦ some c ]) }
    else m

abbrev pub processed : Smf → Txn → Outcome (Unit {0}) → Outcome Stage
processed m t (ok _) = goes_on m t success
processed m t err = goes_on m t failure
processed m t panic = panic

-- TxnProcess; the producer is that of the transaction.
abbrev pub process_on : Ctxt → (ℕ → Producer) → Smf → Txn → Outcome Stage
process_on no_ctxt p m t = panic
process_on nil_ctxt p m t = goes_on m t failure
process_on (ctxt r) p m t =
    let m' = ensure_pooled m r in
    let (s, result) = handle_event (p t.txn_id) (m'.contexts r).state (sm_event t.msg_type) in
    processed (set_context m' r (record (m'.contexts r) { state = s })) t result

unfoldable pub txn_process : (ℕ → Producer) → Smf → Txn → Outcome Stage
txn_process p m t = process_on t.context p m t

-- NewTransaction with a context, put on the bus of that context.
unfoldable pub spawn : MsgType → ℕ → Smf → Smf
spawn kind r m =
    let c = m.contexts r in
    let t : Txn = record {
      txn_id = suc m.next_txn_id;
      msg_type = kind;
      ue = 0;
      ctxt_key = none;
      context = ctxt r;
      rsp = none;
    } in
    record m {
      contexts = put m.contexts r (record c { txn_bus = add_txn c.txn_bus t });
      next_txn_id = suc m.next_txn_id;
    }

abbrev pub reply : Smf → Txn → Bool → Smf
reply m t b = record m { replies = m.replies ++ ((t.txn_id, b) ∷ []) }

-- TxnSuccess.
unfoldable pub success_by : MsgType → Smf → Txn → Outcome Stage
success_by pfcp_sess_create m t =
    on_context t.context λ r. goes_on (reply (spawn n1n2_message_transfer r m) t true) t save
success_by _ m t = goes_on (reply m t true) t save

abbrev pub is_pfcp_create_pending : SmState → Bool
is_pfcp_create_pending Handlers.pfcp_create_pending = true
is_pfcp_create_pending _ = false

-- `txn.Ctxt == nil` holds of the nil interface alone.
abbrev pub not_found : Txn → Ctxt → Txn
not_found t no_ctxt = record t { rsp = some 404 }
not_found t _ = t

abbrev pub create_failed : Smf → Txn → Ctxt → Outcome Stage
create_failed m t no_ctxt = goes_on (reply m t false) t end
create_failed m t nil_ctxt = panic
create_failed m t (ctxt r) =
    if is_pfcp_create_pending (m.contexts r).state
    then goes_on (reply (spawn pfcp_sess_create_failure r m) t false) t end
    else goes_on (reply m t false) t end

-- TxnFailure.
unfoldable pub failure_by : MsgType → Smf → Txn → Outcome Stage
failure_by pfcp_sess_create m t = create_failed m t t.context
failure_by update_sm_context m t = goes_on (reply m t false) (not_found t t.context) end
failure_by release_sm_context m t = goes_on (reply m t false) (not_found t t.context) end
failure_by _ m t = goes_on (reply m t false) t end

abbrev pub ended : Smf → Txn → ℕ → SmContext → Option Txn × List Txn → Outcome Stage
ended m t r c (none, bus) = goes_on (set_context m r (record c { active_txn = none })) t exit
ended m t r c (some u, bus) = ok (record {
  smf = set_context m r (record c { active_txn = none; txn_bus = bus });
  txn = t;
  next_txn = some u;
  event = run;
})

-- TxnEnd.
unfoldable pub end_on : Ctxt → Smf → Txn → Outcome Stage
end_on no_ctxt m t = panic
end_on nil_ctxt m t = goes_on m t exit
end_on (ctxt r) m t = ended m t r (m.contexts r) (pop_txn (m.contexts r).txn_bus)

-- TxnSave: with the database on, the context is written there.
unfoldable pub save_by : Bool → Smf → Txn → Outcome Stage
save_by true m t =
    on_context t.context λ r. goes_on (record m { database = put m.database r (some r) }) t end
save_by false m t = goes_on m t end

-- TxnFsmHandler as InitTxnFsm fills it. The entries for collision, queue and exit are nil or out of range.
unfoldable pub dispatch : (ℕ → Producer) → TxnEvent → Smf → Txn → Outcome Stage
dispatch p init m t = goes_on m t decode
dispatch p decode m t = goes_on m t load_ctxt
dispatch p load_ctxt m t = load_ctxt_by t.msg_type m t
dispatch p ctxt_post m t = txn_ctxt_post m t
dispatch p run m t = txn_ctxt_run m t
dispatch p process m t = txn_process p m t
dispatch p success m t = success_by t.msg_type m t
dispatch p failure m t = failure_by t.msg_type m t
dispatch p timeout m t = goes_on m t end
dispatch p abort m t = goes_on m t end
dispatch p save m t = save_by m.enable_db_store m t
dispatch p end m t = end_on t.context m t
dispatch p collision m t = panic
dispatch p queue m t = panic
dispatch p exit m t = panic
