-- ===== src/Examples/Txn.antt =====
-- The transactions of fsm/txnFsm.go on small busses.
use smf_cdac.Base.{
  ◌≢◌, ◌==◌, if◌then◌else◌, ℕ, ◌≡◌, refl, true, false, none, some, inl, [], ◌∷◌, arith,
}
use smf_cdac.Fsm.Handlers
use smf_cdac.Fsm.Handlers.{Producer}
use smf_cdac.Txn.Types.{
  MsgType, create_sm_context, update_sm_context, pfcp_sess_create, ctxt_post, run, process, Ctxt,
  no_ctxt, nil_ctxt, ctxt, Txn, SmContext, Smf,
}
use smf_cdac.Txn.Handlers.{
  new_sm_context, replace_context, goes_on, missed, reply, create, dispatch,
}
use smf_cdac.Txn.LifeCycle.{goes, finished, life_cycle, start_txn_life_cycle, turn_of}
use smf_cdac.Fsm.Edges.{failed_call_panics}
use smf_cdac.Txn.Rounds.{NeverPanics}
use smf_cdac.Txn.Drain.{EndSpec, life_cycle-EndSpec}
use smf_cdac.Txn.Requests.{missing_unanswered, both_run, creating}

abbrev willing : ℕ → Producer
willing id = record { succeeds = λ _ _. true; leaves = λ _ s. s; publishes = false }

abbrev request : ℕ → MsgType → Ctxt → Txn
request id kind c = record {
  txn_id = id;
  msg_type = kind;
  ue = 5;
  ctxt_key = some 9;
  context = c;
  rsp = none;
}

abbrev fresh_context : SmContext
fresh_context = record { ue = 5; active_txn = none; txn_bus = []; state = Handlers.init }

abbrev empty_smf : Smf
empty_smf = record {
  contexts = λ _. fresh_context;
  pool = λ _. none;
  canonical = λ _. none;
  next_ref = 3;
  next_txn_id = 10;
  enable_db_store = false;
  database = λ _. none;
  replies = [];
}

-- Context 1 runs transaction 7, and 8 is queued behind it.
abbrev busy_smf : Smf
busy_smf = record empty_smf {
  contexts = λ _. record {
    ue = 5;
    active_txn = none;
    txn_bus = request 8 update_sm_context (ctxt 1) ∷ [];
    state = Handlers.pfcp_create_pending;
  };
}

willing_works : NeverPanics willing
willing_works id s e h = let loud = ((failed_call_panics (willing id) s e).0 h).0 in ground arith

life_cycle-EndSpec_example :
    EndSpec 1
      (7 ∷ 8 ∷ [])
      (life_cycle 40 willing (goes busy_smf (request 7 pfcp_sess_create (ctxt 1)) run))
life_cycle-EndSpec_example =
    life_cycle-EndSpec 1 willing busy_smf (request 7 pfcp_sess_create (ctxt 1)) 40 willing_works
      refl (refl, tt) (omega arith)

missing_unanswered_example :
    start_txn_life_cycle 6 willing empty_smf (request 7 update_sm_context no_ctxt)
    ≡ finished
        (reply (missed 9 false empty_smf) (request 7 update_sm_context no_ctxt) false)
        (request 7 update_sm_context nil_ctxt)
missing_unanswered_example =
    missing_unanswered willing empty_smf (request 7 update_sm_context no_ctxt) 9 0 (inl refl) refl
      refl

both_run_example :
    (turn_of ctxt_post (dispatch willing ctxt_post empty_smf (request 7 update_sm_context (ctxt 1)))
      ≡ goes empty_smf (request 7 update_sm_context (ctxt 1)) run)
    × (turn_of ctxt_post
          (dispatch willing ctxt_post empty_smf (request 8 update_sm_context (ctxt 1)))
        ≡ goes empty_smf (request 8 update_sm_context (ctxt 1)) run)
    × ((m₁ : Smf) × (m₂ : Smf) × (turn_of run
            (dispatch willing run empty_smf (request 7 update_sm_context (ctxt 1)))
          ≡ goes m₁ (request 7 update_sm_context (ctxt 1)) process)
        × (turn_of run (dispatch willing run m₁ (request 8 update_sm_context (ctxt 1)))
            ≡ goes m₂ (request 8 update_sm_context (ctxt 1)) process)
        × ((m₂.contexts 1).active_txn ≡ some 8))
both_run_example =
    both_run willing empty_smf (request 7 update_sm_context (ctxt 1))
      (request 8 update_sm_context (ctxt 1)) 1 refl refl refl

-- The UE 5 has the context 2.
abbrev known_smf : Smf
known_smf = record empty_smf {
  pool = λ k. if k == 2 then some 2 else none;
  canonical = λ _. some 2;
}

known-fresh : (k c : ℕ) → known_smf.pool k ≡ some c → c ≢ known_smf.next_ref
known-fresh k c q = ground arith

creating_example :
    (m' : Smf) × (create known_smf (request 7 create_sm_context no_ctxt)
      ≡ goes_on m' (record (request 7 create_sm_context (ctxt 3)) { ctxt_key = some 3 }) ctxt_post)
    × (m'.contexts 3 ≡ fresh_context)
    × (m'.pool 3 ≡ some 3)
    × (m'.canonical 5 ≡ some 3)
    × ((m'.pool 2 ≡ none) × ((m'.contexts 2).state ≡ Handlers.release))
creating_example = creating known_smf (request 7 create_sm_context no_ctxt) known-fresh

-- The first create of the UE.
first_create_test :
    create empty_smf (request 7 create_sm_context no_ctxt)
    ≡ goes_on
        (new_sm_context 5 empty_smf)
        (record (request 7 create_sm_context (ctxt 3)) { ctxt_key = some 3 })
        ctxt_post
unfolding replace_context new_sm_context
first_create_test = refl
