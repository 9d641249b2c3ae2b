-- ===== src/Txn/Rounds.antt =====
-- Each round of a life cycle on a context lowers the cost and keeps the answers that are due.
use smf_cdac.Base.{
  ℕ, ◌+◌, ◌≡◌, ◌≢◌, refl, sym, ap, ◌∙◌, Bool, true, false, none, some, Bool-cases, [], ◌∷◌, ◌++◌,
  inl, inr, arith, Outcome, ok, err, panic,
}
use mathlib.Core.List.{append-nil}
use smf_cdac.Fsm.Handlers.{Producer, SmState, SmEvent, handle_event}
use smf_cdac.Txn.Types.{
  MsgType, update_sm_context, release_sm_context, n1n2_message_transfer, pfcp_sess_create_failure,
  pfcp_sess_create, TxnEvent, run, process, success, failure, save, end, ctxt, Txn, TxnBus, add_txn,
  pop_txn, SmContext, Smf,
}
use smf_cdac.Txn.Handlers.{
  put, dispatch, set_context, ensure_pooled, txn_ctxt_run, txn_process, processed, success_by,
  failure_by, is_pfcp_create_pending, spawn, save_by, end_on, ended, reply,
}
use smf_cdac.Txn.LifeCycle.{goes, turn_of}
use smf_cdac.Txn.Bus.{
  bus_of, bus_cost, cost, ids, answered, expected, AllHere, Inv, TurnSpec, put_self, quiet, answer,
}

-- No producer makes a handler panic.
abbrev pub NeverPanics : (ℕ → Producer) → Type 0
NeverPanics p = (id : ℕ) (s : SmState) (e : SmEvent) → (handle_event (p id) s e).1 ≢ panic

-- One round of a life cycle on the context `r`.
Round : (r : ℕ) (p : ℕ → Producer) (m : Smf) (t : Txn) (e : TxnEvent) → Type 0
Round r p m t e =
    TurnSpec r (cost e t.msg_type + bus_cost (bus_of m r)) (expected r m t e)
      (turn_of e (dispatch p e m t))

Round-run : (r : ℕ) (p : ℕ → Producer) (m : Smf) (t : Txn) → Inv r m t run → Round r p m t run
unfolding Round turn_of dispatch txn_ctxt_run
Round-run r p m t v = simp v.here (
    quiet r m (set_context m r (record (m.contexts r) { active_txn = some t.txn_id })) t run process
      v tt (ap (λ (c : SmContext). c.txn_bus) (put_self m.contexts r _)) refl refl (omega arith))

ensure_pooled_same :
    (m : Smf) (r : ℕ)
    → ((ensure_pooled m r).contexts ≡ m.contexts) × ((ensure_pooled m r).replies ≡ m.replies)
ensure_pooled_same m r = elim (Bool-cases m.enable_db_store) [
  | inl on ↦ rw on (refl, refl)
  | inr off ↦ rw off (refl, refl)
]

process_result :
    (r : ℕ) (m m' : Smf) (t : Txn) (o : Outcome (Unit {0}))
    → o ≢ panic
    → Inv r m t process
    → bus_of m' r ≡ bus_of m r
    → m'.replies ≡ m.replies
    → TurnSpec r
        (cost process t.msg_type + bus_cost (bus_of m r))
        (expected r m t process)
        (turn_of process (processed m' t o))
unfolding turn_of
process_result r m m' t (ok u) n v b a = quiet r m m' t process success v tt b a refl (omega arith)
process_result r m m' t err n v b a = quiet r m m' t process failure v tt b a refl (omega arith)
process_result r m m' t panic n v b a = n refl

Round-process :
    (r : ℕ) (p : ℕ → Producer) (m : Smf) (t : Txn)
    → NeverPanics p
    → Inv r m t process
    → Round r p m t process
unfolding Round dispatch txn_process
Round-process r p m t n v =
    let (same, answers) = ensure_pooled_same m r in
    simp v.here (
      process_result r m _ t _ (n t.txn_id _ _) v
        (ap (λ (c : SmContext). c.txn_bus) (put_self (ensure_pooled m r).contexts r _)
          ∙ ap (λ (f : ℕ → SmContext). (f r).txn_bus) same)
        answers)

spawn_bus :
    (k : MsgType) (r : ℕ) (m : Smf)
    → (u : Txn) × (bus_of (spawn k r m) r ≡ bus_of m r ++ (u ∷ []))
      × (u.context ≡ ctxt r)
      × (u.msg_type ≡ k)
unfolding spawn add_txn
spawn_bus k r m = (_, ap (λ (c : SmContext). c.txn_bus) (put_self m.contexts r _), refl, refl)

success_round :
    (r : ℕ) (m : Smf) (t : Txn) (k : MsgType)
    → t.msg_type ≡ k
    → Inv r m t success
    → TurnSpec r
        (cost success t.msg_type + bus_cost (bus_of m r))
        (expected r m t success)
        (turn_of success (success_by k m t))
unfolding turn_of success_by
success_round r m t pfcp_sess_create e v =
    let (u, bus, here, kind) = spawn_bus n1n2_message_transfer r m in
    simp v.here (
      answer r m (reply (spawn n1n2_message_transfer r m) t true) t success save true (u ∷ []) v tt
        bus (here, tt) (unfold spawn in refl) refl refl (rw (e, kind) (omega arith)))
success_round r m t _ e v =
    answer r m (reply m t true) t success save true [] v tt (sym (append-nil _)) tt refl refl refl
      (omega arith)

answer_false :
    (r : ℕ) (m : Smf) (t : Txn)
    → Inv r m t failure
    → TurnSpec r
        (cost failure t.msg_type + bus_cost (bus_of m r))
        (expected r m t failure)
        (goes (reply m t false) t end)
answer_false r m t v =
    answer r m (reply m t false) t failure end false [] v tt (sym (append-nil _)) tt refl refl refl
      (omega arith)

failure_round :
    (r : ℕ) (m : Smf) (t : Txn) (k : MsgType)
    → t.msg_type ≡ k
    → Inv r m t failure
    → TurnSpec r
        (cost failure t.msg_type + bus_cost (bus_of m r))
        (expected r m t failure)
        (turn_of failure (failure_by k m t))
unfolding turn_of failure_by
failure_round r m t pfcp_sess_create e v =
    simp v.here (elim (Bool-cases (is_pfcp_create_pending (m.contexts r).state)) [
      | inl pending ↦
          let (u, bus, here, kind) = spawn_bus pfcp_sess_create_failure r m in
          rw pending (
            answer r m (reply (spawn pfcp_sess_create_failure r m) t false) t failure end false
              (u ∷ []) v tt bus (here, tt) (unfold spawn in refl) refl refl
              (rw (e, kind) (omega arith)))
      | inr other ↦ rw other (answer_false r m t v)
    ])
failure_round r m t update_sm_context e v = simp v.here (answer_false r m t v)
failure_round r m t release_sm_context e v = simp v.here (answer_false r m t v)
failure_round r m t _ e v = answer_false r m t v

save_round :
    (r : ℕ) (m : Smf) (t : Txn) (b : Bool)
    → Inv r m t save
    → TurnSpec r
        (cost save t.msg_type + bus_cost (bus_of m r))
        (expected r m t save)
        (turn_of save (save_by b m t))
unfolding turn_of save_by
save_round r m t true v = simp v.here (
    quiet r m (record m { database = put m.database r (some r) }) t save end v tt refl refl refl
      (omega arith))
save_round r m t false v = quiet r m m t save end v tt refl refl refl (omega arith)

end_round :
    (r : ℕ) (m : Smf) (t : Txn) (c : SmContext) (bus : TxnBus)
    → Inv r m t end
    → bus_of m r ≡ bus
    → c ≡ m.contexts r
    → TurnSpec r
        (1 + bus_cost bus)
        (answered m.replies ++ ids bus)
        (turn_of end (ended m t r c (pop_txn bus)))
unfolding turn_of pop_txn
end_round r m t c [] v b e = (
  ap (λ (x : SmContext). x.active_txn) (put_self m.contexts r _),
  ap (λ (x : SmContext). x.txn_bus) (put_self m.contexts r _)
      ∙ ap (λ (x : SmContext). x.txn_bus) e
      ∙ b,
  ([], simp append-nil),
)
end_round r m t c (u ∷ bus) v b e =
    let all : AllHere r (u ∷ bus) = rw b at v.bus_here in
    let rest : bus_of (set_context m r (record c { active_txn = none; txn_bus = bus })) r ≡ bus =
      ap (λ (x : SmContext). x.txn_bus) (put_self m.contexts r _) in
    (
      record { here = all.0; bus_here = rw rest all.1; phase = tt },
      rw rest (omega arith),
      ([], rw rest (sym (append-nil _))),
    )

Round-end : (r : ℕ) (p : ℕ → Producer) (m : Smf) (t : Txn) → Inv r m t end → Round r p m t end
unfolding Round dispatch end_on
Round-end r p m t v = simp v.here (end_round r m t (m.contexts r) (bus_of m r) v refl refl)

pub round :
    (r : ℕ) (p : ℕ → Producer) (m : Smf) (t : Txn) (e : TxnEvent)
    → NeverPanics p
    → Inv r m t e
    → TurnSpec r
        (cost e t.msg_type + bus_cost (bus_of m r))
        (expected r m t e)
        (turn_of e (dispatch p e m t))
unfolding Round
round r p m t run n v = Round-run r p m t v
round r p m t process n v = Round-process r p m t n v
round r p m t success n v = unfold dispatch in (success_round r m t t.msg_type refl v)
round r p m t failure n v = unfold dispatch in (failure_round r m t t.msg_type refl v)
round r p m t save n v = unfold dispatch in (save_round r m t m.enable_db_store v)
round r p m t end n v = Round-end r p m t v
round r p m t e n v = absurd v.phase
