-- ===== src/Txn/Requests.antt =====
-- How requests start: on a missing context, with an unknown message, behind an active transaction,
-- and as two requests at once.
use smf_cdac.Base.{
  Bool, true, Option, some, ℕ, suc, ◌≡◌, ◌≢◌, ◌⊎◌, inl, inr, refl, ap, ◌∙◌, false, none, some, [],
  ◌∷◌, ◌++◌, arith, Outcome, ◌==◌,
}
use mathlib.Core.Path.{subst}
use smf_cdac.Fsm.Handlers
use smf_cdac.Fsm.Handlers.{Producer}
use smf_cdac.Txn.Types.{
  MsgType, create_sm_context, update_sm_context, release_sm_context, sm_policy_update_notification,
  n1n2_message_transfer, pfcp_sess_create_failure, n1n2_message_transfer_failure_notification,
  pfcp_sess_create, load_ctxt, failure, end, ctxt_post, run, process, Ctxt, no_ctxt, nil_ctxt, ctxt,
  Txn, add_txn, SmContext, Smf,
}
use smf_cdac.Txn.Handlers.{
  put, fetch, get_sm_context, check_ctxt, look_up, remove_found, replace_known, Stage, goes_on,
  missed, set_context, dispatch, load_ctxt_by, failure_by, end_on, txn_ctxt_post, txn_ctxt_run,
  reply, replace_context, remove_sm_context, new_sm_context, create,
}
use smf_cdac.Txn.Bus.{put_self}
use smf_cdac.Txn.LifeCycle.{
  goes, over, Ending, finished, crashed, life_cycle, start_txn_life_cycle, turn_of,
}

-- What is left of a life cycle behind the load, and behind a failure.
abbrev pub after_load : ℕ → (ℕ → Producer) → Outcome Stage → Ending
after_load fuel p o = life_cycle fuel p (turn_of load_ctxt o)

abbrev pub after_failure : ℕ → (ℕ → Producer) → Outcome Stage → Ending
after_failure fuel p o = life_cycle fuel p (turn_of failure o)

look_up-missed :
    (m : Smf) (t : Txn) (key : ℕ)
    → t.ctxt_key ≡ some key
    → m.pool key ≡ none
    → look_up m t
      ≡ goes_on (missed key m.enable_db_store m) (record t { context = nil_ctxt }) failure
look_up-missed m t key k e =
    ap (λ (g : Smf × Ctxt). check_ctxt g.0 (record t { context = g.1 }) g.1)
      (ap (get_sm_context m) k ∙ ap (λ o. fetch key o m) e)

-- The life cycle of an update or a release of a context that is not in memory ends with a negative
-- answer and an unset response status: the context is a nil pointer, which is not the nil interface
-- that the 404 is tied to. A context that the database holds is put in the pool by the way.
pub missing_unanswered :
    (p : ℕ → Producer) (m : Smf) (t : Txn) (key fuel : ℕ)
    → (t.msg_type ≡ update_sm_context) ⊎ (t.msg_type ≡ release_sm_context)
    → t.ctxt_key ≡ some key
    → m.pool key ≡ none
    → start_txn_life_cycle (suc (suc (suc (suc (suc (suc fuel)))))) p m t
      ≡ finished (reply (missed key m.enable_db_store m) t false) (record t { context = nil_ctxt })
unfolding start_txn_life_cycle life_cycle dispatch turn_of load_ctxt_by failure_by end_on
missing_unanswered p m t key fuel (inl u) k e =
    ap (after_load (suc (suc (suc fuel))) p)
      (ap (λ x. load_ctxt_by x m t) u ∙ look_up-missed m t key k e)
    ∙ ap
        (λ x.
          after_failure (suc (suc fuel)) p
            (failure_by x (missed key m.enable_db_store m) (record t { context = nil_ctxt })))
        u
missing_unanswered p m t key fuel (inr u) k e =
    ap (after_load (suc (suc (suc fuel))) p)
      (ap (λ x. load_ctxt_by x m t) u ∙ look_up-missed m t key k e)
    ∙ ap
        (λ x.
          after_failure (suc (suc fuel)) p
            (failure_by x (missed key m.enable_db_store m) (record t { context = nil_ctxt })))
        u

-- The messages that the stages know.
abbrev pub IsKnown : MsgType → Type 0
IsKnown create_sm_context = Unit
IsKnown update_sm_context = Unit
IsKnown release_sm_context = Unit
IsKnown sm_policy_update_notification = Unit
IsKnown n1n2_message_transfer = Unit
IsKnown pfcp_sess_create_failure = Unit
IsKnown n1n2_message_transfer_failure_notification = Unit
IsKnown pfcp_sess_create = Unit
IsKnown _ = ⊥

unknown_fails :
    (k : MsgType) (m : Smf) (t : Txn) → ¬ IsKnown k → load_ctxt_by k m t ≡ goes_on m t failure
unfolding load_ctxt_by
unknown_fails create_sm_context m t n = absurd (n tt)
unknown_fails update_sm_context m t n = absurd (n tt)
unknown_fails release_sm_context m t n = absurd (n tt)
unknown_fails sm_policy_update_notification m t n = absurd (n tt)
unknown_fails pfcp_sess_create m t n = absurd (n tt)
unknown_fails n1n2_message_transfer m t n = absurd (n tt)
unknown_fails pfcp_sess_create_failure m t n = absurd (n tt)
unknown_fails n1n2_message_transfer_failure_notification m t n = absurd (n tt)
unknown_fails _ m t n = refl

unknown_answers :
    (k : MsgType) (m : Smf) (t : Txn)
    → ¬ IsKnown k
    → failure_by k m t ≡ goes_on (reply m t false) t end
unfolding failure_by
unknown_answers pfcp_sess_create m t n = absurd (n tt)
unknown_answers update_sm_context m t n = absurd (n tt)
unknown_answers release_sm_context m t n = absurd (n tt)
unknown_answers _ m t n = refl

-- The life cycle of a transaction with a message that no stage knows, and no context, panics: the last
-- stage takes the nil interface for a context.
unknown_crashes :
    (p : ℕ → Producer) (m : Smf) (t : Txn) (fuel : ℕ)
    → ¬ IsKnown t.msg_type
    → t.context ≡ no_ctxt
    → start_txn_life_cycle (suc (suc (suc (suc (suc (suc fuel)))))) p m t ≡ crashed
unfolding start_txn_life_cycle life_cycle dispatch turn_of end_on
unknown_crashes p m t fuel n c =
    ap (after_load (suc (suc (suc fuel))) p) (unknown_fails t.msg_type m t n)
    ∙ ap (after_failure (suc (suc fuel)) p) (unknown_answers t.msg_type m t n)
    ∙ ap (λ x. life_cycle (suc fuel) p (turn_of end (end_on x (reply m t false) t))) c

-- A transaction that posts while another is active goes to the end of the bus and its life cycle ends;
-- one that posts to an idle context goes on to run, and the context does not show it yet.
pub posting :
    (p : ℕ → Producer) (m : Smf) (t : Txn) (r : ℕ)
    → t.context ≡ ctxt r
    → ((other : ℕ)
        → (m.contexts r).active_txn ≡ some other
        → turn_of ctxt_post (dispatch p ctxt_post m t)
          ≡ over
              (set_context m r
                (record (m.contexts r) { txn_bus = (m.contexts r).txn_bus ++ (t ∷ []) }))
              t)
      × ((m.contexts r).active_txn ≡ none
          → turn_of ctxt_post (dispatch p ctxt_post m t) ≡ goes m t run)
unfolding turn_of dispatch txn_ctxt_post add_txn
posting p m t r h = (λ other e. simp (h, e), λ e. simp (h, e))

-- Two transactions of one idle context that both post before either runs are both let through, and
-- both go on to process: the second to run takes the context's active transaction from the first.
pub both_run :
    (p : ℕ → Producer) (m : Smf) (t u : Txn) (r : ℕ)
    → t.context ≡ ctxt r
    → u.context ≡ ctxt r
    → (m.contexts r).active_txn ≡ none
    → (turn_of ctxt_post (dispatch p ctxt_post m t) ≡ goes m t run)
      × (turn_of ctxt_post (dispatch p ctxt_post m u) ≡ goes m u run)
      × ((m₁ : Smf) × (m₂ : Smf) × (turn_of run (dispatch p run m t) ≡ goes m₁ t process)
          × (turn_of run (dispatch p run m₁ u) ≡ goes m₂ u process)
          × ((m₂.contexts r).active_txn ≡ some u.txn_id))
unfolding turn_of dispatch txn_ctxt_run
both_run p m t u r h k e = (
  (posting p m t r h).1 e,
  (posting p m u r k).1 e,
  (
    set_context m r (record (m.contexts r) { active_txn = some t.txn_id }),
    set_context (set_context m r (record (m.contexts r) { active_txn = some t.txn_id })) r
        (record ((set_context m r (record (m.contexts r) { active_txn = some t.txn_id })).contexts
          r) { active_txn = some u.txn_id }),
    simp h,
    simp k,
    ap (λ (c : SmContext). c.active_txn)
        (put_self (put m.contexts r (record (m.contexts r) { active_txn = some t.txn_id })) r _),
  ),
)

-- What becomes of the pool when a context is made behind a replacement: the context that was found under
-- the old reference is out of it; where none was, only the new reference and the old one may differ.
abbrev pub Purged : ℕ → Option ℕ → Smf → Smf → Type 0
Purged old none m m' = (k : ℕ) → (k ≡ m.next_ref) ⊎ ((k ≡ old) ⊎ (m'.pool k ≡ m.pool k))
Purged old (some c) m m' = (m'.pool c ≡ none) × ((m'.contexts c).state ≡ Handlers.release)

abbrev pub Replaced : Option ℕ → Smf → Smf → Type 0
Replaced none m m' = (k : ℕ) → (k ≡ m.next_ref) ⊎ (m'.pool k ≡ m.pool k)
Replaced (some old) m m' = Purged old (m.pool old) m m'

missed-next_ref : (key : ℕ) (on : Bool) (m : Smf) → (missed key on m).next_ref ≡ m.next_ref
missed-next_ref key true m = refl
missed-next_ref key false m = refl

remove_found-next_ref :
    (r : ℕ) (o : Option ℕ) (m : Smf) → (remove_found r o m).next_ref ≡ m.next_ref
unfolding remove_sm_context
remove_found-next_ref r none m = missed-next_ref r m.enable_db_store m
remove_found-next_ref r (some c) m = refl

replace_known-next_ref : (o : Option ℕ) (m : Smf) → (replace_known o m).next_ref ≡ m.next_ref
replace_known-next_ref none m = refl
replace_known-next_ref (some r) m = remove_found-next_ref r (m.pool r) m

missed-pool :
    (key : ℕ) (on : Bool) (m : Smf) (k : ℕ) → (k ≡ key) ⊎ ((missed key on m).pool k ≡ m.pool k)
missed-pool key true m k = ground arith
missed-pool key false m k = inr refl

new_sm_context-pool :
    (ue : ℕ) (m : Smf) (k : ℕ) → (k ≡ m.next_ref) ⊎ ((new_sm_context ue m).pool k ≡ m.pool k)
unfolding new_sm_context
new_sm_context-pool ue m k = ground arith

remove_found-Purged :
    (ue r : ℕ) (o : Option ℕ) (m : Smf)
    → ((c : ℕ) → o ≡ some c → c ≢ m.next_ref)
    → Purged r o m (new_sm_context ue (remove_found r o m))
unfolding new_sm_context remove_sm_context
remove_found-Purged ue r none m n = λ k.
    let on = m.enable_db_store in
    elim (new_sm_context-pool ue (missed r on m) k) [
      | inl e ↦ inl (e ∙ missed-next_ref r on m)
      | inr e ↦ elim (missed-pool r on m k) [ inl q ↦ inr (inl q) | inr q ↦ inr (inr (e ∙ q)) ]
    ]
remove_found-Purged ue r (some c) m n =
    let ne : c ≢ m.next_ref = n c refl in
    let x : (c == m.next_ref) ≡ false = ground arith in
    (
      rw x (put_self m.pool c none),
      rw x (ap (λ (y : SmContext). y.state) (put_self m.contexts c _)),
    )

replace_known-Replaced :
    (ue : ℕ) (o : Option ℕ) (m : Smf)
    → ((k c : ℕ) → m.pool k ≡ some c → c ≢ m.next_ref)
    → Replaced o m (new_sm_context ue (replace_known o m))
replace_known-Replaced ue none m n = new_sm_context-pool ue m
replace_known-Replaced ue (some old) m n = remove_found-Purged ue old (m.pool old) m (λ c. n old c)

-- Where no context of the pool has the reference that is drawn, the load of a create request makes a
-- fresh, idle context under it, which its UE and its reference find. If the UE had a context in the
-- pool before, that is found under its reference no more, and is released; if not, the pool is as it was
-- but for the new reference, and for the UE's old one, if it had one, which the database may fill.
pub creating :
    (m : Smf) (t : Txn)
    → ((k c : ℕ) → m.pool k ≡ some c → c ≢ m.next_ref)
    → (m' : Smf) × (create m t
        ≡ goes_on m' (record t { context = ctxt m.next_ref; ctxt_key = some m.next_ref }) ctxt_post)
      × (m'.contexts m.next_ref
          ≡ record { ue = t.ue; active_txn = none; txn_bus = []; state = Handlers.init })
      × (m'.pool m.next_ref ≡ some m.next_ref)
      × (m'.canonical t.ue ≡ some m.next_ref)
      × Replaced (m.canonical t.ue) m m'
unfolding new_sm_context replace_context
creating m t n =
    let o = m.canonical t.ue in
    let r = replace_known o m in
    let e = replace_known-next_ref o m in
    let made = new_sm_context t.ue r in
    let same : some r.next_ref ≡ some m.next_ref = ap some e in
    (
      made,
      ap (λ k. goes_on made (record t { context = ctxt k; ctxt_key = some k }) ctxt_post) e,
      subst
          (λ k.
            made.contexts k
            ≡ record { ue = t.ue; active_txn = none; txn_bus = []; state = Handlers.init })
          e (put_self r.contexts r.next_ref _),
      subst (λ k. made.pool k ≡ some r.next_ref) e (put_self r.pool r.next_ref _) ∙ same,
      put_self r.canonical t.ue _ ∙ same,
      replace_known-Replaced t.ue o m n,
    )
