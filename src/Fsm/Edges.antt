-- ===== src/Fsm/Edges.antt =====
-- The transitions of the state machine, as a diagram of its own.
use smf_cdac.Base.{
  ◌≡◌, ◌≢◌, ◌⊎◌, inl, inr, refl, ◌↔◌, Bool-cases, true, false, Outcome, ok, err, panic, arith,
}
use smf_cdac.Fsm.Handlers.{
  SmState, init, active_pending, active, in_active_pending, modify, pfcp_create_pending,
  pfcp_modify, pfcp_release, release, n1n2_transfer_pending, SmEvent, pdu_sess_create,
  pdu_sess_modify, pdu_sess_release, pfcp_sess_create, pfcp_sess_create_failure,
  pdu_sess_n1n2_transfer, pdu_sess_n1n2_transfer_failure_indication, policy_update_notify,
  ProducerCall, sm_context_create, sm_context_update, sm_context_release, send_pfcp_rules,
  n1n2_transfer, n1n2_trans_fail_ind, sm_policy_update_notify, Producer, conclude, handle_event,
}
use mathlib.Core.Path.{subst}

-- The diagram: state, event, the call that decides, next state.
pub data Edge : SmState → SmEvent → ProducerCall → SmState → Type 0 where
  establish : Edge init pdu_sess_create sm_context_create pfcp_create_pending
  forward : Edge pfcp_create_pending pfcp_sess_create send_pfcp_rules n1n2_transfer_pending
  refuse : Edge pfcp_create_pending pfcp_sess_create_failure (n1n2_transfer false) init
  accept : Edge n1n2_transfer_pending pdu_sess_n1n2_transfer (n1n2_transfer true) active
  update : Edge active pdu_sess_modify sm_context_update active
  give_up : Edge active pdu_sess_release sm_context_release init
  undelivered : Edge active pdu_sess_n1n2_transfer_failure_indication n1n2_trans_fail_ind init
  change_policy : Edge active policy_update_notify sm_policy_update_notify active

ruleset edges = (establish, forward, refuse, accept, update, give_up, undelivered, change_policy)

-- A failing handler does not return a state.
abbrev IsFailure : Outcome SmState → Type 0
IsFailure (ok t) = ⊥
IsFailure err = Unit {0}
IsFailure panic = Unit {0}

hidden_error_fails : (p : Producer) → IsFailure (elim p.publishes [ true ↦ panic | false ↦ err ])
hidden_error_fails p = ground arith

failure_ends :
    (left t : SmState) (f : Outcome SmState) → IsFailure f → conclude (left, f) ≢ (t, ok tt)
failure_ends left t (ok u) n h = n
failure_ends left t err n h = cc
failure_ends left t panic n h = cc

-- An edge whose call decides the handler is the edge that is followed.
follow :
    {s : SmState} {e : SmEvent} {c : ProducerCall} {u : SmState} (p : Producer) (t : SmState)
    (f : Outcome SmState)
    → Edge s e c u
    → IsFailure f
    → conclude (p.leaves c s, elim (p.succeeds c s) [ true ↦ ok u | false ↦ f ]) ≡ (t, ok tt)
    → (d : ProducerCall) × Edge s e d t × (p.succeeds d s ≡ true)
follow {s} {e} {c} {u} p t f k n h = elim (Bool-cases (p.succeeds c s)) [
  | inl yes_it ↦
      let h' : ◌≡◌ {A = SmState × Outcome (Unit {0})} (u, ok tt) (t, ok tt) = rw yes_it at h in
      let same : u ≡ t = cc in (c, subst (Edge s e c) same k, yes_it)
  | inr fails ↦
      let h' : conclude (p.leaves c s, f) ≡ (t, ok tt) = rw fails at h in
      absurd (failure_ends (p.leaves c s) t f n h')
]

-- An event that is handled without an error follows an edge of the diagram whose call succeeded.
pub handle_event-Edge :
    (p : Producer) (s : SmState) (e : SmEvent) (t : SmState)
    → handle_event p s e ≡ (t, ok tt)
    → (c : ProducerCall) × Edge s e c t × (p.succeeds c s ≡ true)
unfolding handle_event
handle_event-Edge p init pdu_sess_create t h = follow p t err establish tt h
handle_event-Edge p pfcp_create_pending pfcp_sess_create t h = follow p t err forward tt h
handle_event-Edge p pfcp_create_pending pfcp_sess_create_failure t h = follow p t err refuse tt h
handle_event-Edge p n1n2_transfer_pending pdu_sess_n1n2_transfer t h =
    follow p t _ accept (hidden_error_fails p) h
handle_event-Edge p active pdu_sess_modify t h = follow p t err update tt h
handle_event-Edge p active pdu_sess_release t h = follow p t _ give_up (hidden_error_fails p) h
handle_event-Edge p active pdu_sess_n1n2_transfer_failure_indication t h =
    follow p t err undelivered tt h
handle_event-Edge p active policy_update_notify t h = follow p t err change_policy tt h
handle_event-Edge p s e t h = cc

-- Every edge is followed when its call succeeds.
Edge-handle_event :
    {s : SmState} {e : SmEvent} {c : ProducerCall} {t : SmState} (p : Producer)
    → Edge s e c t
    → p.succeeds c s ≡ true
    → handle_event p s e ≡ (t, ok tt)
unfolding handle_event
Edge-handle_event p establish h = ground arith
Edge-handle_event p forward h = ground arith
Edge-handle_event p refuse h = ground arith
Edge-handle_event p accept h = ground arith
Edge-handle_event p update h = ground arith
Edge-handle_event p give_up h = ground arith
Edge-handle_event p undelivered h = ground arith
Edge-handle_event p change_policy h = ground arith

-- Where no edge leaves a state on an event, the event is refused and the state stays.
no_Edge_refused :
    (p : Producer) (s : SmState) (e : SmEvent)
    → ((c : ProducerCall) (t : SmState) → ¬ Edge s e c t)
    → handle_event p s e ≡ (s, err)
unfolding handle_event
no_Edge_refused p init pdu_sess_create n = absurd (n _ _ establish)
no_Edge_refused p pfcp_create_pending pfcp_sess_create n = absurd (n _ _ forward)
no_Edge_refused p pfcp_create_pending pfcp_sess_create_failure n = absurd (n _ _ refuse)
no_Edge_refused p n1n2_transfer_pending pdu_sess_n1n2_transfer n = absurd (n _ _ accept)
no_Edge_refused p active pdu_sess_modify n = absurd (n _ _ update)
no_Edge_refused p active pdu_sess_release n = absurd (n _ _ give_up)
no_Edge_refused p active pdu_sess_n1n2_transfer_failure_indication n = absurd (n _ _ undelivered)
no_Edge_refused p active policy_update_notify n = absurd (n _ _ change_policy)
no_Edge_refused p s e n = refl

-- The states that no event leaves.
pub data IsStuck : SmState → Type 0 where
  stuck_active_pending : IsStuck active_pending
  stuck_in_active_pending : IsStuck in_active_pending
  stuck_modify : IsStuck modify
  stuck_pfcp_modify : IsStuck pfcp_modify
  stuck_pfcp_release : IsStuck pfcp_release
  stuck_release : IsStuck release

stays : (q : Producer) (s : SmState) (d : SmEvent) → IsStuck s → handle_event q s d ≡ (s, err)
stays q s d stuck_active_pending = no_Edge_refused q s d (λ c t k. elim k [ ])
stays q s d stuck_in_active_pending = no_Edge_refused q s d (λ c t k. elim k [ ])
stays q s d stuck_modify = no_Edge_refused q s d (λ c t k. elim k [ ])
stays q s d stuck_pfcp_modify = no_Edge_refused q s d (λ c t k. elim k [ ])
stays q s d stuck_pfcp_release = no_Edge_refused q s d (λ c t k. elim k [ ])
stays q s d stuck_release = no_Edge_refused q s d (λ c t k. elim k [ ])

failed :
    (p : Producer) (s : SmState) (e : SmEvent) (c : ProducerCall) (t : SmState)
    → Edge s e c t
    → c ≢ sm_context_release
    → c ≢ n1n2_transfer true
    → p.succeeds c s ≡ false
    → handle_event p s e ≡ (p.leaves c s, err)
unfolding handle_event
failed p _ _ _ _ establish a b f = ground arith
failed p _ _ _ _ forward a b f = ground arith
failed p _ _ _ _ refuse a b f = ground arith
failed p _ _ _ _ accept a b f = absurd (b refl)
failed p _ _ _ _ update a b f = ground arith
failed p _ _ _ _ give_up a b f = absurd (a refl)
failed p _ _ _ _ undelivered a b f = ground arith
failed p _ _ _ _ change_policy a b f = ground arith

-- Where the producer's call on an edge, which is not that of a release or of the transfer of an accept,
-- fails and leaves the context in ActivePending, InActivePending, Modify, PFCPModify, PFCPRelease or
-- Release, HandleEvent returns an error and the context keeps that state; any event that follows is
-- refused, whatever the producer does, and leaves the state as it is.
pub failed_call_sticks :
    (p q : Producer) (s : SmState) (e d : SmEvent) (c : ProducerCall) (t : SmState)
    → Edge s e c t
    → c ≢ sm_context_release
    → c ≢ n1n2_transfer true
    → p.succeeds c s ≡ false
    → IsStuck (p.leaves c s)
    → (handle_event p s e ≡ (p.leaves c s, err))
      × (handle_event q (p.leaves c s) d ≡ (p.leaves c s, err))
failed_call_sticks p q s e d c t k a b f i = (failed p s e c t k a b f, stays q (p.leaves c s) d i)

-- A failing transfer of an accept and a failing release panic, if their metric event was published.
pub failed_call_panics :
    (p : Producer) (s : SmState) (e : SmEvent)
    → ((handle_event p s e).1 ≡ panic) ↔ (
        (p.publishes ≡ true)
        × (((s ≡ n1n2_transfer_pending)
              × (e ≡ pdu_sess_n1n2_transfer)
              × (p.succeeds (n1n2_transfer true) s ≡ false))
            ⊎ ((s ≡ active) × (e ≡ pdu_sess_release) × (p.succeeds sm_context_release s ≡ false))))
unfolding handle_event
failed_call_panics p n1n2_transfer_pending pdu_sess_n1n2_transfer =
    (λ h. ground arith, λ h. ground arith)
failed_call_panics p active pdu_sess_release = (λ h. ground arith, λ h. ground arith)
failed_call_panics p s e = (λ h. ground arith, λ h. ground arith)
