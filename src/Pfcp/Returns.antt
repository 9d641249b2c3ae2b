-- ===== src/Pfcp/Returns.antt =====
-- The loops of BuildPfcpSessionEstablishmentRequest on rules that are not nil.
use smf_cdac.Base.{
  ℕ, ◌≡◌, refl, ap, ◌∙◌, Bool-cases, inl, inr, Option, none, some, List, [], ◌∷◌, ◌++◌, ◌==◌,
  Outcome, ok, ◌>>=◌, All,
}
use smf_cdac.Base.Text.{Text}
use smf_cdac.Base.Dict.{Dict, lookup}
use smf_cdac.Upf.Types.{RuleState, rule_create}
use smf_cdac.Upf.Rules.{Far, Qer, Pdr}
use smf_cdac.Paths.Nodes.{DpNode}
use smf_cdac.Paths.Tunnels.{PfcpSession}
use smf_cdac.Pfcp.Requests.{
  States, RuleStates, Item, SessionRequest, set_state, each_rule, far_of, qer_of, new_far_item,
  qer_item, put_qer, qer_map, build_pfcp_session_establishment_request,
}
use smf_cdac.Pfcp.Sending.{fars_of, qers_of, node_pdrs, rule_request}

-- Where the first of two steps returns, so does the whole if the second does.
pub returns :
    {A B : Type 0} (o : Outcome A) (f : A → Outcome B) (a : A)
    → o ≡ ok a
    → (b : B) × (f a ≡ ok b)
    → (b : B) × ((o >>= f) ≡ ok b)
returns o f a e (b, q) = (b, ap (λ x. x >>= f) e ∙ q)

-- No pointer of the list is nil.
abbrev pub NoNil : {A : Type 0} → List (Option A) → Type 0
NoNil [] = Unit
NoNil (none ∷ more) = ⊥
NoNil (some a ∷ more) = NoNil more

-- Each PDR has a FAR, and QERs that are not nil.
abbrev pub Filled : List Pdr → Type 0
Filled = All (λ (p : Pdr). ((f : Far) × (p.far ≡ some f)) × NoNil p.qer)

NoNil-append : {A : Type 0} (xs ys : List (Option A)) → NoNil xs → NoNil ys → NoNil (xs ++ ys)
NoNil-append [] ys h k = k
NoNil-append (none ∷ xs) ys h k = h
NoNil-append (some x ∷ xs) ys h k = NoNil-append xs ys h k

pub fars_of-NoNil : (pdrs : List Pdr) → Filled pdrs → NoNil (fars_of pdrs)
unfolding fars_of
fars_of-NoNil [] h = tt
fars_of-NoNil (p ∷ pdrs) h = let ((f, e), k) = h.0 in rw e (fars_of-NoNil pdrs h.1)

pub qers_of-NoNil : (pdrs : List Pdr) → Filled pdrs → NoNil (qers_of pdrs)
unfolding qers_of
qers_of-NoNil [] h = tt
qers_of-NoNil (p ∷ pdrs) h = NoNil-append p.qer (qers_of pdrs) h.0.1 (qers_of-NoNil pdrs h.1)

pub each_rule-returns :
    {A : Type 0} (id : A → ℕ) (items : A → RuleState → List Item) (l : List (Option A))
    (st : States)
    → NoNil l
    → (r : List Item × States) × (each_rule id items l st ≡ ok r)
unfolding each_rule
each_rule-returns id items [] st h = (_, refl)
each_rule-returns id items (none ∷ l) st h = absurd h
each_rule-returns id items (some a ∷ l) st h =
    let (r, e) = each_rule-returns id items l (set_state (id a) rule_create st) h in
    returns (each_rule id items l (set_state (id a) rule_create st)) _ r e (_, refl)

put_qer-NoNil : (q : Qer) (m : List (Option Qer)) → NoNil m → NoNil (put_qer q m)
unfolding put_qer
put_qer-NoNil q [] h = tt
put_qer-NoNil q (none ∷ m) h = h
put_qer-NoNil q (some r ∷ m) h = elim (Bool-cases (r.qer_id == q.qer_id)) [
  | inl w ↦ rw w h
  | inr w ↦ rw w (put_qer-NoNil q m h)
]

qer_map-returns :
    (qs m : List (Option Qer))
    → NoNil qs
    → NoNil m
    → (r : List (Option Qer)) × (qer_map qs m ≡ ok r) × NoNil r
unfolding qer_map
qer_map-returns [] m h k = (m, refl, k)
qer_map-returns (none ∷ qs) m h k = absurd h
qer_map-returns (some q ∷ qs) m h k = qer_map-returns qs (put_qer q m) h (put_qer-NoNil q m k)

-- An establishment is built wherever no PDR lacks its FAR and no QER is nil.
pub rule_request-returns :
    (seq : ℕ) (address : Text) (contexts : Dict PfcpSession) (x : DpNode) (st : RuleStates)
    (c : PfcpSession)
    → lookup address contexts ≡ some c
    → c.remote_seid ≡ 0
    → Filled (node_pdrs x)
    → (r : SessionRequest × RuleStates) × (rule_request seq address contexts x st ≡ ok r)
unfolding rule_request build_pfcp_session_establishment_request
rule_request-returns seq address contexts x st c l z h =
    let pdrs = node_pdrs x in
    let (f, e1) =
      each_rule-returns far_of new_far_item (fars_of pdrs) st.far (fars_of-NoNil pdrs h) in
    let (m, e2, k) = qer_map-returns (qers_of pdrs) [] (qers_of-NoNil pdrs h) tt in
    let (q, e3) = each_rule-returns qer_of qer_item m st.qer k in
    rw (rule_request, l, z)
      (returns (each_rule far_of new_far_item (fars_of pdrs) st.far) _ f e1 (
        returns (qer_map (qers_of pdrs) []) _ m e2
          (returns (each_rule qer_of qer_item m st.qer) _ q e3 (_, refl))))
