-- ===== src/Pfcp/Sessions.antt =====
-- SendPFCPRule at a node whose session is not established yet.
use smf_cdac.Base.{
  ℕ, ◌≡◌, refl, sym, ap, inl, inr, Option, none, some, List, [], ◌∷◌, ◌++◌, ok, >>=-returned,
  ok-injective, All,
}
use mathlib.Core.Path.{subst}
use smf_cdac.Base.Text.{Text}
use smf_cdac.Base.Dict.{Dict, lookup}
use smf_cdac.Upf.Types.{RuleState, rule_initial, rule_create, rule_update, rule_remove}
use smf_cdac.Upf.Rules.{Far, Qer, Pdr}
use smf_cdac.Paths.Nodes.{DpNode}
use smf_cdac.Paths.Tunnels.{PfcpSession}
use smf_cdac.Pfcp.Messages.{PdrIe, far_to_create_far, qer_to_create_qer}
use smf_cdac.Pfcp.Requests.{
  create_pdr, update_pdr, create_far, update_far, create_qer, remove_pdr, remove_far, remove_qer,
  States, RuleStates, Item, SessionRequest, each_rule, far_of, qer_of, new_far_item, qer_item,
  new_pdrs, qer_map, build_pfcp_session_establishment_request,
}
use smf_cdac.Pfcp.Sending.{fars_of, qers_of, node_pdrs, rule_request}
use smf_cdac.Pfcp.Closed.{
  Has, CreatesPdr, CreatesFar, CreatesQer, Has-left, Has-right, Has-split, Listed,
  each_rule-creates, each_rule-none,
}
use smf_cdac.Pfcp.Returns.{Filled, rule_request-returns}
use smf_cdac.Pfcp.Established.{
  Fresh, FarCreated, Served, Named, All-map, Fresh-Named, new_pdrs-Named, qer_map-Listed,
}

-- The parts of an establishment.
abbrev pub Parts : ℕ → List Pdr → RuleStates → SessionRequest × RuleStates → Type 0
Parts seq pdrs st r =
    (f : List Item × States) × (each_rule far_of new_far_item (fars_of pdrs) st.far ≡ ok f)
    × ((m : List (Option Qer)) × (q : List Item × States) × (qer_map (qers_of pdrs) [] ≡ ok m)
        × (each_rule qer_of qer_item m st.qer ≡ ok q)
        × (r.0.items ≡ new_pdrs pdrs st.pdr ++ (f.0 ++ q.0))
        × (r.1 ≡ record { pdr = st.pdr; far = f.1; qer = q.1 }))

pub rule_request-Parts :
    (seq : ℕ) (address : Text) (contexts : Dict PfcpSession) (x : DpNode) (st : RuleStates)
    (c : PfcpSession) (r : SessionRequest × RuleStates)
    → lookup address contexts ≡ some c
    → c.remote_seid ≡ 0
    → rule_request seq address contexts x st ≡ ok r
    → Parts seq (node_pdrs x) st r
unfolding rule_request build_pfcp_session_establishment_request
rule_request-Parts seq address contexts x st c r l z q =
    let (f, e1, q1) =
      >>=-returned (each_rule far_of new_far_item (fars_of (node_pdrs x)) st.far) _ r
        (rw (rule_request, l, z) at q) in
    let (m, e2, q2) = >>=-returned (qer_map (qers_of (node_pdrs x)) []) _ r q1 in
    let (qs, e3, q3) = >>=-returned (each_rule qer_of qer_item m st.qer) _ r q2 in
    let done = ok-injective q3 in
    (
      f,
      e1,
      (
        m,
        qs,
        e2,
        e3,
        ap (λ (y : SessionRequest × RuleStates). y.0.items) (sym done),
        ap (λ (y : SessionRequest × RuleStates). y.1) (sym done),
      ),
    )

abbrev Closed : PdrIe → List Item → Type 0
Closed p items =
    Has (CreatesPdr p) items
    → FarCreated items p.far_id × All (λ n. Has (CreatesQer n) items) p.qer_ids

far_created :
    (items : List Item) (o : Option ℕ)
    → ((n : ℕ) → o ≡ some n → Has (CreatesFar n) items)
    → FarCreated items o
far_created items none k = tt
far_created items (some n) k = k n refl

no_pdr_in_far : (p : PdrIe) (f : Far) (s : RuleState) → Has (CreatesPdr p) (new_far_item f s) → ⊥
no_pdr_in_far p f rule_initial (inl k) = k
no_pdr_in_far p f rule_initial (inr k) = k
no_pdr_in_far p f rule_create k = k
no_pdr_in_far p f rule_update k = k
no_pdr_in_far p f rule_remove k = k

no_pdr_in_qer : (p : PdrIe) (q : Qer) (s : RuleState) → Has (CreatesPdr p) (qer_item q s) → ⊥
no_pdr_in_qer p q rule_initial (inl k) = k
no_pdr_in_qer p q rule_initial (inr k) = k
no_pdr_in_qer p q rule_create k = k
no_pdr_in_qer p q rule_update k = k
no_pdr_in_qer p q rule_remove k = k

request-Closed :
    (seq : ℕ) (address : Text) (contexts : Dict PfcpSession) (x : DpNode) (st : RuleStates)
    (c : PfcpSession) (r : SessionRequest × RuleStates)
    → lookup address contexts ≡ some c
    → c.remote_seid ≡ 0
    → Fresh st (node_pdrs x)
    → rule_request seq address contexts x st ≡ ok r
    → (p : PdrIe) → Closed p r.0.items
unfolding far_to_create_far qer_to_create_qer
request-Closed seq address contexts x st c r l z fresh q p created =
    let (f, ef, (m, qs, em, eq, whole, behind)) =
      rule_request-Parts seq address contexts x st c r l z q in
    let pdrs = node_pdrs x in
    let new = new_pdrs pdrs st.pdr in
    let named : Has (CreatesPdr p) new → Named st (fars_of pdrs) (qers_of pdrs) p =
      new_pdrs-Named st (fars_of pdrs) (qers_of pdrs) pdrs p (Fresh-Named st pdrs fresh) in
    let far : (n : ℕ)
        → Listed far_of n (fars_of pdrs) × (st.far n ≡ rule_initial)
        → Has (CreatesFar n) (new ++ (f.0 ++ qs.0)) =
      λ n w. Has-right (CreatesFar n) new (f.0 ++ qs.0) (
        Has-left (CreatesFar n) f.0 qs.0 (
          each_rule-creates far_of new_far_item (CreatesFar n) n (λ a k. inl k) (fars_of pdrs)
            st.far f ef w.0 w.1)) in
    let qer : (n : ℕ)
        → Listed qer_of n (qers_of pdrs) × (st.qer n ≡ rule_initial)
        → Has (CreatesQer n) (new ++ (f.0 ++ qs.0)) =
      λ n w. Has-right (CreatesQer n) new (f.0 ++ qs.0) (
        Has-right (CreatesQer n) f.0 qs.0 (
          each_rule-creates qer_of qer_item (CreatesQer n) n (λ a k. inl k) m st.qer qs eq
            (qer_map-Listed n (qers_of pdrs) [] m em (inl w.0)) w.1)) in
    let all : Closed p (new ++ (f.0 ++ qs.0)) = λ h.
      elim (Has-split (CreatesPdr p) new (f.0 ++ qs.0) h) [
        | inl k ↦ (
          far_created (new ++ (f.0 ++ qs.0)) p.far_id (λ n e. far n ((named k).0 n e)),
          All-map (λ n. Listed qer_of n (qers_of pdrs) × (st.qer n ≡ rule_initial)) _ p.qer_ids qer
              (named k).1,
        )
        | inr k ↦ elim (Has-split (CreatesPdr p) f.0 qs.0 k) [
          | inl w ↦ absurd (
              each_rule-none far_of new_far_item (CreatesPdr p) (no_pdr_in_far p) (fars_of pdrs)
                st.far f ef w)
          | inr w ↦
              absurd
                (each_rule-none qer_of qer_item (CreatesPdr p) (no_pdr_in_qer p) m st.qer qs eq w)
        ]
      ] in
    subst (Closed p) (sym whole) all created

item-Served :
    (items : List Item) (i : Item)
    → ((p : PdrIe) → CreatesPdr p i → Served items (create_pdr p))
    → Served items i
item-Served items (create_pdr p) k = k p refl
item-Served items (update_pdr p) k = tt
item-Served items (create_far f) k = tt
item-Served items (update_far f) k = tt
item-Served items (create_qer q) k = tt
item-Served items (remove_pdr n) k = tt
item-Served items (remove_far n) k = tt
item-Served items (remove_qer n) k = tt

all-Served :
    (items is : List Item)
    → ((p : PdrIe) → Has (CreatesPdr p) is → Served items (create_pdr p))
    → All (Served items) is
all-Served items [] k = tt
all-Served items (i ∷ is) k =
    (item-Served items i (λ p h. k p (inl h)), all-Served items is (λ p h. k p (inr h)))

-- Where the session has a PFCP context for the node whose remote SEID is still 0, no PDR of the node
-- lacks its FAR and no QER is nil, and each PDR that is new to the UPF has a FAR and QERs that are new
-- too, SendPFCPRule builds an establishment at the node, and it is complete: with each PDR that it
-- creates, it creates the FAR and every QER that the PDR names.
pub rule_request-Closed :
    (seq : ℕ) (address : Text) (contexts : Dict PfcpSession) (x : DpNode) (st : RuleStates)
    (c : PfcpSession)
    → lookup address contexts ≡ some c
    → c.remote_seid ≡ 0
    → Filled (node_pdrs x)
    → Fresh st (node_pdrs x)
    → (r : SessionRequest × RuleStates) × (rule_request seq address contexts x st ≡ ok r)
      × All (Served r.0.items) r.0.items
rule_request-Closed seq address contexts x st c l z filled fresh =
    let (r, q) = rule_request-returns seq address contexts x st c l z filled in
    let closed = request-Closed seq address contexts x st c r l z fresh q in
    (r, q, all-Served r.0.items r.0.items closed)
