-- ===== src/Pfcp/Repeats.antt =====
-- What SendPFCPRule sends for a new PDR at a node, first without and then with an established session.
use smf_cdac.Base.{
  ℕ, suc, ◌≡◌, refl, sym, ◌∙◌, ap, inl, inr, Option, some, List, [], ◌∷◌, ◌++◌, arith, ◌==◌, false,
  Outcome, ok, ◌>>=◌,
}
use mathlib.Core.Path.{subst}
use smf_cdac.Base.Text.{Text}
use smf_cdac.Base.Dict.{Dict, lookup}
use smf_cdac.Upf.Types.{rule_initial}
use smf_cdac.Upf.Rules.{Far, Pdr}
use smf_cdac.Paths.Nodes.{DpNode}
use smf_cdac.Paths.Tunnels.{PfcpSession}
use smf_cdac.Pfcp.Messages.{pdr_ie}
use smf_cdac.Pfcp.Requests.{
  States, RuleStates, Item, create_pdr, SessionRequest, each_rule, pdr_of, far_of, qer_of, pdr_item,
  far_item, qer_item, initial_only, new_pdrs, some_of, build_pfcp_session_modification_request,
}
use smf_cdac.Pfcp.Sending.{fars_of, qers_of, node_pdrs, rule_request}
use smf_cdac.Pfcp.Closed.{Has, Has-left, Has-right, Listed, each_rule-creates}
use smf_cdac.Pfcp.Returns.{
  Filled, NoNil, fars_of-NoNil, qers_of-NoNil, each_rule-returns, rule_request-returns,
}
use smf_cdac.Pfcp.Sessions.{rule_request-Parts}

-- A Create PDR for the id.
abbrev pub CreatesPdrOf : ℕ → Item → Type 0
CreatesPdrOf n (create_pdr p) = p.pdr_id ≡ n
CreatesPdrOf n _ = ⊥

new_pdrs-creates :
    (n : ℕ) (pdrs : List Pdr) (st : States)
    → Listed pdr_of n (some_of pdrs)
    → st n ≡ rule_initial
    → Has (CreatesPdrOf n) (new_pdrs pdrs st)
unfolding new_pdrs pdr_ie
new_pdrs-creates n [] st h i = absurd h
new_pdrs-creates n (p ∷ pdrs) st (inl e) i = rw (e, i) (inl refl)
new_pdrs-creates n (p ∷ pdrs) st (inr h) i =
    Has-right (CreatesPdrOf n) (initial_only (λ q. create_pdr (pdr_ie q)) p (st p.pdr_id)) _
      (new_pdrs-creates n pdrs st h i)

some_of-NoNil : {A : Type 0} (xs : List A) → NoNil (some_of xs)
some_of-NoNil [] = tt
some_of-NoNil (x ∷ xs) = some_of-NoNil xs

-- As `returns`, with what the result is.
returns_with :
    {A B : Type 0} (P : B → Type 0) (o : Outcome A) (f : A → Outcome B) (a : A)
    → o ≡ ok a
    → (b : B) × (f a ≡ ok b) × P b
    → (b : B) × ((o >>= f) ≡ ok b) × P b
returns_with P o f a e (b, q, h) = (b, ap (λ x. x >>= f) e ∙ q, h)

-- A modification over rules that are there is built, and creates each PDR that is new.
modification-creates :
    (seq : ℕ) (c : PfcpSession) (pdrs : List Pdr) (st : RuleStates) (n : ℕ)
    → Filled pdrs
    → Listed pdr_of n (some_of pdrs)
    → st.pdr n ≡ rule_initial
    → (r : SessionRequest × RuleStates × List (Option Far))
      × (build_pfcp_session_modification_request seq c pdrs
            (fars_of pdrs)
            (qers_of pdrs)
            []
            []
            []
            st
          ≡ ok r)
      × Has (CreatesPdrOf n) r.0.items
unfolding build_pfcp_session_modification_request pdr_ie
modification-creates seq c pdrs st n h l i =
    let (p, e1) = each_rule-returns pdr_of pdr_item (some_of pdrs) st.pdr (some_of-NoNil pdrs) in
    let (f, e2) = each_rule-returns far_of far_item (fars_of pdrs) st.far (fars_of-NoNil pdrs h) in
    let (q, e3) = each_rule-returns qer_of qer_item (qers_of pdrs) st.qer (qers_of-NoNil pdrs h) in
    let made =
      each_rule-creates pdr_of pdr_item (CreatesPdrOf n) n (λ a e. inl e) (some_of pdrs) st.pdr p e1
        l i in
    let first =
      Has-left (CreatesPdrOf n) (p.0 ++ (f.0 ++ q.0)) []
        (Has-left (CreatesPdrOf n) p.0 (f.0 ++ q.0) made) in
    let P =
      λ (r : SessionRequest × RuleStates × List (Option Far)). Has (CreatesPdrOf n) r.0.items in
    returns_with P (each_rule pdr_of pdr_item (some_of pdrs) st.pdr) _ p e1 (
      returns_with P (each_rule far_of far_item (fars_of pdrs) st.far) _ f e2
        (returns_with P (each_rule qer_of qer_item (qers_of pdrs) st.qer) _ q e3 (_, refl, first)))

modification-chosen :
    (seq : ℕ) (address : Text) (contexts : Dict PfcpSession) (x : DpNode) (st : RuleStates)
    (d : PfcpSession) (m : ℕ) (w : SessionRequest × RuleStates × List (Option Far))
    → lookup address contexts ≡ some d
    → d.remote_seid ≡ suc m
    → build_pfcp_session_modification_request seq d
        (node_pdrs x)
        (fars_of (node_pdrs x))
        (qers_of (node_pdrs x))
        []
        []
        []
        st
      ≡ ok w
    → rule_request seq address contexts x st ≡ ok (w.0, w.1)
unfolding rule_request
modification-chosen seq address contexts x st d m w k y q =
    let other : (d.remote_seid == 0) ≡ false = ground arith in
    let run =
      ap
        (λ (v : Outcome (SessionRequest × RuleStates × List (Option Far))).
          v >>= λ r. ok (r.0, r.1))
        q in
    rw (rule_request, k, other) run

-- Where no PDR of a node lacks its FAR and no QER is nil, a PDR that is new to the UPF is created by the
-- establishment that SendPFCPRule builds at the node while the session's PFCP context for it has the
-- remote SEID 0, and created again by the modification that it builds from the states behind it, once
-- the context has another remote SEID.
pub rule_request-repeats :
    (seq next : ℕ) (address : Text) (contexts later : Dict PfcpSession) (x : DpNode)
    (st : RuleStates) (c d : PfcpSession) (n m : ℕ)
    → lookup address contexts ≡ some c
    → c.remote_seid ≡ 0
    → lookup address later ≡ some d
    → d.remote_seid ≡ suc m
    → Filled (node_pdrs x)
    → Listed pdr_of n (some_of (node_pdrs x))
    → st.pdr n ≡ rule_initial
    → (r s : SessionRequest × RuleStates) × (rule_request seq address contexts x st ≡ ok r)
      × Has (CreatesPdrOf n) r.0.items
      × (rule_request next address later x r.1 ≡ ok s)
      × Has (CreatesPdrOf n) s.0.items
rule_request-repeats seq next address contexts later x st c d n m l z k y h i new =
    let (r, e) = rule_request-returns seq address contexts x st c l z h in
    let (f, ef, (ms, qs, em, eq, whole, behind)) =
      rule_request-Parts seq address contexts x st c r l z e in
    let pdrs = node_pdrs x in
    let still : r.1.pdr n ≡ rule_initial = ap (λ (v : RuleStates). v.pdr n) behind ∙ new in
    let ((s, t, fs), q, again) = modification-creates next d pdrs r.1 n h i still in
    let once = subst (Has (CreatesPdrOf n)) (sym whole) (
      Has-left (CreatesPdrOf n) (new_pdrs pdrs st.pdr) (f.0 ++ qs.0)
        (new_pdrs-creates n pdrs st.pdr i new)) in
    (r, (s, t), e, once, modification-chosen next address later x r.1 d m (s, t, fs) k y q, again)
