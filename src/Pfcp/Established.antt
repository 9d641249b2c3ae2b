-- ===== src/Pfcp/Established.antt =====
-- What the PDRs of a session establishment name, and whether it is listed and new.
use smf_cdac.Base.{
  ℕ, ◌≡◌, refl, sym, ◌∙◌, ◌⊎◌, inl, inr, Bool-cases, Option, none, some, List, [], ◌∷◌, ◌++◌, ◌==◌,
  arith, ok, ok-injective, All,
}
use mathlib.Core.Path.{subst}
use smf_cdac.Upf.Types.{RuleState, rule_initial, rule_create, rule_update, rule_remove}
use smf_cdac.Upf.Rules.{Far, Qer, Pdr}
use smf_cdac.Pfcp.Messages.{PdrIe, pdr_ie, ids_of}
use smf_cdac.Pfcp.Requests.{
  RuleStates, Item, create_pdr, initial_only, far_of, qer_of, new_pdrs, put_qer, qer_map,
}
use smf_cdac.Pfcp.Sending.{fars_of, qers_of}
use smf_cdac.Pfcp.Closed.{Has, CreatesPdr, CreatesFar, CreatesQer, Listed, Listed-right}

-- The FAR and the QERs of each PDR that is new to the UPF are new too.
abbrev pub Fresh : RuleStates → List Pdr → Type 0
Fresh st pdrs =
    All
      (λ (p : Pdr).
        st.pdr p.pdr_id ≡ rule_initial
        → ((f : Far) → p.far ≡ some f → st.far f.far_id ≡ rule_initial)
          × All (λ n. st.qer n ≡ rule_initial) (ids_of p.qer))
      pdrs

-- The FAR that a PDR names, if any, is created too.
abbrev pub FarCreated : List Item → Option ℕ → Type 0
FarCreated items none = Unit
FarCreated items (some n) = Has (CreatesFar n) items

-- Whatever a Create PDR names is created too.
abbrev pub Served : List Item → Item → Type 0
Served items (create_pdr p) =
    FarCreated items p.far_id × All (λ n. Has (CreatesQer n) items) p.qer_ids
Served items _ = Unit

-- What a PDR names is listed, and new.
abbrev pub Named : RuleStates → List (Option Far) → List (Option Qer) → PdrIe → Type 0
Named st fars qers p =
    ((n : ℕ) → p.far_id ≡ some n → Listed far_of n fars × (st.far n ≡ rule_initial))
    × All (λ n. Listed qer_of n qers × (st.qer n ≡ rule_initial)) p.qer_ids

pub All-map : (P Q : ℕ → Type 0) (ns : List ℕ) → ((n : ℕ) → P n → Q n) → All P ns → All Q ns
All-map P Q [] f h = tt
All-map P Q (n ∷ ns) f h = (f n h.0, All-map P Q ns f h.1)

own_qers :
    (st : RuleStates) (qs rest : List (Option Qer))
    → All (λ n. st.qer n ≡ rule_initial) (ids_of qs)
    → All (λ n. Listed qer_of n (qs ++ rest) × (st.qer n ≡ rule_initial)) (ids_of qs)
unfolding ids_of
own_qers st [] rest h = tt
own_qers st (none ∷ qs) rest h = own_qers st qs rest h
own_qers st (some q ∷ qs) rest h = (
  (inl refl, h.0),
  All-map (λ n. Listed qer_of n (qs ++ rest) × (st.qer n ≡ rule_initial)) _ (ids_of qs)
      (λ n k. (inr k.0, k.1)) (own_qers st qs rest h.1),
)

-- One more in front of a list of FARs.
Listed-cons :
    (n : ℕ) (f : Option Far) (fars : List (Option Far))
    → Listed far_of n fars
    → Listed far_of n (f ∷ fars)
Listed-cons n none fars h = h
Listed-cons n (some f) fars h = inr h

own_far :
    (st : RuleStates) (p : Pdr) (f : Option Far) (fars : List (Option Far)) (n : ℕ)
    → p.far ≡ f
    → ((x : Far) → f ≡ some x → st.far x.far_id ≡ rule_initial)
    → (pdr_ie p).far_id ≡ some n
    → Listed far_of n (f ∷ fars) × (st.far n ≡ rule_initial)
unfolding pdr_ie
own_far st p none fars n e k q = let w = rw e at q in cc
own_far st p (some x) fars n e k q =
    let named : some x.far_id ≡ some n = rw e at q in
    let same : x.far_id ≡ n = cc in
    let new = k x refl in (inl same, subst (λ m. st.far m ≡ rule_initial) same new)

pub Fresh-Named :
    (st : RuleStates) (pdrs : List Pdr)
    → Fresh st pdrs
    → All
        (λ (p : Pdr).
          st.pdr p.pdr_id ≡ rule_initial → Named st (fars_of pdrs) (qers_of pdrs) (pdr_ie p))
        pdrs
unfolding fars_of qers_of pdr_ie
Fresh-Named st [] h = tt
Fresh-Named st (p ∷ pdrs) h = (
  λ i. (
    λ n e. own_far st p p.far (fars_of pdrs) n refl (h.0 i).0 e,
    own_qers st p.qer (qers_of pdrs) (h.0 i).1,
  ),
  weaker pdrs (Fresh-Named st pdrs h.1),
)
  where
    weaker :
        (ps : List Pdr)
        → All
            (λ (q : Pdr).
              st.pdr q.pdr_id ≡ rule_initial → Named st (fars_of pdrs) (qers_of pdrs) (pdr_ie q))
            ps
        → All
            (λ (q : Pdr).
              st.pdr q.pdr_id ≡ rule_initial
              → Named st (p.far ∷ fars_of pdrs) (p.qer ++ qers_of pdrs) (pdr_ie q))
            ps
    weaker [] k = tt
    weaker (q ∷ ps) k = (
      λ i. (
        λ n e. let w = (k.0 i).0 n e in (Listed-cons n p.far (fars_of pdrs) w.0, w.1),
        All-map (λ n. Listed qer_of n (qers_of pdrs) × (st.qer n ≡ rule_initial)) _ (ids_of q.qer)
            (λ n w. (Listed-right qer_of n p.qer (qers_of pdrs) w.0, w.1)) (k.0 i).1,
      ),
      weaker ps k.1,
    )

pub new_pdrs-Named :
    (st : RuleStates) (fars : List (Option Far)) (qers : List (Option Qer)) (pdrs : List Pdr)
    (p : PdrIe)
    → All (λ (q : Pdr). st.pdr q.pdr_id ≡ rule_initial → Named st fars qers (pdr_ie q)) pdrs
    → Has (CreatesPdr p) (new_pdrs pdrs st.pdr)
    → Named st fars qers p
unfolding new_pdrs
new_pdrs-Named st fars qers [] p k h = absurd h
new_pdrs-Named st fars qers (q ∷ pdrs) p k h =
    by_state (st.pdr q.pdr_id) refl h (new_pdrs-Named st fars qers pdrs p k.1)
  where
    by_state :
        (s : RuleState)
        → st.pdr q.pdr_id ≡ s
        → Has (CreatesPdr p) (initial_only (λ x. create_pdr (pdr_ie x)) q s ++ new_pdrs pdrs st.pdr)
        → (Has (CreatesPdr p) (new_pdrs pdrs st.pdr) → Named st fars qers p)
        → Named st fars qers p
    by_state rule_initial i (inl e) rest = subst (Named st fars qers) e (k.0 i)
    by_state rule_initial i (inr w) rest = rest w
    by_state rule_create i w rest = rest w
    by_state rule_update i w rest = rest w
    by_state rule_remove i w rest = rest w

-- The map of the QERs by their ids has what the list has.
put_qer-Listed :
    (n : ℕ) (q : Qer) (m : List (Option Qer))
    → (q.qer_id ≡ n) ⊎ Listed qer_of n m
    → Listed qer_of n (put_qer q m)
unfolding put_qer
put_qer-Listed n q [] h = h
put_qer-Listed n q (none ∷ m) h = put_qer-Listed n q m h
put_qer-Listed n q (some r ∷ m) h = elim (Bool-cases (r.qer_id == q.qer_id)) [
  | inl w ↦
      let same : r.qer_id ≡ q.qer_id = ground arith in
      rw w (elim h [ inl e ↦ inl e | inr (inl e) ↦ inl (sym same ∙ e) | inr (inr k) ↦ inr k ])
  | inr w ↦ rw w (elim h [
    | inl e ↦ inr (put_qer-Listed n q m (inl e))
    | inr (inl e) ↦ inl e
    | inr (inr k) ↦ inr (put_qer-Listed n q m (inr k))
  ])
]

pub qer_map-Listed :
    (n : ℕ) (qs m r : List (Option Qer))
    → qer_map qs m ≡ ok r
    → Listed qer_of n qs ⊎ Listed qer_of n m
    → Listed qer_of n r
unfolding qer_map
qer_map-Listed n [] m r e (inl k) = absurd k
qer_map-Listed n [] m r e (inr k) = subst (Listed qer_of n) (ok-injective e) k
qer_map-Listed n (none ∷ qs) m r e h = cc
qer_map-Listed n (some q ∷ qs) m r e (inl (inl k)) =
    qer_map-Listed n qs (put_qer q m) r e (inr (put_qer-Listed n q m (inl k)))
qer_map-Listed n (some q ∷ qs) m r e (inl (inr k)) = qer_map-Listed n qs (put_qer q m) r e (inl k)
qer_map-Listed n (some q ∷ qs) m r e (inr k) =
    qer_map-Listed n qs (put_qer q m) r e (inr (put_qer-Listed n q m (inr k)))
