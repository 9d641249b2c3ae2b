-- ===== src/Pfcp/Closed.antt =====
-- What the items of a session request create, and what the loops over FARs and QERs add of it.
use smf_cdac.Base.{
  ℕ, ◌≡◌, ◌≢◌, sym, ap, ◌⊎◌, inl, inr, Bool-cases, Option, none, some, List, [], ◌∷◌, ◌++◌, ◌==◌,
  arith, ok, >>=-returned, ok-injective,
}
use mathlib.Core.Path.{subst}
use smf_cdac.Upf.Types.{RuleState, rule_initial, rule_create}
use smf_cdac.Pfcp.Messages.{PdrIe}
use smf_cdac.Pfcp.Requests.{States, Item, create_pdr, create_far, create_qer, set_state, each_rule}

-- An IE of the request is such.
abbrev pub Has : (Item → Type 0) → List Item → Type 0
Has P [] = ⊥
Has P (i ∷ is) = P i ⊎ Has P is

abbrev pub CreatesPdr : PdrIe → Item → Type 0
CreatesPdr p (create_pdr q) = q ≡ p
CreatesPdr p _ = ⊥

abbrev pub CreatesFar : ℕ → Item → Type 0
CreatesFar n (create_far f) = f.far_id ≡ n
CreatesFar n _ = ⊥

abbrev pub CreatesQer : ℕ → Item → Type 0
CreatesQer n (create_qer q) = q.qer_id ≡ n
CreatesQer n _ = ⊥

pub Has-left : (P : Item → Type 0) (xs ys : List Item) → Has P xs → Has P (xs ++ ys)
Has-left P [] ys h = absurd h
Has-left P (x ∷ xs) ys (inl p) = inl p
Has-left P (x ∷ xs) ys (inr h) = inr (Has-left P xs ys h)

pub Has-right : (P : Item → Type 0) (xs ys : List Item) → Has P ys → Has P (xs ++ ys)
Has-right P [] ys h = h
Has-right P (x ∷ xs) ys h = inr (Has-right P xs ys h)

pub Has-split : (P : Item → Type 0) (xs ys : List Item) → Has P (xs ++ ys) → Has P xs ⊎ Has P ys
Has-split P [] ys h = inr h
Has-split P (x ∷ xs) ys (inl p) = inl (inl p)
Has-split P (x ∷ xs) ys (inr h) = elim (Has-split P xs ys h) [ inl k ↦ inl (inr k) | inr k ↦ inr k ]

module _ {A : Type 0} (id : A → ℕ) where
  -- A rule with the id is listed.
  abbrev pub Listed : ℕ → List (Option A) → Type 0
  Listed n [] = ⊥
  Listed n (none ∷ more) = Listed n more
  Listed n (some a ∷ more) = (id a ≡ n) ⊎ Listed n more

  pub Listed-right : (n : ℕ) (xs ys : List (Option A)) → Listed n ys → Listed n (xs ++ ys)
  Listed-right n [] ys h = h
  Listed-right n (none ∷ xs) ys h = Listed-right n xs ys h
  Listed-right n (some x ∷ xs) ys h = inr (Listed-right n xs ys h)

  module _ (items : A → RuleState → List Item) where
    -- A listed rule that is new adds what its kind adds for a new rule, by its first occurrence.
    pub each_rule-creates :
        (P : Item → Type 0) (n : ℕ)
        → ((a : A) → id a ≡ n → Has P (items a rule_initial))
        → (more : List (Option A)) (st : States) (r : List Item × States)
        → each_rule id items more st ≡ ok r
        → Listed n more
        → st n ≡ rule_initial
        → Has P r.0
    unfolding each_rule
    each_rule-creates P n new [] st r q h i = absurd h
    each_rule-creates P n new (none ∷ more) st r q h i = cc
    each_rule-creates P n new (some a ∷ more) st r q h i =
        let (r', e, q') =
          >>=-returned (each_rule id items more (set_state (id a) rule_create st)) _ r q in
        let whole = ap (λ (x : List Item × States). x.0) (ok-injective q') in
        subst (Has P) whole (elim (Bool-cases (n == id a)) [
          | inl w ↦
              let here : id a ≡ n = ground arith in
              let first = new a here in Has-left P (items a (st (id a))) r'.0 (rw (here, i) first)
          | inr w ↦
              let other : id a ≢ n = ground arith in
              let left : Listed n more = elim h [ inl k ↦ absurd (other k) | inr k ↦ k ] in
              Has-right P (items a (st (id a))) r'.0 (
                each_rule-creates P n new more (set_state (id a) rule_create st) r' e left (rw w i))
        ])

    -- A kind of IE that no rule of the list adds is not there.
    pub each_rule-none :
        (P : Item → Type 0)
        → ((a : A) (s : RuleState) → Has P (items a s) → ⊥)
        → (more : List (Option A)) (st : States) (r : List Item × States)
        → each_rule id items more st ≡ ok r
        → Has P r.0
        → ⊥
    unfolding each_rule
    each_rule-none P never [] st r q h =
        subst (Has P) (sym (ap (λ (x : List Item × States). x.0) (ok-injective q))) h
    each_rule-none P never (none ∷ more) st r q h = cc
    each_rule-none P never (some a ∷ more) st r q h =
        let (r', e, q') =
          >>=-returned (each_rule id items more (set_state (id a) rule_create st)) _ r q in
        let whole = ap (λ (x : List Item × States). x.0) (ok-injective q') in
        elim (Has-split P (items a (st (id a))) r'.0 (subst (Has P) (sym whole) h)) [
          | inl k ↦ never a (st (id a)) k
          | inr k ↦ each_rule-none P never more (set_state (id a) rule_create st) r' e k
        ]
