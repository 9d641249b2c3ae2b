-- ===== src/Session/Grants.antt =====
-- The type that a session is granted, against an independent description of the choice.
use smf_cdac.Base.{
  ℕ, ◌≡◌, ◌≢◌, refl, sym, ◌∙◌, ◌⊎◌, inl, inr, Bool, true, false, ◌&&◌, ◌||◌, Bool-cases, Option,
  none, some, List, [], ◌∷◌, arith, Outcome, ok, err, panic,
}
use smf_cdac.Session.Types.{
  PduSessionType, ipv4, ipv6, ipv4_v6, ethernet, unstructured, SupportedType, ipv4_text, ipv6_text,
  ipv4v6_text, ethernet_text, other_text, Cause, no_cause, ipv4_only_allowed, ipv6_only_allowed,
  Choice, NasConvert, Allowed, allow, allow_all, nothing_allowed, supports, select,
  is_allowed_pdu_session_type,
}

unfoldable same_type : PduSessionType → PduSessionType → Bool
same_type ipv4 ipv4 = true
same_type ipv6 ipv6 = true
same_type ipv4_v6 ipv4_v6 = true
same_type ethernet ethernet = true
same_type unstructured unstructured = true
same_type _ _ = false

unfoldable pub lists : PduSessionType → List PduSessionType → Bool
unfolding same_type
lists t [] = false
lists t (u ∷ us) = same_type t u || lists t us

-- A DNN offers a type that it lists, each IP version where it lists the two together, and both where
-- it offers each; it never offers sessions with no structure.
unfoldable pub offers : List PduSessionType → PduSessionType → Bool
unfolding lists
offers ts ipv4 = lists ipv4 ts || lists ipv4_v6 ts
offers ts ipv6 = lists ipv6 ts || lists ipv4_v6 ts
offers ts ipv4_v6 = (lists ipv4 ts || lists ipv4_v6 ts) && (lists ipv6 ts || lists ipv4_v6 ts)
offers ts ethernet = lists ethernet ts
offers ts unstructured = false

-- What a request is granted: the type itself where it is offered; or of the two IP versions the one
-- that is offered, with the cause that says so.
pub data Grant (ts : List PduSessionType) : PduSessionType → PduSessionType → Cause → Type 0 where
  as_asked : (t : PduSessionType) → offers ts t ≡ true → Grant ts t t no_cause
  only_ipv4 :
      offers ts ipv4 ≡ true → offers ts ipv6 ≡ false → Grant ts ipv4_v6 ipv4 ipv4_only_allowed
  only_ipv6 :
      offers ts ipv6 ≡ true → offers ts ipv4 ≡ false → Grant ts ipv4_v6 ipv6 ipv6_only_allowed

-- What the loop leaves in its three variables.
allow_all-lists :
    (ts : List PduSessionType) (a : Allowed)
    → ((allow_all ts a).allow_ipv4 ≡ (a.allow_ipv4 || (lists ipv4 ts || lists ipv4_v6 ts)))
      × ((allow_all ts a).allow_ipv6 ≡ (a.allow_ipv6 || (lists ipv6 ts || lists ipv4_v6 ts)))
      × ((allow_all ts a).allow_ethernet ≡ (a.allow_ethernet || lists ethernet ts))
unfolding allow_all allow lists same_type
allow_all-lists [] a = (ground arith, ground arith, ground arith)
allow_all-lists (ipv4 ∷ ts) a =
    let ih = allow_all-lists ts (allow ipv4 a) in (ground arith, ih.1, ih.2)
allow_all-lists (ipv6 ∷ ts) a =
    let ih = allow_all-lists ts (allow ipv6 a) in (ih.0, ground arith, ih.2)
allow_all-lists (ipv4_v6 ∷ ts) a =
    let ih = allow_all-lists ts (allow ipv4_v6 a) in (ground arith, ground arith, ih.2)
allow_all-lists (ethernet ∷ ts) a =
    let ih = allow_all-lists ts (allow ethernet a) in (ih.0, ih.1, ground arith)
allow_all-lists (unstructured ∷ ts) a = allow_all-lists ts a

-- Whether the DNN offers what the SMF supports.
unfoldable pub serves : SupportedType → List PduSessionType → Bool
unfolding offers
serves ipv4_text ts = offers ts ipv4
serves ipv6_text ts = offers ts ipv6
serves ipv4v6_text ts = offers ts ipv4 || offers ts ipv6
serves ethernet_text ts = offers ts ethernet
serves other_text ts = true

-- What the choice of a type comes to: a grant of the request, or a refusal, where nothing can be
-- granted of it.
abbrev pub Verdict :
    NasConvert → List PduSessionType → Option PduSessionType → Choice × Outcome (Unit {0}) → Type 0
Verdict n ts asked (c, ok u) =
    (t : PduSessionType) × (got : PduSessionType) × (asked ≡ some t)
    × Grant ts t got c.cause
    × (c.selected ≡ n.to_nas got)
Verdict n ts asked (c, err) =
    (t got : PduSessionType) (cause : Cause) → asked ≡ some t → ¬ Grant ts t got cause
Verdict n ts asked (c, panic) = ⊥

-- A grant needs an offer.
granted :
    (ts : List PduSessionType) (t got : PduSessionType) (cause : Cause)
    → Grant ts t got cause
    → (offers ts t ≡ true) ⊎ ((t ≡ ipv4_v6) × ((offers ts ipv4 ≡ true) ⊎ (offers ts ipv6 ≡ true)))
granted ts t got cause (as_asked u e) = inl e
granted ts t got cause (only_ipv4 e f) = inr (refl, inl e)
granted ts t got cause (only_ipv6 e f) = inr (refl, inr e)

refused :
    (ts : List PduSessionType) (t : PduSessionType)
    → t ≢ ipv4_v6
    → offers ts t ≡ false
    → (u got : PduSessionType) (cause : Cause) → some t ≡ some u
    → ¬ Grant ts u got cause
refused ts t ne e u got cause q g =
    let same : t ≡ u = cc in
    elim (granted ts u got cause g) [
      | inl o ↦ (let f = rw same at e in cc)
      | inr o ↦ ne (same ∙ o.0)
    ]

no_version :
    {ts : List PduSessionType}
    → offers ts ipv4 ≡ false
    → offers ts ipv6 ≡ false
    → (u got : PduSessionType) (cause : Cause) → some ipv4_v6 ≡ some u
    → ¬ Grant ts u got cause
unfolding offers
no_version {ts} e f u got cause q g =
    let same : ipv4_v6 ≡ u = cc in
    elim (granted ts u got cause g) [
      | inl o ↦ (let two : offers ts ipv4_v6 ≡ true = rw (sym same) at o in ground arith)
      | inr (d, inl o) ↦ cc
      | inr (d, inr o) ↦ cc
    ]

supports-serves :
    (s : SupportedType) (ts : List PduSessionType) (a : Allowed)
    → a.allow_ipv4 ≡ offers ts ipv4
    → a.allow_ipv6 ≡ offers ts ipv6
    → a.allow_ethernet ≡ offers ts ethernet
    → supports s a ≡ serves s ts
unfolding supports serves
supports-serves ipv4_text ts a e f g = e
supports-serves ipv6_text ts a e f g = f
supports-serves ipv4v6_text ts a e f g = ground arith
supports-serves ethernet_text ts a e f g = g
supports-serves other_text ts a e f g = refl

module _ (n : NasConvert) (ts : List PduSessionType) (a : Allowed) (c : Choice)
    (v4 : a.allow_ipv4 ≡ offers ts ipv4) (v6 : a.allow_ipv6 ≡ offers ts ipv6)
    (eth : a.allow_ethernet ≡ offers ts ethernet) where
  select-Verdict : (o : Option PduSessionType) → Verdict n ts o (select n a o c)
  unfolding select offers
  select-Verdict none = λ t got cause e. cc
  select-Verdict (some ipv4) = elim (Bool-cases (offers ts ipv4)) [
    | inl e ↦ rw (v4, e) (ipv4, ipv4, refl, as_asked ipv4 e, refl)
    | inr e ↦ rw (v4, e) (refused ts ipv4 (λ q. cc) e)
  ]
  select-Verdict (some ipv6) = elim (Bool-cases (offers ts ipv6)) [
    | inl e ↦ rw (v6, e) (ipv6, ipv6, refl, as_asked ipv6 e, refl)
    | inr e ↦ rw (v6, e) (refused ts ipv6 (λ q. cc) e)
  ]
  select-Verdict (some ethernet) = elim (Bool-cases (offers ts ethernet)) [
    | inl e ↦ rw (eth, e) (ethernet, ethernet, refl, as_asked ethernet e, refl)
    | inr e ↦ rw (eth, e) (refused ts ethernet (λ q. cc) e)
  ]
  select-Verdict (some unstructured) = refused ts unstructured (λ q. cc) refl
  select-Verdict (some ipv4_v6) = elim (Bool-cases (offers ts ipv4)) [
    | inl e ↦ elim (Bool-cases (offers ts ipv6)) [
      | inl f ↦
          let two : offers ts ipv4_v6 ≡ true = ground arith in
          rw (v4, v6, e, f) (ipv4_v6, ipv4_v6, refl, as_asked ipv4_v6 two, refl)
      | inr f ↦ rw (v4, v6, e, f) (ipv4_v6, ipv4, refl, only_ipv4 e f, refl)
    ]
    | inr e ↦ elim (Bool-cases (offers ts ipv6)) [
      | inl f ↦ rw (v4, v6, e, f) (ipv4_v6, ipv6, refl, only_ipv6 f e, refl)
      | inr f ↦ rw (v4, v6, e, f) (no_version e f)
    ]
  ]

-- The choice for a DNN that has session types and offers what the SMF supports: the request is granted,
-- as it is, or down to the one IP version that the DNN offers and with the cause that says so; or it is
-- refused, and then nothing can be granted of it.
pub is_allowed_pdu_session_type-Verdict :
    (n : NasConvert) (s : SupportedType) (ts : List PduSessionType) (requested : ℕ) (c : Choice)
    → serves s ts ≡ true
    → Verdict n ts (n.to_models requested) (is_allowed_pdu_session_type n s (some ts) requested c)
unfolding is_allowed_pdu_session_type supports serves
is_allowed_pdu_session_type-Verdict n s ts requested c e =
    let a = allow_all ts nothing_allowed in
    let k = allow_all-lists ts nothing_allowed in
    let yes_served : supports s a ≡ true = supports-serves s ts a (k.0) (k.1) (k.2) ∙ e in
    rw yes_served (select-Verdict n ts a c k.0 k.1 k.2 (n.to_models requested))
