-- ===== src/Upf/Leaks.antt =====
-- What AddPDR puts in a UPF's pools: its removal takes all of it out again, and a PCC rule whose filter
-- id does not parse leaves all of it there.
use smf_cdac.Base.{
  ℕ, ◌≡◌, refl, sym, ◌∙◌, ap, inl, inr, true, false, Bool-cases, Option, none, some, List, ◌∷◌,
  ◌==◌, arith, Outcome, ok, err, panic,
}
use mathlib.Core.Path.{subst}
use smf_cdac.Qos.Types.{FlowInformation, PccRule}
use smf_cdac.Upf.Ids.{IdGenerator, IdGeneratorLaws}
use smf_cdac.Upf.Rules.{
  associated_setting_up, associated_set_up_success, not_associated, UpfStatus, Far, Pdr, Shelf, Upf,
  if_associated, new_pdr, new_far, sdf_filter_of, stored_far, stored_pdr, take_id, give_back,
  with_far, with_filter, add_far, add_pdr, remove_pdr, remove_far, build_create_pdr_from_pcc_rule,
}
use smf_cdac.Upf.RuleLaws.{Tracked, Taken, TakenFrom, take_id-TakenFrom}

module _ (g : IdGenerator) (laws : IdGeneratorLaws g) where
  -- The shelves that an added PDR and its FAR were put on, and the PDR.
  abbrev pub Added : Upf g → Upf g × Outcome Pdr → Type 0
  Added u (v, err) = Unit
  Added u (v, panic) = Unit
  Added u (v, ok p) =
      (n : ℕ) × (m : ℕ) × (s : Shelf g) × (t : Shelf g) × (u.status ≡ associated_set_up_success)
      × Taken g laws u.pdrs n s
      × Taken g laws u.fars m t
      × (v ≡ record u { pdrs = s; fars = t })
      × (p ≡ new_pdr g n (new_far g m))

  stored_far-Added :
      (u : Upf g) (n : ℕ) (s : Shelf g) (o : Option (ℕ × Shelf g))
      → u.status ≡ associated_set_up_success
      → Taken g laws u.pdrs n s
      → TakenFrom g laws 32 u.fars o
      → Added u (with_far g n (stored_far g (record u { pdrs = s }) o))
  unfolding with_far stored_far
  stored_far-Added u n s none a k f = tt
  stored_far-Added u n s (some (m, t)) a k f = (n, m, s, t, a, k, f.1, refl, refl)

  stored_pdr-Added :
      (u : Upf g) (o : Option (ℕ × Shelf g))
      → Tracked g u
      → u.status ≡ associated_set_up_success
      → TakenFrom g laws 16 u.pdrs o
      → Added u (stored_pdr g u o)
  unfolding stored_pdr add_far
  stored_pdr-Added u none k a f = tt
  stored_pdr-Added u (some (n, s)) k a f =
      let v : Upf g = record u { pdrs = s } in
      let o = take_id g 32 u.fars in
      let P = λ (st : UpfStatus).
        Added u (with_far g n (if_associated g st (stored_far g v o) (v, err))) in
      subst P (sym a) (stored_far-Added u n s o a f.1 (take_id-TakenFrom g laws 32 u.fars k.fars))

  add_pdr-Added : (u : Upf g) → Tracked g u → Added u (add_pdr g u)
  unfolding add_pdr
  add_pdr-Added u k = by_status u.status refl
    where
      by_status :
          (st : UpfStatus)
          → u.status ≡ st
          → Added u (if_associated g st (stored_pdr g u (take_id g 16 u.pdrs)) (u, err))
      by_status associated_set_up_success a =
          stored_pdr-Added u (take_id g 16 u.pdrs) k a (take_id-TakenFrom g laws 16 u.pdrs k.pdrs)
      by_status not_associated a = tt
      by_status associated_setting_up a = tt

  -- What is left of an added PDR once it and its FAR are removed: nothing.
  abbrev Restored : Upf g → Upf g → Type 0
  Restored u w =
      ((n : ℕ) → w.pdrs.pool n ≡ u.pdrs.pool n)
      × ((n : ℕ) → w.fars.pool n ≡ u.fars.pool n)
      × (w.bars ≡ u.bars)
      × (w.qers ≡ u.qers)

  put_back :
      (s t : Shelf g) (n : ℕ) → Taken g laws s n t → (m : ℕ) → (give_back g n t).pool m ≡ s.pool m
  unfolding give_back
  put_back s t n f m = elim (Bool-cases (m == n)) [
    | inl e ↦ let at_n : m ≡ n = ground arith in rw (e, at_n) (sym f.0)
    | inr e ↦ rw e (f.3 m (ground arith))
  ]

  restored :
      (u : Upf g) (n m : ℕ) (s t : Shelf g)
      → u.status ≡ associated_set_up_success
      → Taken g laws u.pdrs n s
      → Taken g laws u.fars m t
      → Restored u (
          remove_far g
            (new_far g m)
            (remove_pdr g (new_pdr g n (new_far g m)) (record u { pdrs = s; fars = t })))
  unfolding remove_far remove_pdr
  restored u n m s t a f k =
      let P = λ (st : UpfStatus).
        let v : Upf g = record { status = st; pdrs = s; fars = t; bars = u.bars; qers = u.qers } in
        Restored u (remove_far g (new_far g m) (remove_pdr g (new_pdr g n (new_far g m)) v)) in
      subst P (sym a) (put_back u.pdrs s n f, put_back u.fars t m k, refl, refl)

  removed :
      (u v : Upf g) (p : Pdr) (f : Far)
      → Added u (v, ok p)
      → p.far ≡ some f
      → Restored u (remove_far g f (remove_pdr g p v))
  removed u v p f (n, m, s, t, a, x, y, ev, ep) q =
      let twice : some f ≡ some (new_far g m) = sym q ∙ ap (λ (z : Pdr). z.far) ep in
      let ef : f ≡ new_far g m = cc in rw (ev, ep, ef) (restored u n m s t a x y)

  -- A PDR that AddPDR returns, removed again with its FAR, leaves the UPF's pools as they were.
  pub add_pdr-remove_pdr :
      (u v : Upf g) (p : Pdr) (f : Far)
      → Tracked g u
      → add_pdr g u ≡ (v, ok p)
      → p.far ≡ some f
      → Restored u (remove_far g f (remove_pdr g p v))
  add_pdr-remove_pdr u v p f k e q = removed u v p f (subst (Added u) e (add_pdr-Added u k)) q

  stays :
      (u v : Upf g) (p : Pdr) (f : Far)
      → Added u (v, ok p)
      → p.far ≡ some f
      → (u.pdrs.pool p.pdr_id ≡ false)
        × (v.pdrs.pool p.pdr_id ≡ true)
        × (u.fars.pool f.far_id ≡ false)
        × (v.fars.pool f.far_id ≡ true)
  stays u v p f (n, m, s, t, a, x, y, ev, ep) q =
      let twice : some f ≡ some (new_far g m) = sym q ∙ ap (λ (z : Pdr). z.far) ep in
      let ef : f ≡ new_far g m = cc in rw (ev, ep, ef) (x.0, x.2, y.0, y.2)

  filter_refused :
      (r : PccRule) (flow : FlowInformation) (flows : List FlowInformation) (p : Pdr)
      → r.flow_infos ≡ flow ∷ flows
      → sdf_filter_of flow ≡ none
      → with_filter g r (ok p) ≡ err
  unfolding with_filter
  filter_refused r flow flows p e n = rw (with_filter, e, n) refl

  -- Where AddPDR succeeds and the filter id of the rule's first flow does not parse,
  -- BuildCreatePdrFromPccRule fails, but the UPF it leaves holds a PDR and a FAR that it did not hold
  -- before: nobody has them, to remove them.
  pub build_create_pdr_from_pcc_rule-leak :
      (u v : Upf g) (r : PccRule) (flow : FlowInformation) (flows : List FlowInformation) (p : Pdr)
      (f : Far)
      → Tracked g u
      → add_pdr g u ≡ (v, ok p)
      → p.far ≡ some f
      → r.flow_infos ≡ flow ∷ flows
      → sdf_filter_of flow ≡ none
      → (build_create_pdr_from_pcc_rule g r u ≡ (v, err))
        × (u.pdrs.pool p.pdr_id ≡ false)
        × (v.pdrs.pool p.pdr_id ≡ true)
        × (u.fars.pool f.far_id ≡ false)
        × (v.fars.pool f.far_id ≡ true)
  unfolding build_create_pdr_from_pcc_rule
  build_create_pdr_from_pcc_rule-leak u v r flow flows p f k e q i n =
      let left = stays u v p f (subst (Added u) e (add_pdr-Added u k)) q in
      let refused = filter_refused r flow flows p i n in
      (rw (e, refused) refl, left.0, left.1, left.2, left.3)
