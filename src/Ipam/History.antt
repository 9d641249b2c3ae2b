-- ===== src/Ipam/History.antt =====
-- Histories of one pool: who holds which id after any sequence of calls.
use smf_cdac.Base.{
  ◌≡◌, ◌≢◌, refl, sym, ap, ◌∙◌, Bool, true, false, List, [], ◌∷◌, All, Bool-cases, inl, inr, arith,
  if◌then◌else◌, Outcome, ok, err, panic,
}
use smf_cdac.Base.Int.{ℤ, ◌≤ℤ◌, ◌==ℤ◌}
use smf_cdac.Base.Text.{Text}
use smf_cdac.Ipam.Pool.{IdPool, id_init, put, allocate, block, release}
use smf_cdac.Ipam.Bounds.{IsReady, AllocateSpec, allocate-AllocateSpec}
use mathlib.Core.Path.{subst}

pub data Call : Type 0 where
  allocates : Call
  blocks releases : ℤ → Call

-- The holders give an id up when it is released.
unfoldable pub give_up : ℤ → List ℤ → List ℤ
give_up id [] = []
give_up id (x ∷ xs) = if x ==ℤ id then give_up id xs else x ∷ give_up id xs

abbrev pub after : IdPool → List ℤ → Outcome (ℤ × IdPool) → IdPool × List ℤ
after p held (ok (id, q)) = (q, id ∷ held)
after p held err = (p, held)
after p held panic = (p, held)

unfoldable pub step : Text → IdPool × List ℤ → Call → IdPool × List ℤ
step env (p, held) allocates = after p held (allocate env p)
step env (p, held) (blocks id) = (block id p, held)
step env (p, held) (releases id) = (release id p, give_up id held)

unfoldable pub run : Text → IdPool × List ℤ → List Call → IdPool × List ℤ
run env s [] = s
run env s (c ∷ cs) = run env (step env s c) cs

abbrev pub Distinct : List ℤ → Type 0
Distinct [] = Unit {0}
Distinct (x ∷ xs) = All (λ y. y ≢ x) xs × Distinct xs

-- An id that is held is in use and in the instance's range.
abbrev pub IsHeld : Text → IdPool → ℤ → Type 0
IsHeld env p x = (p.is_used x ≡ true) × (id_init env ≤ℤ x) × (x ≤ℤ p.max_value)

pub record IsExclusive (env : Text) (s : IdPool × List ℤ) : Type 0 where
  pub ready : IsReady env s.0
  pub distinct : Distinct s.1
  pub held : All (IsHeld env s.0) s.1

held_apart :
    (env : Text) (p : IdPool) (id : ℤ) (xs : List ℤ)
    → p.is_used id ≡ false
    → All (IsHeld env p) xs
    → All (λ y. y ≢ id) xs
held_apart env p id [] f h = tt
held_apart env p id (x ∷ xs) f h =
    (λ e. let t = subst (λ y. p.is_used y ≡ false) (sym e) f in cc, held_apart env p id xs f h.1)

IsHeld-put :
    (env : Text) (p q : IdPool) (id : ℤ) (xs : List ℤ)
    → q.is_used ≡ put p.is_used id true
    → q.max_value ≡ p.max_value
    → All (IsHeld env p) xs
    → All (IsHeld env q) xs
IsHeld-put env p q id [] m e h = tt
IsHeld-put env p q id (x ∷ xs) m e h =
    let stays : put p.is_used id true x ≡ true = ground arith in
    ((ap (λ (f : ℤ → Bool). f x) m ∙ stays, h.0.1, rw e h.0.2), IsHeld-put env p q id xs m e h.1)

All-give_up : (P : ℤ → Type 0) (id : ℤ) (xs : List ℤ) → All P xs → All P (give_up id xs)
unfolding give_up
All-give_up P id [] h = tt
All-give_up P id (x ∷ xs) h = elim (Bool-cases (x ==ℤ id)) [
  | inl same ↦ rw same (All-give_up P id xs h.1)
  | inr other ↦ rw other (h.0, All-give_up P id xs h.1)
]

give_up-Distinct : (id : ℤ) (xs : List ℤ) → Distinct xs → Distinct (give_up id xs)
unfolding give_up
give_up-Distinct id [] h = tt
give_up-Distinct id (x ∷ xs) h = elim (Bool-cases (x ==ℤ id)) [
  | inl same ↦ rw same (give_up-Distinct id xs h.1)
  | inr other ↦ rw other (All-give_up (λ y. y ≢ x) id xs h.0, give_up-Distinct id xs h.1)
]

give_up-IsHeld :
    (env : Text) (p : IdPool) (id : ℤ) (xs : List ℤ)
    → All (IsHeld env p) xs
    → All (IsHeld env (release id p)) (give_up id xs)
unfolding give_up release
give_up-IsHeld env p id [] h = tt
give_up-IsHeld env p id (x ∷ xs) h = elim (Bool-cases (x ==ℤ id)) [
  | inl same ↦ rw same (give_up-IsHeld env p id xs h.1)
  | inr other ↦
      let stays : put p.is_used id false x ≡ true = ground (arith, h.0.0) in
      rw other ((stays, h.0.1, h.0.2), give_up-IsHeld env p id xs h.1)
]

after-IsExclusive :
    (env : Text) (p : IdPool) (held : List ℤ) (r : Outcome (ℤ × IdPool))
    → IsExclusive env (p, held)
    → AllocateSpec env p r
    → IsExclusive env (after p held r)
after-IsExclusive env p held (ok (id, q)) x a = record {
  ready = a.ready;
  distinct = (held_apart env p id held a.was_free x.held, x.distinct);
  held = (
    (rw a.marks (ground arith), a.above, rw a.same_max a.below),
    IsHeld-put env p q id held a.marks a.same_max x.held,
  );
}
after-IsExclusive env p held err x a = x
after-IsExclusive env p held panic x a = absurd a

IsReady-put :
    (env : Text) (p : IdPool) (id : ℤ) (b : Bool)
    → IsReady env p
    → IsReady env (record p { is_used = put p.is_used id b })
IsReady-put env p id b r = record {
  first = r.first;
  some_ids = r.some_ids;
  from_first = r.from_first;
  in_range = r.in_range;
}

step-IsExclusive :
    (env : Text) (s : IdPool × List ℤ) (c : Call)
    → IsExclusive env s
    → IsExclusive env (step env s c)
unfolding step block release
step-IsExclusive env (p, held) allocates x =
    after-IsExclusive env p held _ x (allocate-AllocateSpec env p x.ready)
step-IsExclusive env (p, held) (blocks id) x = record {
  ready = IsReady-put env p id true x.ready;
  distinct = x.distinct;
  held = IsHeld-put env p (block id p) id held refl refl x.held;
}
step-IsExclusive env (p, held) (releases id) x = record {
  ready = IsReady-put env p id false x.ready;
  distinct = give_up-Distinct id held x.distinct;
  held = give_up-IsHeld env p id held x.held;
}

run_from-IsExclusive :
    (env : Text) (s : IdPool × List ℤ) (cs : List Call)
    → IsExclusive env s
    → IsExclusive env (run env s cs)
unfolding run
run_from-IsExclusive env s [] x = x
run_from-IsExclusive env s (c ∷ cs) x =
    run_from-IsExclusive env (step env s c) cs (step-IsExclusive env s c x)

-- After any history of allocations, blocks and releases on a ready pool that starts with nothing
-- held, the ids that are held are pairwise distinct, in use, and in the instance's range.
pub run-IsExclusive :
    (env : Text) (p : IdPool) (cs : List Call)
    → IsReady env p
    → IsExclusive env (run env (p, []) cs)
run-IsExclusive env p cs r =
    run_from-IsExclusive env (p, []) cs (record { ready = r; distinct = tt; held = tt })
