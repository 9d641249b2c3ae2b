-- ===== src/Ipam/Bounds.antt =====
-- _IDPool.allocate on every branch, for an instance whose SMF_COUNT is positive.
use smf_cdac.Base.{
  ℕ, ◌%◌, ◌≤◌, ◌<◌, ◌≡◌, refl, true, false, none, some, Option-cases, Bool-cases, inl, inr, ◌⊎◌,
  arith, ◌==◌, Outcome, ok, err, panic,
}
use smf_cdac.Base.Int.{ℤ, pos, negsuc, ◌+ℤ◌, ◌≤ℤ◌, ◌<ℤ◌, ◌==ℤ◌, ==ℤ_iff, leb_ℤ, +ℤ_parts, span}
use smf_cdac.Base.Text.{Text}
use smf_cdac.Ipam.Search.{find_free-some, find_free-none}
use smf_cdac.Ipam.Pool.{IdPool, id_init, put, find_free, next_index, allocate_wrapped, allocate}
use mathlib.Core.Path.{subst, sym}
use native.Mathlib.Nat.{mod-eq_of_lt, mod_self}

-- What holds of the pool of the instance `env` between two operations: it starts at a positive
-- number, there is an id above 0, and the index is in the instance's range or at its start.
pub record IsReady (env : Text) (p : IdPool) : Type 0 where
  pub first : pos 1 ≤ℤ id_init env
  pub some_ids : pos 1 ≤ℤ p.max_value
  pub from_first : id_init env ≤ℤ p.index
  pub in_range : (p.index ≤ℤ p.max_value) ⊎ (p.index ≡ id_init env)

mod_cases : (i m : ℕ) → i ≤ m → 1 ≤ m → ((i % m ≡ 0) × (i ≡ m)) ⊎ ((i % m ≡ i) × (i < m)) ⊎ (i ≡ 0)
mod_cases i m h k = elim (Bool-cases (i == m)) [
  | inl e ↦ let e' : i ≡ m = ground arith in let z : m % m ≡ 0 = mod_self m in inl (rw e' z, e')
  | inr e ↦ let l : i < m = ground arith in inr (inl (mod-eq_of_lt l, l))
]

-- The index behind an id in the range stays in the range or goes back to the start.
next_index_bounds :
    (base max id : ℤ)
    → pos 1 ≤ℤ base
    → base ≤ℤ id
    → id ≤ℤ max
    → (base ≤ℤ next_index base max id)
      × ((next_index base max id ≤ℤ max) ⊎ (next_index base max id ≡ base))
unfolding next_index
next_index_bounds base (pos m) (pos i) p q r = ground (arith, mod_cases i m)
next_index_bounds base (negsuc m) id p q r = absurd (omega arith)
next_index_bounds base (pos m) (negsuc i) p q r = absurd (omega arith)

-- What a successful allocation did: a free id of the instance's range was put in use, and nothing
-- else changed.
pub record Allocated (env : Text) (p : IdPool) (id : ℤ) (q : IdPool) : Type 0 where
  pub was_free : p.is_used id ≡ false
  pub above : id_init env ≤ℤ id
  pub below : id ≤ℤ p.max_value
  pub marks : q.is_used ≡ put p.is_used id true
  pub same_static : q.static_ips ≡ p.static_ips
  pub same_max : q.max_value ≡ p.max_value
  pub same_min : q.min_value ≡ p.min_value
  pub ready : IsReady env q

-- Every branch of an allocation: it takes a free id of the instance's range, or every id of that
-- range is in use; it does not panic.
abbrev pub AllocateSpec : Text → IdPool → Outcome (ℤ × IdPool) → Type 0
AllocateSpec env p (ok (id, q)) = Allocated env p id q
AllocateSpec env p err = (id : ℤ) → id_init env ≤ℤ id → id ≤ℤ p.max_value → p.is_used id ≡ true
AllocateSpec env p panic = ⊥

took :
    (env : Text) (p : IdPool) (id i : ℤ)
    → IsReady env p
    → p.is_used id ≡ false
    → id_init env ≤ℤ id
    → id ≤ℤ p.max_value
    → id_init env ≤ℤ i
    → (i ≤ℤ p.max_value) ⊎ (i ≡ id_init env)
    → Allocated env p id (record p { is_used = put p.is_used id true; index = i })
took env p id i r f a b c d = record {
  was_free = f;
  above = a;
  below = b;
  marks = refl;
  same_static = refl;
  same_max = refl;
  same_min = refl;
  ready = record { first = r.first; some_ids = r.some_ids; from_first = c; in_range = d };
}

module _ (env : Text) (p : IdPool) (r : IsReady env p) where
  index_taken :
      find_free p.is_used p.index (span p.index p.max_value) ≡ none
      → id_init env ≤ℤ p.max_value
      → (p.index ≤ℤ p.max_value) × (p.is_used p.index ≡ true)
  index_taken n h =
      let bound : p.index ≤ℤ p.max_value = ground (arith, r.in_range) in
      (bound, find_free-none p.is_used p.index _ n p.index (omega arith))

  below_index :
      (id : ℤ)
      → find_free p.is_used p.index (span p.index p.max_value) ≡ none
      → id_init env ≤ℤ p.max_value
      → find_free p.is_used (id_init env) (span (id_init env) p.index) ≡ some id
      → (p.is_used id ≡ false) × (id_init env ≤ℤ id) × (id <ℤ p.index) × (p.index ≤ℤ p.max_value)
  below_index id n h found =
      let (free, run) = find_free-some p.is_used (id_init env) _ id found in
      let (bound, taken) = index_taken n h in
      elim (Bool-cases (id ==ℤ p.index)) [
        | inl same ↦
            let t = subst (λ x. p.is_used x ≡ true) (sym ((==ℤ_iff id p.index).0 same)) taken in cc
        | inr other ↦ (free, omega (arith, run), ground (arith, run), bound)
      ]

  exhausted :
      find_free p.is_used p.index (span p.index p.max_value) ≡ none
      → find_free p.is_used (id_init env) (span (id_init env) p.index) ≡ none
      → (id : ℤ) → id_init env ≤ℤ id
      → id ≤ℤ p.max_value
      → p.is_used id ≡ true
  exhausted high low id a b = elim (Bool-cases (leb_ℤ id p.index)) [
    | inl below ↦ find_free-none p.is_used (id_init env) _ low id (ground arith)
    | inr above ↦ find_free-none p.is_used p.index _ high id (ground arith)
  ]

  wrapped :
      (id : ℤ)
      → find_free p.is_used p.index (span p.index p.max_value) ≡ none
      → id_init env ≤ℤ p.max_value
      → find_free p.is_used (id_init env) (span (id_init env) p.index) ≡ some id
      → Allocated env p id (record p { is_used = put p.is_used id true; index = id +ℤ pos 1 })
  wrapped id n h found =
      let (free, above, before, bound) = below_index id n h found in
      took env p id (id +ℤ pos 1) r free above (omega (arith, before, bound))
        (omega (arith, above, +ℤ_parts id (pos 1)))
        (inl (omega (arith, before, bound, +ℤ_parts id (pos 1))))

  allocate_wrapped_lem :
      find_free p.is_used p.index (span p.index p.max_value) ≡ none
      → AllocateSpec env p (allocate_wrapped (id_init env) p)
  unfolding allocate_wrapped
  allocate_wrapped_lem n = elim (Bool-cases (leb_ℤ (id_init env) p.max_value)) [
    | inl fits ↦
        let h : id_init env ≤ℤ p.max_value = ground arith in
        elim (Option-cases (find_free p.is_used (id_init env) (span (id_init env) p.index))) [
          | inl all ↦ rw (fits, all, allocate_wrapped) (exhausted n all)
          | inr (id, found) ↦ rw (fits, found, allocate_wrapped) (wrapped id n h found)
        ]
    | inr none_fits ↦ rw (none_fits, allocate_wrapped) (λ id a b. absurd (ground arith))
  ]

  -- An allocation of a ready pool does not panic: it puts a free id of the instance's range in use and
  -- changes nothing else, or returns an error because every id of the range is in use.
  pub allocate-AllocateSpec : AllocateSpec env p (allocate env p)
  unfolding allocate
  allocate-AllocateSpec =
      elim (Option-cases (find_free p.is_used p.index (span p.index p.max_value))) [
        | inl all ↦ rw (all, allocate) (allocate_wrapped_lem all)
        | inr (id, found) ↦
            let (free, run) = find_free-some p.is_used p.index _ id found in
            let nonzero : (p.max_value ==ℤ pos 0) ≡ false = ground (arith, r.some_ids) in
            let below : id ≤ℤ p.max_value = omega (arith, run) in
            let above : id_init env ≤ℤ id = omega (arith, run, r.from_first) in
            let (low, high) = next_index_bounds (id_init env) p.max_value id r.first above below in
            rw (found, nonzero, allocate) (took env p id _ r free above below low high)
      ]
