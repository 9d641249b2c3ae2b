-- ===== src/Ipam/Search.antt =====
-- The search loop of _IDPool.allocate: it finds the first free id of its run, and fails only when the
-- whole run is in use.
use smf_cdac.Base.{
  ℕ, zero, suc, ◌+◌, ◌≤◌, ◌≡◌, Bool, true, false, none, some, Bool-cases, inl, inr, arith,
}
use smf_cdac.Base.Int.{ℤ, pos, pos_part, neg_part, ◌+ℤ◌, ◌≤ℤ◌, ◌<ℤ◌, ◌==ℤ◌, ==ℤ_iff, +ℤ_parts}
use smf_cdac.Ipam.Pool.{find_free}
use mathlib.Core.Path.{subst}
use mathlib.Core.Option.{some-injective}

-- `id` is one of the `rounds` numbers from `start` on.
abbrev pub InRun : ℤ → ℕ → ℤ → Type 0
InRun start rounds id =
    (start ≤ℤ id) × (suc (pos_part id + neg_part start) ≤ pos_part start + neg_part id + rounds)

pub find_free-some :
    (used : ℤ → Bool) (start : ℤ) (rounds : ℕ) (id : ℤ)
    → find_free used start rounds ≡ some id
    → (used id ≡ false) × InRun start rounds id
unfolding find_free
find_free-some used start zero id e = cc
find_free-some used start (suc rounds) id e = elim (Bool-cases (used start)) [
  | inl taken ↦
      let (free, run) =
        find_free-some used (start +ℤ pos 1) rounds id (rw (taken, find_free) at e) in
      (free, omega (arith, run, +ℤ_parts start (pos 1)))
  | inr free ↦
      subst (λ x. (used x ≡ false) × InRun start (suc rounds) x)
        (some-injective _ _ (rw (free, find_free) at e)) (free, omega arith)
]

pub find_free-none :
    (used : ℤ → Bool) (start : ℤ) (rounds : ℕ)
    → find_free used start rounds ≡ none
    → (id : ℤ) → InRun start rounds id
    → used id ≡ true
unfolding find_free
find_free-none used start zero e id r = absurd (omega arith)
find_free-none used start (suc rounds) e id r = elim (Bool-cases (used start)) [
  | inl taken ↦ elim (Bool-cases (start ==ℤ id)) [
    | inl same ↦ subst (λ x. used x ≡ true) ((==ℤ_iff start id).0 same) taken
    | inr other ↦
        find_free-none used (start +ℤ pos 1) rounds (rw (taken, find_free) at e) id
          (ground (arith, +ℤ_parts start (pos 1)))
  ]
  | inr free ↦ let f = rw (free, find_free) at e in cc
]

-- The ids before the one found are in use.
pub find_free_first :
    (used : ℤ → Bool) (start : ℤ) (rounds : ℕ) (id : ℤ)
    → find_free used start rounds ≡ some id
    → (j : ℤ) → start ≤ℤ j
    → j <ℤ id
    → used j ≡ true
unfolding find_free
find_free_first used start zero id e j p q = cc
find_free_first used start (suc rounds) id e j p q = elim (Bool-cases (used start)) [
  | inl taken ↦ elim (Bool-cases (start ==ℤ j)) [
    | inl same ↦ subst (λ x. used x ≡ true) ((==ℤ_iff start j).0 same) taken
    | inr other ↦
        find_free_first used (start +ℤ pos 1) rounds id (rw (taken, find_free) at e) j
          (ground (arith, +ℤ_parts start (pos 1))) q
  ]
  | inr free ↦
      let e' : start ≡ id = some-injective _ _ (rw (free, find_free) at e) in
      let q' = rw (← e') at q in absurd (omega arith)
]
