-- ===== src/Upf/RuleLaws.antt =====
-- One shelf of a UPF: an id that is taken is new, and what is out stays what the pool holds.
use smf_cdac.Base.{
  ℕ, zero, suc, ◌+◌, ◌*◌, ◌/◌, ◌%◌, ◌^◌, ◌<◌, ◌≡◌, ◌≢◌, refl, sym, ◌∙◌, inl, inr, true, false,
  Bool-cases, Option, none, some, ◌==◌, arith,
}
use smf_cdac.Upf.Ids.{IdGenerator, IdGeneratorLaws}
use smf_cdac.Upf.Rules.{Shelf, Upf, store, shelve, take_id, give_back}

remainder_small : (n d q r : ℕ) → n < d → d * q + r ≡ n → r ≡ n
remainder_small n d zero r l e = grind arith
remainder_small n d (suc q) r l e =
    let more : d * suc q ≡ d + d * q = grind arith in omega (arith, more)

mod_small : (n d : ℕ) → n < d → n % d ≡ n
mod_small n d l = remainder_small n d (n / d) (n % d) l (omega arith)

-- The pool holds exactly the ids that are out, and every id fits the type of its field.
pub record ShelfTracked (g : IdGenerator) (bits : ℕ) (s : Shelf g) : Type 0 where
  pub same : (n : ℕ) → s.pool n ≡ g.is_out s.ids n
  pub fits : g.max_id s.ids < 2 ^ bits

-- The generators that NewUPF makes go up to MaxUint8 for BARs, MaxUint16 for PDRs and MaxUint32 for
-- FARs and QERs.
pub record Tracked (g : IdGenerator) (u : Upf g) : Type 0 where
  pub pdrs : ShelfTracked g 16 u.pdrs
  pub fars : ShelfTracked g 32 u.fars
  pub bars : ShelfTracked g 8 u.bars
  pub qers : ShelfTracked g 32 u.qers

module _ (g : IdGenerator) (laws : IdGeneratorLaws g) where
  -- What a taken id is: new, out and held by the pool then, with all else as it was.
  abbrev pub Taken : Shelf g → ℕ → Shelf g → Type 0
  Taken s n t =
      (s.pool n ≡ false)
      × (g.is_out t.ids n ≡ true)
      × (t.pool n ≡ true)
      × ((m : ℕ) → m ≢ n → t.pool m ≡ s.pool m)

  -- An id that fits, put in the pool.
  put_in :
      (bits : ℕ) (s : Shelf g) (n : ℕ) (t : g.State)
      → ShelfTracked g bits s
      → g.allocate s.ids ≡ some (n, t)
      → let shelf : Shelf g = record { ids = t; pool = store n s.pool } in
        ShelfTracked g bits shelf × Taken s n shelf
  put_in bits s n t k e =
      let fresh = laws.allocate-fresh s.ids n t e in
      let others = laws.allocate-others s.ids n t e in
      (
        record {
          same = λ m. elim (Bool-cases (m == n)) [
            | inl q ↦ let at_n : m ≡ n = ground arith in rw (q, at_n) (sym fresh.1)
            | inr q ↦ let w = others m (ground arith) in rw q (k.same m ∙ sym w)
          ];
          fits = rw (laws.allocate-max_id s.ids n t e) k.fits;
        },
        (k.same n ∙ fresh.0, fresh.1, ground arith, λ m ne. ground arith),
      )

  abbrev pub TakenFrom : ℕ → Shelf g → Option (ℕ × Shelf g) → Type 0
  TakenFrom bits s none = Unit
  TakenFrom bits s (some (n, t)) = ShelfTracked g bits t × Taken s n t

  shelve-TakenFrom :
      (bits : ℕ) (s : Shelf g) (o : Option (ℕ × g.State))
      → ShelfTracked g bits s
      → g.allocate s.ids ≡ o
      → TakenFrom bits s (shelve g bits s o)
  unfolding shelve
  shelve-TakenFrom bits s none k e = tt
  shelve-TakenFrom bits s (some (n, t)) k e =
      let fresh = laws.allocate-fresh s.ids n t e in
      let fits = k.fits in
      let small : n < 2 ^ bits = omega arith in
      let whole : n % 2 ^ bits ≡ n = mod_small n (2 ^ bits) small in
      rw whole (put_in bits s n t k e)

  pub take_id-TakenFrom :
      (bits : ℕ) (s : Shelf g) → ShelfTracked g bits s → TakenFrom bits s (take_id g bits s)
  unfolding take_id
  take_id-TakenFrom bits s k = shelve-TakenFrom bits s (g.allocate s.ids) k refl

  pub give_back-ShelfTracked :
      (bits n : ℕ) (s : Shelf g) → ShelfTracked g bits s → ShelfTracked g bits (give_back g n s)
  unfolding give_back
  give_back-ShelfTracked bits n s k = record {
    same = λ m. elim (Bool-cases (m == n)) [
      | inl e ↦ let at_n : m ≡ n = ground arith in rw (e, at_n) (sym (laws.free_id-freed s.ids n))
      | inr e ↦ let w = laws.free_id-others s.ids n m (ground arith) in rw e (k.same m ∙ sym w)
    ];
    fits = rw (laws.free_id-max_id s.ids n) k.fits;
  }
