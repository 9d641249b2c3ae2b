-- ===== src/Upf/Ids.antt =====
-- The generator of the package idgenerator, which is not part of the repository, as an interface: what
-- Allocate and FreeID do, and which ids are out.
use smf_cdac.Base.{ℕ, ◌≤◌, ◌≡◌, ◌≢◌, Bool, true, false, Option, some}

-- A generator: its state, Allocate, which may fail, FreeID, the greatest id it was made for, and
-- whether an id is out.
pub record IdGenerator : Type 1 where
  pub State : Type 0
  pub allocate : State → Option (ℕ × State)
  pub free_id : ℕ → State → State
  pub max_id : State → ℕ
  pub is_out : State → ℕ → Bool

-- An id that Allocate returns was not out, is out then, and is at most the greatest; FreeID takes an id
-- back; neither touches any other id, nor what the greatest is.
pub record IdGeneratorLaws (g : IdGenerator) : Type 0 where
  pub allocate-fresh :
      (s : g.State) (n : ℕ) (t : g.State)
      → g.allocate s ≡ some (n, t)
      → (g.is_out s n ≡ false) × (g.is_out t n ≡ true) × (n ≤ g.max_id s)
  pub allocate-others :
      (s : g.State) (n : ℕ) (t : g.State)
      → g.allocate s ≡ some (n, t)
      → (m : ℕ) → m ≢ n
      → g.is_out t m ≡ g.is_out s m
  pub allocate-max_id :
      (s : g.State) (n : ℕ) (t : g.State) → g.allocate s ≡ some (n, t) → g.max_id t ≡ g.max_id s
  pub free_id-freed : (s : g.State) (n : ℕ) → g.is_out (g.free_id n s) n ≡ false
  pub free_id-others : (s : g.State) (n m : ℕ) → m ≢ n → g.is_out (g.free_id n s) m ≡ g.is_out s m
  pub free_id-max_id : (s : g.State) (n : ℕ) → g.max_id (g.free_id n s) ≡ g.max_id s
