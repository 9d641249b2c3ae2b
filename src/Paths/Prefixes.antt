-- ===== src/Paths/Prefixes.antt =====
-- FindULCL dereferences a nil node exactly where an activated path is the beginning of the path that is
-- to be activated.
use smf_cdac.Base.{
  ℕ, suc, ◌≡◌, refl, ◌⊎◌, inl, inr, true, Bool-cases, some, List, [], ◌∷◌, if◌then◌else◌, Outcome,
  ok, err, panic, ◌>>=◌,
}
use smf_cdac.Topo.Types.{NodeId}
use smf_cdac.Topo.Nodes.{same_id}
use smf_cdac.Paths.Branching.{
  PathNodes, Points, BpManager, note_depth, branch, branch_of, branches, find_ulcl,
}

-- The first path is the beginning of the second, by the node IDs, and ends before it.
abbrev pub EndsWithin : PathNodes → PathNodes → Type 0
EndsWithin p [] = ⊥
EndsWithin [] (x ∷ xs) = Unit
EndsWithin (y ∷ ys) (x ∷ xs) = (same_id x.1 y.1 ≡ true) × EndsWithin ys xs

abbrev pub SomeEndsWithin : List PathNodes → PathNodes → Type 0
SomeEndsWithin [] path = ⊥
SomeEndsWithin (p ∷ ps) path = EndsWithin p path ⊎ SomeEndsWithin ps path

-- A panic, and the reason for it; or a result, and then there is no such reason.
abbrev pub PanicsFor {ℓ} : {A : Type ℓ} → Type 0 → Outcome A → Type 0
PanicsFor R (ok a) = ¬ R
PanicsFor R err = ⊥
PanicsFor R panic = R

off_path :
    (r : Outcome Points) (x y : ℕ × NodeId) (xs ys : PathNodes) (pts : Points)
    → PanicsFor (EndsWithin ys xs) r
    → PanicsFor (EndsWithin (y ∷ ys) (x ∷ xs)) (if same_id x.1 y.1 then r else ok pts)
off_path r x y xs ys pts k = elim (Bool-cases (same_id x.1 y.1)) [
  | inl e ↦ rw e (on_path r k)
  | inr e ↦ rw e (λ q. cc)
]
  where
    on_path :
        (r : Outcome Points)
        → PanicsFor (EndsWithin ys xs) r
        → PanicsFor ((true ≡ true) × EndsWithin ys xs) r
    on_path (ok a) k = λ q. k q.1
    on_path err k = k
    on_path panic k = (refl, k)

branch-PanicsFor :
    (path p : PathNodes) (depth : ℕ) (pts : Points)
    → PanicsFor (EndsWithin p path) (branch path p depth pts)
unfolding branch
branch-PanicsFor [] p depth pts = λ e. e
branch-PanicsFor (x ∷ xs) [] depth pts = tt
branch-PanicsFor (x ∷ xs) (y ∷ ys) depth pts =
    off_path (branch xs ys (suc depth) (note_depth x.0 (suc depth) pts)) x y xs ys pts
      (branch-PanicsFor xs ys (suc depth) (note_depth x.0 (suc depth) pts))

bind-PanicsFor :
    (R S : Type 0) (r : Outcome Points) (f : Points → Outcome Points)
    → PanicsFor R r
    → ((pts : Points) → PanicsFor S (f pts))
    → PanicsFor (R ⊎ S) (r >>= f)
bind-PanicsFor R S (ok pts) f k g = after (f pts) (g pts)
  where
    after : (o : Outcome Points) → PanicsFor S o → PanicsFor (R ⊎ S) o
    after (ok a) n = λ q. elim q [ inl x ↦ k x | inr y ↦ n y ]
    after err n = n
    after panic n = inr n
bind-PanicsFor R S err f k g = k
bind-PanicsFor R S panic f k g = inl k

branches-PanicsFor :
    (path : PathNodes) (ps : List PathNodes) (pts : Points)
    → PanicsFor (SomeEndsWithin ps path) (branches (some path) ps pts)
unfolding branches branch_of
branches-PanicsFor path [] pts = λ e. e
branches-PanicsFor path (p ∷ ps) pts =
    bind-PanicsFor (EndsWithin p path) (SomeEndsWithin ps path) (branch path p 0 pts)
      (branches (some path) ps) (branch-PanicsFor path p 0 pts) (branches-PanicsFor path ps)

ends_ok :
    (R : Type 0) (r : Outcome Points) (f : Points → BpManager)
    → PanicsFor R r
    → PanicsFor R (r >>= λ pts. ok (f pts))
ends_ok R (ok pts) f k = k
ends_ok R err f k = k
ends_ok R panic f k = k

-- FindULCL with a path to activate panics exactly where an activated path, by its node IDs, is the
-- beginning of the path to activate and ends before it; in every other case it returns without an error.
pub find_ulcl-PanicsFor :
    (b : BpManager) (path : PathNodes)
    → b.activating_path ≡ some path
    → PanicsFor (SomeEndsWithin b.activated_paths path) (find_ulcl b)
unfolding find_ulcl
find_ulcl-PanicsFor b path e = rw e (
    ends_ok (SomeEndsWithin b.activated_paths path) (branches (some path) b.activated_paths []) _
      (branches-PanicsFor path b.activated_paths []))
