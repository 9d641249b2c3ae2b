-- ===== src/Topo/Paths.antt =====
-- GenerateDefaultPath finds a path exactly where some access network has one, and what it stores is
-- what GetDefaultUserPlanePathByDNN answers from then on.
use smf_cdac.Base.{
  ℕ, suc, ◌≡◌, refl, sym, ◌⊎◌, inl, inr, Bool, true, false, Option, none, some, List, [], ◌∷◌,
  arith, Outcome, ok, err, panic, ok-injective, ap, ◌∙◌,
}
use mathlib.Core.Path.{subst}
use smf_cdac.Base.Int.{ℤ}
use smf_cdac.Base.Text.{Text}
use smf_cdac.Base.Dict.{Dict, lookup}
use smf_cdac.Topo.Types.{Snssai, Heap, an, upf, other, UpNodeType, UpfSelectionParams}
use smf_cdac.Topo.Search.{Seen, mark, Search, found, missed, panicked, unfinished, get_path_between}
use smf_cdac.Topo.Routes.{
  Walk, Settled, Settled-trans, VisitSpec, get_path_between-VisitSpec, Done-no_Walk,
}
use smf_cdac.Topo.Fuel.{InPool, Gap, Concluded, get_path_between-Concluded}
use smf_cdac.Topo.Select.{
  UserPlane, select_match_upf, first_path, without_an, search_from, default_path,
  generate_default_path, selection_string, stored_path, after_generation, path_at,
  get_default_user_plane_path_by_dnn,
}

-- The map names the access network `n`.
abbrev pub Serves : Heap → ℕ → Dict ℕ → Type 0
Serves h n [] = ⊥
Serves h n ((name, m) ∷ nodes) = ((n ≡ m) × ((h n).node_type ≡ an)) ⊎ Serves h n nodes

-- What a search from all access networks answers: a path whose nodes, behind the access network that
-- it starts at, are a walk to the destination; none, where no access network has a walk; or a panic,
-- where some link leads to a node without a UPF.
abbrev pub Offer : Heap → Snssai → ℕ → Dict ℕ → Search → Type 0
Offer h s dest nodes (found path) = (n : ℕ) × Serves h n nodes × Walk h s dest n (n ∷ path)
Offer h s dest nodes (missed seen) =
    (n : ℕ) (path : List ℕ) → Serves h n nodes → ¬ Walk h s dest n path
Offer h s dest nodes panicked = Gap h s (λ _. false)
Offer h s dest nodes unfinished = ⊥

without_an-an :
    (h : Heap) (m : ℕ) (tail : List ℕ) → (h m).node_type ≡ an → without_an h (m ∷ tail) ≡ tail
unfolding without_an
without_an-an h m tail e = rw (without_an, e) refl

type_cases : (t : UpNodeType) → (t ≡ an) ⊎ ((t ≡ upf) ⊎ (t ≡ other))
type_cases an = inl refl
type_cases upf = inr (inl refl)
type_cases other = inr (inr refl)

module _ (h : Heap) (s : Snssai) (dest pool : ℕ) (in_pool : InPool pool h) where
  -- A node that offers no walk in front of the others.
  pass :
      (name : Text) (m : ℕ) (nodes : Dict ℕ) (r : Search)
      → ((h m).node_type ≡ an → (path : List ℕ) → ¬ Walk h s dest m path)
      → Offer h s dest nodes r
      → Offer h s dest ((name, m) ∷ nodes) r
  pass name m nodes (found path) none_here (n, i, w) = (n, inr i, w)
  pass name m nodes (missed seen) none_here o = λ n path i. elim i [
    | inl e ↦ λ w. none_here (rw (sym e.0) e.1) path (subst (λ k. Walk h s dest k path) e.0 w)
    | inr j ↦ o n path j
  ]
  pass name m nodes panicked none_here g = g
  pass name m nodes unfinished none_here o = o

  -- The search from one access network, and the loop behind it.
  tried :
      (name : Text) (m : ℕ) (nodes : Dict ℕ) (seen : Seen) (rest : Seen → Search) (r : Search)
      → (h m).node_type ≡ an
      → Settled h s dest (λ _. false) seen
      → Concluded h s (mark m seen) r
      → VisitSpec h s dest m seen r
      → ((b : Seen) → Settled h s dest (λ _. false) b → Offer h s dest nodes (rest b))
      → Offer h s dest ((name, m) ∷ nodes) (elim r [
        | found path ↦ found (without_an h path)
        | missed b ↦ rest b
        | panicked ↦ panicked
        | unfinished ↦ unfinished
      ])
  tried name m nodes seen rest (found path) e t c (walk, d, (tail, eq, f)) all =
      let left : without_an h path ≡ tail = rw eq (without_an-an h m tail e) in
      (m, inl (refl, e), rw left (subst (Walk h s dest m) eq walk))
  tried name m nodes seen rest (missed b) e t c (w, k, d, t') all =
      let whole = Settled-trans h s dest (λ _. false) seen b w t t' in
      pass name m nodes (rest b) (λ q path. Done-no_Walk h s dest b m path whole d) (all b whole)
  tried name m nodes seen rest panicked e t (a, (b, i, p, q)) v all = (a, (b, i, p, refl))
  tried name m nodes seen rest unfinished e t c v all = elim c [ ]

  search_from-an :
      (name : Text) (m : ℕ) (nodes : Dict ℕ) (seen : Seen)
      → (h m).node_type ≡ an
      → search_from (suc pool) h s dest ((name, m) ∷ nodes) seen
        ≡ elim (get_path_between (suc pool) h s dest m seen) [
          | found path ↦ found (without_an h path)
          | missed b ↦ search_from (suc pool) h s dest nodes b
          | panicked ↦ panicked
          | unfinished ↦ unfinished
        ]
  unfolding search_from
  search_from-an name m nodes seen e = rw (search_from, e) refl

  search_from-skips :
      (name : Text) (m : ℕ) (nodes : Dict ℕ) (seen : Seen)
      → ((h m).node_type ≡ upf) ⊎ ((h m).node_type ≡ other)
      → search_from (suc pool) h s dest ((name, m) ∷ nodes) seen
        ≡ search_from (suc pool) h s dest nodes seen
  unfolding search_from
  search_from-skips name m nodes seen (inl e) = rw (search_from, e) refl
  search_from-skips name m nodes seen (inr e) = rw (search_from, e) refl

  search_from-Offer :
      (nodes : Dict ℕ) (seen : Seen)
      → Settled h s dest (λ _. false) seen
      → Offer h s dest nodes (search_from (suc pool) h s dest nodes seen)
  unfolding search_from
  search_from-Offer [] seen t = λ n path i. elim i [ ]
  search_from-Offer ((name, m) ∷ nodes) seen t =
      let P = Offer h s dest ((name, m) ∷ nodes) in
      let later = search_from-Offer nodes in
      elim (type_cases (h m).node_type) [
        | inl e ↦ subst P (sym (search_from-an name m nodes seen e)) (
            tried name m nodes seen (search_from (suc pool) h s dest nodes) _ e t
              (get_path_between-Concluded h s dest m pool seen in_pool)
              (get_path_between-VisitSpec h s dest (suc pool) m seen) later)
        | inr e ↦
            subst P (sym (search_from-skips name m nodes seen e))
              (pass name m nodes _ (λ q path w. elim e [ inl k ↦ cc | inr k ↦ cc ]) (later seen t))
      ]

first_path-Offer :
    (u : UserPlane) (s : Snssai) (dest : ℕ) (others : List ℕ) (nodes : Dict ℕ)
    → InPool u.next u.heap
    → Offer u.heap s dest nodes (first_path u s nodes (some (dest ∷ others)))
unfolding first_path
first_path-Offer u s dest others [] i = λ n path j. elim j [ ]
first_path-Offer u s dest others (a ∷ more) i =
    search_from-Offer u.heap s dest u.next i (a ∷ more) (λ _. false) (λ n k. inl k)

-- Where some UPF matches the selection, the search of GenerateDefaultPath runs to its end. The path it
-- finds is, behind an access network of the plane, a walk over links to the first UPF that matches,
-- through UPFs that support the slice; it finds none only if no access network has such a walk; and it
-- panics only if some link leads to a node that has no UPF.
pub default_path-Offer :
    (u : UserPlane) (sel : UpfSelectionParams) (dest : ℕ) (others : List ℕ)
    → InPool u.next u.heap
    → select_match_upf u.heap sel u.upfs ≡ some (dest ∷ others)
    → Offer u.heap sel.snssai dest u.access_network (default_path u sel)
unfolding default_path
default_path-Offer u sel dest others i e =
    let o = first_path-Offer u sel.snssai dest others u.access_network i in
    subst
      (λ m.
        Offer u.heap sel.snssai dest u.access_network (first_path u sel.snssai u.access_network m))
      (sym e) o

stored_path-lookup :
    (key : Text) (u : UserPlane) (n : ℕ) (path : List ℕ)
    → stored_path key u ≡ n ∷ path
    → lookup key u.default_user_plane_path ≡ some (n ∷ path)
unfolding stored_path
stored_path-lookup key u n path e = ground arith

after_generation-kept :
    (key : Text) (r : Outcome (Bool × UserPlane)) (u : UserPlane) (n : ℕ) (path : List ℕ)
    → after_generation key r ≡ ok (n ∷ path, u)
    → lookup key u.default_user_plane_path ≡ some (n ∷ path)
unfolding after_generation
after_generation-kept key (ok (true, v)) u n path e =
    let both = ok-injective e in
    let same : v ≡ u = ap (λ k. k.1) both in
    let here : stored_path key v ≡ n ∷ path = ap (λ k. k.0) both in
    stored_path-lookup key u n path (subst (λ k. stored_path key k ≡ n ∷ path) same here)
after_generation-kept key (ok (false, v)) u n path e = cc
after_generation-kept key err u n path e = cc
after_generation-kept key panic u n path e = cc

path_at-kept :
    (key : Text) (u : UserPlane) (sel : UpfSelectionParams) (o : Option (List ℕ)) (u' : UserPlane)
    (n : ℕ) (path : List ℕ)
    → lookup key u.default_user_plane_path ≡ o
    → path_at key u sel o ≡ ok (n ∷ path, u')
    → lookup key u'.default_user_plane_path ≡ some (n ∷ path)
unfolding path_at
path_at-kept key u sel (some p) u' n path l e =
    let both = ok-injective e in
    let same : u ≡ u' = ap (λ k. k.1) both in
    let here : p ≡ n ∷ path = ap (λ k. k.0) both in
    subst (λ k. lookup key k.default_user_plane_path ≡ some (n ∷ path)) same (l ∙ ap some here)
path_at-kept key u sel none u' n path l e =
    after_generation-kept key (generate_default_path u key sel) u' n path e

-- A path that GetDefaultUserPlanePathByDNN returns is kept: asked again with the same selection, it
-- returns the same path and changes nothing, unless it returned none.
pub get_default_user_plane_path_by_dnn-again :
    (decimal : ℤ → Text) (u u' : UserPlane) (sel : UpfSelectionParams) (n : ℕ) (path : List ℕ)
    → get_default_user_plane_path_by_dnn decimal u sel ≡ ok (n ∷ path, u')
    → get_default_user_plane_path_by_dnn decimal u' sel ≡ ok (n ∷ path, u')
unfolding get_default_user_plane_path_by_dnn path_at
get_default_user_plane_path_by_dnn-again decimal u u' sel n path e =
    let key = selection_string decimal sel in
    let k = path_at-kept key u sel (lookup key u.default_user_plane_path) u' n path refl e in
    subst (λ o. path_at key u' sel o ≡ ok (n ∷ path, u')) (sym k) refl
