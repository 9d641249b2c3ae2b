-- ===== src/Topo/Routes.antt =====
-- What a search finds is a route over links, through UPFs that support the slice, that passes no node
-- twice; where it finds none, there is none.
use smf_cdac.Base.{
  ℕ, zero, suc, ◌≡◌, ◌≢◌, refl, sym, ◌⊎◌, inl, inr, Bool, true, false, Bool-cases, Option, none,
  some, List, [], ◌∷◌, arith, ◌==◌, All,
}
use mathlib.Core.Path.{subst}
use smf_cdac.Topo.Types.{Snssai, Heap, is_support_snssai}
use smf_cdac.Topo.Search.{
  Seen, mark, Search, found, missed, panicked, unfinished, scan, get_path_between,
}

abbrev pub Supports : Heap → Snssai → ℕ → Type 0
Supports h s n = is_support_snssai (h n).upf_info s ≡ some true

abbrev pub Member : ℕ → List ℕ → Type 0
Member n [] = ⊥
Member n (m ∷ ms) = (n ≡ m) ⊎ Member n ms

-- A walk from the first node to the last: over links, to nodes that support the slice.
pub data Walk (h : Heap) (s : Snssai) (dest : ℕ) : ℕ → List ℕ → Type 0 where
  arrive : Walk h s dest dest (dest ∷ [])
  step :
      (cur n : ℕ) (path : List ℕ)
      → Member n (h cur).links
      → Supports h s n
      → Walk h s dest n path
      → Walk h s dest cur (cur ∷ path)

abbrev pub Distinct : List ℕ → Type 0
Distinct [] = Unit
Distinct (n ∷ ns) = All (λ m. m ≢ n) ns × Distinct ns

abbrev pub Within : Seen → Seen → Type 0
Within a b = (n : ℕ) → a n ≡ true → b n ≡ true

abbrev Fresh : Seen → List ℕ → Type 0
Fresh seen = All (λ n. seen n ≡ false)

-- A node is done when it is not the destination and all its links have been visited.
abbrev pub Done : Heap → ℕ → Seen → ℕ → Type 0
Done h dest seen n = (n ≢ dest) × ((m : ℕ) → Member m (h n).links → seen m ≡ true)

-- Every node visited since `old` is done, or does not support the slice.
abbrev pub Settled : Heap → Snssai → ℕ → Seen → Seen → Type 0
Settled h s dest old seen =
    (n : ℕ) → seen n ≡ true → (old n ≡ true) ⊎ ((¬ Supports h s n) ⊎ Done h dest seen n)

-- What a visit of a node promises.
abbrev pub VisitSpec : Heap → Snssai → ℕ → ℕ → Seen → Search → Type 0
VisitSpec h s dest cur seen (found path) =
    Walk h s dest cur path
    × Distinct path
    × ((rest : List ℕ) × (path ≡ cur ∷ rest) × Fresh (mark cur seen) rest)
VisitSpec h s dest cur seen (missed seen') =
    Within seen seen' × (seen' cur ≡ true) × Done h dest seen' cur × Settled h s dest seen seen'
VisitSpec h s dest cur seen panicked = Unit
VisitSpec h s dest cur seen unfinished = Unit

-- What the loop over some of the links of `cur` promises.
abbrev ScanSpec : Heap → Snssai → ℕ → ℕ → List ℕ → Seen → Search → Type 0
ScanSpec h s dest cur ns seen (found path) =
    (n : ℕ) × (rest : List ℕ) × (path ≡ cur ∷ rest)
    × Member n ns
    × Supports h s n
    × Walk h s dest n rest
    × Distinct rest
    × Fresh seen rest
ScanSpec h s dest cur ns seen (missed seen') =
    Within seen seen' × ((n : ℕ) → Member n ns → seen' n ≡ true) × Settled h s dest seen seen'
ScanSpec h s dest cur ns seen panicked = Unit
ScanSpec h s dest cur ns seen unfinished = Unit

-- What the loop does at a link that was visited, that leads to no UPF, to a UPF without the slice, and
-- to one with it.
module _ (visit : ℕ → Seen → Search) (h : Heap) (s : Snssai) (cur n : ℕ) (ns : List ℕ)
    (seen : Seen) where
  pub scan-known : seen n ≡ true → scan visit h s cur (n ∷ ns) seen ≡ scan visit h s cur ns seen
  unfolding scan
  scan-known e = rw (scan, e) refl

  pub scan-no_upf :
      seen n ≡ false
      → is_support_snssai (h n).upf_info s ≡ none
      → scan visit h s cur (n ∷ ns) seen ≡ panicked
  unfolding scan
  scan-no_upf e p = rw (scan, e, p) refl

  pub scan-unsupported :
      seen n ≡ false
      → is_support_snssai (h n).upf_info s ≡ some false
      → scan visit h s cur (n ∷ ns) seen ≡ scan visit h s cur ns (mark n seen)
  unfolding scan
  scan-unsupported e p = rw (scan, e, p) refl

  pub scan-entered :
      seen n ≡ false
      → is_support_snssai (h n).upf_info s ≡ some true
      → scan visit h s cur (n ∷ ns) seen ≡ elim (visit n seen) [
        | found path ↦ found (cur ∷ path)
        | missed b ↦ scan visit h s cur ns b
        | panicked ↦ panicked
        | unfinished ↦ unfinished
      ]
  unfolding scan
  scan-entered e p = rw (scan, e, p) refl

pub support_cases : (o : Option Bool) → (o ≡ none) ⊎ ((o ≡ some false) ⊎ (o ≡ some true))
support_cases none = inl refl
support_cases (some false) = inr (inl refl)
support_cases (some true) = inr (inr refl)

module _ (h : Heap) (s : Snssai) (dest : ℕ) where
  pub mark_self : (n : ℕ) (seen : Seen) → mark n seen n ≡ true
  mark_self n seen = ground arith

  pub Within-mark : (n : ℕ) (seen : Seen) → Within seen (mark n seen)
  Within-mark n seen m e = ground arith

  Fresh-Within : (a b : Seen) (ns : List ℕ) → Within a b → Fresh b ns → Fresh a ns
  Fresh-Within a b [] w f = tt
  Fresh-Within a b (n ∷ ns) w f = (
    elim (Bool-cases (a n)) [ inl e ↦ (let g = w n e in cc) | inr e ↦ e ],
    Fresh-Within a b ns w f.1,
  )

  pub Done-Within : (a b : Seen) (n : ℕ) → Within a b → Done h dest a n → Done h dest b n
  Done-Within a b n w d = (d.0, λ m i. w m (d.1 m i))

  -- Two stretches of a search, one behind the other.
  pub Settled-trans :
      (a b c : Seen)
      → Within b c
      → Settled h s dest a b
      → Settled h s dest b c
      → Settled h s dest a c
  Settled-trans a b c w p q n e = elim (q n e) [
    | inl old ↦ elim (p n old) [
      | inl o ↦ inl o
      | inr (inl u) ↦ inr (inl u)
      | inr (inr d) ↦ inr (inr (Done-Within b c n w d))
    ]
    | inr r ↦ inr r
  ]

  -- A link that leads from `a` to `b` visited, in front of the rest of the loop.
  extend :
      (cur n : ℕ) (ns : List ℕ) (a b : Seen) (r : Search)
      → Within a b
      → b n ≡ true
      → Settled h s dest a b
      → ScanSpec h s dest cur ns b r
      → ScanSpec h s dest cur (n ∷ ns) a r
  extend cur n ns a b (found path) w e t (m, rest, eq, i, sup, walk, d, f) =
      (m, rest, eq, inr i, sup, walk, d, Fresh-Within a b rest w f)
  extend cur n ns a b (missed c) w e t (w', all, t') = (
    λ m k. w' m (w m k),
    λ m i. elim i [ inl q ↦ rw q (w' n e) | inr j ↦ all m j ],
    Settled-trans a b c w' t t',
  )
  extend cur n ns a b panicked w e t p = tt
  extend cur n ns a b unfinished w e t p = tt

  -- A link that is visited, and what its visit returned.
  entered :
      (cur n : ℕ) (ns : List ℕ) (seen : Seen) (rest : Seen → Search) (r : Search)
      → seen n ≡ false
      → Supports h s n
      → VisitSpec h s dest n seen r
      → ((b : Seen) → ScanSpec h s dest cur ns b (rest b))
      → ScanSpec h s dest cur (n ∷ ns) seen (elim r [
        | found path ↦ found (cur ∷ path)
        | missed b ↦ rest b
        | panicked ↦ panicked
        | unfinished ↦ unfinished
      ])
  entered cur n ns seen rest (found path) e sup (walk, d, (more, eq, f)) all = (
    n,
    path,
    refl,
    inl refl,
    sup,
    walk,
    d,
    rw eq (e, Fresh-Within seen (mark n seen) more (Within-mark n seen) f),
  )
  entered cur n ns seen rest (missed b) e sup (w, k, d, t) all =
      extend cur n ns seen b (rest b) w k t (all b)
  entered cur n ns seen rest panicked e sup v all = tt
  entered cur n ns seen rest unfinished e sup v all = tt

  Settled-mark : (n : ℕ) (seen : Seen) → ¬ Supports h s n → Settled h s dest seen (mark n seen)
  Settled-mark n seen u m e = elim (Bool-cases (m == n)) [
    | inl q ↦ let same : m ≡ n = ground arith in inr (inl (rw same u))
    | inr q ↦ inl (rw q at e)
  ]

  scan-ScanSpec :
      (visit : ℕ → Seen → Search) (cur : ℕ)
      → ((n : ℕ) (b : Seen) → VisitSpec h s dest n b (visit n b))
      → (ns : List ℕ) (seen : Seen) → ScanSpec h s dest cur ns seen (scan visit h s cur ns seen)
  unfolding scan
  scan-ScanSpec visit cur v [] seen = (λ m e. e, λ n i. elim i [ ], λ n e. inl e)
  scan-ScanSpec visit cur v (n ∷ ns) seen =
      let rest = scan-ScanSpec visit cur v ns in
      let P = ScanSpec h s dest cur (n ∷ ns) seen in
      elim (Bool-cases (seen n)) [
        | inl e ↦
            subst P (sym (scan-known visit h s cur n ns seen e))
              (extend cur n ns seen seen _ (λ m k. k) e (λ m k. inl k) (rest seen))
        | inr e ↦ elim (support_cases (is_support_snssai (h n).upf_info s)) [
          | inl p ↦ subst P (sym (scan-no_upf visit h s cur n ns seen e p)) tt
          | inr (inl p) ↦
              let u : ¬ Supports h s n = λ k. cc in
              subst P (sym (scan-unsupported visit h s cur n ns seen e p)) (
                extend cur n ns seen (mark n seen) _ (Within-mark n seen) (mark_self n seen)
                  (Settled-mark n seen u) (rest (mark n seen)))
          | inr (inr p) ↦
              subst P (sym (scan-entered visit h s cur n ns seen e p))
                (entered cur n ns seen (scan visit h s cur ns) (visit n seen) e p (v n seen) rest)
        ]
      ]

  Fresh-ne :
      (cur : ℕ) (seen : Seen) (ns : List ℕ) → Fresh (mark cur seen) ns → All (λ m. m ≢ cur) ns
  Fresh-ne cur seen [] f = tt
  Fresh-ne cur seen (n ∷ ns) f = (λ e. ground arith, Fresh-ne cur seen ns f.1)

  -- From the loop over all links of `cur` to the visit of `cur`.
  finish :
      (cur : ℕ) (seen : Seen) (r : Search)
      → cur ≢ dest
      → ScanSpec h s dest cur (h cur).links (mark cur seen) r
      → VisitSpec h s dest cur seen r
  finish cur seen (found path) ne (n, rest, eq, i, sup, walk, d, f) =
      rw eq (step cur n rest i sup walk, (Fresh-ne cur seen rest f, d), (rest, refl, f))
  finish cur seen (missed b) ne (w, all, t) = (
    λ n e. w n (Within-mark cur seen n e),
    w cur (mark_self cur seen),
    (ne, all),
    λ n e. elim (t n e) [
      | inl k ↦ elim (Bool-cases (n == cur)) [
        | inl q ↦ let same : n ≡ cur = ground arith in inr (inr (rw same (ne, all)))
        | inr q ↦ inl (rw q at k)
      ]
      | inr k ↦ inr k
    ],
  )
  finish cur seen panicked ne p = tt
  finish cur seen unfinished ne p = tt

  pub get_path_between-VisitSpec :
      (fuel cur : ℕ) (seen : Seen)
      → VisitSpec h s dest cur seen (get_path_between fuel h s dest cur seen)
  unfolding get_path_between
  get_path_between-VisitSpec zero cur seen = tt
  get_path_between-VisitSpec (suc fuel) cur seen = elim (Bool-cases (cur == dest)) [
    | inl e ↦
        let same : cur ≡ dest = ground arith in rw (e, same) (arrive, (tt, tt), ([], refl, tt))
    | inr e ↦ rw e (
        finish cur seen _ (ground arith) (
          scan-ScanSpec (get_path_between fuel h s dest) cur (get_path_between-VisitSpec fuel)
            (h cur).links (mark cur seen)))
  ]

  -- A node that is done cannot reach the destination, if what was visited before cannot.
  pub Done-no_Walk :
      (seen : Seen) (cur : ℕ) (path : List ℕ)
      → Settled h s dest (λ _. false) seen
      → Done h dest seen cur
      → ¬ Walk h s dest cur path
  Done-no_Walk seen cur path t d (arrive) = d.0 refl
  Done-no_Walk seen cur path t d (step c n rest i sup walk) = elim (t n (d.1 n i)) [
    | inl e ↦ cc
    | inr (inl u) ↦ u sup
    | inr (inr d') ↦ Done-no_Walk seen n rest t d' walk
  ]
