-- ===== src/Topo/Fuel.antt =====
-- A search over N nodes ends on fuel N + 1, since each deeper call has one node less to visit; it panics
-- only at a link to a node that has no UPF.
use smf_cdac.Base.{
  ℕ, zero, suc, ◌+◌, ◌≤◌, ◌<◌, ◌≡◌, refl, sym, inl, inr, false, Bool-cases, none, List, [], ◌∷◌,
  arith, ◌==◌, if◌then◌else◌,
}
use mathlib.Core.Path.{subst}
use smf_cdac.Topo.Types.{Snssai, Heap, is_support_snssai}
use smf_cdac.Topo.Search.{
  Seen, mark, Search, found, missed, panicked, unfinished, scan, get_path_between,
}
use smf_cdac.Topo.Routes.{
  Member, Within, Walk, Distinct, VisitSpec, scan-known, scan-no_upf, scan-unsupported,
  scan-entered, support_cases, Within-mark, get_path_between-VisitSpec, Done-no_Walk,
}

-- The nodes below `n` that are not visited.
unfoldable unseen : ℕ → Seen → ℕ
unseen zero seen = 0
unseen (suc n) seen = (if seen n then 0 else 1) + unseen n seen

unseen_bound : (n : ℕ) (seen : Seen) → unseen n seen ≤ n
unfolding unseen
unseen_bound zero seen = omega arith
unseen_bound (suc n) seen = let ih = unseen_bound n seen in ground arith

unseen-Within : (n : ℕ) (a b : Seen) → Within a b → unseen n b ≤ unseen n a
unfolding unseen
unseen-Within zero a b w = omega arith
unseen-Within (suc n) a b w =
    let ih = unseen-Within n a b w in
    let here = w n in
    elim (Bool-cases (a n)) [ inl e ↦ let k = w n e in ground arith | inr e ↦ ground arith ]

unseen-mark : (n m : ℕ) (b : Seen) → m < n → b m ≡ false → unseen n (mark m b) < unseen n b
unfolding unseen
unseen-mark zero m b l e = omega arith
unseen-mark (suc n) m b l e = elim (Bool-cases (n == m)) [
  | inl q ↦
      let same : n ≡ m = ground arith in
      let w = unseen-Within n b (mark m b) (λ k i. ground arith) in
      let here : b n ≡ false = rw same e in ground arith
  | inr q ↦ let below : m < n = ground arith in let ih = unseen-mark n m b below e in ground arith
]

-- Every link leads to one of the first `n` nodes.
abbrev pub InPool : ℕ → Heap → Type 0
InPool n h = (a b : ℕ) → Member b (h a).links → b < n

-- A link that leads to a node without a UPF, which was not visited at the start.
abbrev pub Gap : Heap → Snssai → Seen → Type 0
Gap h s start =
    (a : ℕ) × ((b : ℕ) × Member b (h a).links
      × (is_support_snssai (h b).upf_info s ≡ none)
      × (start b ≡ false))

not_at_start : (start seen : Seen) (n : ℕ) → Within start seen → seen n ≡ false → start n ≡ false
not_at_start start seen n w e = elim (Bool-cases (start n)) [
  | inl k ↦ (let g = w n k in cc)
  | inr k ↦ k
]

-- What any search on enough fuel ends with, if a path, a miss and a panic at a link without a UPF do.
module _ (h : Heap) (s : Snssai) (dest pool : ℕ) (start : Seen) (in_pool : InPool pool h)
    (P : Search → Type 0) (a_path : (path : List ℕ) → P (found path))
    (a_miss : (seen : Seen) → P (missed seen)) (no_upf : Gap h s start → P panicked) where
  Visits : ℕ → (ℕ → Seen → Search) → Type 0
  Visits fuel visit =
      (n : ℕ) (b : Seen)
      → Within start (mark n b)
      → unseen pool (mark n b) < fuel
      → P (visit n b) × VisitSpec h s dest n b (visit n b)

  pass_on :
      (cur : ℕ) (rest : Seen → Search) (r : Search)
      → P r
      → ((b : Seen) → r ≡ missed b → P (rest b))
      → P (elim r [
        | found path ↦ found (cur ∷ path)
        | missed b ↦ rest b
        | panicked ↦ panicked
        | unfinished ↦ unfinished
      ])
  pass_on cur rest (found path) p k = a_path (cur ∷ path)
  pass_on cur rest (missed b) p k = k b refl
  pass_on cur rest panicked p k = p
  pass_on cur rest unfinished p k = p

  scan-P :
      (fuel : ℕ) (visit : ℕ → Seen → Search) (cur : ℕ)
      → Visits fuel visit
      → (ns : List ℕ) (seen : Seen) → ((m : ℕ) → Member m ns → Member m (h cur).links)
      → Within start seen
      → unseen pool seen < suc fuel
      → P (scan visit h s cur ns seen)
  unfolding scan Visits
  scan-P fuel visit cur v [] seen part st l = a_miss seen
  scan-P fuel visit cur v (n ∷ ns) seen part st l =
      let later : (b : Seen) → Within seen b → P (scan visit h s cur ns b) = λ b w.
        let less = unseen-Within pool seen b w in
        scan-P fuel visit cur v ns b (λ m i. part m (inr i)) (λ m i. w m (st m i)) (omega arith) in
      let linked = part n (inl refl) in
      elim (Bool-cases (seen n)) [
        | inl e ↦ subst P (sym (scan-known visit h s cur n ns seen e)) (later seen (λ k i. i))
        | inr e ↦ elim (support_cases (is_support_snssai (h n).upf_info s)) [
          | inl p ↦
              subst P (sym (scan-no_upf visit h s cur n ns seen e p))
                (no_upf (cur, (n, linked, p, not_at_start start seen n st e)))
          | inr (inl p) ↦
              subst P (sym (scan-unsupported visit h s cur n ns seen e p))
                (later (mark n seen) (Within-mark h s dest n seen))
          | inr (inr p) ↦
              let less = unseen-mark pool n seen (in_pool cur n linked) e in
              let here = v n seen (λ m i. Within-mark h s dest n seen m (st m i)) (omega arith) in
              subst P (sym (scan-entered visit h s cur n ns seen e p)) (
                pass_on cur (scan visit h s cur ns) (visit n seen) here.0
                  (λ b q. later b (subst (VisitSpec h s dest n seen) q here.1).0))
        ]
      ]

  get_path_between-P :
      (fuel cur : ℕ) (seen : Seen)
      → Within start (mark cur seen)
      → unseen pool (mark cur seen) < fuel
      → P (get_path_between fuel h s dest cur seen)
  unfolding get_path_between Visits
  get_path_between-P zero cur seen st l = (let no : ⊥ = omega arith in elim no [ ])
  get_path_between-P (suc fuel) cur seen st l = elim (Bool-cases (cur == dest)) [
    | inl e ↦ rw e (a_path (cur ∷ []))
    | inr e ↦ rw e (
        scan-P fuel (get_path_between fuel h s dest) cur
          (λ n b w k.
            (get_path_between-P fuel n b w k, get_path_between-VisitSpec h s dest fuel n b))
          (h cur).links (mark cur seen) (λ m i. i) st l)
  ]

-- How a search ends: with a path, with none, or at a gap.
abbrev pub Concluded : Heap → Snssai → Seen → Search → Type 0
Concluded h s start (found path) = Unit
Concluded h s start (missed seen) = Unit
Concluded h s start panicked = Gap h s start
Concluded h s start unfinished = ⊥

pub get_path_between-Concluded :
    (h : Heap) (s : Snssai) (dest cur pool : ℕ) (seen : Seen)
    → InPool pool h
    → Concluded h s (mark cur seen) (get_path_between (suc pool) h s dest cur seen)
get_path_between-Concluded h s dest cur pool seen i =
    let bound = unseen_bound pool (mark cur seen) in
    get_path_between-P h s dest pool (mark cur seen) i (Concluded h s (mark cur seen)) (λ path. tt)
      (λ b. tt) (λ g. g) (suc pool) cur seen (λ m k. k) (omega arith)

-- What a first search answers: a route that passes no node twice; no route, where there is none; or a
-- panic, where some link leads to another node without a UPF.
abbrev pub Answer : Heap → Snssai → ℕ → ℕ → Search → Type 0
Answer h s dest cur (found path) = Walk h s dest cur path × Distinct path
Answer h s dest cur (missed seen) = (path : List ℕ) → ¬ Walk h s dest cur path
Answer h s dest cur panicked = Gap h s (λ n. n == cur)
Answer h s dest cur unfinished = ⊥

answer :
    (h : Heap) (s : Snssai) (dest cur : ℕ) (r : Search)
    → Concluded h s (mark cur (λ _. false)) r
    → VisitSpec h s dest cur (λ _. false) r
    → Answer h s dest cur r
answer h s dest cur (found path) c v = (v.0, v.1)
answer h s dest cur (missed seen) c v = λ path. Done-no_Walk h s dest seen cur path v.3 v.2
answer h s dest cur panicked (a, (b, i, p, e)) v = (a, (b, i, p, ground arith))
answer h s dest cur unfinished c v = elim c [ ]

-- Among `pool` nodes a search from scratch runs to its end. It finds a walk over links to the
-- destination, through UPFs of the slice, that passes no node twice; or it finds none, and then there
-- is none; or it panics, and then some link leads to a node other than the first that has no UPF.
pub get_path_between-Answer :
    (h : Heap) (s : Snssai) (dest cur pool : ℕ)
    → InPool pool h
    → Answer h s dest cur (get_path_between (suc pool) h s dest cur (λ _. false))
get_path_between-Answer h s dest cur pool i =
    answer h s dest cur _ (get_path_between-Concluded h s dest cur pool (λ _. false) i)
      (get_path_between-VisitSpec h s dest (suc pool) cur (λ _. false))
