-- ===== src/Topo/Relink.antt =====
-- InsertUPNodeLinks, and DeleteUPNodeLinks behind it.
use smf_cdac.Base.{
  ℕ, ◌≡◌, ◌≢◌, refl, sym, ◌∙◌, ap, ◌⊎◌, inl, inr, Bool-cases, some, List, [], ◌∷◌, ◌++◌, arith,
  ◌==◌, Option, Outcome, ok, err, panic, All, ◌>>=◌,
}
use mathlib.Core.Path.{subst}
use smf_cdac.Base.Text.{text_eq, text_eq_iff}
use smf_cdac.Base.Dict.{lookup}
use smf_cdac.Topo.Types.{UpNode, Heap}
use smf_cdac.Topo.Select.{UserPlane}
use smf_cdac.Topo.Nodes.{LinkConfig, set_node}
use smf_cdac.Topo.Links.{add_link, insert_up_node_links, remove_link, unlink, delete_up_node_links}

-- The bytes of a node's ID.
abbrev pub id_bytes : Heap → ℕ → List ℕ
id_bytes h n = (h n).node_id.node_id_value

set_node_self : (n : ℕ) (x : UpNode) (h : Heap) → set_node n x h n ≡ x
unfolding set_node
set_node_self n x h = ground arith

set_node_other : (n k : ℕ) (x : UpNode) (h : Heap) → k ≢ n → set_node n x h k ≡ h k
unfolding set_node
set_node_other n k x h ne = ground arith

-- The links of a node, and what else stands on a heap, when the links of one node are set.
abbrev with_links : List ℕ → UpNode → UpNode
with_links ns x = record x { links = ns }

abbrev SameIds : Heap → Heap → Type 0
SameIds h k = (j : ℕ) → id_bytes k j ≡ id_bytes h j

set_links-SameIds :
    (n : ℕ) (ns : List ℕ) (h : Heap) → SameIds h (set_node n (with_links ns (h n)) h)
unfolding set_node
set_links-SameIds n ns h j = ground arith

-- The link at the end is the first that leads to the node ID, and goes.
remove_link-last :
    (h : Heap) (value : List ℕ) (m : ℕ) (ns : List ℕ)
    → All (λ j. id_bytes h j ≢ value) ns
    → id_bytes h m ≡ value
    → remove_link h value (ns ++ (m ∷ [])) ≡ ns
unfolding remove_link
remove_link-last h value m [] a e =
    let w = (text_eq_iff (id_bytes h m) value).1 e in rw (remove_link, w) refl
remove_link-last h value m (n ∷ ns) a e = elim (Bool-cases (text_eq (id_bytes h n) value)) [
  | inl w ↦ absurd (a.0 ((text_eq_iff (id_bytes h n) value).0 w))
  | inr w ↦ rw (remove_link, w) (ap (λ ms. n ∷ ms) (remove_link-last h value m ns a.1 e))
]

-- No link of the node leads to a node with the bytes.
abbrev pub NoneNamed : Heap → List ℕ → ℕ → Type 0
NoneNamed h value n = All (λ j. id_bytes h j ≢ value) (h n).links

SameIds-All :
    (h k : Heap) (value : List ℕ) (ns : List ℕ)
    → SameIds h k
    → All (λ j. id_bytes h j ≢ value) ns
    → All (λ j. id_bytes k j ≢ value) ns
SameIds-All h k value [] s a = tt
SameIds-All h k value (j ∷ ns) s a = (λ e. a.0 (sym (s j) ∙ e), SameIds-All h k value ns s a.1)

-- Two nodes are linked, each behind the links it had, and every other node is as it was.
abbrev pub Linked : ℕ → ℕ → Heap → Heap → Type 0
Linked n m h k =
    (k n ≡ with_links ((h n).links ++ (m ∷ [])) (h n))
    × (k m ≡ with_links ((h m).links ++ (n ∷ [])) (h m))
    × ((j : ℕ) → (j ≡ n) ⊎ ((j ≡ m) ⊎ (k j ≡ h j)))

add_links-Linked : (n m : ℕ) (h : Heap) → n ≢ m → Linked n m h (add_link m n (add_link n m h))
unfolding add_link set_node
add_links-Linked n m h ne = (ground arith, ground arith, λ j. ground arith)

add_links-SameIds : (n m : ℕ) (h : Heap) → SameIds h (add_link m n (add_link n m h))
unfolding add_link
add_links-SameIds n m h j = set_links-SameIds m _ (add_link n m h) j ∙ set_links-SameIds n _ h j

-- One of the two loops, where the link stands last.
unlink-last :
    (n m : ℕ) (ns : List ℕ) (h : Heap)
    → (h n).links ≡ ns ++ (m ∷ [])
    → All (λ j. id_bytes h j ≢ id_bytes h m) ns
    → unlink (some n) (some m) h ≡ ok (set_node n (with_links ns (h n)) h)
unfolding unlink
unlink-last n m ns h e a =
    let gone = remove_link-last h (id_bytes h m) m ns a refl in
    ap (λ ms. ok (set_node n (with_links ms (h n)) h)) (ap (remove_link h (id_bytes h m)) e ∙ gone)

restored :
    (n m : ℕ) (h k : Heap)
    → n ≢ m
    → Linked n m h k
    → (j : ℕ)
    → set_node m
        (with_links (h m).links (set_node n (with_links (h n).links (k n)) k m))
        (set_node n (with_links (h n).links (k n)) k)
        j
      ≡ h j
restored n m h k ne (at_n, at_m, others) j =
    let x = with_links (h n).links (k n) in
    let k1 = set_node n x k in
    let y = with_links (h m).links (k1 m) in
    let kept = set_node_other n m x k (λ e. ne (sym e)) ∙ at_m in
    elim (Bool-cases (j == m)) [
      | inl w ↦
          let e : j ≡ m = ground arith in
          ap (set_node m y k1) e
          ∙ set_node_self m y k1
          ∙ ap (with_links (h m).links) kept
          ∙ sym (ap h e)
      | inr w ↦
          let ne_m : j ≢ m = ground arith in
          set_node_other m j y k1 ne_m ∙ elim (Bool-cases (j == n)) [
            | inl v ↦
                let e : j ≡ n = ground arith in
                ap k1 e ∙ set_node_self n x k ∙ ap (with_links (h n).links) at_n ∙ sym (ap h e)
            | inr v ↦
                let ne_n : j ≢ n = ground arith in
                set_node_other n j x k ne_n ∙ elim (others j) [
                  | inl e ↦ absurd (ne_n e)
                  | inr (inl e) ↦ absurd (ne_m e)
                  | inr (inr e) ↦ e
                ]
          ]
    ]

-- Both loops of DeleteUPNodeLinks, on a heap where the links stand last.
unlinked :
    (n m : ℕ) (h k : Heap)
    → n ≢ m
    → Linked n m h k
    → SameIds h k
    → NoneNamed h (id_bytes h m) n
    → NoneNamed h (id_bytes h n) m
    → (unlink (some n) (some m) k >>= unlink (some m) (some n)) ≡ ok h
unlinked n m h k ne linked s a b =
    let (at_n, at_m, others) = linked in
    let x = with_links (h n).links (k n) in
    let k1 = set_node n x k in
    let s1 : SameIds h k1 = λ j. set_links-SameIds n (h n).links k j ∙ s j in
    let first = unlink-last n m (h n).links k (ap (λ (z : UpNode). z.links) at_n) (
      subst (λ v. All (λ j. id_bytes k j ≢ v) (h n).links) (sym (s m))
        (SameIds-All h k (id_bytes h m) (h n).links s a)) in
    let kept = set_node_other n m x k (λ e. ne (sym e)) ∙ at_m in
    let second = unlink-last m n (h m).links k1 (ap (λ (z : UpNode). z.links) kept) (
      subst (λ v. All (λ j. id_bytes k1 j ≢ v) (h m).links) (sym (s1 n))
        (SameIds-All h k1 (id_bytes h n) (h m).links s1 b)) in
    ap (λ o. o >>= unlink (some m) (some n)) first
    ∙ second
    ∙ ap ok (λ i j. restored n m h k ne linked j i)

bind_twice :
    {A B C : Type 0} (r : Outcome A) (f : A → Outcome B) (g : B → Outcome C)
    → (r >>= λ x. f x >>= g) ≡ ((r >>= f) >>= g)
bind_twice (ok x) f g = refl
bind_twice err f g = refl
bind_twice panic f g = refl

-- DeleteUPNodeLinks of names that lead to nodes.
delete_known :
    (l : LinkConfig) (n m : ℕ) (u : UserPlane) (k : Heap)
    → lookup l.a u.up_nodes ≡ some n
    → lookup l.b u.up_nodes ≡ some m
    → delete_up_node_links l (record u { heap = k }) ≡ (
        unlink (some n) (some m) k >>= λ x.
        unlink (some m) (some n) x >>= λ y. ok (record u { heap = y }))
unfolding delete_up_node_links
delete_known l n m u k p q =
    let both : Option ℕ → Option ℕ → Outcome UserPlane =
      λ a b. unlink a b k >>= λ x. unlink b a x >>= λ y. ok (record u { heap = y }) in
    ap (λ a. both a (lookup l.b u.up_nodes)) p ∙ ap (both (some n)) q

-- Where two names in UPNodes lead to different nodes, neither of which has a link to a node with the
-- other's node ID bytes, InsertUPNodeLinks returns: each of the two nodes is linked to the other behind
-- the links it had, and nothing else of the topology changes. DeleteUPNodeLinks of the same two names
-- then gives back the topology as it was.
pub insert_up_node_links-delete :
    (l : LinkConfig) (u : UserPlane) (n m : ℕ)
    → lookup l.a u.up_nodes ≡ some n
    → lookup l.b u.up_nodes ≡ some m
    → n ≢ m
    → NoneNamed u.heap (id_bytes u.heap m) n
    → NoneNamed u.heap (id_bytes u.heap n) m
    → (k : Heap) × (insert_up_node_links l u ≡ ok (record u { heap = k }))
      × Linked n m u.heap k
      × (delete_up_node_links l (record u { heap = k }) ≡ ok u)
unfolding insert_up_node_links delete_up_node_links
insert_up_node_links-delete l u n m p q ne a b =
    let h = u.heap in
    let k = add_link m n (add_link n m h) in
    let linked = add_links-Linked n m h ne in
    let plane : Heap → Outcome UserPlane = λ x. ok (record u { heap = x }) in
    let back = unlinked n m h k ne linked (add_links-SameIds n m h) a b in
    (
      k,
      rw (insert_up_node_links, p, q) refl,
      linked,
      delete_known l n m u k p q
          ∙ bind_twice (unlink (some n) (some m) k) (unlink (some m) (some n)) plane
          ∙ ap (λ o. o >>= plane) back,
    )
