-- ===== src/Paths/Passes.antt =====
-- The loops over a data path as passes over the list of its nodes, for rounds that leave the links of
-- the nodes alone.
use smf_cdac.Base.{
  ℕ, zero, suc, ◌<◌, ◌≡◌, ◌≢◌, refl, sym, ◌∙◌, Option, none, some, List, [], ◌∷◌, arith, Outcome,
  ok, err, panic, length, All,
}
use mathlib.Core.Path.{subst}
use smf_cdac.Upf.Ids.{IdGenerator}
use smf_cdac.Paths.Nodes.{DpNode, NodeHeap, next_node}
use smf_cdac.Paths.Tunnels.{PathState}
use smf_cdac.Paths.Steps.{Act, after, along}

-- The nodes from `o` on over Next, to the end.
abbrev pub Along : NodeHeap → Option ℕ → List ℕ → Type 0
Along h o [] = o ≡ none
Along h o (n ∷ ns) = (o ≡ some n) × Along h (next_node h n) ns

abbrev pub Distinct : List ℕ → Type 0
Distinct [] = Unit
Distinct (n ∷ ns) = All (λ m. n ≢ m) ns × Distinct ns

-- What no step of an activation changes of a node: its UPF, its links, the TEIDs of its tunnels, and
-- that its uplink ends at it, once it does.
pub record SameNode (n : ℕ) (x y : DpNode) : Type 0 where
  pub upf : y.upf ≡ x.upf
  pub next : y.down_link_tunnel.src_end_point ≡ x.down_link_tunnel.src_end_point
  pub prev : y.up_link_tunnel.src_end_point ≡ x.up_link_tunnel.src_end_point
  pub up_teid : y.up_link_tunnel.teid ≡ x.up_link_tunnel.teid
  pub down_teid : y.down_link_tunnel.teid ≡ x.down_link_tunnel.teid
  pub ends : x.up_link_tunnel.dest_end_point ≡ some n → y.up_link_tunnel.dest_end_point ≡ some n

pub SameNode-refl : (n : ℕ) (x : DpNode) → SameNode n x x
SameNode-refl n x = record {
  upf = refl;
  next = refl;
  prev = refl;
  up_teid = refl;
  down_teid = refl;
  ends = λ e. e;
}

SameNode-trans : {n : ℕ} {x y z : DpNode} → SameNode n x y → SameNode n y z → SameNode n x z
SameNode-trans a b = record {
  upf = b.upf ∙ a.upf;
  next = b.next ∙ a.next;
  prev = b.prev ∙ a.prev;
  up_teid = b.up_teid ∙ a.up_teid;
  down_teid = b.down_teid ∙ a.down_teid;
  ends = λ e. b.ends (a.ends e);
}

pub record Shape (h k : NodeHeap) : Type 0 where
  pub at : (n : ℕ) → SameNode n (h n) (k n)

pub Shape-refl : (h : NodeHeap) → Shape h h
Shape-refl h = record { at = λ n. SameNode-refl n (h n) }

pub Shape-trans : {h k l : NodeHeap} → Shape h k → Shape k l → Shape h l
Shape-trans a b = record { at = λ n. SameNode-trans (a.at n) (b.at n) }

module _ {g : IdGenerator} where
  -- A step that keeps the shape, from wherever it starts.
  abbrev pub Keeps : {A : Type 0} → Act g A → Type 0
  Keeps f = (s : PathState g) → Shape s.nodes (f s).0.nodes

  -- A relation of the nodes before and behind that holds of two steps holds of both in a row.
  pub rel-after :
      {A B : Type 0} (R : NodeHeap → NodeHeap → Type 0)
      → ((h k l : NodeHeap) → R h k → R k l → R h l)
      → (s : PathState g) (r : PathState g × Outcome A) (f : A → Act g B) → R s.nodes r.0.nodes
      → ((a : A) (t : PathState g) → R t.nodes (f a t).0.nodes)
      → R s.nodes (after r f).0.nodes
  rel-after R join s (t, ok a) f k rest = join s.nodes t.nodes (f a t).0.nodes k (rest a t)
  rel-after R join s (t, err) f k rest = k
  rel-after R join s (t, panic) f k rest = k

  pub Shape-after :
      {A B : Type 0} (s : PathState g) (r : PathState g × Outcome A) (f : A → Act g B)
      → Shape s.nodes r.0.nodes
      → ((a : A) → Keeps (f a))
      → Shape s.nodes (after r f).0.nodes
  Shape-after = rel-after Shape (λ h k l a b. Shape-trans a b)

  -- What a step that returned did before the rest of the code.
  pub after-returned :
      {A B : Type 0} (r : PathState g × Outcome A) (f : A → Act g B) (t : PathState g) (b : B)
      → after r f ≡ (t, ok b)
      → (a : A) × (s : PathState g) × (r ≡ (s, ok a)) × (f a s ≡ (t, ok b))
  after-returned (s, ok a) f t b e = (a, s, refl, e)
  after-returned (s, err) f t b e = cc
  after-returned (s, panic) f t b e = cc

  -- The rounds at the nodes of a list, in order.
  unfoldable pub visit : (ℕ → Act g (Unit {0})) → List ℕ → Act g (Unit {0})
  visit body [] s = (s, ok tt)
  visit body (n ∷ ns) s = after (body n s) (λ done. visit body ns)

  pub Along-Shape :
      (s t : PathState g) (o : Option ℕ) (ns : List ℕ)
      → Shape s.nodes t.nodes
      → Along s.nodes o ns
      → Along t.nodes o ns
  unfolding next_node
  Along-Shape s t o [] k a = a
  Along-Shape s t o (n ∷ ns) k a =
      let same = (k.at n).next in
      let on_s = Along-Shape s t (next_node s.nodes n) ns k a.1 in
      (a.0, subst (λ (p : Option ℕ). Along t.nodes p ns) (sym same) on_s)

  pub Shape-visit :
      (body : ℕ → Act g (Unit {0})) (ns : List ℕ) (s : PathState g)
      → ((n : ℕ) → Keeps (body n))
      → Shape s.nodes (visit body ns s).0.nodes
  unfolding visit
  Shape-visit body [] s k = Shape-refl s.nodes
  Shape-visit body (n ∷ ns) s k =
      Shape-after s (body n s) (λ done. visit body ns) (k n s) (λ a t. Shape-visit body ns t k)

  -- A loop over a data path, on fuel above the number of its nodes, is the pass over them.
  pub along-visit :
      (body : ℕ → Act g (Unit {0})) (fuel : ℕ) (o : Option ℕ) (ns : List ℕ) (s : PathState g)
      → ((n : ℕ) → Keeps (body n))
      → Along s.nodes o ns
      → length ns < fuel
      → along g fuel body o s ≡ visit body ns s
  unfolding along visit
  along-visit body zero o ns s k a l = absurd (omega arith)
  along-visit body (suc fuel) o [] s k a l = rw a refl
  along-visit body (suc fuel) o (n ∷ ns) s k a l = rw a.0 (
      by_round (body n s) ((k n) s) λ t q.
        along-visit body fuel (next_node t.nodes n) ns t k
          (Along-Shape s t (some n) (n ∷ ns) q (refl, a.1)).1 (omega arith))
    where
      by_round :
          (r : PathState g × Outcome (Unit {0}))
          → Shape s.nodes r.0.nodes
          → ((t : PathState g)
              → Shape s.nodes t.nodes
              → along g fuel body (next_node t.nodes n) t ≡ visit body ns t)
          → after r (λ done t. along g fuel body (next_node t.nodes n) t)
            ≡ after r (λ done. visit body ns)
      by_round (t, ok d) q rest = rest t q
      by_round (t, err) q rest = refl
      by_round (t, panic) q rest = refl
