-- ===== src/Paths/Chains.antt =====
-- GenerateDataPath links one node for each UPF of the path, in order and both ways.
use smf_cdac.Base.{
  ℕ, zero, suc, ◌<◌, ◌≡◌, ◌≢◌, refl, ◌∙◌, ap, Option, none, some, List, [], ◌∷◌, arith, length,
}
use smf_cdac.Paths.Nodes.{
  DpNode, NodeHeap, new_data_path_node, set_node, with_next, with_prev, add_next, add_prev,
  next_node, prev_node, link_back, mark_first, mark_last, generate_nodes, generate_data_path,
  upfs_along,
}

-- The node that follows on `n`, where there are more UPFs.
abbrev pub follower : ℕ → List ℕ → Option ℕ
follower n [] = none
follower n (u ∷ us) = some (suc n)

-- From `n` on there is a node for each UPF, linked to the next and to the one before it.
abbrev pub Chain : NodeHeap → Option ℕ → ℕ → List ℕ → Type 0
Chain h prev n [] = Unit
Chain h prev n (u ∷ us) =
    ((h n).upf ≡ u)
    × (prev_node h n ≡ prev)
    × (next_node h n ≡ follower n us)
    × Chain h (some n) (suc n) us

-- One round of the loop.
abbrev placed : Option ℕ → ℕ → List ℕ → ℕ → NodeHeap → NodeHeap
placed prev u us next h =
    link_back prev next
      (mark_last us next (mark_first prev next (set_node next (new_data_path_node u) h)))

placed-frame :
    (prev : Option ℕ) (u : ℕ) (us : List ℕ) (next m : ℕ) (h : NodeHeap)
    → m ≢ next
    → prev ≢ some m
    → placed prev u us next h m ≡ h m
unfolding link_back mark_first mark_last add_next add_prev
placed-frame none u [] next m h l ne = ground arith
placed-frame none u (v ∷ vs) next m h l ne = ground arith
placed-frame (some p) u [] next m h l ne = let other : p ≢ m = (λ e. ne (ap some e)) in ground arith
placed-frame (some p) u (v ∷ vs) next m h l ne =
    let other : p ≢ m = (λ e. ne (ap some e)) in ground arith

placed-new :
    (prev : Option ℕ) (u : ℕ) (us : List ℕ) (next : ℕ) (h : NodeHeap)
    → prev ≢ some next
    → placed prev u us next h next ≡ with_prev prev (new_data_path_node u)
unfolding link_back mark_first mark_last add_next add_prev
placed-new none u [] next h ne = ground arith
placed-new none u (v ∷ vs) next h ne = ground arith
placed-new (some p) u [] next h ne = let other : p ≢ next = (λ e. ne (ap some e)) in ground arith
placed-new (some p) u (v ∷ vs) next h ne =
    let other : p ≢ next = (λ e. ne (ap some e)) in ground arith

placed-before :
    (p u : ℕ) (us : List ℕ) (next : ℕ) (h : NodeHeap)
    → p ≢ next
    → placed (some p) u us next h p ≡ with_next (some next) (h p)
unfolding link_back mark_first mark_last add_next add_prev
placed-before p u [] next h ne = ground arith
placed-before p u (v ∷ vs) next h ne = ground arith

-- A node that the loop has left behind is not touched again.
generate_nodes-frame :
    (prev : Option ℕ) (us : List ℕ) (next m : ℕ) (h : NodeHeap)
    → m < next
    → prev ≢ some m
    → generate_nodes prev us next h m ≡ h m
unfolding generate_nodes
generate_nodes-frame prev [] next m h l ne = refl
generate_nodes-frame prev (u ∷ us) next m h l ne =
    generate_nodes-frame (some next) us (suc next) m (placed prev u us next h) (omega arith)
      (λ e. let same : next ≡ m = cc in absurd (omega arith))
    ∙ placed-frame prev u us next m h (omega arith) ne

-- The node that the loop comes from gets its follower.
generate_nodes-before :
    (prev : Option ℕ) (u p : ℕ) (us : List ℕ) (h : NodeHeap)
    → h p ≡ with_prev prev (new_data_path_node u)
    → (generate_nodes (some p) us (suc p) h p
        ≡ with_next (follower p us) (with_prev prev (new_data_path_node u)))
unfolding generate_nodes
generate_nodes-before prev u p [] h e = e
generate_nodes-before prev u p (v ∷ vs) h e =
    generate_nodes-frame (some (suc p)) vs (suc (suc p)) p (placed (some p) v vs (suc p) h)
      (omega arith) (λ q. let same : suc p ≡ p = cc in absurd (omega arith))
    ∙ (placed-before p v vs (suc p) h (omega arith) ∙ ap (with_next (some (suc p))) e)

generate_nodes-Chain :
    (prev : Option ℕ) (us : List ℕ) (next : ℕ) (h : NodeHeap)
    → prev ≢ some next
    → ((k : ℕ) → next < k → prev ≢ some k)
    → Chain (generate_nodes prev us next h) prev next us
unfolding generate_nodes next_node prev_node
generate_nodes-Chain prev [] next h ne far = tt
generate_nodes-Chain prev (u ∷ us) next h ne far =
    let new = placed prev u us next h in
    let here = generate_nodes-before prev u next us new (placed-new prev u us next h ne) in
    (
      ap (λ (x : DpNode). x.upf) here,
      ap (λ (x : DpNode). x.up_link_tunnel.src_end_point) here,
      ap (λ (x : DpNode). x.down_link_tunnel.src_end_point) here,
      generate_nodes-Chain (some next) us (suc next) new
          (λ e. let same : next ≡ suc next = cc in absurd (omega arith))
          (λ k l e. let same : next ≡ k = cc in absurd (omega arith)),
    )

upfs_along-next :
    (fuel : ℕ) (h : NodeHeap) (n u : ℕ) (o : Option ℕ)
    → (h n).upf ≡ u
    → next_node h n ≡ o
    → upfs_along (suc fuel) h (some n) ≡ u ∷ upfs_along fuel h o
unfolding upfs_along
upfs_along-next fuel h n u o e q = rw (e, q) refl

upfs_along-none : (fuel : ℕ) (h : NodeHeap) → upfs_along fuel h none ≡ []
unfolding upfs_along
upfs_along-none zero h = refl
upfs_along-none (suc fuel) h = refl

Chain-upfs_along :
    (h : NodeHeap) (prev : Option ℕ) (n u : ℕ) (us : List ℕ) (fuel : ℕ)
    → length us < fuel
    → Chain h prev n (u ∷ us)
    → upfs_along fuel h (some n) ≡ u ∷ us
Chain-upfs_along h prev n u us zero l c = absurd (omega arith)
Chain-upfs_along h prev n u [] (suc fuel) l c =
    upfs_along-next fuel h n u none c.0 c.2 ∙ ap (◌∷◌ u) (upfs_along-none fuel h)
Chain-upfs_along h prev n u (v ∷ vs) (suc fuel) l c =
    upfs_along-next fuel h n u (some (suc n)) c.0 c.2
    ∙ ap (◌∷◌ u) (Chain-upfs_along h (some n) (suc n) v vs fuel (omega arith) c.3)

-- GenerateDataPath makes of a path with a UPF at least a doubly linked list: from its first node on
-- there is a node for each UPF of the path, in order, which Next links to the node behind it, the last
-- to none, and Prev to the node before it, the first to none. The loops over the data path, which go by
-- Next, visit exactly these UPFs, in order, and end, on any fuel that is enough for one round each.
pub generate_data_path-Chain :
    (u : ℕ) (us : List ℕ) (next : ℕ) (h : NodeHeap) (fuel : ℕ)
    → length us < fuel
    → let made = generate_data_path (u ∷ us) next h in
      (made.0 ≡ some next)
      × Chain made.1 none next (u ∷ us)
      × (upfs_along fuel made.1 made.0 ≡ u ∷ us)
unfolding generate_data_path
generate_data_path-Chain u us next h fuel l =
    let c = generate_nodes-Chain none (u ∷ us) next h (λ e. cc) (λ k l e. cc) in
    (refl, c, Chain-upfs_along (generate_nodes none (u ∷ us) next h) none next u us fuel l c)
