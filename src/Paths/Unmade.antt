-- ===== src/Paths/Unmade.antt =====
-- The tunnels of a pre-configured data path, and ActivateUpLinkTunnel at its first node.
use smf_cdac.Base.{
  ℕ, suc, ◌≡◌, refl, sym, ◌∙◌, ap, inl, inr, true, false, Bool, Option, none, some, List, [], ◌∷◌,
  arith, Outcome, ok, err, panic, >>=-returned, ok-injective, All, Option-cases,
}
use mathlib.Core.Path.{subst}
use mathlib.Core.List.{Memᴰ}
use mathlib.Core.List.Memᴰ.{head, tail}
use smf_cdac.Base.Text.{Text}
use smf_cdac.Base.Dict.{Dict}
use smf_cdac.Qos.Types.{PccRule, PointerMap}
use smf_cdac.Qos.Rules.{RulesUpdate}
use smf_cdac.Qos.Policy.{PolicyUpdate}
use smf_cdac.Upf.Ids.{IdGenerator}
use smf_cdac.Upf.Rules.{Upf, Pdr, Qer, add_pdr, add_qer, build_create_pdr_from_pcc_rule}
use smf_cdac.Paths.Nodes.{DpNode, NodeHeap, set_node}
use smf_cdac.Paths.Tunnels.{PathState, set_upf}
use smf_cdac.Paths.Steps.{PathEnv, PathSession, after, logged, lift, ◌>>=◌, on_upf, put_node}
use smf_cdac.Paths.Rates.{first_update}
use smf_cdac.Paths.Install.{
  default_name, first_ref, with_qer, qer_or_same, install, install_rules, install_rule, put_up,
  activate_up_link_tunnel, ends_up,
}
use smf_cdac.Paths.Qers.{create_pcc_rule_qer}
use smf_cdac.Paths.Passes.{rel-after}
use smf_cdac.Paths.Refused.{after_panic}
use smf_cdac.Paths.PreConfig.{
  PathConfig, UeDataPath, new_ue_data_path_node, link_parent, ue_nodes, first_of, ue_paths,
  new_ue_pre_config_paths,
}

abbrev SameHeap : NodeHeap → NodeHeap → Type 0
SameHeap h k = k ≡ h

SameHeap-join : (h k l : NodeHeap) → SameHeap h k → SameHeap k l → SameHeap h l
SameHeap-join h k l a b = b ∙ a

abbrev Unmade : ℕ → NodeHeap → Type 0
Unmade n h = (h n).up_link_tunnel.made ≡ false

module _ (g : IdGenerator) (e : PathEnv) (c : PathSession) where
  -- The first PDR that the update asks for can be built.
  abbrev pub Builds : ℕ → PathState g → Option (RulesUpdate PccRule) → Type 0
  Builds u s none = (v : Upf g) × (p : Pdr) × (add_pdr g (s.upfs u) ≡ (v, ok p))
  Builds u s (some update) =
      (name : Text) × (r : PccRule) × (rules : PointerMap PccRule) × (update.add
        ≡ (name, some r) ∷ rules)
      × ((v : Upf g) × (p : Pdr) × (build_create_pdr_from_pcc_rule g r (s.upfs u) ≡ (v, ok p)))

  put_up-panics :
      (n : ℕ) (name : Text) (p : Pdr) (s : PathState g)
      → Unmade n s.nodes
      → (put_up g e n name p s).1 ≡ panic
  unfolding put_up
  put_up-panics n name p s q = rw (put_up, q) refl

  -- A step that returns an Unmade state where it returns, and no error.
  abbrev Leaves : {A : Type 0} → ℕ → PathState g × Outcome A → Type 0
  Leaves n (s, ok a) = Unmade n s.nodes
  Leaves n (s, err) = ⊥
  Leaves n (s, panic) = Unit

  put_behind :
      (n : ℕ) (name : Text) (r : PathState g × Outcome Pdr)
      → Leaves n r
      → (after r (put_up g e n name)).1 ≡ panic
  put_behind n name (s, ok p) q = put_up-panics n name p s q
  put_behind n name (s, err) q = absurd q
  put_behind n name (s, panic) q = refl

  create_pcc_rule_qer-nodes :
      (u : ℕ) (q t : Text) (s : PathState g) → (create_pcc_rule_qer g e c u q t s).0.nodes ≡ s.nodes
  unfolding create_pcc_rule_qer
  create_pcc_rule_qer-nodes u q t s =
      rel-after SameHeap SameHeap-join s (s, first_update c) _ refl
        λ p v. rel-after SameHeap SameHeap-join v (on_upf g u (add_qer g) v) _ refl λ m w. refl

  qer_or_same-Leaves :
      (n : ℕ) (p : Pdr) (s : PathState g) (r : PathState g × Outcome Qer)
      → Unmade n s.nodes
      → SameHeap s.nodes r.0.nodes
      → Leaves n (qer_or_same g e p r)
  qer_or_same-Leaves n p s (t, ok q) k w = rw w k
  qer_or_same-Leaves n p s (t, err) k w = rw w k
  qer_or_same-Leaves n p s (t, panic) k w = tt

  with_qer-Leaves :
      (n u : ℕ) (r : PccRule) (p : Pdr) (s : PathState g)
      → Unmade n s.nodes
      → Leaves n (with_qer g e c u r p s)
  unfolding with_qer
  with_qer-Leaves n u r p s k =
      let make =
        λ (q : Text). lift (first_ref r.ref_tc_data) >>= λ t. create_pcc_rule_qer g e c u q t in
      qer_or_same-Leaves n p s (after (s, first_ref r.ref_qos_data) make) k (
        rel-after SameHeap SameHeap-join s (s, first_ref r.ref_qos_data) make refl
          λ q v.
            rel-after SameHeap SameHeap-join v (v, first_ref r.ref_tc_data)
              (create_pcc_rule_qer g e c u q) refl (create_pcc_rule_qer-nodes u q))

  logged_panic : (r : PathState g × Outcome (Unit {0})) → r.1 ≡ panic → (logged r).1 ≡ panic
  logged_panic (s, ok a) q = q
  logged_panic (s, err) q = cc
  logged_panic (s, panic) q = refl

  install-panics :
      (n u : ℕ) (o : Option (RulesUpdate PccRule)) (s : PathState g)
      → Unmade n s.nodes
      → Builds u s o
      → (install g e (put_up g e n) c u o s).1 ≡ panic
  unfolding install install_rules install_rule
  install-panics n u none s k (v, p, b) = rw b (put_up-panics n default_name p (set_upf g u v s) k)
  install-panics n u (some update) s k (name, r, rules, q, (v, p, b)) =
      let t = set_upf g u v s in
      let built = put_behind n name (with_qer g e c u r p t) (with_qer-Leaves n u r p t k) in
      let rest =
        λ (made : Pdr) (w : PathState g). after (with_qer g e c u r made w) (put_up g e n name) in
      let round : (install_rule g e (put_up g e n) c u name r s).1 ≡ panic =
        subst
          (λ (x : Upf g × Outcome Pdr). (logged (after (set_upf g u x.0 s, x.1) rest)).1 ≡ panic)
          (sym b) (logged_panic (after (with_qer g e c u r p t) (put_up g e n name)) built) in
      rw q (after_panic g e c (install_rule g e (put_up g e n) c u name r s) _ round)

  activate_up_link_tunnel-panics :
      (n : ℕ) (s : PathState g) (p : PolicyUpdate)
      → Unmade n s.nodes
      → first_update c ≡ ok p
      → Builds (s.nodes n).upf s p.pcc_rule_update
      → (activate_up_link_tunnel g e c n s).1 ≡ panic
  unfolding activate_up_link_tunnel
  activate_up_link_tunnel-panics n s p k f b =
      let t = put_node g n (ends_up g e n (s.nodes n)) s in
      let at_n : Unmade n t.nodes = ground arith in
      rw f (
        after_panic g e c (install g e (put_up g e n) c (s.nodes n).upf p.pcc_rule_update t) _
          (install-panics n (s.nodes n).upf p.pcc_rule_update t at_n b))

-- The nodes of the paths that are configured for a UE.
set_node-Unmade :
    (n m : ℕ) (x : DpNode) (h : NodeHeap)
    → Unmade n h
    → x.up_link_tunnel.made ≡ false
    → Unmade n (set_node m x h)
set_node-Unmade n m x h k q = ground arith

link_parent-Unmade :
    (n : ℕ) (parent : Option ℕ) (m : ℕ) (h : NodeHeap)
    → Unmade n h
    → Unmade n (link_parent parent m h)
unfolding link_parent
link_parent-Unmade n none m h k = k
link_parent-Unmade n (some p) m h k = ground arith

new_ue_data_path_node-Unmade :
    (up_nodes : Dict ℕ) (name : Text) (x : DpNode)
    → new_ue_data_path_node up_nodes name ≡ ok x
    → x.up_link_tunnel.made ≡ false
unfolding new_ue_data_path_node
new_ue_data_path_node-Unmade up_nodes name x q = ground arith

ue_nodes-Unmade :
    (up_nodes : Dict ℕ) (parent : Option ℕ) (names : List Text) (next : ℕ) (h : NodeHeap)
    (made : ℕ × NodeHeap)
    → ue_nodes up_nodes parent names next h ≡ ok made
    → ((n : ℕ) → Unmade n h → Unmade n made.1)
      × ((n : ℕ) → first_of names next ≡ some n → Unmade n made.1)
unfolding ue_nodes
ue_nodes-Unmade up_nodes parent [] next h made q =
    let same = ok-injective q in
    (
      λ n k. let w = ap (λ (x : ℕ × NodeHeap). (x.1 n).up_link_tunnel.made) same in sym w ∙ k,
      λ n k. cc,
    )
ue_nodes-Unmade up_nodes parent (name ∷ names) next h made q =
    let (x, e1, q1) = >>=-returned (new_ue_data_path_node up_nodes name) _ made q in
    let bare = new_ue_data_path_node-Unmade up_nodes name x e1 in
    let put = set_node next x h in
    let rest =
      ue_nodes-Unmade up_nodes (some next) names (suc next) (link_parent parent next put) made q1 in
    let kept = λ (n : ℕ) (k : Unmade n put). rest.0 n (link_parent-Unmade n parent next put k) in
    (
      λ n k. kept n (set_node-Unmade n next x h k bare),
      λ n k. let w : next ≡ n = cc in kept n (subst (λ m. Unmade m put) w (ground arith)),
    )

-- The first node of every path of the pool has an uplink whose map was never made.
abbrev FirstUnmade : NodeHeap → List UeDataPath → Type 0
FirstUnmade h ps = All (λ (p : UeDataPath). (n : ℕ) → p.first_dp_node ≡ some n → Unmade n h) ps

ue_paths-Unmade :
    (g : IdGenerator) (up_nodes : Dict ℕ) (ps : List PathConfig) (is_first : Bool) (ids : g.State)
    (next : ℕ) (h : NodeHeap) (made : List UeDataPath × NodeHeap)
    → ue_paths g up_nodes ps is_first ids next h ≡ ok made
    → ((n : ℕ) → Unmade n h → Unmade n made.1) × FirstUnmade made.1 made.0
unfolding ue_paths
ue_paths-Unmade g up_nodes [] is_first ids next h made q =
    subst
      (λ (x : List UeDataPath × NodeHeap).
        ((n : ℕ) → Unmade n h → Unmade n x.1) × FirstUnmade x.1 x.0)
      (ok-injective q) (λ n k. k, tt)
ue_paths-Unmade g up_nodes (p ∷ ps) is_first ids next h made q =
    elim (Option-cases (g.allocate ids)) [
      | inl w ↦ let z = rw (ue_paths, w) at q in cc
      | inr ((id, more), w) ↦
          let (nodes, e1, q1) =
            >>=-returned (ue_nodes up_nodes none p.upf next h) _ made (rw (ue_paths, w) at q) in
          let (rest, e2, q2) =
            >>=-returned (ue_paths g up_nodes ps false more nodes.0 nodes.1) _ made q1 in
          let own = ue_nodes-Unmade up_nodes none p.upf next h nodes e1 in
          let others = ue_paths-Unmade g up_nodes ps false more nodes.0 nodes.1 rest e2 in
          subst
            (λ (x : List UeDataPath × NodeHeap).
              ((n : ℕ) → Unmade n h → Unmade n x.1) × FirstUnmade x.1 x.0)
            (ok-injective q2)
            (λ n k. others.0 n (own.0 n k), (λ n k. others.0 n (own.1 n k), others.1))
    ]

-- A data path that NewUEPreConfigPaths makes is never activated: wherever the first policy update asks
-- for a PDR that its first node's UPF can build, ActivateUpLinkTunnel panics at that node, for it
-- assigns to a map that was never made.
pub new_ue_pre_config_paths-Panics :
    (g : IdGenerator) (e : PathEnv) (c : PathSession) (up_nodes : Dict ℕ) (ps : List PathConfig)
    (ids : g.State) (next : ℕ) (h : NodeHeap) (paths : List UeDataPath) (s : PathState g)
    (p : PolicyUpdate) (d : UeDataPath) (n : ℕ)
    → new_ue_pre_config_paths g up_nodes ps ids next h ≡ ok (paths, s.nodes)
    → first_update c ≡ ok p
    → Memᴰ d paths
    → d.first_dp_node ≡ some n
    → Builds g e c (s.nodes n).upf s p.pcc_rule_update
    → (activate_up_link_tunnel g e c n s).1 ≡ panic
unfolding new_ue_pre_config_paths
new_ue_pre_config_paths-Panics g e c up_nodes ps ids next h paths s p d n q f m w b =
    activate_up_link_tunnel-panics g e c n s p (each paths all m w) f b
  where
    all : FirstUnmade s.nodes paths
    all = (ue_paths-Unmade g up_nodes ps true ids next h (paths, s.nodes) q).1

    each :
        (ds : List UeDataPath)
        → FirstUnmade s.nodes ds
        → Memᴰ d ds
        → d.first_dp_node ≡ some n
        → Unmade n s.nodes
    each [] k m w = elim m [ ]
    each (a ∷ ds) k (head e) w = k.0 n (ap (λ (x : UeDataPath). x.first_dp_node) (sym e) ∙ w)
    each (a ∷ ds) k (tail m) w = each ds k.1 m w
