-- ===== src/Paths/Untouched.antt =====
-- What the last loop of ActivateTunnelAndPDR leaves alone at a node: links, UPFs and TEIDs, and every
-- uplink tunnel but the node's own.
use smf_cdac.Base.{
  ℕ, ◌≡◌, refl, ◌∙◌, inl, inr, Option, none, some, [], ◌∷◌, arith, Outcome, ok, err, panic,
  Option-cases, List,
}
use smf_cdac.Base.Text.{Text}
use smf_cdac.Base.Dict.{Dict, lookup, insert}
use smf_cdac.Upf.Ids.{IdGenerator}
use smf_cdac.Upf.Types.{UeIpAddress}
use smf_cdac.Upf.Rules.{Qer, Pdr, add_qer}
use smf_cdac.Paths.Nodes.{NodeHeap, prev_node, next_node, is_anchor_upf}
use smf_cdac.Paths.Tunnels.{PathState}
use smf_cdac.Paths.Steps.{PathEnv, PathSession, logged, on_upf, with_down_pdrs, ue_ip_address}
use smf_cdac.Paths.Rates.{first_update, default_qos_data}
use smf_cdac.Paths.Qers.{create_sess_rule_qer}
use smf_cdac.Paths.Install.{default_name}
use smf_cdac.Paths.Forward.{attach, activate_up_link_pdr}
use smf_cdac.Paths.Activate.{anchor_at, anchored, activate_pdrs_at}
use smf_cdac.Paths.Downlink.{
  set_an, forward_to_an, down_pdr, down_link_pdr, down_link_pdrs, activate_dl_link_pdr,
}
use smf_cdac.Paths.Passes.{Shape, Shape-refl, Shape-trans, Keeps, rel-after, Shape-after}
use smf_cdac.Paths.Kept.{set_node-Shape}

-- A step that touches downlink tunnels only.
pub record DownOnly (h k : NodeHeap) : Type 0 where
  pub shape : Shape h k
  pub up : (n : ℕ) → (k n).up_link_tunnel ≡ (h n).up_link_tunnel

DownOnly-refl : (h : NodeHeap) → DownOnly h h
DownOnly-refl h = record { shape = Shape-refl h; up = λ n. refl }

DownOnly-join : (h k l : NodeHeap) → DownOnly h k → DownOnly k l → DownOnly h l
DownOnly-join h k l a b = record { shape = Shape-trans a.shape b.shape; up = λ n. b.up n ∙ a.up n }

module _ {g : IdGenerator} where
  pub logged-DownOnly :
      (s : PathState g) (r : PathState g × Outcome (Unit {0}))
      → DownOnly s.nodes r.0.nodes
      → DownOnly s.nodes (logged r).0.nodes
  logged-DownOnly s (t, ok a) k = k
  logged-DownOnly s (t, err) k = k
  logged-DownOnly s (t, panic) k = k

  logged-Shape :
      (s : PathState g) (r : PathState g × Outcome (Unit {0}))
      → Shape s.nodes r.0.nodes
      → Shape s.nodes (logged r).0.nodes
  logged-Shape s (t, ok a) k = k
  logged-Shape s (t, err) k = k
  logged-Shape s (t, panic) k = k

module _ (g : IdGenerator) (e : PathEnv) (c : PathSession) where
  with_down_pdrs-DownOnly :
      (n : ℕ) (pdrs : Dict Pdr) (s : PathState g)
      → DownOnly s.nodes (with_down_pdrs g n pdrs s).nodes
  with_down_pdrs-DownOnly n pdrs s = record {
    shape = set_node-Shape n _ s.nodes (record {
      upf = refl;
      next = refl;
      prev = refl;
      up_teid = refl;
      down_teid = refl;
      ends = λ w. w;
    });
    up = λ m. ground arith;
  }

  set_an-DownOnly :
      (ip : List ℕ) (first : ℕ) (s : PathState g)
      → DownOnly s.nodes (set_an g e c ip first s).0.nodes
  unfolding set_an
  set_an-DownOnly ip first s =
      elim (Option-cases (lookup default_name (s.nodes first).down_link_tunnel.pdr)) [
        | inl q ↦ rw (set_an, q) (DownOnly-refl s.nodes)
        | inr (p, q) ↦ elim (Option-cases p.far) [
          | inl r ↦ rw (set_an, q, r) (DownOnly-refl s.nodes)
          | inr (f, r) ↦ rw (set_an, q, r) (with_down_pdrs-DownOnly first _ s)
        ]
      ]

  forward_to_an-DownOnly :
      (first : Option ℕ) (s : PathState g) → DownOnly s.nodes (forward_to_an g e c first s).0.nodes
  unfolding forward_to_an
  forward_to_an-DownOnly first s = elim (Option-cases c.an_address) [
    | inl q ↦ rw (forward_to_an, q) (DownOnly-refl s.nodes)
    | inr (ip, q) ↦ elim (Option-cases first) [
      | inl r ↦ rw (forward_to_an, q, r) (DownOnly-refl s.nodes)
      | inr (m, r) ↦ rw (forward_to_an, q, r) (set_an-DownOnly ip m s)
    ]
  ]

  down_link_pdr-DownOnly :
      (ue : UeIpAddress) (first : Option ℕ) (n : ℕ) (q : Qer) (prec : ℕ) (name : Text)
      (s : PathState g)
      → DownOnly s.nodes (down_link_pdr g e c ue first n q prec name s).0.nodes
  unfolding down_link_pdr
  down_link_pdr-DownOnly ue first n q prec name s =
      let pdrs = (s.nodes n).down_link_tunnel.pdr in
      elim (Option-cases (lookup name pdrs)) [
        | inl a ↦ rw (down_link_pdr, a) (DownOnly-refl s.nodes)
        | inr (p, a) ↦
            let marked = down_pdr (is_anchor_upf s.nodes n) ue (attach q prec p) in
            let t = with_down_pdrs g n (insert name marked pdrs) s in
            elim (Option-cases (prev_node s.nodes n)) [
              | inl b ↦
                  rw (down_link_pdr, a, b)
                    (DownOnly-join s.nodes t.nodes (forward_to_an g e c first t).0.nodes
                      (with_down_pdrs-DownOnly n (insert name marked pdrs) s)
                      (forward_to_an-DownOnly first t))
              | inr (m, b) ↦ rw (down_link_pdr, a, b) (with_down_pdrs-DownOnly n _ s)
            ]
      ]

  down_link_pdrs-DownOnly :
      (ue : UeIpAddress) (first : Option ℕ) (n : ℕ) (q : Qer) (prec : ℕ) (names : Dict Pdr)
      (s : PathState g)
      → DownOnly s.nodes (down_link_pdrs g e c ue first n q prec names s).0.nodes
  unfolding down_link_pdrs
  down_link_pdrs-DownOnly ue first n q prec [] s = DownOnly-refl s.nodes
  down_link_pdrs-DownOnly ue first n q prec ((name, p) ∷ names) s =
      rel-after DownOnly DownOnly-join s (down_link_pdr g e c ue first n q prec name s)
        (λ done. down_link_pdrs g e c ue first n q prec names)
        (down_link_pdr-DownOnly ue first n q prec name s)
        (λ done. down_link_pdrs-DownOnly ue first n q prec names)

  pub activate_dl_link_pdr-DownOnly :
      (first : Option ℕ) (n : ℕ) (q : Qer) (prec : ℕ) (s : PathState g)
      → DownOnly s.nodes (activate_dl_link_pdr g e c first n q prec s).0.nodes
  unfolding activate_dl_link_pdr
  activate_dl_link_pdr-DownOnly first n q prec s =
      rel-after DownOnly DownOnly-join s (s, ue_ip_address e c (s.nodes n).upf)
        (λ ue t. down_link_pdrs g e c ue first n q prec (t.nodes n).down_link_tunnel.pdr t)
        (DownOnly-refl s.nodes)
        λ ue t. down_link_pdrs-DownOnly ue first n q prec (t.nodes n).down_link_tunnel.pdr t

  pub anchor_at-DownOnly :
      (n : ℕ) (s : PathState g) → DownOnly s.nodes (anchor_at g e c n s).0.nodes
  unfolding anchor_at
  anchor_at-DownOnly n s =
      rel-after DownOnly DownOnly-join s (s, ue_ip_address e c (s.nodes n).upf)
        (λ ue t. elim (next_node t.nodes n) [
          | some m ↦ (t, ok tt)
          | none ↦
              (with_down_pdrs g n (anchored ue c.dnn (t.nodes n).down_link_tunnel.pdr) t, ok tt)
        ])
        (DownOnly-refl s.nodes)
        λ ue t. elim (next_node t.nodes n) as (λ o. DownOnly t.nodes (by_next ue t o).0.nodes) [
          | some m ↦ DownOnly-refl t.nodes
          | none ↦ with_down_pdrs-DownOnly n _ t
        ]
    where
      by_next : UeIpAddress → PathState g → Option ℕ → PathState g × Outcome (Unit {0})
      by_next ue t none =
          (with_down_pdrs g n (anchored ue c.dnn (t.nodes n).down_link_tunnel.pdr) t, ok tt)
      by_next ue t (some m) = (t, ok tt)

  -- The session's QER touches no node.
  pub create_sess_rule_qer-nodes :
      (u : ℕ) (s : PathState g) → (create_sess_rule_qer g c u s).0.nodes ≡ s.nodes
  unfolding create_sess_rule_qer
  create_sess_rule_qer-nodes u s =
      let R = λ (h k : NodeHeap). k ≡ h in
      let join = λ (h k l : NodeHeap) (a : k ≡ h) (b : l ≡ k). b ∙ a in
      rel-after R join s (s, first_update c) _ refl
        λ p t.
          rel-after R join t (t, default_qos_data p.sm_policy_decision.qos_decs) _ refl
            λ d v. rel-after R join v (on_upf g u (add_qer g) v) _ refl λ q w. refl

  activate_up_link_pdr-Keeps :
      (n : ℕ) (q : Qer) (prec : ℕ) → Keeps (activate_up_link_pdr g e c n q prec)
  unfolding activate_up_link_pdr
  activate_up_link_pdr-Keeps n q prec s =
      Shape-after s (s, ue_ip_address e c (s.nodes n).upf) _ (Shape-refl s.nodes)
        λ ue t. set_node-Shape n _ t.nodes (record {
          upf = refl;
          next = refl;
          prev = refl;
          up_teid = refl;
          down_teid = refl;
          ends = λ w. w;
        })

  pub activate_pdrs_at-Keeps :
      (first : Option ℕ) (prec n : ℕ) → Keeps (activate_pdrs_at g e c first prec n)
  unfolding activate_pdrs_at
  activate_pdrs_at-Keeps first prec n s =
      Shape-after s (create_sess_rule_qer g c (s.nodes n).upf s) _
        (rw (create_sess_rule_qer-nodes (s.nodes n).upf s) (Shape-refl s.nodes))
        λ q t.
          Shape-after t (logged (activate_up_link_pdr g e c n q prec t)) _
            (logged-Shape t (activate_up_link_pdr g e c n q prec t)
              (activate_up_link_pdr-Keeps n q prec t))
            λ up v.
              Shape-after v (logged (activate_dl_link_pdr g e c first n q prec v)) _
                (logged-DownOnly v (activate_dl_link_pdr g e c first n q prec v)
                  (activate_dl_link_pdr-DownOnly first n q prec v)).shape
                λ down w. (anchor_at-DownOnly n w).shape
