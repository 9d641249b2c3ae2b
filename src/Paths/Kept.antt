-- ===== src/Paths/Kept.antt =====
-- What each step of an activation leaves alone: the links, the UPFs and the TEIDs of all nodes; and the
-- uplink tunnels, in the steps of ActivateDlLinkPdr.
use smf_cdac.Base.{
  ℕ, ◌≡◌, refl, inl, inr, Bool-cases, Option, none, some, [], ◌∷◌, ◌==◌, arith, Outcome, ok, err,
  panic, Option-cases,
}
use smf_cdac.Base.Text.{Text}
use smf_cdac.Base.Dict.{Dict, lookup}
use smf_cdac.Qos.Types.{PccRule, PointerMap}
use smf_cdac.Qos.Rules.{RulesUpdate}
use smf_cdac.Upf.Ids.{IdGenerator}
use smf_cdac.Upf.Rules.{Qer, Pdr, build_create_pdr_from_pcc_rule, add_pdr, add_qer}
use smf_cdac.Paths.Nodes.{DpNode, NodeHeap, set_node}
use smf_cdac.Paths.Tunnels.{PathState}
use smf_cdac.Paths.Steps.{PathEnv, PathSession, Act, after, ◌>>=◌, lift, logged, on_upf, put_node}
use smf_cdac.Paths.Rates.{first_update, pcc_rule_qer}
use smf_cdac.Paths.Qers.{create_pcc_rule_qer}
use smf_cdac.Paths.Install.{
  default_name, first_ref, put_pdr_to_pfcp_session, allocate_seid_at, allocate_local_seid,
  session_of, validate_at, with_qer, qer_or_same, install_rule, install_rules, install, put_up,
  put_down, activate_up_link_tunnel, activate_down_link_tunnel, activate_tunnels_at, ends_up,
  ends_down,
}
use smf_cdac.Paths.Passes.{
  SameNode, SameNode-refl, Shape, Shape-refl, Keeps, Shape-after, Shape-trans,
}

pub set_node-Shape :
    (n : ℕ) (x : DpNode) (h : NodeHeap) → SameNode n (h n) x → Shape h (set_node n x h)
set_node-Shape n x h k = record { at = at }
  where
    at : (m : ℕ) → SameNode m (h m) (set_node n x h m)
    at m = elim (Bool-cases (m == n)) [
      | inl e ↦ let q : m ≡ n = ground arith in rw (e, q) k
      | inr e ↦ rw e (SameNode-refl m (h m))
    ]

module _ {g : IdGenerator} where
  same-logged :
      (s : PathState g) (r : PathState g × Outcome (Unit {0}))
      → Shape s.nodes r.0.nodes
      → Shape s.nodes (logged r).0.nodes
  same-logged s (t, ok a) k = k
  same-logged s (t, err) k = k
  same-logged s (t, panic) k = k

module _ (g : IdGenerator) (e : PathEnv) (c : PathSession) where
  put_pdr_to_pfcp_session-Keeps :
      (u : ℕ) (pdrs : Dict Pdr) → Keeps (put_pdr_to_pfcp_session g e u pdrs)
  unfolding put_pdr_to_pfcp_session
  put_pdr_to_pfcp_session-Keeps u pdrs s =
      elim (Option-cases (lookup (e.address u) s.pfcp_context)) [
        | inl q ↦ rw (put_pdr_to_pfcp_session, q) (Shape-refl s.nodes)
        | inr (v, q) ↦ rw (put_pdr_to_pfcp_session, q) (Shape-refl s.nodes)
      ]

  pub validate_at-Keeps : (n : ℕ) → Keeps (validate_at g e n)
  unfolding validate_at
  validate_at-Keeps n s = Shape-refl s.nodes

  session_of-Keeps :
      (u : ℕ) (s : PathState g) (r : PathState g × Outcome ℕ)
      → r.0.nodes ≡ s.nodes
      → Shape s.nodes (session_of g e u r).0.nodes
  session_of-Keeps u s (t, ok n) q = rw q (Shape-refl s.nodes)
  session_of-Keeps u s (t, err) q = rw q (Shape-refl s.nodes)
  session_of-Keeps u s (t, panic) q = rw q (Shape-refl s.nodes)

  allocate_local_seid-nodes : (s : PathState g) → (allocate_local_seid g e s).0.nodes ≡ s.nodes
  unfolding allocate_local_seid
  allocate_local_seid-nodes s = ground arith

  pub allocate_seid_at-Keeps : (n : ℕ) → Keeps (allocate_seid_at g e n)
  unfolding allocate_seid_at
  allocate_seid_at-Keeps n s =
      let u = (s.nodes n).upf in
      elim (Option-cases (lookup (e.address u) s.pfcp_context)) [
        | inl q ↦
            rw (allocate_seid_at, q)
              (session_of-Keeps u s (allocate_local_seid g e s) (allocate_local_seid-nodes s))
        | inr (v, q) ↦ rw (allocate_seid_at, q) (Shape-refl s.nodes)
      ]

  create_pcc_rule_qer-Keeps : (u : ℕ) (q t : Text) → Keeps (create_pcc_rule_qer g e c u q t)
  unfolding create_pcc_rule_qer
  create_pcc_rule_qer-Keeps u q t s =
      Shape-after s (lift (first_update c) s)
        (λ p.
          on_upf g u (add_qer g) >>= λ made. lift (pcc_rule_qer e p.sm_policy_decision q t made))
        (Shape-refl s.nodes)
        λ p v.
          Shape-after v (on_upf g u (add_qer g) v)
            (λ made. lift (pcc_rule_qer e p.sm_policy_decision q t made)) (Shape-refl v.nodes)
            λ made w. Shape-refl w.nodes

  qer_or_same-Keeps :
      (p : Pdr) (s : PathState g) (r : PathState g × Outcome Qer)
      → Shape s.nodes r.0.nodes
      → Shape s.nodes (qer_or_same g e p r).0.nodes
  qer_or_same-Keeps p s (t, ok q) k = k
  qer_or_same-Keeps p s (t, err) k = k
  qer_or_same-Keeps p s (t, panic) k = k

  with_qer-Keeps : (u : ℕ) (r : PccRule) (p : Pdr) → Keeps (with_qer g e c u r p)
  unfolding with_qer
  with_qer-Keeps u r p s =
      let make =
        λ (q : Text). lift (first_ref r.ref_tc_data) >>= λ t. create_pcc_rule_qer g e c u q t in
      qer_or_same-Keeps p s (after (s, first_ref r.ref_qos_data) make) (
        Shape-after s (s, first_ref r.ref_qos_data) make (Shape-refl s.nodes)
          λ q v.
            Shape-after v (v, first_ref r.ref_tc_data) (create_pcc_rule_qer g e c u q)
              (Shape-refl v.nodes) (λ t. create_pcc_rule_qer-Keeps u q t))

  module _ (put : Text → Pdr → Act g (Unit {0}))
      (keeps : (name : Text) (p : Pdr) → Keeps (put name p)) (u : ℕ) where
    install_rule-Keeps : (name : Text) (r : PccRule) → Keeps (install_rule g e put c u name r)
    unfolding install_rule
    install_rule-Keeps name r s =
        let build = on_upf g u (build_create_pdr_from_pcc_rule g r) s in
        let rest = λ (p : Pdr). with_qer g e c u r p >>= put name in
        same-logged s (after build rest) (
          Shape-after s build rest (Shape-refl s.nodes) λ p v.
            Shape-after v (with_qer g e c u r p v) (put name) (with_qer-Keeps u r p v)
              (λ q. keeps name q))

    install_rules-Keeps : (rules : PointerMap PccRule) → Keeps (install_rules g e put c u rules)
    unfolding install_rules
    install_rules-Keeps [] s = Shape-refl s.nodes
    install_rules-Keeps ((name, none) ∷ rules) s = Shape-refl s.nodes
    install_rules-Keeps ((name, some r) ∷ rules) s =
        Shape-after s (install_rule g e put c u name r s) (λ done. install_rules g e put c u rules)
          (install_rule-Keeps name r s) (λ done. install_rules-Keeps rules)

    install-Keeps : (o : Option (RulesUpdate PccRule)) → Keeps (install g e put c u o)
    unfolding install
    install-Keeps none s =
        Shape-after s (on_upf g u (add_pdr g) s) (put default_name) (Shape-refl s.nodes)
          (λ p. keeps default_name p)
    install-Keeps (some update) s = install_rules-Keeps update.add s

  -- A write to a tunnel's map of PDRs, and of its end.
  put_up-Keeps : (n : ℕ) (name : Text) (p : Pdr) → Keeps (put_up g e n name p)
  unfolding put_up
  put_up-Keeps n name p s = elim (Bool-cases (s.nodes n).up_link_tunnel.made) [
    | inl q ↦
        rw (put_up, q)
          (set_node-Shape n _ s.nodes (record {
            upf = refl;
            next = refl;
            prev = refl;
            up_teid = refl;
            down_teid = refl;
            ends = λ w. w;
          }))
    | inr q ↦ rw (put_up, q) (Shape-refl s.nodes)
  ]

  put_down-Keeps : (n : ℕ) (name : Text) (p : Pdr) → Keeps (put_down g e n name p)
  unfolding put_down
  put_down-Keeps n name p s = elim (Bool-cases (s.nodes n).down_link_tunnel.made) [
    | inl q ↦
        rw (put_down, q)
          (set_node-Shape n _ s.nodes (record {
            upf = refl;
            next = refl;
            prev = refl;
            up_teid = refl;
            down_teid = refl;
            ends = λ w. w;
          }))
    | inr q ↦ rw (put_down, q) (Shape-refl s.nodes)
  ]

  -- From its first assignment on, and as a whole, ActivateUpLinkTunnel keeps the shape; so the tunnel
  -- ends at its node.
  activate_up_link_tunnel-from :
      (n : ℕ) (s : PathState g)
      → Shape
          (put_node g n (ends_up g e n (s.nodes n)) s).nodes
          (activate_up_link_tunnel g e c n s).0.nodes
  unfolding activate_up_link_tunnel
  activate_up_link_tunnel-from n s =
      let u = (s.nodes n).upf in
      let t = put_node g n (ends_up g e n (s.nodes n)) s in
      let put = put_up g e n in
      let finish : Unit {0} → Act g (Unit {0}) =
        λ done v. put_pdr_to_pfcp_session g e u (v.nodes n).up_link_tunnel.pdr v in
      Shape-after t (t, first_update c) (λ p. install g e put c u p.pcc_rule_update >>= finish)
        (Shape-refl t.nodes)
        λ p v.
          Shape-after v (install g e put c u p.pcc_rule_update v) finish
            (install-Keeps put (put_up-Keeps n) u p.pcc_rule_update v)
            λ done w. put_pdr_to_pfcp_session-Keeps u (w.nodes n).up_link_tunnel.pdr w

  activate_up_link_tunnel-Keeps : (n : ℕ) → Keeps (activate_up_link_tunnel g e c n)
  activate_up_link_tunnel-Keeps n s =
      let first = set_node-Shape n (ends_up g e n (s.nodes n)) s.nodes (record {
        upf = refl;
        next = refl;
        prev = refl;
        up_teid = refl;
        down_teid = refl;
        ends = λ w. refl;
      }) in
      Shape-trans first (activate_up_link_tunnel-from n s)

  activate_down_link_tunnel-Keeps : (n : ℕ) → Keeps (activate_down_link_tunnel g e c n)
  unfolding activate_down_link_tunnel
  activate_down_link_tunnel-Keeps n s =
      let u = (s.nodes n).upf in
      let t = put_node g n (ends_down g e n (s.nodes n)) s in
      let put = put_down g e n in
      let finish : Unit {0} → Act g (Unit {0}) =
        λ done v. put_pdr_to_pfcp_session g e u (v.nodes n).down_link_tunnel.pdr v in
      Shape-after s (t, first_update c) (λ p. install g e put c u p.pcc_rule_update >>= finish)
        (set_node-Shape n (ends_down g e n (s.nodes n)) s.nodes (record {
          upf = refl;
          next = refl;
          prev = refl;
          up_teid = refl;
          down_teid = refl;
          ends = λ w. w;
        }))
        λ p v.
          Shape-after v (install g e put c u p.pcc_rule_update v) finish
            (install-Keeps put (put_down-Keeps n) u p.pcc_rule_update v)
            λ done w. put_pdr_to_pfcp_session-Keeps u (w.nodes n).down_link_tunnel.pdr w

  pub activate_tunnels_at-Keeps : (n : ℕ) → Keeps (activate_tunnels_at g e c n)
  unfolding activate_tunnels_at
  activate_tunnels_at-Keeps n s =
      Shape-after s (activate_up_link_tunnel g e c n s) (λ done. activate_down_link_tunnel g e c n)
        (activate_up_link_tunnel-Keeps n s) (λ done. activate_down_link_tunnel-Keeps n)

  pub activate_tunnels_at-ends :
      (n : ℕ) (s : PathState g)
      → ((activate_tunnels_at g e c n s).0.nodes n).up_link_tunnel.dest_end_point ≡ some n
  unfolding activate_tunnels_at
  activate_tunnels_at-ends n s =
      let t = put_node g n (ends_up g e n (s.nodes n)) s in
      let there : (t.nodes n).up_link_tunnel.dest_end_point ≡ some n = ground arith in
      let kept =
        Shape-after t (activate_up_link_tunnel g e c n s)
          (λ done. activate_down_link_tunnel g e c n) (activate_up_link_tunnel-from n s)
          (λ done. activate_down_link_tunnel-Keeps n) in
      (kept.at n).ends there
