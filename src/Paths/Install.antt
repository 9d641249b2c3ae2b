-- ===== src/Paths/Install.antt =====
-- context/datapath.go: validateDataPathUpfStatus, ActivateUpLinkTunnel, ActivateDownLinkTunnel and
-- ActivateUlDlTunnel; context/sm_context.go: PutPDRtoPFCPSession and AllocateLocalSEIDForDataPath;
-- context/context.go: AllocateLocalSEID.
use smf_cdac.Base.{
  ℕ, suc, ◌%◌, ◌^◌, false, Option, none, some, List, [], ◌∷◌, ◌++◌, if◌then◌else◌, Outcome, ok, err,
  panic,
}
use smf_cdac.Base.Text.{Text, codes}
use smf_cdac.Base.Dict.{Dict, lookup, insert}
use smf_cdac.Qos.Types.{PccRule, PointerMap}
use smf_cdac.Qos.Rules.{RulesUpdate}
use smf_cdac.Upf.Ids.{IdGenerator}
use smf_cdac.Upf.Rules.{
  Pool, store, Qer, Pdr, if_associated, add_pdr, build_create_pdr_from_pcc_rule,
}
use smf_cdac.Paths.Nodes.{DpNode, Tunnel}
use smf_cdac.Paths.Tunnels.{PathState}
use smf_cdac.Paths.Steps.{PathEnv, PathSession, Act, ◌>>=◌, after, lift, logged, on_upf, put_node}
use smf_cdac.Paths.Rates.{first_update}
use smf_cdac.Paths.Qers.{create_pcc_rule_qer}

-- The name of the PDR that stands in for PCC rules.
abbrev pub default_name : Text
default_name = codes "default"

-- `refs[0]`.
abbrev pub first_ref : List Text → Outcome Text
first_ref [] = panic
first_ref (r ∷ rs) = ok r

unfoldable pub put_pdrs : Dict Pdr → Pool → Pool
put_pdrs [] pool = pool
put_pdrs ((name, p) ∷ pdrs) pool = put_pdrs pdrs (store p.pdr_id pool)

module _ (g : IdGenerator) (e : PathEnv) where
  -- PutPDRtoPFCPSession.
  unfoldable pub put_pdr_to_pfcp_session : ℕ → Dict Pdr → Act g (Unit {0})
  unfolding lookup insert put_pdrs
  put_pdr_to_pfcp_session u pdrs s = elim (lookup (e.address u) s.pfcp_context) [
    | none ↦ (s, err)
    | some c ↦
        let put = record c { pdrs = put_pdrs pdrs c.pdrs } in
        (record s { pfcp_context = insert (e.address u) put s.pfcp_context }, ok tt)
  ]

  -- AllocateLocalSEID: a count of 64 bits, or a draw from the pool.
  unfoldable pub allocate_local_seid : PathState g → PathState g × Outcome ℕ
  allocate_local_seid s = elim e.draw_seid [
    | none ↦ let n = suc s.local_seid_count % 2 ^ 64 in (record s { local_seid_count = n }, ok n)
    | some draw ↦ elim (draw s.draws) [
      | none ↦ (record s { draws = suc s.draws }, err)
      | some n ↦ (record s { draws = suc s.draws }, ok n)
    ]
  ]

  -- The round of AllocateLocalSEIDForDataPath at a node; an error is logged, and the SEID is 0 then.
  abbrev pub with_session : ℕ → ℕ → PathState g → PathState g
  with_session u seid s = record s {
    pfcp_context =
        insert (e.address u)
          (record { pdrs = λ m. false; node = u; local_seid = seid; remote_seid = 0 })
          s.pfcp_context;
    seids = store seid s.seids;
  }

  abbrev pub session_of : ℕ → PathState g × Outcome ℕ → PathState g × Outcome (Unit {0})
  session_of u (s, ok seid) = (with_session u seid s, ok tt)
  session_of u (s, err) = (with_session u 0 s, ok tt)
  session_of u (s, panic) = (s, panic)

  unfoldable pub allocate_seid_at : ℕ → Act g (Unit {0})
  unfolding lookup insert allocate_local_seid
  allocate_seid_at n s = elim (lookup (e.address (s.nodes n).upf) s.pfcp_context) [
    | none ↦ session_of (s.nodes n).upf (allocate_local_seid s)
    | some c ↦ (s, ok tt)
  ]

  -- validateDataPathUpfStatus at a node.
  unfoldable pub validate_at : ℕ → Act g (Unit {0})
  validate_at n s = (s, if_associated g (s.upfs (s.nodes n).upf).status (ok tt) err)

  -- The QER of a PCC rule, appended to its PDR; an error leaves the PDR as it is.
  abbrev pub qer_or_same : Pdr → PathState g × Outcome Qer → PathState g × Outcome Pdr
  qer_or_same p (s, ok q) = (s, ok (record p { qer = p.qer ++ (some q ∷ []) }))
  qer_or_same p (s, err) = (s, ok p)
  qer_or_same p (s, panic) = (s, panic)

  unfoldable pub with_qer : PathSession → ℕ → PccRule → Pdr → Act g Pdr
  unfolding create_pcc_rule_qer
  with_qer c u r p s = qer_or_same p (
      after (s, first_ref r.ref_qos_data)
        λ q. lift (first_ref r.ref_tc_data) >>= λ t. create_pcc_rule_qer g e c u q t)

  -- The rounds of a tunnel's activation over the rules to add, each of which leaves its PDR in the
  -- tunnel's map; a rule that fails is passed over, a nil rule and a nil map are a panic.
  module _ (put : Text → Pdr → Act g (Unit {0})) (c : PathSession) (u : ℕ) where
    unfoldable pub install_rule : Text → PccRule → Act g (Unit {0})
    unfolding build_create_pdr_from_pcc_rule with_qer
    install_rule name r s = logged (
        after (on_upf g u (build_create_pdr_from_pcc_rule g r) s)
          λ p. with_qer c u r p >>= put name)

    unfoldable pub install_rules : PointerMap PccRule → Act g (Unit {0})
    unfolding install_rule
    install_rules [] s = (s, ok tt)
    install_rules ((name, none) ∷ rules) s = (s, panic)
    install_rules ((name, some r) ∷ rules) s =
        after (install_rule name r s) (λ done. install_rules rules)

    -- The default PDR, where the update has none for PCC rules.
    unfoldable pub install : Option (RulesUpdate PccRule) → Act g (Unit {0})
    unfolding install_rules add_pdr
    install none s = after (on_upf g u (add_pdr g) s) (put default_name)
    install (some update) s = install_rules update.add s

  -- `tunnel.PDR[name] = pdr`.
  abbrev pub put_in : Text → Pdr → Tunnel → Tunnel
  put_in name p t = record t { pdr = insert name p t.pdr }

  unfoldable pub put_up : ℕ → Text → Pdr → Act g (Unit {0})
  unfolding insert
  put_up n name p s =
      let x = s.nodes n in
      if x.up_link_tunnel.made
      then (put_node g n (record x { up_link_tunnel = put_in name p x.up_link_tunnel }) s, ok tt)
      else (s, panic)

  unfoldable pub put_down : ℕ → Text → Pdr → Act g (Unit {0})
  unfolding insert
  put_down n name p s =
      let x = s.nodes n in
      if x.down_link_tunnel.made
      then (
        put_node g n (record x { down_link_tunnel = put_in name p x.down_link_tunnel }) s,
        ok tt,
      )
      else (s, panic)

  -- ActivateUpLinkTunnel and ActivateDownLinkTunnel, whose first assignment puts back what is there.
  abbrev pub ends_up : ℕ → DpNode → DpNode
  ends_up n x = record x { up_link_tunnel = record x.up_link_tunnel { dest_end_point = some n } }

  abbrev pub ends_down : ℕ → DpNode → DpNode
  ends_down n x = record x {
    down_link_tunnel = record x.down_link_tunnel { dest_end_point = some n };
  }

  unfoldable pub activate_up_link_tunnel : PathSession → ℕ → Act g (Unit {0})
  unfolding first_update install put_up put_pdr_to_pfcp_session
  activate_up_link_tunnel c n s =
      let u = (s.nodes n).upf in
      after (put_node g n (ends_up n (s.nodes n)) s, first_update c)
        λ p. install (put_up n) c u p.pcc_rule_update >>= λ done t.
          put_pdr_to_pfcp_session u (t.nodes n).up_link_tunnel.pdr t

  unfoldable pub activate_down_link_tunnel : PathSession → ℕ → Act g (Unit {0})
  unfolding first_update install put_down put_pdr_to_pfcp_session
  activate_down_link_tunnel c n s =
      let u = (s.nodes n).upf in
      after (put_node g n (ends_down n (s.nodes n)) s, first_update c)
        λ p. install (put_down n) c u p.pcc_rule_update >>= λ done t.
          put_pdr_to_pfcp_session u (t.nodes n).down_link_tunnel.pdr t

  -- ActivateUlDlTunnel at a node.
  unfoldable pub activate_tunnels_at : PathSession → ℕ → Act g (Unit {0})
  unfolding activate_up_link_tunnel activate_down_link_tunnel
  activate_tunnels_at c n s =
      after (activate_up_link_tunnel c n s) (λ done. activate_down_link_tunnel c n)
