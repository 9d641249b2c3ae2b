-- ===== src/Paths/Steps.antt =====
-- What the activation of a data path reads besides the state of Tunnels: the session's context and
-- the configured UPFs. The steps change the state also where they fail.
use smf_cdac.Base.{
  ℕ, zero, suc, true, Option, none, some, List, Outcome, ok, err, panic, if◌then◌else◌,
}
use smf_cdac.Base.Text.{Text}
use smf_cdac.Qos.Policy.{PolicyUpdate, SmCtxtPolicyData}
use smf_cdac.Session.Types.{PduSessionType}
use smf_cdac.Topo.NodeIds.{to4}
use smf_cdac.Upf.Ids.{IdGenerator}
use smf_cdac.Upf.Types.{UeIpAddress, no_ue_ip_address}
use smf_cdac.Upf.Rules.{Upf, Pdr}
use smf_cdac.Upf.Interfaces.{UpfInterfaceInfo, is_upf_support_ue_ip_addr_alloc}
use smf_cdac.Base.Dict.{Dict}
use smf_cdac.Paths.Nodes.{DpNode, set_node, next_node}
use smf_cdac.Paths.Tunnels.{PathState, set_upf}

-- What is fixed of each UPF: the text of the address that its node ID resolves to, its N9 interfaces,
-- its features. Then net.ResolveIPAddr, the draws from the pool of SEIDs, where the database is used,
-- and the text of models.FlowStatus_DISABLED.
pub record PathEnv : Type 0 where
  pub address : ℕ → Text
  pub n9_interfaces : ℕ → List UpfInterfaceInfo
  pub up_function_features : ℕ → Option ℕ
  pub resolve_ip_addr : Text → Option (List ℕ)
  pub draw_seid : Option (ℕ → Option ℕ)
  pub flow_status_disabled : Text

-- SMContext, in the fields that the activation reads: a PDUAddress that is not nil may have no bytes.
pub record PathSession : Type 0 where
  pub dnn : Text
  pub pdu_address : Option (List ℕ)
  pub selected_pdu_session_type : PduSessionType
  pub an_address : Option (List ℕ)
  pub an_teid : ℕ
  pub sm_policy_updates : List PolicyUpdate
  pub sm_policy_data : SmCtxtPolicyData

-- The address that a PDI gets: the UPF's choice, or the session's.
unfoldable pub ue_ip_address : PathEnv → PathSession → ℕ → Outcome UeIpAddress
unfolding is_upf_support_ue_ip_addr_alloc to4
ue_ip_address e c u =
    if is_upf_support_ue_ip_addr_alloc (e.up_function_features u)
    then ok (record no_ue_ip_address { chv4 = true })
    else elim c.pdu_address [
      | none ↦ panic
      | some ip ↦ ok (record no_ue_ip_address { v4 = true; ipv4_address = to4 ip })
    ]

abbrev pub Act : IdGenerator → Type 0 → Type 0
Act g A = PathState g → PathState g × Outcome A

module _ {g : IdGenerator} where
  -- The rest of the code behind a step that returned.
  abbrev pub after :
      {A B : Type 0} → PathState g × Outcome A → (A → Act g B) → PathState g × Outcome B
  after (s, ok a) f = f a s
  after (s, err) f = (s, err)
  after (s, panic) f = (s, panic)

  infixl 5 ◌>>=◌
  abbrev pub ◌>>=◌ : {A B : Type 0} → Act g A → (A → Act g B) → Act g B
  ◌>>=◌ m f s = after (m s) f

  abbrev pub lift : {A : Type 0} → Outcome A → Act g A
  lift o s = (s, o)

  -- An error is logged, and the code goes on.
  abbrev pub logged : PathState g × Outcome (Unit {0}) → PathState g × Outcome (Unit {0})
  logged (s, ok a) = (s, ok a)
  logged (s, err) = (s, ok tt)
  logged (s, panic) = (s, panic)

module _ (g : IdGenerator) where
  -- A call of a method of a UPF.
  abbrev pub on_upf : {A : Type 0} → ℕ → (Upf g → Upf g × Outcome A) → Act g A
  on_upf u f s = let r = f (s.upfs u) in (set_upf g u r.0 s, r.1)

  abbrev pub put_node : ℕ → DpNode → PathState g → PathState g
  put_node n x s = record s { nodes = set_node n x s.nodes }

  -- The PDRs of a node's tunnels.
  abbrev pub with_up_pdrs : ℕ → Dict Pdr → PathState g → PathState g
  with_up_pdrs n pdrs s =
      let x = s.nodes n in
      put_node n (record x { up_link_tunnel = record x.up_link_tunnel { pdr = pdrs } }) s

  abbrev pub with_down_pdrs : ℕ → Dict Pdr → PathState g → PathState g
  with_down_pdrs n pdrs s =
      let x = s.nodes n in
      put_node n (record x { down_link_tunnel = record x.down_link_tunnel { pdr = pdrs } }) s

  -- `for cur := first; cur != nil; cur = cur.Next()`; the fuel is the rounds that are left, and an error
  -- stands for a loop that is short of it.
  unfoldable pub along : ℕ → (ℕ → Act g (Unit {0})) → Option ℕ → Act g (Unit {0})
  unfolding next_node
  along zero body n s = (s, err)
  along (suc fuel) body none s = (s, ok tt)
  along (suc fuel) body (some n) s =
      after (body n s) (λ done t. along fuel body (next_node t.nodes n) t)
