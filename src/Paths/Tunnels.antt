-- ===== src/Paths/Tunnels.antt =====
-- context/datapath.go: DeactivateUpLinkTunnel, DeactivateDownLinkTunnel and DeactivateTunnelAndPDR, with
-- RemovePDRfromPFCPSession of context/sm_context.go. What the node ID of a UPF resolves to is a
-- parameter.
use smf_cdac.Base.{
  ℕ, zero, suc, Option, none, some, List, [], ◌∷◌, ◌==◌, if◌then◌else◌, Outcome, ok, err, panic,
  ◌>>=◌,
}
use smf_cdac.Base.Text.{Text}
use smf_cdac.Base.Dict.{Dict, lookup, insert}
use smf_cdac.Upf.Ids.{IdGenerator}
use smf_cdac.Upf.Rules.{
  Pool, remove, Bar, Far, Qer, Pdr, Upf, remove_pdr, remove_far, remove_bar, remove_qer,
}
use smf_cdac.Paths.Nodes.{NodeHeap, empty_tunnel, set_node, next_node}

-- PFCPSessionContext: the ids of its PDRs, the UPF whose node ID it has, and its SEIDs.
pub record PfcpSession : Type 0 where
  pub pdrs : Pool
  pub node : ℕ
  pub local_seid : ℕ
  pub remote_seid : ℕ

-- The nodes of the data paths, the UPFs, the PFCPContext of the session by the addresses of UPFs, the
-- SEIDs that seidSMContextMap leads from to the session, LocalSEIDCount, and the draws from the pool of
-- SEIDs.
pub record PathState (g : IdGenerator) : Type 0 where
  pub nodes : NodeHeap
  pub upfs : ℕ → Upf g
  pub pfcp_context : Dict PfcpSession
  pub seids : Pool
  pub local_seid_count : ℕ
  pub draws : ℕ

abbrev pub without_pdr : ℕ → PfcpSession → PfcpSession
without_pdr id c = record c { pdrs = remove id c.pdrs }

module _ (g : IdGenerator) where
  abbrev pub set_upf : ℕ → Upf g → PathState g → PathState g
  set_upf n x s = record s { upfs = λ m. if m == n then x else s.upfs m }

  -- The loop over the QERs of a PDR, which passes over nil.
  unfoldable pub remove_qers : List (Option Qer) → Upf g → Upf g
  unfolding remove_qer
  remove_qers [] x = x
  remove_qers (none ∷ qs) x = remove_qers qs x
  remove_qers (some q ∷ qs) x = remove_qers qs (remove_qer g q x)

  unfoldable pub remove_bar_of : Option Bar → Upf g → Upf g
  unfolding remove_bar
  remove_bar_of none x = x
  remove_bar_of (some b) x = remove_bar g b x

  unfoldable pub remove_far_of : Option Far → Upf g → Upf g
  unfolding remove_far remove_bar_of
  remove_far_of none x = x
  remove_far_of (some f) x = remove_bar_of f.bar (remove_far g f x)

  -- What the UPF loses with a PDR.
  unfoldable pub remove_rules : Pdr → Upf g → Upf g
  unfolding remove_pdr remove_far_of remove_qers
  remove_rules p x = remove_qers p.qer (remove_far_of p.far (remove_pdr g p x))

  -- `node.DownLinkTunnel = &GTPTunnel{}`, which both tunnels end with.
  unfoldable pub reset_down_link : ℕ → PathState g → PathState g
  reset_down_link n s = record s {
    nodes = set_node n (record (s.nodes n) { down_link_tunnel = empty_tunnel }) s.nodes;
  }

module _ (g : IdGenerator) (address : ℕ → Text) where
  -- RemovePDRfromPFCPSession; a nil context is a panic.
  unfoldable pub remove_pdr_from_pfcp_session : ℕ → Pdr → PathState g → Outcome (PathState g)
  unfolding lookup insert
  remove_pdr_from_pfcp_session u p s = elim (lookup (address u) s.pfcp_context) [
    | none ↦ panic
    | some c ↦
        ok (record s { pfcp_context = insert (address u) (without_pdr p.pdr_id c) s.pfcp_context })
  ]

  -- The loop over the PDRs of a tunnel.
  unfoldable pub remove_pdrs : ℕ → Dict Pdr → PathState g → Outcome (PathState g)
  unfolding remove_pdr_from_pfcp_session remove_rules
  remove_pdrs u [] s = ok s
  remove_pdrs u ((name, p) ∷ pdrs) s = remove_pdr_from_pfcp_session u p s >>= λ t.
      remove_pdrs u pdrs (set_upf g u (remove_rules g p (t.upfs u)) t)

  -- DeactivateUpLinkTunnel and DeactivateDownLinkTunnel.
  unfoldable pub deactivate_up_link_tunnel : ℕ → PathState g → Outcome (PathState g)
  unfolding remove_pdrs reset_down_link
  deactivate_up_link_tunnel n s =
      remove_pdrs (s.nodes n).upf (s.nodes n).up_link_tunnel.pdr s >>= λ t.
      ok (reset_down_link g n t)

  unfoldable pub deactivate_down_link_tunnel : ℕ → PathState g → Outcome (PathState g)
  unfolding remove_pdrs reset_down_link
  deactivate_down_link_tunnel n s =
      remove_pdrs (s.nodes n).upf (s.nodes n).down_link_tunnel.pdr s >>= λ t.
      ok (reset_down_link g n t)

  -- DeactivateTunnelAndPDR from a node on, without its last line; the fuel is the rounds that are left,
  -- and an error stands for a loop that is short of it.
  unfoldable pub deactivate_tunnel_and_pdr : ℕ → Option ℕ → PathState g → Outcome (PathState g)
  unfolding deactivate_up_link_tunnel deactivate_down_link_tunnel next_node
  deactivate_tunnel_and_pdr zero n s = err
  deactivate_tunnel_and_pdr (suc fuel) none s = ok s
  deactivate_tunnel_and_pdr (suc fuel) (some n) s = deactivate_up_link_tunnel n s >>= λ t.
      deactivate_down_link_tunnel n t >>= λ w.
      deactivate_tunnel_and_pdr fuel (next_node w.nodes n) w
