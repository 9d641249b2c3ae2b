-- ===== src/Pfcp/Sending.antt =====
-- producer/datapath.go: the lists that SendPFCPRule collects at a node, its choice of the request, and
-- removeDataPath.
use smf_cdac.Base.{
  ℕ, Option, none, some, List, [], ◌∷◌, ◌++◌, ◌==◌, if◌then◌else◌, Outcome, ok, err, panic, ◌>>=◌,
}
use smf_cdac.Base.Text.{Text}
use smf_cdac.Base.Dict.{Dict, lookup}
use smf_cdac.Upf.Types.{rule_remove}
use smf_cdac.Upf.Rules.{Far, Qer, Pdr}
use smf_cdac.Paths.Nodes.{DpNode}
use smf_cdac.Paths.Tunnels.{PfcpSession}
use smf_cdac.Pfcp.Requests.{
  RuleStates, SessionRequest, set_state, build_pfcp_session_establishment_request,
  build_pfcp_session_modification_request,
}

-- The lists that SendPFCPRule collects from a node's tunnels.
unfoldable pub pdrs_of : Dict Pdr → List Pdr
pdrs_of [] = []
pdrs_of ((name, p) ∷ m) = p ∷ pdrs_of m

unfoldable pub fars_of : List Pdr → List (Option Far)
fars_of [] = []
fars_of (p ∷ pdrs) = p.far ∷ fars_of pdrs

unfoldable pub qers_of : List Pdr → List (Option Qer)
qers_of [] = []
qers_of (p ∷ pdrs) = p.qer ++ qers_of pdrs

unfoldable pub node_pdrs : DpNode → List Pdr
unfolding pdrs_of
node_pdrs x = pdrs_of x.up_link_tunnel.pdr ++ pdrs_of x.down_link_tunnel.pdr

-- The request of a round of SendPFCPRule, with SendPfcpSessionEstablishmentRequest and
-- SendPfcpSessionModificationRequest up to their building; a session without a context is an error.
unfoldable pub rule_request :
    ℕ → Text → Dict PfcpSession → DpNode → RuleStates → Outcome (SessionRequest × RuleStates)
unfolding lookup node_pdrs fars_of qers_of build_pfcp_session_establishment_request
    build_pfcp_session_modification_request
rule_request seq address contexts x st =
    let pdrs = node_pdrs x in
    elim (lookup address contexts) [
      | none ↦ err
      | some c ↦
          if c.remote_seid == 0
          then build_pfcp_session_establishment_request seq c.local_seid pdrs (fars_of pdrs)
              (qers_of pdrs) st
          else (build_pfcp_session_modification_request seq c pdrs (fars_of pdrs) (qers_of pdrs) []
                [] [] st
              >>= λ r. ok (r.0, r.1))
    ]

-- removeDataPath at a node: the downlink first.
unfoldable pub mark_removed : List Pdr → RuleStates → Outcome RuleStates
mark_removed [] st = ok st
mark_removed (p ∷ pdrs) st = elim p.far [
  | none ↦ panic
  | some f ↦ mark_removed pdrs (record st {
    pdr = set_state p.pdr_id rule_remove st.pdr;
    far = set_state f.far_id rule_remove st.far;
  })
]

unfoldable pub remove_data_path_at : DpNode → RuleStates → Outcome RuleStates
unfolding mark_removed pdrs_of
remove_data_path_at x st =
    mark_removed (pdrs_of x.down_link_tunnel.pdr) st >>= mark_removed (pdrs_of x.up_link_tunnel.pdr)
