-- ===== src/Paths/Forward.antt =====
-- context/datapath.go: ActivateUpLinkPdr, and what it shares with ActivateDlLinkPdr.
use smf_cdac.Base.{
  ℕ, true, false, Bool, Option, none, some, List, [], ◌∷◌, ◌++◌, ◌==◌, if◌then◌else◌, Outcome, ok,
  err, panic,
}
use smf_cdac.Base
use smf_cdac.Base.Text.{Text}
use smf_cdac.Base.Dict.{Dict}
use smf_cdac.Upf.Ids.{IdGenerator}
use smf_cdac.Upf.Types.{
  UeIpAddress, no_fteid, Interface, access, core, sgi_lan_n6_lan, ApplyAction, OuterHeaderCreation,
  gtp_u_udp_ipv4, ForwardingParameters,
}
use smf_cdac.Upf.Rules.{Far, Qer, Pdr}
use smf_cdac.Upf.Interfaces.{get_interface, interface_ip}
use smf_cdac.Paths.Nodes.{NodeHeap, next_node}
use smf_cdac.Paths.Steps.{PathEnv, PathSession, ue_ip_address, Act, after, with_up_pdrs}

-- The QER and the precedence that every PDR of a tunnel gets.
unfoldable pub attach : Qer → ℕ → Pdr → Pdr
attach q prec p = record p {
  qer = p.qer ++ (some q ∷ []);
  precedence = if p.precedence == 0 then prec else p.precedence;
}

-- The header towards a tunnel of another UPF, at its N9 interface for the DNN.
abbrev pub header : ℕ → Option (List ℕ) → OuterHeaderCreation
header teid ip = record {
  ipv4_address = ip;
  ipv6_address = none;
  teid = teid;
  port_number = 0;
  outer_header_creation_description = gtp_u_udp_ipv4;
}

unfoldable pub header_to : PathEnv → PathSession → ℕ → ℕ → Outcome OuterHeaderCreation
unfolding get_interface interface_ip
header_to e c u teid = elim (get_interface (e.n9_interfaces u) c.dnn) [
  | none ↦ err
  | some i ↦
      Base.◌>>=◌ (interface_ip e.resolve_ip_addr i c.selected_pdu_session_type)
        λ ip. ok (header teid ip)
]

-- The FAR and the PDR of an uplink.
abbrev pub to_interface : Interface → Text → ForwardingParameters
to_interface i dnn = record {
  outer_header_creation = none;
  pfcpsm_req_flags = none;
  forwarding_policy_id = [];
  network_instance = dnn;
  destination_interface = i;
}

abbrev pub forwarding : ApplyAction
forwarding = record { dupl = false; nocp = false; buff = false; forw = true; drop = false }

abbrev pub buffering : ApplyAction
buffering = record { dupl = false; nocp = true; buff = true; forw = false; drop = false }

unfoldable pub up_far : Bool → Text → Far → Far
up_far anchor dnn f = record f {
  apply_action = forwarding;
  forwarding_parameters = some (to_interface (if anchor then sgi_lan_n6_lan else core) dnn);
}

abbrev pub with_header : OuterHeaderCreation → Interface → Text → Far → Far
with_header h i dnn f = record f {
  forwarding_parameters = some (record (to_interface i dnn) { outer_header_creation = some h });
}

unfoldable pub up_pdr : UeIpAddress → Text → Pdr → Pdr
up_pdr ue dnn p = record p {
  pdi = record p.pdi {
    source_interface = access;
    local_fteid = some (record no_fteid { ch = true });
    ue_ip_address = some ue;
    network_instance = dnn;
  };
  outer_header_removal = some 0;
}

-- The rest of the round, which sets the header where there is a next node.
unfoldable pub forward_up :
    Option (Outcome OuterHeaderCreation) → Text → Pdr → Option Far → Pdr × Outcome (Unit {0})
unfolding up_far
forward_up hdr dnn p none = (p, panic)
forward_up none dnn p (some f) = (record p { far = some (up_far true dnn f) }, ok tt)
forward_up (some (ok h)) dnn p (some f) =
    (record p { far = some (with_header h core dnn (up_far false dnn f)) }, ok tt)
forward_up (some err) dnn p (some f) = (record p { far = some (up_far false dnn f) }, err)
forward_up (some panic) dnn p (some f) = (record p { far = some (up_far false dnn f) }, panic)

-- A loop over the PDRs of a tunnel, which ends at the first that fails.
unfoldable pub each_pdr :
    (Pdr → Pdr × Outcome (Unit {0})) → Dict Pdr → Dict Pdr × Outcome (Unit {0})
each_pdr f [] = ([], ok tt)
each_pdr f ((name, p) ∷ pdrs) =
    let r = f p in
    let rest = each_pdr f pdrs in
    elim r.1 [
      | ok done ↦ ((name, r.0) ∷ rest.0, rest.1)
      | err ↦ ((name, r.0) ∷ pdrs, err)
      | panic ↦ ((name, r.0) ∷ pdrs, panic)
    ]

module _ (g : IdGenerator) (e : PathEnv) (c : PathSession) where
  -- The header to the next node's uplink, where there is a next node.
  unfoldable pub next_header : NodeHeap → ℕ → Option (Outcome OuterHeaderCreation)
  unfolding next_node header_to
  next_header h n = elim (next_node h n) [
    | none ↦ none
    | some m ↦ some (elim (h m).up_link_tunnel.dest_end_point [
      | none ↦ panic
      | some d ↦ header_to e c (h d).upf (h m).up_link_tunnel.teid
    ])
  ]

  unfoldable pub up_link_pdr :
      UeIpAddress → Option (Outcome OuterHeaderCreation) → Qer → ℕ → Pdr → Pdr × Outcome (Unit {0})
  unfolding attach up_pdr forward_up
  up_link_pdr ue hdr q prec p = forward_up hdr c.dnn (up_pdr ue c.dnn (attach q prec p)) p.far

  -- ActivateUpLinkPdr.
  unfoldable pub activate_up_link_pdr : ℕ → Qer → ℕ → Act g (Unit {0})
  unfolding ue_ip_address next_header up_link_pdr each_pdr
  activate_up_link_pdr n q prec s =
      after (s, ue_ip_address e c (s.nodes n).upf)
        λ ue t.
          let f = up_link_pdr ue (next_header t.nodes n) q prec in
          let r = each_pdr f (t.nodes n).up_link_tunnel.pdr in (with_up_pdrs g n r.0 t, r.1)
