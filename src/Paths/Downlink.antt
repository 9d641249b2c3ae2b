-- ===== src/Paths/Downlink.antt =====
-- context/datapath.go: ActivateDlLinkPdr.
use smf_cdac.Base.{
  ℕ, Bool, Option, none, some, List, [], ◌∷◌, if◌then◌else◌, Outcome, ok, err, panic,
}
use smf_cdac.Base.Text.{Text}
use smf_cdac.Base.Dict.{Dict, lookup, insert}
use smf_cdac.Topo.NodeIds.{to4}
use smf_cdac.Upf.Ids.{IdGenerator}
use smf_cdac.Upf.Types.{UeIpAddress, access, core, OuterHeaderCreation}
use smf_cdac.Upf.Rules.{Far, Qer, Pdr}
use smf_cdac.Paths.Nodes.{prev_node, is_anchor_upf}
use smf_cdac.Paths.Steps.{PathEnv, PathSession, ue_ip_address, Act, after, with_down_pdrs}
use smf_cdac.Paths.Install.{default_name}
use smf_cdac.Paths.Forward.{attach, header, header_to, with_header, buffering}

-- What a downlink's PDR gets, whoever is next.
unfoldable pub down_pdr : Bool → UeIpAddress → Pdr → Pdr
down_pdr anchor ue p = record p {
  outer_header_removal = if anchor then p.outer_header_removal else some 0;
  pdi = record p.pdi { source_interface = core; ue_ip_address = some ue };
}

-- The FAR towards the previous node.
unfoldable pub forward_down :
    Outcome OuterHeaderCreation → Pdr → Option Far → Pdr × Outcome (Unit {0})
forward_down hdr p none = (p, panic)
forward_down (ok h) p (some f) = (
  record p { far = some (with_header h access [] (record f { apply_action = buffering })) },
  ok tt,
)
forward_down err p (some f) = (record p { far = some (record f { apply_action = buffering }) }, err)
forward_down panic p (some f) =
    (record p { far = some (record f { apply_action = buffering }) }, panic)

module _ (g : IdGenerator) (e : PathEnv) (c : PathSession) where
  -- The FAR of the first node's default PDR, towards the access network.
  abbrev to_an : List ℕ → Far → Far
  to_an ip f = with_header (header c.an_teid (to4 ip)) access c.dnn f

  unfoldable pub set_an : List ℕ → ℕ → Act g (Unit {0})
  unfolding lookup insert to4
  set_an ip first s =
      let pdrs = (s.nodes first).down_link_tunnel.pdr in
      elim (lookup default_name pdrs) [
        | none ↦ (s, panic)
        | some p ↦ elim p.far [
          | none ↦ (s, panic)
          | some f ↦
              let aimed = record p { far = some (to_an ip f) } in
              (with_down_pdrs g first (insert default_name aimed pdrs) s, ok tt)
        ]
      ]

  unfoldable pub forward_to_an : Option ℕ → Act g (Unit {0})
  unfolding set_an
  forward_to_an first s = elim c.an_address [
    | none ↦ (s, ok tt)
    | some ip ↦ elim first [ none ↦ (s, panic) | some m ↦ set_an ip m s ]
  ]

  -- A round of ActivateDlLinkPdr, at one of the names of the tunnel's map.
  unfoldable pub down_link_pdr : UeIpAddress → Option ℕ → ℕ → Qer → ℕ → Text → Act g (Unit {0})
  unfolding lookup insert attach down_pdr is_anchor_upf prev_node forward_down header_to
      forward_to_an
  down_link_pdr ue first n q prec name s =
      let pdrs = (s.nodes n).down_link_tunnel.pdr in
      elim (lookup name pdrs) [
        | none ↦ (s, ok tt)
        | some p ↦
            let marked = down_pdr (is_anchor_upf s.nodes n) ue (attach q prec p) in
            elim (prev_node s.nodes n) [
              | none ↦ forward_to_an first (with_down_pdrs g n (insert name marked pdrs) s)
              | some m ↦
                  let to_prev = header_to e c (s.nodes m).upf (s.nodes m).down_link_tunnel.teid in
                  let r = forward_down to_prev marked p.far in
                  (with_down_pdrs g n (insert name r.0 pdrs) s, r.1)
            ]
      ]

  unfoldable pub down_link_pdrs : UeIpAddress → Option ℕ → ℕ → Qer → ℕ → Dict Pdr → Act g (Unit {0})
  unfolding down_link_pdr
  down_link_pdrs ue first n q prec [] s = (s, ok tt)
  down_link_pdrs ue first n q prec ((name, p) ∷ names) s =
      after (down_link_pdr ue first n q prec name s) λ done. down_link_pdrs ue first n q prec names

  -- ActivateDlLinkPdr.
  unfoldable pub activate_dl_link_pdr : Option ℕ → ℕ → Qer → ℕ → Act g (Unit {0})
  unfolding ue_ip_address down_link_pdrs
  activate_dl_link_pdr first n q prec s =
      after (s, ue_ip_address e c (s.nodes n).upf)
        λ ue t. down_link_pdrs ue first n q prec (t.nodes n).down_link_tunnel.pdr t
