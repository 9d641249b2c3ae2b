-- ===== src/Paths/Activate.antt =====
-- context/datapath.go: ActivateTunnelAndPDR.
use smf_cdac.Base.{ℕ, Option, none, some, [], ◌∷◌, ok}
use smf_cdac.Base.Text.{Text}
use smf_cdac.Base.Dict.{Dict}
use smf_cdac.Upf.Ids.{IdGenerator}
use smf_cdac.Upf.Types.{UeIpAddress, core}
use smf_cdac.Upf.Rules.{Pdr}
use smf_cdac.Paths.Nodes.{next_node}
use smf_cdac.Paths.Steps.{
  PathEnv, PathSession, ue_ip_address, Act, after, ◌>>=◌, logged, with_down_pdrs, along,
}
use smf_cdac.Paths.Qers.{create_sess_rule_qer}
use smf_cdac.Paths.Install.{validate_at, allocate_seid_at, activate_tunnels_at}
use smf_cdac.Paths.Forward.{activate_up_link_pdr}
use smf_cdac.Paths.Downlink.{activate_dl_link_pdr}

-- A PDR at the anchor, towards the data network.
unfoldable pub anchored : UeIpAddress → Text → Dict Pdr → Dict Pdr
anchored ue dnn [] = []
anchored ue dnn ((name, p) ∷ pdrs) =
    (
      name,
      record p {
        pdi = record p.pdi {
          source_interface = core;
          network_instance = dnn;
          ue_ip_address = some ue;
        };
      },
    )
    ∷ anchored ue dnn pdrs

module _ (g : IdGenerator) (e : PathEnv) (c : PathSession) where
  -- What the last loop of ActivateTunnelAndPDR does to the anchor.
  unfoldable pub anchor_at : ℕ → Act g (Unit {0})
  unfolding ue_ip_address next_node anchored
  anchor_at n s =
      after (s, ue_ip_address e c (s.nodes n).upf)
        λ ue t. elim (next_node t.nodes n) [
          | some m ↦ (t, ok tt)
          | none ↦
              (with_down_pdrs g n (anchored ue c.dnn (t.nodes n).down_link_tunnel.pdr) t, ok tt)
        ]

  unfoldable pub activate_pdrs_at : Option ℕ → ℕ → ℕ → Act g (Unit {0})
  unfolding create_sess_rule_qer activate_up_link_pdr activate_dl_link_pdr anchor_at
  activate_pdrs_at first prec n s = after (create_sess_rule_qer g c (s.nodes n).upf s) λ q t.
      after (logged (activate_up_link_pdr g e c n q prec t))
        λ up v. after (logged (activate_dl_link_pdr g e c first n q prec v)) λ down. anchor_at n

  -- ActivateTunnelAndPDR, each of its loops on the same fuel. That it returns without an error is what
  -- Activated stands for.
  unfoldable pub activate_tunnel_and_pdr : ℕ → Option ℕ → ℕ → Act g (Unit {0})
  unfolding along validate_at allocate_seid_at activate_tunnels_at activate_pdrs_at
  activate_tunnel_and_pdr fuel first prec = along g fuel (validate_at g e) first >>= λ valid.
      along g fuel (allocate_seid_at g e) first >>= λ seids.
      along g fuel (activate_tunnels_at g e c) first >>= λ tunnels.
      along g fuel (activate_pdrs_at first prec) first
