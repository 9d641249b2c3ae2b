-- ===== src/Paths/Connected.antt =====
-- A connected uplink: each PDR is forwarded to the next node's tunnel, and by the last node to the data
-- network. What the steps of an activation do for it.
use smf_cdac.Base.{
  ℕ, ◌≡◌, refl, sym, ◌∙◌, ap, Option, none, some, List, [], ◌∷◌, Outcome, ok, err, panic, All,
}
use mathlib.Core.Path.{subst}
use smf_cdac.Upf.Ids.{IdGenerator}
use smf_cdac.Upf.Types.{OuterHeaderCreation}
use smf_cdac.Upf.Rules.{Qer}
use smf_cdac.Upf.Interfaces.{UpfInterfaceInfo, get_interface, interface_ip}
use smf_cdac.Paths.Nodes.{NodeHeap, Tunnel, next_node}
use smf_cdac.Paths.Tunnels.{PathState}
use smf_cdac.Paths.Steps.{PathEnv, PathSession, Act, logged}
use smf_cdac.Paths.Qers.{create_sess_rule_qer}
use smf_cdac.Paths.Install.{activate_tunnels_at}
use smf_cdac.Paths.Forward.{header_to, next_header, activate_up_link_pdr}
use smf_cdac.Paths.Activate.{activate_pdrs_at}
use smf_cdac.Paths.Downlink.{activate_dl_link_pdr}
use smf_cdac.Paths.Passes.{Shape, after-returned, visit, Shape-visit}
use smf_cdac.Paths.Kept.{activate_tunnels_at-Keeps, activate_tunnels_at-ends}
use smf_cdac.Paths.Untouched.{
  logged-DownOnly, activate_dl_link_pdr-DownOnly, anchor_at-DownOnly, create_sess_rule_qer-nodes,
}
use smf_cdac.Paths.Aimed.{AllPdrs, AimedUp, Fine, wrap, activate_up_link_pdr-Fine}

module _ (e : PathEnv) (c : PathSession) where
  -- A GTP header over UDP and IPv4 to a node: the address of its UPF's N9 interface for the DNN, and the
  -- TEID of the node's uplink tunnel.
  abbrev pub Reaches : NodeHeap → ℕ → OuterHeaderCreation → Type 0
  Reaches h m hd =
      (i : UpfInterfaceInfo) × (ip : Option (List ℕ)) × (get_interface (e.n9_interfaces (h m).upf)
          c.dnn
        ≡ some i)
      × (interface_ip e.resolve_ip_addr i c.selected_pdu_session_type ≡ ok ip)
      × (hd ≡ record {
        ipv4_address = ip;
        ipv6_address = none;
        teid = (h m).up_link_tunnel.teid;
        port_number = 0;
        outer_header_creation_description = 256;
      })

  pub Reaches-header_to :
      (h : NodeHeap) (m : ℕ) (hd : OuterHeaderCreation)
      → Reaches h m hd
      → header_to e c (h m).upf (h m).up_link_tunnel.teid ≡ ok hd
  unfolding header_to
  Reaches-header_to h m hd (i, ip, a, b, q) = rw (header_to, a, b, q) refl

  -- Every node but the first can be reached: its UPF has an N9 interface with an address.
  abbrev pub Hops : NodeHeap → List ℕ → Type 0
  Hops h [] = Unit
  Hops h (n ∷ []) = Unit
  Hops h (n ∷ m ∷ ns) = ((hd : OuterHeaderCreation) × Reaches h m hd) × Hops h (m ∷ ns)

  -- Every PDR of a node's uplink goes to the next node, behind the header of its N9 address and of the
  -- TEID of its uplink tunnel; the last node's, to the data network.
  abbrev pub Connected : NodeHeap → List ℕ → Type 0
  Connected h [] = Unit
  Connected h (n ∷ []) = AllPdrs (AimedUp c.dnn none) (h n).up_link_tunnel.pdr
  Connected h (n ∷ m ∷ ns) =
      ((hd : OuterHeaderCreation) × Reaches h m hd
        × AllPdrs (AimedUp c.dnn (some hd)) (h n).up_link_tunnel.pdr)
      × Connected h (m ∷ ns)

  abbrev pub Ended : NodeHeap → List ℕ → Type 0
  Ended h ns = All (λ m. (h m).up_link_tunnel.dest_end_point ≡ some m) ns

  pub Ended-Shape : (h k : NodeHeap) (ns : List ℕ) → Shape h k → Ended h ns → Ended k ns
  Ended-Shape h k [] q w = tt
  Ended-Shape h k (n ∷ ns) q w = ((q.at n).ends w.0, Ended-Shape h k ns q w.1)

  pub reach-Shape :
      (h k : NodeHeap) (m : ℕ) (hd : OuterHeaderCreation)
      → Shape h k
      → Reaches h m hd
      → Reaches k m hd
  reach-Shape h k m hd q w = rw ((q.at m).upf, (q.at m).up_teid) w

  pub Hops-Shape : (h k : NodeHeap) (ns : List ℕ) → Shape h k → Hops h ns → Hops k ns
  Hops-Shape h k [] q w = tt
  Hops-Shape h k (n ∷ []) q w = tt
  Hops-Shape h k (n ∷ m ∷ ns) q w =
      ((w.0.0, reach-Shape h k m w.0.0 q w.0.1), Hops-Shape h k (m ∷ ns) q w.1)

module _ (g : IdGenerator) (e : PathEnv) (c : PathSession) where
  pub Shape-visited :
      (body : ℕ → Act g (Unit {0})) (ns : List ℕ) (s t : PathState g) (d : Unit {0})
      → ((n : ℕ) (v : PathState g) → Shape v.nodes (body n v).0.nodes)
      → visit body ns s ≡ (t, ok d)
      → Shape s.nodes t.nodes
  Shape-visited body ns s t d k q =
      subst (λ (r : PathState g × Outcome (Unit {0})). Shape s.nodes r.0.nodes) q
        (Shape-visit body ns s k)

  pub tunnels-Ended :
      (ns : List ℕ) (s t : PathState g) (d : Unit {0})
      → visit (activate_tunnels_at g e c) ns s ≡ (t, ok d)
      → Ended e c t.nodes ns
  unfolding visit
  tunnels-Ended [] s t d q = tt
  tunnels-Ended (n ∷ ns) s t d q =
      let body = activate_tunnels_at g e c in
      let (a, w, first, rest) = after-returned (body n s) (λ done. visit body ns) t d q in
      let here =
        subst
          (λ (r : PathState g × Outcome (Unit {0})).
            (r.0.nodes n).up_link_tunnel.dest_end_point ≡ some n)
          first (activate_tunnels_at-ends g e c n s) in
      let kept = Shape-visited body ns w t d (activate_tunnels_at-Keeps g e c) rest in
      ((kept.at n).ends here, tunnels-Ended ns w t d rest)

  pub header-last :
      (h : NodeHeap) (n : ℕ) → next_node h n ≡ none → next_header g e c h n ≡ wrap none
  unfolding next_header
  header-last h n q = rw (next_header, q) refl

  pub header-next :
      (h : NodeHeap) (n m : ℕ) (hd : OuterHeaderCreation)
      → next_node h n ≡ some m
      → (h m).up_link_tunnel.dest_end_point ≡ some m
      → header_to e c (h m).upf (h m).up_link_tunnel.teid ≡ ok hd
      → next_header g e c h n ≡ wrap (some hd)
  unfolding next_header
  header-next h n m hd q d w = rw (next_header, q, d, w) refl

  logged-Fine :
      (P : PathState g → Type 0) (r : PathState g × Outcome (Unit {0})) (t : PathState g)
      (d : Unit {0})
      → Fine P r
      → logged r ≡ (t, ok d)
      → P t
  logged-Fine P (s, ok a) t d w q = subst P (ap (λ (x : PathState g × Outcome (Unit {0})). x.0) q) w
  logged-Fine P (s, err) t d w q = absurd w
  logged-Fine P (s, panic) t d w q = cc

  -- What a round of the last loop that returned leaves in the node's uplink.
  pub round-Aimed :
      (first : Option ℕ) (prec n : ℕ) (s t : PathState g) (d : Unit {0})
      (hdr : Option OuterHeaderCreation)
      → activate_pdrs_at g e c first prec n s ≡ (t, ok d)
      → next_header g e c s.nodes n ≡ wrap hdr
      → AllPdrs (AimedUp c.dnn hdr) (t.nodes n).up_link_tunnel.pdr
  unfolding activate_pdrs_at
  round-Aimed first prec n s t d hdr q k =
      let (qer, s1, made, q1) =
        after-returned (create_sess_rule_qer g c (s.nodes n).upf s) _ t d q in
      let (a, s2, upped, q2) =
        after-returned (logged (activate_up_link_pdr g e c n qer prec s1)) _ t d q1 in
      let (b, s3, downed, q3) =
        after-returned (logged (activate_dl_link_pdr g e c first n qer prec s2)) _ t d q2 in
      let same : s1.nodes ≡ s.nodes =
        sym (ap (λ (x : PathState g × Outcome Qer). x.0.nodes) made)
        ∙ create_sess_rule_qer-nodes g e c (s.nodes n).upf s in
      let aimed =
        logged-Fine
          (λ (v : PathState g). AllPdrs (AimedUp c.dnn hdr) (v.nodes n).up_link_tunnel.pdr)
          (activate_up_link_pdr g e c n qer prec s1) s2 a
          (activate_up_link_pdr-Fine g e c n qer prec s1 hdr (rw same k)) upped in
      let down =
        logged-DownOnly s2 (activate_dl_link_pdr g e c first n qer prec s2)
          (activate_dl_link_pdr-DownOnly g e c first n qer prec s2) in
      let kept =
        ap (λ (x : PathState g × Outcome (Unit {0})). (x.0.nodes n).up_link_tunnel) downed in
      let last = ap (λ (x : PathState g × Outcome (Unit {0})). (x.0.nodes n).up_link_tunnel) q3 in
      let whole = sym last ∙ (anchor_at-DownOnly g e c n s3).up n ∙ sym kept ∙ down.up n in
      subst (λ (x : Tunnel). AllPdrs (AimedUp c.dnn hdr) x.pdr) (sym whole) aimed
