-- ===== src/Paths/Uplink.antt =====
-- ActivateTunnelAndPDR and the uplink of a path, through all its rounds.
use smf_cdac.Base.{
  ℕ, ◌<◌, ◌≡◌, ◌≢◌, refl, sym, ◌∙◌, ap, Option, none, some, List, [], ◌∷◌, arith, Outcome, ok, err,
  panic, length, All,
}
use mathlib.Core.Path.{subst}
use smf_cdac.Upf.Ids.{IdGenerator}
use smf_cdac.Upf.Rules.{Qer}
use smf_cdac.Paths.Nodes.{NodeHeap}
use smf_cdac.Paths.Tunnels.{PathState}
use smf_cdac.Paths.Steps.{PathEnv, PathSession, logged, ue_ip_address}
use smf_cdac.Paths.Qers.{create_sess_rule_qer}
use smf_cdac.Paths.Install.{validate_at, allocate_seid_at, activate_tunnels_at}
use smf_cdac.Paths.Forward.{activate_up_link_pdr}
use smf_cdac.Paths.Activate.{activate_pdrs_at, activate_tunnel_and_pdr}
use smf_cdac.Paths.Downlink.{activate_dl_link_pdr}
use smf_cdac.Paths.Passes.{
  Along, Distinct, Shape, Shape-trans, rel-after, after-returned, visit, Along-Shape,
}
use smf_cdac.Paths.Kept.{validate_at-Keeps, allocate_seid_at-Keeps, activate_tunnels_at-Keeps}
use smf_cdac.Paths.Untouched.{
  logged-DownOnly, activate_dl_link_pdr-DownOnly, anchor_at-DownOnly, create_sess_rule_qer-nodes,
  activate_pdrs_at-Keeps,
}
use smf_cdac.Paths.Activation.{activate_tunnel_and_pdr-passes}
use smf_cdac.Paths.Connected.{
  Hops, Reaches-header_to, Connected, Ended, Ended-Shape, reach-Shape, Hops-Shape, Shape-visited,
  tunnels-Ended, header-last, header-next, round-Aimed,
}

-- The uplink tunnel of one node, before and behind.
abbrev SameUp : ℕ → NodeHeap → NodeHeap → Type 0
SameUp n h k = (k n).up_link_tunnel ≡ (h n).up_link_tunnel

SameUp-join : (n : ℕ) (h k l : NodeHeap) → SameUp n h k → SameUp n k l → SameUp n h l
SameUp-join n h k l a b = b ∙ a

module _ {g : IdGenerator} where
  logged-SameUp :
      (n : ℕ) (s : PathState g) (r : PathState g × Outcome (Unit {0}))
      → SameUp n s.nodes r.0.nodes
      → SameUp n s.nodes (logged r).0.nodes
  logged-SameUp n s (t, ok a) k = k
  logged-SameUp n s (t, err) k = k
  logged-SameUp n s (t, panic) k = k

module _ (g : IdGenerator) (e : PathEnv) (c : PathSession) where
  up_link_others :
      (n k : ℕ) (q : Qer) (prec : ℕ) (s : PathState g)
      → n ≢ k
      → SameUp n s.nodes (activate_up_link_pdr g e c k q prec s).0.nodes
  unfolding activate_up_link_pdr
  up_link_others n k q prec s ne =
      rel-after (SameUp n) (SameUp-join n) s (s, ue_ip_address e c (s.nodes k).upf) _ refl
        λ ue t. ground arith

  round_others :
      (first : Option ℕ) (prec n k : ℕ) (s : PathState g)
      → n ≢ k
      → SameUp n s.nodes (activate_pdrs_at g e c first prec k s).0.nodes
  unfolding activate_pdrs_at
  round_others first prec n k s ne =
      let join = SameUp-join n in
      let unmade =
        ap (λ (h : NodeHeap). (h n).up_link_tunnel)
          (create_sess_rule_qer-nodes g e c (s.nodes k).upf s) in
      rel-after (SameUp n) join s (create_sess_rule_qer g c (s.nodes k).upf s) _ unmade λ q t.
        rel-after (SameUp n) join t (logged (activate_up_link_pdr g e c k q prec t)) _
          (logged-SameUp n t (activate_up_link_pdr g e c k q prec t)
            (up_link_others n k q prec t ne))
          λ a v.
            rel-after (SameUp n) join v (logged (activate_dl_link_pdr g e c first k q prec v)) _
              ((logged-DownOnly v (activate_dl_link_pdr g e c first k q prec v)
                  (activate_dl_link_pdr-DownOnly g e c first k q prec v)).up
                n)
              λ b w. (anchor_at-DownOnly g e c k w).up n

  rounds_others :
      (first : Option ℕ) (prec n : ℕ) (ks : List ℕ) (s : PathState g)
      → All (λ k. n ≢ k) ks
      → SameUp n s.nodes (visit (activate_pdrs_at g e c first prec) ks s).0.nodes
  unfolding visit
  rounds_others first prec n [] s ne = refl
  rounds_others first prec n (k ∷ ks) s ne =
      rel-after (SameUp n) (SameUp-join n) s (activate_pdrs_at g e c first prec k s)
        (λ done. visit (activate_pdrs_at g e c first prec) ks) (round_others first prec n k s ne.0)
        (λ a t. rounds_others first prec n ks t ne.1)

  -- The last pass, from a state in which the tunnels end at their nodes.
  rounds-Connected :
      (first : Option ℕ) (prec : ℕ) (o : Option ℕ) (ns : List ℕ) (s t : PathState g) (d : Unit {0})
      → Along s.nodes o ns
      → Distinct ns
      → Ended e c s.nodes ns
      → Hops e c s.nodes ns
      → visit (activate_pdrs_at g e c first prec) ns s ≡ (t, ok d)
      → Connected e c t.nodes ns
  unfolding visit
  rounds-Connected first prec o [] s t d a x y z q = tt
  rounds-Connected first prec o (n ∷ []) s t d a x y z q =
      let (b, w, here, rest) = after-returned (activate_pdrs_at g e c first prec n s) _ t d q in
      let aimed =
        round-Aimed g e c first prec n s w b none here (header-last g e c s.nodes n a.1) in
      let same = ap (λ (r : PathState g × Outcome (Unit {0})). (r.0.nodes n).up_link_tunnel) rest in
      rw (sym same) aimed
  rounds-Connected first prec o (n ∷ m ∷ ns) s t d a x y z q =
      let body = activate_pdrs_at g e c first prec in
      let (b, w, here, rest) = after-returned (body n s) _ t d q in
      let (hd, reached) = z.0 in
      let keeps = activate_pdrs_at-Keeps g e c first prec in
      let one : Shape s.nodes w.nodes =
        subst (λ (r : PathState g × Outcome (Unit {0})). Shape s.nodes r.0.nodes) here
          (keeps n s) in
      let more = Shape-visited g e c body (m ∷ ns) w t d keeps rest in
      let aimed = round-Aimed g e c first prec n s w b (some hd) here (
        header-next g e c s.nodes n m hd a.1.0 y.1.0
          (Reaches-header_to e c s.nodes m hd reached)) in
      let same =
        subst (λ (r : PathState g × Outcome (Unit {0})). SameUp n w.nodes r.0.nodes) rest
          (rounds_others first prec n (m ∷ ns) w x.0) in
      (
        (hd, reach-Shape e c s.nodes t.nodes m hd (Shape-trans one more) reached, rw same aimed),
        rounds-Connected first prec (some m) (m ∷ ns) w t d
            (refl, (Along-Shape s w (some m) (m ∷ ns) one (refl, a.1.1)).1) x.1
            (Ended-Shape e c s.nodes w.nodes (m ∷ ns) one y.1)
            (Hops-Shape e c s.nodes w.nodes (m ∷ ns) one z.1) rest,
      )

  -- On a path over distinct nodes whose UPFs, behind the first, have an N9 interface with an address for
  -- the DNN, as GetInterface and IP find it, an ActivateTunnelAndPDR that returns without an error, on
  -- fuel above the number of nodes, leaves every PDR of each node's uplink tunnel taking traffic from the
  -- access side and its FAR forwarding it, not dropping or buffering it: into the core behind a
  -- GTP-U header with the next UPF's address and the TEID of the next node's uplink tunnel, or at the
  -- last node bare to the data network.
  pub activate_tunnel_and_pdr-Connected :
      (fuel : ℕ) (first : Option ℕ) (prec : ℕ) (ns : List ℕ) (s t : PathState g) (d : Unit {0})
      → Along s.nodes first ns
      → Distinct ns
      → length ns < fuel
      → Hops e c s.nodes ns
      → activate_tunnel_and_pdr g e c fuel first prec s ≡ (t, ok d)
      → Connected e c t.nodes ns
  activate_tunnel_and_pdr-Connected fuel first prec ns s t d a x l z q =
      let run = sym (activate_tunnel_and_pdr-passes g e c fuel first prec ns s a l) ∙ q in
      let (b1, s1, e1, q1) = after-returned (visit (validate_at g e) ns s) _ t d run in
      let (b2, s2, e2, q2) = after-returned (visit (allocate_seid_at g e) ns s1) _ t d q1 in
      let (b3, s3, e3, q3) = after-returned (visit (activate_tunnels_at g e c) ns s2) _ t d q2 in
      let k1 = Shape-visited g e c (validate_at g e) ns s s1 b1 (validate_at-Keeps g e c) e1 in
      let k2 =
        Shape-visited g e c (allocate_seid_at g e) ns s1 s2 b2 (allocate_seid_at-Keeps g e c) e2 in
      let k3 =
        Shape-visited g e c (activate_tunnels_at g e c) ns s2 s3 b3
          (activate_tunnels_at-Keeps g e c) e3 in
      let all = Shape-trans k1 (Shape-trans k2 k3) in
      rounds-Connected first prec first ns s3 t d (Along-Shape s s3 first ns all a) x
        (tunnels-Ended g e c ns s2 s3 b3 e3) (Hops-Shape e c s.nodes s3.nodes ns all z) q3
