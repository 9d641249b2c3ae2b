-- ===== src/Paths/Teardown.antt =====
-- What DeactivateTunnelAndPDR does to a data path: DeactivateUpLinkTunnel resets the downlink tunnel, so
-- nothing but the first node's uplink is taken down.
use smf_cdac.Base.{
  ℕ, suc, ◌≡◌, ◌≢◌, refl, sym, ◌∙◌, ap, Option, none, some, List, [], ◌∷◌, arith, ok, ◌>>=◌,
}
use mathlib.Core.Path.{subst}
use smf_cdac.Base.Text.{Text, text_eq_self}
use smf_cdac.Base.Dict.{Dict, lookup, insert, lookup-insert}
use smf_cdac.Upf.Ids.{IdGenerator}
use smf_cdac.Upf.Rules.{
  UpfStatus, not_associated, associated_setting_up, associated_set_up_success, Bar, Far, Qer, Pdr,
  Shelf, Upf, if_associated, give_back, remove_pdr, remove_far, remove_bar, remove_qer,
}
use smf_cdac.Paths.Nodes.{Tunnel, NodeHeap, empty_tunnel, next_node}
use smf_cdac.Paths.Tunnels.{
  PfcpSession, without_pdr, PathState, set_upf, remove_pdr_from_pfcp_session, remove_qers,
  remove_bar_of, remove_far_of, remove_rules, remove_pdrs, reset_down_link,
  deactivate_up_link_tunnel, deactivate_down_link_tunnel, deactivate_tunnel_and_pdr,
}

-- No PDR of the tunnel has the id.
abbrev pub Absent : ℕ → Dict Pdr → Type 0
Absent id [] = Unit
Absent id ((name, p) ∷ pdrs) = (id ≢ p.pdr_id) × Absent id pdrs

module _ (g : IdGenerator) where
  -- What the removal of FARs, BARs and QERs leaves alone.
  either_same :
      {A B : Type 0} (P : A → B) (s : UpfStatus) (v w : A)
      → P v ≡ P w
      → P (if_associated g s v w) ≡ P w
  either_same P associated_set_up_success v w e = e
  either_same P not_associated v w e = refl
  either_same P associated_setting_up v w e = refl

  remove_qers-pdrs : (qs : List (Option Qer)) (x : Upf g) → (remove_qers g qs x).pdrs ≡ x.pdrs
  unfolding remove_qers remove_qer
  remove_qers-pdrs [] x = refl
  remove_qers-pdrs (none ∷ qs) x = remove_qers-pdrs qs x
  remove_qers-pdrs (some q ∷ qs) x =
      remove_qers-pdrs qs (remove_qer g q x)
      ∙ either_same (λ (y : Upf g). y.pdrs) x.status
          (record x { qers = give_back g q.qer_id x.qers }) x refl

  remove_bar_of-pdrs : (b : Option Bar) (x : Upf g) → (remove_bar_of g b x).pdrs ≡ x.pdrs
  unfolding remove_bar_of remove_bar
  remove_bar_of-pdrs none x = refl
  remove_bar_of-pdrs (some b) x =
      either_same (λ (y : Upf g). y.pdrs) x.status (record x { bars = give_back g b.bar_id x.bars })
        x refl

  remove_far_of-pdrs : (f : Option Far) (x : Upf g) → (remove_far_of g f x).pdrs ≡ x.pdrs
  unfolding remove_far_of remove_far
  remove_far_of-pdrs none x = refl
  remove_far_of-pdrs (some f) x =
      remove_bar_of-pdrs f.bar (remove_far g f x)
      ∙ either_same (λ (y : Upf g). y.pdrs) x.status
          (record x { fars = give_back g f.far_id x.fars }) x refl

  remove_pdr-keeps :
      (p : Pdr) (x : Upf g) (id : ℕ)
      → id ≢ p.pdr_id
      → (remove_pdr g p x).pdrs.pool id ≡ x.pdrs.pool id
  unfolding remove_pdr give_back
  remove_pdr-keeps p x id ne =
      either_same (λ (y : Upf g). y.pdrs.pool id) x.status
        (record x { pdrs = give_back g p.pdr_id x.pdrs }) x (ground arith)

  remove_rules-keeps :
      (p : Pdr) (x : Upf g) (id : ℕ)
      → id ≢ p.pdr_id
      → (remove_rules g p x).pdrs.pool id ≡ x.pdrs.pool id
  unfolding remove_rules
  remove_rules-keeps p x id ne =
      let y = remove_pdr g p x in
      let z = remove_far_of g p.far y in
      ap (λ (s : Shelf g). s.pool id) (remove_qers-pdrs p.qer z ∙ remove_far_of-pdrs p.far y)
      ∙ remove_pdr-keeps p x id ne

module _ (g : IdGenerator) (address : ℕ → Text) where
  -- What the removal of some PDRs from the UPF `u` leaves alone.
  abbrev Kept : ℕ → Dict Pdr → PathState g → PathState g → Type 0
  Kept u pdrs s t =
      (t.nodes ≡ s.nodes)
      × ((m : ℕ) → m ≢ u → t.upfs m ≡ s.upfs m)
      × ((id : ℕ) → Absent id pdrs → (t.upfs u).pdrs.pool id ≡ (s.upfs u).pdrs.pool id)

  -- The state behind the removal of one PDR.
  abbrev without : ℕ → Pdr → PfcpSession → PathState g → PathState g
  without u p c s =
      let t : PathState g = record s {
        pfcp_context = insert (address u) (without_pdr p.pdr_id c) s.pfcp_context;
      } in
      set_upf g u (remove_rules g p (t.upfs u)) t

  without-Kept :
      (u : ℕ) (name : Text) (p : Pdr) (pdrs : Dict Pdr) (c : PfcpSession) (s t : PathState g)
      → Kept u pdrs (without u p c s) t
      → Kept u ((name, p) ∷ pdrs) s t
  without-Kept u name p pdrs c s t k = (
    k.0,
    λ m ne. let w = k.1 m ne in ground arith,
    λ id a. let w = k.2 id a.1 in let r = remove_rules-keeps g p (s.upfs u) id a.0 in ground arith,
  )

  remove_pdrs-runs :
      (u : ℕ) (pdrs : Dict Pdr) (s : PathState g) (c : PfcpSession)
      → lookup (address u) s.pfcp_context ≡ some c
      → (t : PathState g) × (remove_pdrs g address u pdrs s ≡ ok t) × Kept u pdrs s t
  unfolding remove_pdrs remove_pdr_from_pfcp_session
  remove_pdrs-runs u [] s c e = (s, refl, (refl, λ m ne. refl, λ id a. refl))
  remove_pdrs-runs u ((name, p) ∷ pdrs) s c e =
      let next = without u p c s in
      let there : lookup (address u) next.pfcp_context ≡ some (without_pdr p.pdr_id c) =
        lookup-insert (address u) (address u) (without_pdr p.pdr_id c) s.pfcp_context
        ∙ rw (text_eq_self (address u)) refl in
      let rest = remove_pdrs-runs u pdrs next (without_pdr p.pdr_id c) there in
      (
        rest.0,
        rw (remove_pdr_from_pfcp_session, e) rest.1,
        without-Kept u name p pdrs c s rest.0 rest.2,
      )

  -- What is left once the first node's uplink tunnel is taken down: all other nodes and UPFs, and each
  -- PDR id that the uplink tunnel did not have; the downlink tunnel is empty.
  abbrev pub UplinkOnly : ℕ → PathState g → PathState g → Type 0
  UplinkOnly n s t =
      ((m : ℕ) → m ≢ n → t.nodes m ≡ s.nodes m)
      × ((t.nodes n).down_link_tunnel ≡ empty_tunnel)
      × ((m : ℕ) → m ≢ (s.nodes n).upf → t.upfs m ≡ s.upfs m)
      × ((id : ℕ)
          → Absent id (s.nodes n).up_link_tunnel.pdr
          → (t.upfs (s.nodes n).upf).pdrs.pool id ≡ (s.upfs (s.nodes n).upf).pdrs.pool id)

  uplink_taken_down :
      (n : ℕ) (s : PathState g) (c : PfcpSession)
      → lookup (address (s.nodes n).upf) s.pfcp_context ≡ some c
      → (t : PathState g) × (deactivate_up_link_tunnel g address n s ≡ ok t) × UplinkOnly n s t
  unfolding deactivate_up_link_tunnel reset_down_link
  uplink_taken_down n s c e =
      let r = remove_pdrs-runs (s.nodes n).upf (s.nodes n).up_link_tunnel.pdr s c e in
      (
        reset_down_link g n r.0,
        rw r.1 refl,
        (
          λ m ne. let w = ap (λ (h : NodeHeap). h m) r.2.0 in ground arith,
          ground arith,
          r.2.1,
          r.2.2,
        ),
      )

  -- The rest of the loop finds an empty downlink tunnel, and no next node.
  rest_of_loop :
      (fuel n : ℕ) (t : PathState g)
      → (t.nodes n).down_link_tunnel ≡ empty_tunnel
      → (deactivate_down_link_tunnel g address n t
          >>= (λ w. deactivate_tunnel_and_pdr g address (suc fuel) (next_node w.nodes n) w))
        ≡ ok (reset_down_link g n t)
  unfolding deactivate_down_link_tunnel deactivate_tunnel_and_pdr remove_pdrs reset_down_link
      next_node
  rest_of_loop fuel n t e =
      let none_left : (t.nodes n).down_link_tunnel.pdr ≡ [] = ap (λ (x : Tunnel). x.pdr) e in
      let w = reset_down_link g n t in
      let no_next : next_node w.nodes n ≡ none = ground arith in
      rw none_left
        (subst (λ o. deactivate_tunnel_and_pdr g address (suc fuel) o w ≡ ok w) (sym no_next) refl)

  -- On a data path whose first node's UPF has a PFCP context, DeactivateTunnelAndPDR ends after one round
  -- and returns, however long the path is: it leaves every other node and every other UPF as it was, and
  -- in the first node's UPF every PDR id that the uplink tunnel did not have, those of the downlink
  -- tunnel among them, while the tunnel itself is emptied.
  pub deactivate_tunnel_and_pdr-UplinkOnly :
      (fuel n : ℕ) (s : PathState g) (c : PfcpSession)
      → lookup (address (s.nodes n).upf) s.pfcp_context ≡ some c
      → (t : PathState g) × (deactivate_tunnel_and_pdr g address (suc (suc fuel)) (some n) s ≡ ok t)
        × UplinkOnly n s t
  unfolding deactivate_tunnel_and_pdr reset_down_link
  deactivate_tunnel_and_pdr-UplinkOnly fuel n s c e =
      let up = uplink_taken_down n s c e in
      let k = up.2 in
      let again = rest_of_loop fuel n up.0 k.1 in
      (
        reset_down_link g n up.0,
        rw up.1 again,
        (λ m ne. let w = k.0 m ne in ground arith, ground arith, k.2, k.3),
      )
