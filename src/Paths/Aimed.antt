-- ===== src/Paths/Aimed.antt =====
-- ActivateUpLinkPdr at one node, whose next node, if any, has an address for the DNN.
use smf_cdac.Base.{
  ℕ, ◌≡◌, ◌≢◌, refl, true, false, Option, none, some, [], ◌∷◌, arith, Outcome, ok, err, panic,
}
use smf_cdac.Base.Text.{Text}
use smf_cdac.Base.Dict.{Dict}
use smf_cdac.Upf.Ids.{IdGenerator}
use smf_cdac.Upf.Types.{UeIpAddress, access, core, sgi_lan_n6_lan, Interface, OuterHeaderCreation}
use smf_cdac.Upf.Rules.{Qer, Pdr, Far}
use smf_cdac.Paths.Tunnels.{PathState}
use smf_cdac.Paths.Steps.{PathEnv, PathSession, after, ue_ip_address, with_up_pdrs}
use smf_cdac.Paths.Forward.{
  forward_up, each_pdr, up_link_pdr, next_header, attach, up_pdr, activate_up_link_pdr,
}

-- A property of every PDR of a tunnel.
abbrev pub AllPdrs : (Pdr → Type 0) → Dict Pdr → Type 0
AllPdrs P [] = Unit
AllPdrs P ((name, p) ∷ pdrs) = P p × AllPdrs P pdrs

abbrev pub side : Option OuterHeaderCreation → Interface
side none = sgi_lan_n6_lan
side (some h) = core

-- A PDR that takes what comes from the access side and forwards it: behind a header into the core, or
-- bare to the data network.
abbrev pub AimedUp : Text → Option OuterHeaderCreation → Pdr → Type 0
AimedUp dnn hdr p =
    (p.pdi.source_interface ≡ access)
    × (p.pdi.network_instance ≡ dnn)
    × ((f : Far) × (p.far ≡ some f)
        × (f.apply_action
            ≡ record { dupl = false; nocp = false; buff = false; forw = true; drop = false })
        × (f.forwarding_parameters
            ≡ some (record {
              outer_header_creation = hdr;
              pfcpsm_req_flags = none;
              forwarding_policy_id = [];
              network_instance = dnn;
              destination_interface = side hdr;
            })))

-- What an outcome without an error says.
abbrev pub Fine : {X : Type 0} → (X → Type 0) → X × Outcome (Unit {0}) → Type 0
Fine P (x, ok d) = P x
Fine P (x, err) = ⊥
Fine P (x, panic) = Unit

abbrev pub wrap : Option OuterHeaderCreation → Option (Outcome OuterHeaderCreation)
wrap none = none
wrap (some h) = some (ok h)

forward_up-Fine :
    (hdr : Option OuterHeaderCreation) (dnn : Text) (p : Pdr) (f : Option Far)
    → p.pdi.source_interface ≡ access
    → p.pdi.network_instance ≡ dnn
    → Fine (AimedUp dnn hdr) (forward_up (wrap hdr) dnn p f)
unfolding forward_up
forward_up-Fine none dnn p none a b = tt
forward_up-Fine (some h) dnn p none a b = tt
forward_up-Fine none dnn p (some f) a b = (a, b, (_, refl, refl, refl))
forward_up-Fine (some h) dnn p (some f) a b = (a, b, (_, refl, refl, refl))

each_pdr-Fine :
    (P : Pdr → Type 0) (f : Pdr → Pdr × Outcome (Unit {0}))
    → ((p : Pdr) → Fine P (f p))
    → (pdrs : Dict Pdr) → Fine (AllPdrs P) (each_pdr f pdrs)
unfolding each_pdr
each_pdr-Fine P f k [] = tt
each_pdr-Fine P f k ((name, p) ∷ pdrs) =
    both (f p) (k p) (each_pdr f pdrs) (each_pdr-Fine P f k pdrs)
  where
    both :
        (r : Pdr × Outcome (Unit {0}))
        → Fine P r
        → (rest : Dict Pdr × Outcome (Unit {0})) → Fine (AllPdrs P) rest
        → Fine (AllPdrs P) (elim r.1 [
          | ok done ↦ ((name, r.0) ∷ rest.0, rest.1)
          | err ↦ ((name, r.0) ∷ pdrs, err)
          | panic ↦ ((name, r.0) ∷ pdrs, panic)
        ])
    both (q, ok d) a (rest, ok b) w = (a, w)
    both (q, ok d) a (rest, err) w = absurd w
    both (q, ok d) a (rest, panic) w = tt
    both (q, err) a rest w = absurd a
    both (q, panic) a rest w = tt

pub ue_ip_address-returned : (e : PathEnv) (c : PathSession) (u : ℕ) → ue_ip_address e c u ≢ err
unfolding ue_ip_address
ue_ip_address-returned e c u = ground arith

module _ (g : IdGenerator) (e : PathEnv) (c : PathSession) where
  pub activate_up_link_pdr-Fine :
      (n : ℕ) (q : Qer) (prec : ℕ) (s : PathState g) (hdr : Option OuterHeaderCreation)
      → next_header g e c s.nodes n ≡ wrap hdr
      → Fine
          (λ t. AllPdrs (AimedUp c.dnn hdr) (t.nodes n).up_link_tunnel.pdr)
          (activate_up_link_pdr g e c n q prec s)
  unfolding activate_up_link_pdr up_link_pdr up_pdr
  activate_up_link_pdr-Fine n q prec s hdr k =
      by_address (ue_ip_address e c (s.nodes n).upf) (ue_ip_address-returned e c (s.nodes n).upf)
    where
      by_loop :
          (r : Dict Pdr × Outcome (Unit {0}))
          → Fine (AllPdrs (AimedUp c.dnn hdr)) r
          → Fine
              (λ (t : PathState g). AllPdrs (AimedUp c.dnn hdr) (t.nodes n).up_link_tunnel.pdr)
              (with_up_pdrs g n r.0 s, r.1)
      by_loop (pdrs, ok d) w =
          let at_n : ((with_up_pdrs g n pdrs s).nodes n).up_link_tunnel.pdr ≡ pdrs = ground arith in
          rw at_n w
      by_loop (pdrs, err) w = absurd w
      by_loop (pdrs, panic) w = tt

      by_address :
          (o : Outcome UeIpAddress)
          → o ≢ err
          → Fine
              (λ (t : PathState g). AllPdrs (AimedUp c.dnn hdr) (t.nodes n).up_link_tunnel.pdr)
              (after
                (s, o)
                λ ue t.
                  let f = up_link_pdr g e c ue (next_header g e c t.nodes n) q prec in
                  let r = each_pdr f (t.nodes n).up_link_tunnel.pdr in
                  (with_up_pdrs g n r.0 t, r.1))
      by_address (ok ue) w =
          let f = up_link_pdr g e c ue (next_header g e c s.nodes n) q prec in
          let pdrs = (s.nodes n).up_link_tunnel.pdr in
          by_loop (each_pdr f pdrs) (
            each_pdr-Fine (AimedUp c.dnn hdr) f
              (λ p.
                rw k
                  (forward_up-Fine hdr c.dnn (up_pdr ue c.dnn (attach q prec p)) p.far refl refl))
              pdrs)
      by_address err w = absurd (w refl)
      by_address panic w = tt
