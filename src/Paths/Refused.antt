-- ===== src/Paths/Refused.antt =====
-- Where the activation of a data path fails: UPFs that are not associated, an access network that is
-- known before there is a default PDR, and tunnels whose map of PDRs was never made.
use smf_cdac.Base.{
  ℕ, ◌<◌, ◌≡◌, ◌≢◌, refl, ◌∙◌, ◌⊎◌, inl, inr, true, false, Option, none, some, List, [], ◌∷◌,
  if◌then◌else◌, arith, Outcome, ok, err, panic, length, Bool-cases,
}
use smf_cdac.Base.Text.{Text, text_eq, text_eq_self}
use smf_cdac.Base.Dict.{Dict, lookup, insert, lookup-insert}
use smf_cdac.Upf.Ids.{IdGenerator}
use smf_cdac.Upf.Types.{UeIpAddress}
use smf_cdac.Upf.Rules.{
  UpfStatus, not_associated, associated_setting_up, associated_set_up_success, Qer, Pdr,
  if_associated,
}
use smf_cdac.Paths.Nodes.{prev_node, is_anchor_upf}
use smf_cdac.Paths.Tunnels.{PathState}
use smf_cdac.Paths.Steps.{PathEnv, PathSession, Act, after, ue_ip_address, with_down_pdrs}
use smf_cdac.Paths.Install.{default_name, validate_at}
use smf_cdac.Paths.Forward.{attach}
use smf_cdac.Paths.Activate.{activate_tunnel_and_pdr}
use smf_cdac.Paths.Downlink.{
  down_pdr, set_an, forward_to_an, down_link_pdr, down_link_pdrs, activate_dl_link_pdr,
}
use smf_cdac.Paths.Aimed.{ue_ip_address-returned}
use smf_cdac.Paths.Passes.{Along, visit}
use smf_cdac.Paths.Activation.{activate_tunnel_and_pdr-passes}

module _ (g : IdGenerator) (e : PathEnv) (c : PathSession) where
  abbrev pub SomeUnassociated : PathState g → List ℕ → Type 0
  SomeUnassociated s [] = ⊥
  SomeUnassociated s (n ∷ ns) =
      ((s.upfs (s.nodes n).upf).status ≢ associated_set_up_success) ⊎ SomeUnassociated s ns

  abbrev refused : Outcome (Unit {0})
  refused = err

  unassociated_err :
      (x : UpfStatus) → x ≢ associated_set_up_success → if_associated g x (ok tt) refused ≡ refused
  unassociated_err associated_set_up_success ne = absurd (ne refl)
  unassociated_err not_associated ne = refl
  unassociated_err associated_setting_up ne = refl

  validate-err :
      (ns : List ℕ) (s : PathState g)
      → SomeUnassociated s ns
      → visit (validate_at g e) ns s ≡ (s, err)
  unfolding visit validate_at
  validate-err [] s w = absurd w
  validate-err (n ∷ ns) s (inl ne) = rw (unassociated_err (s.upfs (s.nodes n).upf).status ne) refl
  validate-err (n ∷ ns) s (inr w) = by_status (s.upfs (s.nodes n).upf).status (validate-err ns s w)
    where
      by_status :
          (x : UpfStatus)
          → visit (validate_at g e) ns s ≡ (s, err)
          → after (s, if_associated g x (ok tt) err) (λ done. visit (validate_at g e) ns) ≡ (s, err)
      by_status associated_set_up_success q = q
      by_status not_associated q = refl
      by_status associated_setting_up q = refl

  -- Where some UPF on the path is not associated, ActivateTunnelAndPDR returns an error and changes
  -- nothing: no SEID, PDR or QER is taken, on any fuel above the number of nodes.
  pub activate_tunnel_and_pdr-Unassociated :
      (fuel : ℕ) (first : Option ℕ) (prec : ℕ) (ns : List ℕ) (s : PathState g)
      → Along s.nodes first ns
      → length ns < fuel
      → SomeUnassociated s ns
      → activate_tunnel_and_pdr g e c fuel first prec s ≡ (s, err)
  activate_tunnel_and_pdr-Unassociated fuel first prec ns s a l w =
      activate_tunnel_and_pdr-passes g e c fuel first prec ns s a l ∙ rw (validate-err ns s w) refl

  -- A map that starts with another name than the default.
  other_name :
      (name : Text) (p : Pdr) (pdrs : Dict Pdr)
      → lookup default_name ((name, p) ∷ pdrs) ≡ none
      → text_eq name default_name ≡ false
  unfolding lookup
  other_name name p pdrs q = elim (Bool-cases (text_eq name default_name)) [
    | inl w ↦ absurd (bad w q)
    | inr w ↦ w
  ]
    where
      bad :
          text_eq name default_name ≡ true
          → (if text_eq name default_name then some p else lookup default_name pdrs) ≡ none
          → ⊥
      bad w r = let z = rw w at r in cc

  own_name : (name : Text) (p : Pdr) (pdrs : Dict Pdr) → lookup name ((name, p) ∷ pdrs) ≡ some p
  unfolding lookup
  own_name name p pdrs = rw (text_eq_self name) refl

  still_missing :
      (name : Text) (p marked : Pdr) (pdrs : Dict Pdr)
      → lookup default_name ((name, p) ∷ pdrs) ≡ none
      → lookup default_name (insert name marked ((name, p) ∷ pdrs)) ≡ none
  still_missing name p marked pdrs q =
      lookup-insert name default_name marked ((name, p) ∷ pdrs) ∙ rw (other_name name p pdrs q) q

  set_an-panics :
      (ip : List ℕ) (n : ℕ) (s : PathState g)
      → lookup default_name (s.nodes n).down_link_tunnel.pdr ≡ none
      → (set_an g e c ip n s).1 ≡ panic
  unfolding set_an
  set_an-panics ip n s q = rw (set_an, q) refl

  -- The first round at a node without a previous one.
  round_panics :
      (ue : UeIpAddress) (n : ℕ) (q : Qer) (prec : ℕ) (s : PathState g) (name : Text) (p : Pdr)
      (pdrs : Dict Pdr) (ip : List ℕ)
      → (s.nodes n).down_link_tunnel.pdr ≡ (name, p) ∷ pdrs
      → lookup default_name ((name, p) ∷ pdrs) ≡ none
      → prev_node s.nodes n ≡ none
      → c.an_address ≡ some ip
      → (down_link_pdr g e c ue (some n) n q prec name s).1 ≡ panic
  unfolding down_link_pdr forward_to_an
  round_panics ue n q prec s name p pdrs ip here missing back an =
      let marked = down_pdr (is_anchor_upf s.nodes n) ue (attach q prec p) in
      let put = insert name marked (s.nodes n).down_link_tunnel.pdr in
      let found : lookup name (s.nodes n).down_link_tunnel.pdr ≡ some p =
        rw here (own_name name p pdrs) in
      let gone : lookup default_name put ≡ none =
        rw here (still_missing name p marked pdrs missing) in
      let at_n : ((with_down_pdrs g n put s).nodes n).down_link_tunnel.pdr ≡ put = ground arith in
      let last = set_an-panics ip n (with_down_pdrs g n put s) (rw at_n gone) in
      rw (down_link_pdr, found, back, an) last

  pub after_panic :
      {A B : Type 0} (r : PathState g × Outcome A) (f : A → Act g B)
      → r.1 ≡ panic
      → (after r f).1 ≡ panic
  after_panic (s, ok a) f q = cc
  after_panic (s, err) f q = cc
  after_panic (s, panic) f q = refl

  -- Once the access network has told its address, ActivateDlLinkPdr panics at the first node of a path
  -- whose downlink tunnel has PDRs but none named "default", as where the PCF sent PCC rules.
  pub activate_dl_link_pdr-PanicsWithoutDefault :
      (n : ℕ) (q : Qer) (prec : ℕ) (s : PathState g) (name : Text) (p : Pdr) (pdrs : Dict Pdr)
      (ip : List ℕ)
      → (s.nodes n).down_link_tunnel.pdr ≡ (name, p) ∷ pdrs
      → lookup default_name ((name, p) ∷ pdrs) ≡ none
      → prev_node s.nodes n ≡ none
      → c.an_address ≡ some ip
      → (activate_dl_link_pdr g e c (some n) n q prec s).1 ≡ panic
  unfolding activate_dl_link_pdr down_link_pdrs
  activate_dl_link_pdr-PanicsWithoutDefault n q prec s name p pdrs ip here missing back an =
      by_address (ue_ip_address e c (s.nodes n).upf) (ue_ip_address-returned e c (s.nodes n).upf)
    where
      by_address :
          (o : Outcome UeIpAddress)
          → o ≢ err
          → (after
              (s, o)
              λ ue t.
                down_link_pdrs g e c ue (some n) n q prec (t.nodes n).down_link_tunnel.pdr t).1
            ≡ panic
      by_address (ok ue) w = rw here (
          after_panic (down_link_pdr g e c ue (some n) n q prec name s) _
            (round_panics ue n q prec s name p pdrs ip here missing back an))
      by_address err w = absurd (w refl)
      by_address panic w = refl
