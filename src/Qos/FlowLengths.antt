-- ===== src/Qos/FlowLengths.antt =====
-- The counts and lengths of QoS flow descriptions are those of what is written.
use smf_cdac.Base.{
  ℕ, ◌+◌, ◌*◌, ◌%◌, ◌<◌, ◌≤◌, ◌≡◌, refl, ◌∙◌, Bool, true, false, Bool-cases, inl, inr, List, [],
  ◌∷◌, ◌++◌, arith, length, length-append, All, All-append, Outcome, ok,
}
use smf_cdac.Base.Int.{ℤ, pos, ◌==ℤ◌, to_u8, to_u8-lt}
use smf_cdac.GoStd.Strconv.{atoi}
use smf_cdac.Qos.Filters.{id_or_zero}
use smf_cdac.Qos.Rules.{get_qos_flow_id_from_qos_id}
use smf_cdac.Base.Bits.{bit_and_low_six, bit_or_e_bit}
use smf_cdac.Base.Text.{Text}
use smf_cdac.Qos.Types.{QosData}
use smf_cdac.Qos.FlowTypes.{
  QosFlowParameter, QosFlowDescription, empty_qfd, set_qos_flow_desc_qfi, set_qos_flow_desc_op_code,
  set_qfd_e_bit_create_new_qfd, set_qos_flow_param_bit_rate, add_param, add_qos_flow_param_5qi,
  params_bytes, qfd_bytes,
}
use smf_cdac.Qos.Flows.{
  get_bit_rate, add_qos_flow_rate_param, add_rates, add_description, mod_description,
}

-- A description under construction: at most `k` parameters of at most three bytes; the counts of its
-- parameters and of its bytes are right, and so is the length of every parameter.
pub record Growing (k : ℕ) (d : QosFlowDescription) : Type 0 where
  pub count_right : d.num_of_param ≡ length d.param_list
  pub count_small : length d.param_list ≤ k
  pub len_right : d.qfd_len ≡ 3 + length (params_bytes d.param_list)
  pub len_small : d.qfd_len ≤ 3 + 5 * k
  pub lens_right : All (λ (p : QosFlowParameter). p.param_len ≡ length p.param_content) d.param_list

params_bytes-append :
    (ps : List QosFlowParameter) (p : QosFlowParameter)
    → length (params_bytes (ps ++ (p ∷ [])))
      ≡ length (params_bytes ps) + (2 + length p.param_content)
unfolding params_bytes
params_bytes-append [] p = omega (arith, length-append p.param_content [])
params_bytes-append (x ∷ ps) p = omega (
  arith,
  length-append x.param_content (params_bytes (ps ++ (p ∷ []))),
  length-append x.param_content (params_bytes ps),
  params_bytes-append ps p,
)

add_param-Growing :
    (k n : ℕ) (p : QosFlowParameter) (d : QosFlowDescription)
    → p.param_len ≡ length p.param_content
    → n ≡ 2 + length p.param_content
    → n ≤ 5
    → k < 40
    → Growing k d
    → Growing (k + 1) (add_param p n d)
add_param-Growing k n p d e l m s g = record {
  count_right = omega (arith, g.count_right, g.count_small, length-append d.param_list (p ∷ []));
  count_small = omega (arith, g.count_small, length-append d.param_list (p ∷ []));
  len_right = omega (arith, g.len_right, g.len_small, params_bytes-append d.param_list p);
  len_small = omega (arith, g.len_small);
  lens_right = All-append _ d.param_list (p ∷ []) g.lens_right (e, tt);
}

-- A rate is absent, or has a value and a unit.
abbrev pub HasRate : (Text → ℕ) → Text → Type 0
HasRate rate16 [] = Unit
HasRate rate16 (c ∷ cs) = (r : ℕ × ℕ) × (get_bit_rate rate16 (c ∷ cs) ≡ ok r)

abbrev GrowsTo : ℕ → QosFlowDescription → Outcome QosFlowDescription → Type 0
GrowsTo k d o =
    (d' : QosFlowDescription) × (o ≡ ok d')
    × Growing k d'
    × (d'.qfi ≡ d.qfi)
    × (d'.op_code ≡ d.op_code)

rate-Growing :
    (rate16 : Text → ℕ) (rate : Text) (kind k : ℕ) (d : QosFlowDescription)
    → HasRate rate16 rate
    → k < 40
    → Growing k d
    → GrowsTo (k + 1) d (add_qos_flow_rate_param rate16 rate kind d)
unfolding add_qos_flow_rate_param set_qos_flow_param_bit_rate
rate-Growing rate16 [] kind k d r s g = (
  d,
  refl,
  record {
    count_right = g.count_right;
    count_small = omega (arith, g.count_small);
    len_right = g.len_right;
    len_small = omega (arith, g.len_small);
    lens_right = g.lens_right;
  },
  refl,
  refl,
)
rate-Growing rate16 (c ∷ cs) kind k d (r, e) s g =
    let p = set_qos_flow_param_bit_rate kind r.1 r.0 in
    (add_param p 5 d, rw e refl, add_param-Growing k 5 p d refl refl (omega arith) s g, refl, refl)

-- The four rates of QoS data.
pub record HasRates (rate16 : Text → ℕ) (q : QosData) : Type 0 where
  pub maxbr_ul_rate : HasRate rate16 q.maxbr_ul
  pub maxbr_dl_rate : HasRate rate16 q.maxbr_dl
  pub gbr_ul_rate : HasRate rate16 q.gbr_ul
  pub gbr_dl_rate : HasRate rate16 q.gbr_dl

rates-Growing :
    (rate16 : Text → ℕ) (q : QosData) (d : QosFlowDescription)
    → HasRates rate16 q
    → Growing 1 d
    → GrowsTo 5 d (add_rates rate16 q d)
unfolding add_rates
rates-Growing rate16 q d h g =
    let (d1, e1, g1, a1, b1) =
      rate-Growing rate16 q.maxbr_ul 0x04 1 d h.maxbr_ul_rate (omega arith) g in
    let (d2, e2, g2, a2, b2) =
      rate-Growing rate16 q.maxbr_dl 0x05 2 d1 h.maxbr_dl_rate (omega arith) g1 in
    let (d3, e3, g3, a3, b3) =
      rate-Growing rate16 q.gbr_ul 0x02 3 d2 h.gbr_ul_rate (omega arith) g2 in
    let (d4, e4, g4, a4, b4) =
      rate-Growing rate16 q.gbr_dl 0x03 4 d3 h.gbr_dl_rate (omega arith) g3 in
    (d4, rw (e1, e2, e3) e4, g4, a4 ∙ a3 ∙ a2 ∙ a1, b4 ∙ b3 ∙ b2 ∙ b1)

-- What a description that is sent must be: its QFI is that of `id`, its operation code `op`; the third
-- byte counts the parameters and carries the E bit, the lengths are those of what is written.
pub record DescriptionFits (id op : ℕ) (d : QosFlowDescription) : Type 0 where
  pub qfi_right : d.qfi ≡ id % 64
  pub op_right : d.op_code ≡ op
  pub count_right : d.num_of_param ≡ 64 + length d.param_list
  pub count_small : length d.param_list ≤ 5
  pub len_right : d.qfd_len ≡ length (qfd_bytes d)
  pub lens_right : All (λ (p : QosFlowParameter). p.param_len ≡ length p.param_content) d.param_list

-- The finished description: the E bit does not touch the count.
finished-DescriptionFits :
    (id op : ℕ) (d : QosFlowDescription)
    → Growing 5 d
    → d.qfi ≡ id % 64
    → d.op_code ≡ op
    → DescriptionFits id op (set_qfd_e_bit_create_new_qfd d)
unfolding set_qfd_e_bit_create_new_qfd
finished-DescriptionFits id op d g q o = record {
  qfi_right = q;
  op_right = o;
  count_right = omega (
    arith,
    bit_or_e_bit d.num_of_param (omega (arith, g.count_right, g.count_small)),
    g.count_right,
  );
  count_small = g.count_small;
  len_right = omega (arith, g.len_right);
  lens_right = g.lens_right;
}

id_or_zero-lt : (a : ℤ × Bool) → id_or_zero a < 256
id_or_zero-lt (n, true) = omega arith
id_or_zero-lt (n, false) = to_u8-lt n

-- QoS data whose rates have a value and a unit make a description to create a flow, with the QFI of
-- their id, whose counts and lengths are right.
pub add_description-DescriptionFits :
    (rate16 : Text → ℕ) (q : QosData)
    → HasRates rate16 q
    → (d : QosFlowDescription) × (add_description rate16 q ≡ ok d)
      × DescriptionFits (get_qos_flow_id_from_qos_id q.qos_id) 0x20 d
unfolding add_description set_qos_flow_desc_qfi set_qos_flow_desc_op_code add_qos_flow_param_5qi
    get_qos_flow_id_from_qos_id params_bytes
add_description-DescriptionFits rate16 q h =
    let id = get_qos_flow_id_from_qos_id q.qos_id in
    let d0 =
      add_qos_flow_param_5qi (to_u8 q.var_5qi)
        (set_qos_flow_desc_op_code 0x20 (set_qos_flow_desc_qfi id empty_qfd)) in
    let g : Growing 1 d0 = record {
      count_right = refl;
      count_small = omega arith;
      len_right = refl;
      len_small = omega arith;
      lens_right = (refl, tt);
    } in
    let (d, e, g', a, b) = rates-Growing rate16 q d0 h g in
    let low = bit_and_low_six id (id_or_zero-lt (atoi q.qos_id)) in
    (set_qfd_e_bit_create_new_qfd d, rw e refl, finished-DescriptionFits id 0x20 d g' (a ∙ low) b)

-- QoS data with readable rates make a description to modify a flow in the same way, with the 5QI only
-- where it is not 0.
pub mod_description-DescriptionFits :
    (rate16 : Text → ℕ) (q : QosData)
    → HasRates rate16 q
    → (d : QosFlowDescription) × (mod_description rate16 q ≡ ok d)
      × DescriptionFits (get_qos_flow_id_from_qos_id q.qos_id) 0x40 d
unfolding mod_description set_qos_flow_desc_qfi set_qos_flow_desc_op_code add_qos_flow_param_5qi
    get_qos_flow_id_from_qos_id params_bytes
mod_description-DescriptionFits rate16 q h =
    let id = get_qos_flow_id_from_qos_id q.qos_id in
    let d0 = set_qos_flow_desc_op_code 0x40 (set_qos_flow_desc_qfi id empty_qfd) in
    let low = bit_and_low_six id (id_or_zero-lt (atoi q.qos_id)) in
    elim (Bool-cases (q.var_5qi ==ℤ pos 0)) [
      | inl z ↦
          let g : Growing 1 d0 = record {
            count_right = refl;
            count_small = omega arith;
            len_right = refl;
            len_small = omega arith;
            lens_right = tt;
          } in
          let (d, e, g', a, b) = rates-Growing rate16 q d0 h g in
          (
            set_qfd_e_bit_create_new_qfd d,
            rw (z, e) refl,
            finished-DescriptionFits id 0x40 d g' (a ∙ low) b,
          )
      | inr z ↦
          let g : Growing 1 (add_qos_flow_param_5qi (to_u8 q.var_5qi) d0) = record {
            count_right = refl;
            count_small = omega arith;
            len_right = refl;
            len_small = omega arith;
            lens_right = (refl, tt);
          } in
          let (d, e, g', a, b) =
            rates-Growing rate16 q (add_qos_flow_param_5qi (to_u8 q.var_5qi) d0) h g in
          (
            set_qfd_e_bit_create_new_qfd d,
            rw (z, e) refl,
            finished-DescriptionFits id 0x40 d g' (a ∙ low) b,
          )
    ]
