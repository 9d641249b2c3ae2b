-- ===== src/Qos/FlowWire.antt =====
-- The QoS flow descriptions IE as its reader sees it (TS 24.501, 9.11.4.12): a decoder that owes
-- nothing to the encoder, and what it makes of the descriptions that are sent.
use smf_cdac.Base.{
  ℕ, zero, suc, ◌*◌, ◌/◌, ◌%◌, ◌≡◌, refl, ap, ◌∙◌, Option, none, some, List, [], ◌∷◌, ◌++◌, map,
  arith, length, All, ok,
}
use mathlib.Core.List.{append_assoc}
use smf_cdac.Qos.Wire.{split_at}
use smf_cdac.Qos.RoundTrip.{split_at-append}
use smf_cdac.Qos.FlowTypes.{QosFlowParameter, QosFlowDescription, params_bytes, qfd_bytes}
use smf_cdac.Base.Text.{Text}
use smf_cdac.Qos.Types.{QosData}
use smf_cdac.Qos.Rules.{get_qos_flow_id_from_qos_id}
use smf_cdac.Qos.Flows.{add_description}
use smf_cdac.Qos.FlowLengths.{HasRates, DescriptionFits, add_description-DescriptionFits}

pub record WireDescription : Type 0 where
  pub qfi : ℕ
  pub operation : ℕ
  pub e_bit : ℕ
  pub parameters : List (ℕ × List ℕ)

abbrev param_of : ℕ → Option (List ℕ × List ℕ) → Option ((ℕ × List ℕ) × List ℕ)
param_of id none = none
param_of id (some (c, rest)) = some ((id, c), rest)

abbrev read_param : List ℕ → Option ((ℕ × List ℕ) × List ℕ)
read_param (id ∷ n ∷ bs) = param_of id (split_at n bs)
read_param _ = none

abbrev cons_param :
    ℕ × List ℕ → Option (List (ℕ × List ℕ) × List ℕ) → Option (List (ℕ × List ℕ) × List ℕ)
cons_param p none = none
cons_param p (some (ps, rest)) = some (p ∷ ps, rest)

unfoldable pub read_params : ℕ → List ℕ → Option (List (ℕ × List ℕ) × List ℕ)
read_params zero bs = some ([], bs)
read_params (suc n) bs = elim (read_param bs) [
  | none ↦ none
  | some (p, rest) ↦ cons_param p (read_params n rest)
]

abbrev description_of :
    ℕ → ℕ → ℕ → Option (List (ℕ × List ℕ) × List ℕ) → Option (WireDescription × List ℕ)
description_of q op h none = none
description_of q op h (some (ps, rest)) =
    some (record { qfi = q % 64; operation = op / 32; e_bit = h / 64 % 2; parameters = ps }, rest)

-- One description, and the bytes behind it.
unfoldable pub read_description : List ℕ → Option (WireDescription × List ℕ)
unfolding read_params
read_description (q ∷ op ∷ h ∷ bs) = description_of q op h (read_params (h % 64) bs)
read_description _ = none

abbrev pub param_view : QosFlowParameter → ℕ × List ℕ
param_view p = (p.param_id, p.param_content)

read_params-bytes :
    (ps : List QosFlowParameter) (rest : List ℕ)
    → All (λ (p : QosFlowParameter). p.param_len ≡ length p.param_content) ps
    → read_params (length ps) (params_bytes ps ++ rest) ≡ some (map param_view ps, rest)
unfolding read_params params_bytes
read_params-bytes [] rest h = refl
read_params-bytes (p ∷ ps) rest h =
    ap
      (λ o. elim (param_of p.param_id o) [
        | none ↦ none
        | some (g, more) ↦ cons_param g (read_params (length ps) more)
      ])
      (ap (split_at p.param_len) (append_assoc p.param_content (params_bytes ps) rest)
        ∙ split_at-append p.param_len p.param_content (params_bytes ps ++ rest) h.0)
    ∙ ap (cons_param (param_view p)) (read_params-bytes ps rest h.1)

-- A description that fits, for the QFI of `id` and the operation code `32 * op`, is read back with that
-- QFI, that operation, the E bit set and its parameters, whatever bytes follow it.
pub read_description-qfd_bytes :
    (id op : ℕ) (d : QosFlowDescription) (rest : List ℕ)
    → DescriptionFits id (op * 32) d
    → read_description (qfd_bytes d ++ rest)
      ≡ some (
        record {
          qfi = id % 64;
          operation = op;
          e_bit = 1;
          parameters = map param_view d.param_list;
        },
        rest,
      )
unfolding read_description
read_description-qfd_bytes id op d rest f =
    let count : d.num_of_param % 64 ≡ length d.param_list =
      omega (arith, f.count_right, f.count_small) in
    let bit : d.num_of_param / 64 % 2 ≡ 1 = omega (arith, f.count_right, f.count_small) in
    let low : d.qfi % 64 ≡ id % 64 = omega (arith, f.qfi_right) in
    let code : d.op_code / 32 ≡ op = omega (arith, f.op_right) in
    ap
      (λ n.
        description_of d.qfi d.op_code d.num_of_param
          (read_params n (params_bytes d.param_list ++ rest)))
      count
    ∙ ap (description_of d.qfi d.op_code d.num_of_param)
        (read_params-bytes d.param_list rest f.lens_right)
    ∙ rw (bit, low, code) refl

-- QoS data whose rates have a value and a unit make a description to create a flow that a reader of
-- the IE, who knows nothing of the encoder, reads back from the bytes that AddQFD appends: with the
-- QFI of its id, the operation to create, the E bit and its parameters, whatever bytes follow.
pub read_description-add_description :
    (rate16 : Text → ℕ) (q : QosData) (rest : List ℕ)
    → HasRates rate16 q
    → (d : QosFlowDescription) × (add_description rate16 q ≡ ok d)
      × (read_description (qfd_bytes d ++ rest)
          ≡ some (
            record {
              qfi = get_qos_flow_id_from_qos_id q.qos_id % 64;
              operation = 1;
              e_bit = 1;
              parameters = map param_view d.param_list;
            },
            rest,
          ))
read_description-add_description rate16 q rest h =
    let (d, e, f) = add_description-DescriptionFits rate16 q h in
    (d, e, read_description-qfd_bytes (get_qos_flow_id_from_qos_id q.qos_id) 1 d rest f)
