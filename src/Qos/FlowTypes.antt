-- ===== src/Qos/FlowTypes.antt =====
-- qos/qos_flow.go: the types of QoS flow descriptions, their setters and their encoding.
use smf_cdac.Base.{ℕ, ◌+◌, ◌/◌, ◌%◌, List, [], ◌∷◌, ◌++◌, bit_or, bit_and}

pub record QosFlowParameter : Type 0 where
  pub param_content : List ℕ
  pub param_id : ℕ
  pub param_len : ℕ

pub record QosFlowDescription : Type 0 where
  pub param_list : List QosFlowParameter
  pub qfi : ℕ
  pub op_code : ℕ
  pub num_of_param : ℕ
  pub qfd_len : ℕ

pub record QosFlowDescriptionsAuthorized : Type 0 where
  pub content : List ℕ
  pub ie_len : ℕ

-- `QoSFlowDescription{QFDLen: QFDFixLen}`.
abbrev pub empty_qfd : QosFlowDescription
empty_qfd = record { param_list = []; qfi = 0; op_code = 0; num_of_param = 0; qfd_len = 3 }

unfoldable pub set_qos_flow_desc_qfi : ℕ → QosFlowDescription → QosFlowDescription
set_qos_flow_desc_qfi val d = record d { qfi = bit_and 63 val }

unfoldable pub set_qos_flow_desc_op_code : ℕ → QosFlowDescription → QosFlowDescription
set_qos_flow_desc_op_code val d = record d { op_code = bit_and 224 val }

-- SetQFDEBitCreateNewQFD, which SetQFDEBitModReplaceAllParamQFD repeats.
unfoldable pub set_qfd_e_bit_create_new_qfd : QosFlowDescription → QosFlowDescription
set_qfd_e_bit_create_new_qfd d = record d { num_of_param = bit_or d.num_of_param 64 }

-- SetQFDEBitDeleteExistingQFD, which SetQFDEBitModExtendParamQFD repeats.
unfoldable pub set_qfd_e_bit_delete_existing_qfd : QosFlowDescription → QosFlowDescription
set_qfd_e_bit_delete_existing_qfd d = record d { num_of_param = bit_and d.num_of_param 191 }

-- SetQosFlowParamBitRate, on a fresh parameter.
unfoldable pub set_qos_flow_param_bit_rate : ℕ → ℕ → ℕ → QosFlowParameter
set_qos_flow_param_bit_rate rate_type rate_unit rate_val = record {
  param_content = rate_unit ∷ rate_val / 256 ∷ rate_val % 256 ∷ [];
  param_id = rate_type;
  param_len = 3;
}

-- The parameter is appended, and `n` added to the length.
abbrev pub add_param : QosFlowParameter → ℕ → QosFlowDescription → QosFlowDescription
add_param p n d = record d {
  param_list = d.param_list ++ (p ∷ []);
  num_of_param = (d.num_of_param + 1) % 256;
  qfd_len = (d.qfd_len + n) % 256;
}

unfoldable pub add_qos_flow_param_5qi : ℕ → QosFlowDescription → QosFlowDescription
add_qos_flow_param_5qi val d =
    add_param (record { param_content = val ∷ []; param_id = 1; param_len = 1 }) 3 d

unfoldable pub params_bytes : List QosFlowParameter → List ℕ
params_bytes [] = []
params_bytes (p ∷ ps) = p.param_id ∷ p.param_len ∷ p.param_content ++ params_bytes ps

abbrev pub qfd_bytes : QosFlowDescription → List ℕ
qfd_bytes d = d.qfi ∷ d.op_code ∷ d.num_of_param ∷ params_bytes d.param_list

-- AddQFD.
unfoldable pub add_qfd :
    QosFlowDescription → QosFlowDescriptionsAuthorized → QosFlowDescriptionsAuthorized
unfolding params_bytes
add_qfd d ie = record {
  content = ie.content ++ qfd_bytes d;
  ie_len = (ie.ie_len + d.qfd_len) % 65536;
}
