-- ===== src/Upf/Rules.antt =====
-- context/upf.go: pdrID to qerID, AddPDR to AddQER, RemovePDR to RemoveQER and
-- BuildCreatePdrFromPccRule, with the rules of context/pfcp_rules.go in the fields that these set. A
-- sync.Map of rules is the set of its keys: no value of it is ever loaded.
use smf_cdac.Base.{
  ℕ, ◌%◌, ◌^◌, Bool, true, false, Option, none, some, List, [], ◌∷◌, ◌==◌, if◌then◌else◌, ltb,
  Outcome, ok, err, panic, length,
}
use smf_cdac.Base.Int.{to_u32}
use smf_cdac.Base.Text.{Text}
use smf_cdac.GoStd.Strconv.{magnitude}
use smf_cdac.Qos.Types.{FlowInformation, PccRule}
use smf_cdac.Upf.Ids.{IdGenerator}
use smf_cdac.Upf.Types.{
  SdfFilter, Pdi, no_pdi, ApplyAction, ForwardingParameters, GateStatus, Rates,
}

-- UPFStatus.
pub data UpfStatus : Type 0 where
  not_associated associated_setting_up associated_set_up_success : UpfStatus

-- The keys of a pool.
abbrev pub Pool : Type 0
Pool = ℕ → Bool

abbrev pub store : ℕ → Pool → Pool
store n p m = if m == n then true else p m

abbrev pub remove : ℕ → Pool → Pool
remove n p m = if m == n then false else p m

pub record Bar : Type 0 where
  pub bar_id : ℕ

pub record Far : Type 0 where
  pub far_id : ℕ
  pub apply_action : ApplyAction
  pub bar : Option Bar
  pub forwarding_parameters : Option ForwardingParameters

pub record Qer : Type 0 where
  pub qer_id : ℕ
  pub qfi : ℕ
  pub gate_status : Option GateStatus
  pub mbr : Option Rates
  pub gbr : Option Rates

abbrev pub new_qer : ℕ → Qer
new_qer n = record { qer_id = n; qfi = 0; gate_status = none; mbr = none; gbr = none }

-- PDR; the one description that the code uses of an outer header to remove is 0.
pub record Pdr : Type 0 where
  pub pdr_id : ℕ
  pub far : Option Far
  pub qer : List (Option Qer)
  pub pdi : Pdi
  pub outer_header_removal : Option ℕ
  pub precedence : ℕ

-- The ids of one kind that are out, and the pool of its rules.
pub record Shelf (g : IdGenerator) : Type 0 where
  pub ids : g.State
  pub pool : Pool

-- A UPF: one shelf for each kind of rule.
pub record Upf (g : IdGenerator) : Type 0 where
  pub status : UpfStatus
  pub pdrs : Shelf g
  pub fars : Shelf g
  pub bars : Shelf g
  pub qers : Shelf g

-- strconv.ParseUint(s, 10, 32).
unfoldable pub parse_uint32 : Text → Option ℕ
unfolding magnitude
parse_uint32 s = elim (magnitude s) [
  | none ↦ none
  | some n ↦ if ltb n (2 ^ 32) then some n else none
]

-- The filter of a flow; an error stands for a filter id that does not parse.
abbrev is_given : Text → Bool
is_given [] = false
is_given (c ∷ cs) = true

abbrev filter_of : FlowInformation → ℕ → ℕ → SdfFilter
filter_of f id len = record {
  flow_description = f.flow_description;
  tos_traffic_class = f.tos_traffic_class;
  security_parameter_index = f.spi;
  flow_label = f.flow_label;
  sdf_filter_id = id;
  length_of_flow_description = len;
  fl = is_given f.flow_label;
  spi = is_given f.spi;
  ttc = is_given f.tos_traffic_class;
  fd = is_given f.flow_description;
}

unfoldable pub sdf_filter_of : FlowInformation → Option SdfFilter
unfolding parse_uint32
sdf_filter_of f = elim f.flow_description [
  | [] ↦ some (filter_of f 0 0)
  | c ∷ cs ↦ elim (parse_uint32 f.pack_filt_id) [
    | none ↦ none
    | some id ↦ some (filter_of f id (length (c ∷ cs) % 2 ^ 16))
  ]
]

module _ (g : IdGenerator) where
  -- pdrID, farID, barID and qerID behind their test of the association, cut to `bits`; then the Store of
  -- the new rule.
  unfoldable pub shelve : ℕ → Shelf g → Option (ℕ × g.State) → Option (ℕ × Shelf g)
  shelve bits s none = none
  shelve bits s (some (n, t)) =
      some (n % 2 ^ bits, record { ids = t; pool = store (n % 2 ^ bits) s.pool })

  unfoldable pub take_id : ℕ → Shelf g → Option (ℕ × Shelf g)
  unfolding shelve
  take_id bits s = shelve bits s (g.allocate s.ids)

  -- FreeID and Delete.
  unfoldable pub give_back : ℕ → Shelf g → Shelf g
  give_back n s = record { ids = g.free_id n s.ids; pool = remove n s.pool }

  abbrev pub new_far : ℕ → Far
  new_far n = record {
    far_id = n;
    apply_action = record { dupl = false; nocp = false; buff = false; forw = false; drop = true };
    bar = none;
    forwarding_parameters = none;
  }

  abbrev pub new_pdr : ℕ → Far → Pdr
  new_pdr n f = record {
    pdr_id = n;
    far = some f;
    qer = [];
    pdi = no_pdi;
    outer_header_removal = none;
    precedence = 0;
  }

  -- The test of the association in front of every operation; the callers of an operation that fails
  -- only log the error of it, if anything.
  abbrev pub if_associated : {A : Type 0} → UpfStatus → A → A → A
  if_associated associated_set_up_success v w = v
  if_associated not_associated v w = w
  if_associated associated_setting_up v w = w

  -- AddFAR.
  unfoldable pub stored_far : Upf g → Option (ℕ × Shelf g) → Upf g × Outcome Far
  stored_far u none = (u, err)
  stored_far u (some (n, s)) = (record u { fars = s }, ok (new_far n))

  unfoldable pub add_far : Upf g → Upf g × Outcome Far
  unfolding take_id stored_far
  add_far u = if_associated u.status (stored_far u (take_id 32 u.fars)) (u, err)

  -- What AddPDR returns of AddFAR's result.
  unfoldable pub with_far : ℕ → Upf g × Outcome Far → Upf g × Outcome Pdr
  with_far n (u, ok f) = (u, ok (new_pdr n f))
  with_far n (u, err) = (u, err)
  with_far n (u, panic) = (u, panic)

  -- AddPDR: the PDR is stored before its FAR is added.
  unfoldable pub stored_pdr : Upf g → Option (ℕ × Shelf g) → Upf g × Outcome Pdr
  unfolding add_far with_far
  stored_pdr u none = (u, err)
  stored_pdr u (some (n, s)) = with_far n (add_far (record u { pdrs = s }))

  unfoldable pub add_pdr : Upf g → Upf g × Outcome Pdr
  unfolding take_id stored_pdr
  add_pdr u = if_associated u.status (stored_pdr u (take_id 16 u.pdrs)) (u, err)

  -- AddBAR, which returns a BAR with the id 0 where there is no id left.
  unfoldable pub stored_bar : Upf g → Option (ℕ × Shelf g) → Upf g × Outcome Bar
  stored_bar u none = (u, ok (record { bar_id = 0 }))
  stored_bar u (some (n, s)) = (record u { bars = s }, ok (record { bar_id = n }))

  unfoldable pub add_bar : Upf g → Upf g × Outcome Bar
  unfolding take_id stored_bar
  add_bar u = if_associated u.status (stored_bar u (take_id 8 u.bars)) (u, err)

  -- AddQER, likewise.
  unfoldable pub stored_qer : Upf g → Option (ℕ × Shelf g) → Upf g × Outcome Qer
  stored_qer u none = (u, ok (new_qer 0))
  stored_qer u (some (n, s)) = (record u { qers = s }, ok (new_qer n))

  unfoldable pub add_qer : Upf g → Upf g × Outcome Qer
  unfolding take_id stored_qer
  add_qer u = if_associated u.status (stored_qer u (take_id 32 u.qers)) (u, err)

  -- RemovePDR, RemoveFAR, RemoveBAR and RemoveQER.
  unfoldable pub remove_pdr : Pdr → Upf g → Upf g
  unfolding give_back
  remove_pdr p u = if_associated u.status (record u { pdrs = give_back p.pdr_id u.pdrs }) u

  unfoldable pub remove_far : Far → Upf g → Upf g
  unfolding give_back
  remove_far f u = if_associated u.status (record u { fars = give_back f.far_id u.fars }) u

  unfoldable pub remove_bar : Bar → Upf g → Upf g
  unfolding give_back
  remove_bar b u = if_associated u.status (record u { bars = give_back b.bar_id u.bars }) u

  unfoldable pub remove_qer : Qer → Upf g → Upf g
  unfolding give_back
  remove_qer q u = if_associated u.status (record u { qers = give_back q.qer_id u.qers }) u

  -- The PDR that BuildCreatePdrFromPccRule makes of AddPDR's; a rule without flows is a panic.
  unfoldable pub with_filter : PccRule → Outcome Pdr → Outcome Pdr
  unfolding sdf_filter_of
  with_filter r err = err
  with_filter r panic = panic
  with_filter r (ok p) = elim r.flow_infos [
    | [] ↦ panic
    | f ∷ fs ↦ elim (sdf_filter_of f) [
      | none ↦ err
      | some s ↦ ok (record p {
        pdi = record no_pdi { sdf_filter = some s };
        precedence = to_u32 r.precedence;
      })
    ]
  ]

  -- BuildCreatePdrFromPccRule.
  unfoldable pub build_create_pdr_from_pcc_rule : PccRule → Upf g → Upf g × Outcome Pdr
  unfolding add_pdr with_filter
  build_create_pdr_from_pcc_rule r u = let a = add_pdr u in (a.0, with_filter r a.1)
