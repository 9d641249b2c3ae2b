-- ===== src/Qos/Wire.antt =====
-- The QoS rules IE as its reader sees it (TS 24.501, 9.11.4.13): a decoder that owes nothing to the
-- encoder, and the rules that the format has room for.
use smf_cdac.Base.{
  ℕ, zero, suc, ◌+◌, ◌*◌, ◌/◌, ◌%◌, ◌<◌, ◌≡◌, Option, none, some, List, [], ◌∷◌, length, take, drop,
  map, ltb, ◌==◌, if◌then◌else◌, All,
}
use smf_cdac.Qos.Types.{PacketFilterComponent, PacketFilter, QosRule}
use smf_cdac.Qos.Encode.{marshal_content, rule_content}

-- A component of a packet filter: its type and its value.
abbrev pub WireComponent : Type 0
WireComponent = ℕ × List ℕ

pub record WireFilter : Type 0 where
  pub direction : ℕ
  pub identifier : ℕ
  pub content : List WireComponent

-- `tail` is the precedence, the segregation and the QFI.
pub record WireRule : Type 0 where
  pub identifier : ℕ
  pub operation_code : ℕ
  pub dqr : ℕ
  pub filters : List WireFilter
  pub tail : Option (ℕ × ℕ × ℕ)

-- The first `n` bytes and the rest, if there are that many.
abbrev pub split_at : ℕ → List ℕ → Option (List ℕ × List ℕ)
split_at n bs = if ltb (length bs) n then none else some (take n bs, drop n bs)

-- The types of components with the lengths of their values: addresses with masks, protocol, ports and
-- ranges of ports, security parameter index, type of service, flow label, and the fields of Ethernet.
abbrev component_sizes : List (ℕ × ℕ)
component_sizes =
    (0x01, 0)
    ∷ (0x10, 8)
    ∷ (0x11, 8)
    ∷ (0x21, 17)
    ∷ (0x23, 17)
    ∷ (0x30, 1)
    ∷ (0x40, 2)
    ∷ (0x41, 4)
    ∷ (0x50, 2)
    ∷ (0x51, 4)
    ∷ (0x60, 4)
    ∷ (0x70, 2)
    ∷ (0x80, 3)
    ∷ (0x81, 6)
    ∷ (0x82, 6)
    ∷ (0x83, 2)
    ∷ (0x84, 2)
    ∷ (0x85, 1)
    ∷ (0x86, 1)
    ∷ (0x87, 2)
    ∷ []

abbrev size_in : ℕ → List (ℕ × ℕ) → Option ℕ
size_in k [] = none
size_in k ((j, n) ∷ more) = if j == k then some n else size_in k more

unfoldable pub component_size : ℕ → Option ℕ
component_size k = size_in k component_sizes

abbrev pub cons_component :
    WireComponent → Option (List WireComponent) → Option (List WireComponent)
cons_component c none = none
cons_component c (some cs) = some (c ∷ cs)

-- The components one behind the other: a type, and as many bytes as the type says.
unfoldable pub read_components : ℕ → List ℕ → Option (List WireComponent)
unfolding component_size
read_components zero [] = some []
read_components zero (k ∷ bs) = none
read_components (suc fuel) [] = some []
read_components (suc fuel) (k ∷ bs) = elim (component_size k) [
  | none ↦ none
  | some n ↦ elim (split_at n bs) [
    | none ↦ none
    | some (v, rest) ↦ cons_component (k, v) (read_components fuel rest)
  ]
]

-- A filter behind its two bytes; each component takes a byte at least.
abbrev pub filter_with : ℕ → List ℕ → Option (List WireComponent) → Option (WireFilter × List ℕ)
filter_with h rest none = none
filter_with h rest (some cs) =
    some (record { direction = h / 16 % 4; identifier = h % 16; content = cs }, rest)

unfoldable pub filter_of : ℕ → Option (List ℕ × List ℕ) → Option (WireFilter × List ℕ)
unfolding read_components
filter_of h none = none
filter_of h (some (c, rest)) = filter_with h rest (read_components (length c) c)

unfoldable pub read_filter : List ℕ → Option (WireFilter × List ℕ)
unfolding filter_of
read_filter (h ∷ n ∷ bs) = filter_of h (split_at n bs)
read_filter _ = none

abbrev pub cons_filter :
    WireFilter → Option (List WireFilter × List ℕ) → Option (List WireFilter × List ℕ)
cons_filter f none = none
cons_filter f (some (fs, rest)) = some (f ∷ fs, rest)

unfoldable pub read_filters : ℕ → List ℕ → Option (List WireFilter × List ℕ)
unfolding read_filter
read_filters zero bs = some ([], bs)
read_filters (suc n) bs = elim (read_filter bs) [
  | none ↦ none
  | some (f, rest) ↦ cons_filter f (read_filters n rest)
]

-- What follows the filters must be the whole of the rest.
abbrev pub read_tail : ℕ → List ℕ → Option (Option (ℕ × ℕ × ℕ))
read_tail op [] = if op == 2 then some none else none
read_tail op (p ∷ q ∷ []) = if op == 2 then none else some (some (p, q / 64, q % 64))
read_tail op _ = none

abbrev pub rule_of : ℕ → ℕ → List WireFilter → Option (Option (ℕ × ℕ × ℕ)) → Option WireRule
rule_of id h fs none = none
rule_of id h fs (some t) =
    some (record {
      identifier = id;
      operation_code = h / 32;
      dqr = h / 16 % 2;
      filters = fs;
      tail = t;
    })

abbrev pub with_filters : ℕ → ℕ → Option (List WireFilter × List ℕ) → Option WireRule
with_filters id h none = none
with_filters id h (some (fs, rest)) = rule_of id h fs (read_tail (h / 32) rest)

unfoldable pub read_content : ℕ → List ℕ → Option WireRule
unfolding read_filters
read_content id [] = none
read_content id (h ∷ bs) = with_filters id h (read_filters (h % 16) bs)

abbrev pub cons_rule : Option WireRule → Option (List WireRule) → Option (List WireRule)
cons_rule (some r) (some rs) = some (r ∷ rs)
cons_rule _ _ = none

-- The rules one behind the other; the fuel is to be more than their number.
unfoldable pub read_rules : ℕ → List ℕ → Option (List WireRule)
unfolding read_content
read_rules zero bs = none
read_rules (suc fuel) [] = some []
read_rules (suc fuel) (id ∷ hi ∷ lo ∷ bs) = elim (split_at (hi * 256 + lo) bs) [
  | none ↦ none
  | some (c, rest) ↦ cons_rule (read_content id c) (read_rules fuel rest)
]
read_rules (suc fuel) _ = none

-- What a filter and a rule are on the wire.
abbrev pub component_view : PacketFilterComponent → WireComponent
component_view c = (c.component_type, c.component_value)

abbrev pub filter_view : PacketFilter → WireFilter
filter_view pf = record {
  direction = pf.direction;
  identifier = pf.identifier;
  content = map component_view pf.content;
}

abbrev pub tail_view : QosRule → Option (ℕ × ℕ × ℕ)
tail_view r = if r.operation_code == 2 then none else some (r.rule_precedence, r.segregation, r.qfi)

abbrev pub rule_view : QosRule → WireRule
rule_view r = record {
  identifier = r.rule_identifier;
  operation_code = r.operation_code;
  dqr = r.dqr;
  filters = map filter_view r.packet_filter_list;
  tail = tail_view r;
}

-- The fields fit their bits, and the length of a filter is that of its components.
pub record FilterFits (pf : PacketFilter) : Type 0 where
  pub direction_fits : pf.direction < 4
  pub identifier_fits : pf.identifier < 16
  pub length_right : pf.content_length ≡ length (marshal_content pf.content)

-- The value of each component is as long as its type says.
abbrev pub Typed : List PacketFilterComponent → Type 0
Typed = All (λ c. component_size c.component_type ≡ some (length c.component_value))

pub record RuleFits (r : QosRule) : Type 0 where
  pub components_fit : All (λ pf. Typed pf.content) r.packet_filter_list
  pub filters_fit : All FilterFits r.packet_filter_list
  pub operation_fits : r.operation_code < 8
  pub dqr_fits : r.dqr < 2
  pub count_fits : length r.packet_filter_list < 16
  pub segregation_fits : r.segregation < 4
  pub qfi_fits : r.qfi < 64
  pub content_fits : length (rule_content r) < 65536
