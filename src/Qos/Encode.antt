-- ===== src/Qos/Encode.antt =====
-- qos/qos_rule.go: MarshalBinary of packet filters, of rules and of lists of rules. A write to a
-- bytes.Buffer returns no error, so none of them does.
use smf_cdac.Base.{ℕ, ◌*◌, ◌/◌, ◌%◌, List, [], ◌∷◌, ◌++◌, bit_or, length, ◌==◌, if◌then◌else◌}
use smf_cdac.Qos.Types.{PacketFilterComponent, PacketFilter, QosRule}

unfoldable pub marshal_content : List PacketFilterComponent → List ℕ
marshal_content [] = []
marshal_content (c ∷ cs) = c.component_type ∷ c.component_value ++ marshal_content cs

unfoldable pub marshal_filter : PacketFilter → List ℕ
unfolding marshal_content
marshal_filter pf =
    bit_or (pf.direction * 16 % 256) pf.identifier ∷ pf.content_length ∷ marshal_content pf.content

unfoldable pub marshal_filters : List PacketFilter → List ℕ
unfolding marshal_filter
marshal_filters [] = []
marshal_filters (pf ∷ pfs) = marshal_filter pf ++ marshal_filters pfs

-- Precedence, segregation and QFI; a rule that is deleted has none.
abbrev pub rule_tail : QosRule → List ℕ
rule_tail r =
    if r.operation_code == 2
    then []
    else r.rule_precedence ∷ bit_or (r.segregation * 64 % 256) r.qfi ∷ []

abbrev pub rule_header : QosRule → ℕ
rule_header r =
    bit_or (bit_or (r.operation_code * 32 % 256) (r.dqr * 16 % 256))
      (length r.packet_filter_list % 256)

unfoldable pub rule_content : QosRule → List ℕ
unfolding marshal_filters
rule_content r = rule_header r ∷ marshal_filters r.packet_filter_list ++ rule_tail r

-- `binary.Write` of a uint16, big-endian.
abbrev pub big_endian_16 : ℕ → List ℕ
big_endian_16 n = n % 65536 / 256 ∷ n % 256 ∷ []

unfoldable pub marshal_rule : QosRule → List ℕ
unfolding rule_content
marshal_rule r = r.rule_identifier ∷ big_endian_16 (length (rule_content r)) ++ rule_content r

-- QoSRules.MarshalBinary.
unfoldable pub marshal_rules : List QosRule → List ℕ
unfolding marshal_rule
marshal_rules [] = []
marshal_rules (r ∷ rs) = marshal_rule r ++ marshal_rules rs
