-- ===== src/Qos/RoundTrip.antt =====
-- What MarshalBinary of QoS rules writes, the reader of the IE reads back.
use smf_cdac.Base.{
  ℕ, zero, suc, ◌+◌, ◌*◌, ◌/◌, ◌%◌, ◌<◌, ◌≤◌, ◌≡◌, refl, ap, ◌∙◌, false, none, some, Bool-cases,
  inl, inr, List, [], ◌∷◌, ◌++◌, map, arith, bit_or, length, length-append, take-append,
  drop-append, ltb, ◌==◌, All,
}
use mathlib.Core.List.{append_assoc}
use smf_cdac.Base.Bits.{bit_or_nibbles, bit_or_sixty_four, bit_or_flag}
use smf_cdac.Qos.Types.{PacketFilterComponent, PacketFilter, QosRule}
use smf_cdac.Qos.Encode.{
  marshal_content, marshal_filter, marshal_filters, rule_tail, rule_header, rule_content,
  marshal_rule, marshal_rules,
}
use smf_cdac.Qos.Wire.{
  split_at, component_view, read_components, filter_of, Typed, read_filter, cons_filter,
  read_filters, read_tail, rule_of, with_filters, read_content, cons_rule, read_rules, filter_view,
  tail_view, rule_view, FilterFits, RuleFits,
}

pub split_at-append :
    (n : ℕ) (xs ys : List ℕ) → n ≡ length xs → split_at n (xs ++ ys) ≡ some (xs, ys)
split_at-append n xs ys e =
    let b : ltb (length (xs ++ ys)) (length xs) ≡ false = ground (arith, length-append xs ys) in
    rw (e, b, take-append xs ys, drop-append xs ys)

components_bytes : (cs : List PacketFilterComponent) → length cs ≤ length (marshal_content cs)
unfolding marshal_content
components_bytes [] = omega arith
components_bytes (c ∷ cs) =
    omega (arith, components_bytes cs, length-append c.component_value (marshal_content cs))

read_components-marshal :
    (fuel : ℕ) (cs : List PacketFilterComponent)
    → Typed cs
    → length cs ≤ fuel
    → read_components fuel (marshal_content cs) ≡ some (map component_view cs)
unfolding read_components marshal_content
read_components-marshal zero [] t l = refl
read_components-marshal (suc fuel) [] t l = refl
read_components-marshal zero (c ∷ cs) t l = absurd (omega (arith, l))
read_components-marshal (suc fuel) (c ∷ cs) t l =
    let v = c.component_value in
    let whole = split_at-append (length v) v (marshal_content cs) refl in
    let rest = read_components-marshal fuel cs t.1 (omega (arith, l)) in
    rw (read_components, t.0, whole, rest) refl

read_filter-marshal :
    (pf : PacketFilter) (rest : List ℕ)
    → FilterFits pf
    → Typed pf.content
    → read_filter (marshal_filter pf ++ rest) ≡ some (filter_view pf, rest)
unfolding marshal_filter read_filter filter_of
read_filter-marshal pf rest f t =
    let d = f.direction_fits in
    let i = f.identifier_fits in
    let w : pf.direction * 16 % 256 ≡ pf.direction * 16 = omega arith in
    let h = bit_or_nibbles pf.direction pf.identifier (omega arith) i in
    let q : (pf.direction * 16 + pf.identifier) / 16 % 4 ≡ pf.direction = omega arith in
    let r : (pf.direction * 16 + pf.identifier) % 16 ≡ pf.identifier = omega arith in
    let cs =
      read_components-marshal (length (marshal_content pf.content)) pf.content t
        (components_bytes pf.content) in
    rw (
      split_at-append pf.content_length (marshal_content pf.content) rest f.length_right,
      cs,
      w,
      h,
      q,
      r,
    )

read_filters-marshal :
    (pfs : List PacketFilter) (rest : List ℕ)
    → All FilterFits pfs
    → All (λ pf. Typed pf.content) pfs
    → read_filters (length pfs) (marshal_filters pfs ++ rest) ≡ some (map filter_view pfs, rest)
unfolding read_filters marshal_filters
read_filters-marshal [] rest f t = refl
read_filters-marshal (pf ∷ pfs) rest f t =
    ap
      (λ o. elim o [
        | none ↦ none
        | some (g, more) ↦ cons_filter g (read_filters (length pfs) more)
      ])
      (ap read_filter (append_assoc (marshal_filter pf) (marshal_filters pfs) rest)
        ∙ read_filter-marshal pf (marshal_filters pfs ++ rest) f.0 t.0)
    ∙ ap (cons_filter (filter_view pf)) (read_filters-marshal pfs rest f.1 t.1)

header_parts :
    (op dqr n : ℕ)
    → op < 8
    → dqr < 2
    → n < 16
    → bit_or (bit_or (op * 32 % 256) (dqr * 16 % 256)) (n % 256) ≡ (op * 2 + dqr) * 16 + n
header_parts op dqr n a b c =
    let x : op * 32 % 256 ≡ op * 32 = omega arith in
    let y : dqr * 16 % 256 ≡ dqr * 16 = omega arith in
    let z : n % 256 ≡ n = omega arith in
    rw (x, y, z, bit_or_flag op dqr a b) (bit_or_nibbles (op * 2 + dqr) n (omega arith) c)

read_tail-marshal :
    (r : QosRule) → RuleFits r → read_tail r.operation_code (rule_tail r) ≡ some (tail_view r)
read_tail-marshal r f =
    let w : r.segregation * 64 % 256 ≡ r.segregation * 64 = omega (arith, f.segregation_fits) in
    let h = bit_or_sixty_four r.segregation r.qfi f.segregation_fits f.qfi_fits in
    let q : (r.segregation * 64 + r.qfi) / 64 ≡ r.segregation = omega (arith, f.qfi_fits) in
    let m : (r.segregation * 64 + r.qfi) % 64 ≡ r.qfi = omega (arith, f.qfi_fits) in
    elim (Bool-cases (r.operation_code == 2)) [
      | inl e ↦ rw (e, e) refl
      | inr e ↦ rw (e, w, h) (rw (e, q, m) refl)
    ]

read_content-marshal :
    (r : QosRule)
    → RuleFits r
    → read_content r.rule_identifier (rule_content r) ≡ some (rule_view r)
unfolding read_content rule_content
read_content-marshal r f =
    let h =
      header_parts r.operation_code r.dqr (length r.packet_filter_list) f.operation_fits f.dqr_fits
        f.count_fits in
    let op : rule_header r / 32 ≡ r.operation_code = omega (arith, h, f.dqr_fits, f.count_fits) in
    let flag : rule_header r / 16 % 2 ≡ r.dqr = omega (arith, h, f.dqr_fits, f.count_fits) in
    let n : rule_header r % 16 ≡ length r.packet_filter_list = omega (arith, h, f.count_fits) in
    let pfs = map filter_view r.packet_filter_list in
    ap
      (λ k.
        with_filters r.rule_identifier (rule_header r)
          (read_filters k (marshal_filters r.packet_filter_list ++ rule_tail r)))
      n
    ∙ ap (with_filters r.rule_identifier (rule_header r))
        (read_filters-marshal r.packet_filter_list (rule_tail r) f.filters_fit f.components_fit)
    ∙ ap (λ k. rule_of r.rule_identifier (rule_header r) pfs (read_tail k (rule_tail r))) op
    ∙ ap (rule_of r.rule_identifier (rule_header r) pfs) (read_tail-marshal r f)
    ∙ ap (λ k. some (record (rule_view r) { operation_code = k; dqr = rule_header r / 16 % 2 })) op
    ∙ ap (λ k. some (record (rule_view r) { dqr = k })) flag

-- What MarshalBinary writes for a list of rules, each of which fits the format, with components whose
-- values have the lengths of their types, a decoder of the IE reads back as the same rules, down to the
-- type and the value of each component of a packet filter, on any fuel above the number of rules.
pub read_rules-marshal :
    (fuel : ℕ) (rs : List QosRule)
    → All RuleFits rs
    → length rs < fuel
    → read_rules fuel (marshal_rules rs) ≡ some (map rule_view rs)
unfolding read_rules marshal_rules marshal_rule
read_rules-marshal zero rs f h = absurd (omega (arith, h))
read_rules-marshal (suc fuel) [] f h = refl
read_rules-marshal (suc fuel) (r ∷ rs) f h =
    let n = length (rule_content r) in
    let e : n % 65536 / 256 * 256 + n % 256 ≡ n = omega (arith, f.0.content_fits) in
    ap
      (λ o. elim o [
        | none ↦ none
        | some (c, rest) ↦ cons_rule (read_content r.rule_identifier c) (read_rules fuel rest)
      ])
      (split_at-append (n % 65536 / 256 * 256 + n % 256) (rule_content r) (marshal_rules rs) e)
    ∙ ap (λ o. cons_rule o (read_rules fuel (marshal_rules rs))) (read_content-marshal r f.0)
    ∙ ap (cons_rule (some (rule_view r))) (read_rules-marshal fuel rs f.1 (omega (arith, h)))
