-- ===== src/Examples/Session.antt =====
-- A DNN with IPv4 only, asked for both IP versions.
use smf_cdac.Base.{◌≡◌, refl, none, some, [], ◌∷◌, ok, ◌==◌, if◌then◌else◌}
use smf_cdac.Session.Types.{
  ipv4, ipv6, ipv4_v6, ethernet, unstructured, ipv4v6_text, no_cause, ipv4_only_allowed, NasConvert,
  is_allowed_pdu_session_type,
}
use smf_cdac.Session.Grants.{Verdict, is_allowed_pdu_session_type-Verdict, serves}

abbrev types : NasConvert
types = record {
  to_models = λ n.
      if n == 1
      then some ipv4
      else if n == 2
      then some ipv6
      else if n == 3
      then some ipv4_v6
      else none;
  to_nas = λ t. elim t [ ipv4 ↦ 1 | ipv6 ↦ 2 | ipv4_v6 ↦ 3 | unstructured ↦ 4 | ethernet ↦ 5 ];
}

narrowed_test :
    is_allowed_pdu_session_type types ipv4v6_text
      (some (ipv4 ∷ []))
      3
      (record { selected = 0; cause = no_cause })
    ≡ (record { selected = 1; cause = ipv4_only_allowed }, ok tt)
unfolding is_allowed_pdu_session_type
narrowed_test = refl

is_allowed_pdu_session_type-Verdict_example : Verdict types (ipv4 ∷ []) (some ipv4_v6) (
    is_allowed_pdu_session_type types ipv4v6_text
      (some (ipv4 ∷ []))
      3
      (record { selected = 0; cause = no_cause }))
unfolding serves
is_allowed_pdu_session_type-Verdict_example =
    is_allowed_pdu_session_type-Verdict types ipv4v6_text (ipv4 ∷ []) 3
      (record { selected = 0; cause = no_cause }) refl
