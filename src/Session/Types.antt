-- ===== src/Session/Types.antt =====
-- context/sm_context.go: isAllowedPDUSessionType; context/gsm_handler.go: the choice of the type in
-- HandlePDUSessionEstablishmentRequest. The conversions of the package nasConvert are parameters.
use smf_cdac.Base.{
  ℕ, Bool, true, false, not, ◌&&◌, Option, none, some, List, [], ◌∷◌, if◌then◌else◌, Outcome, ok,
  err,
}

-- models.PduSessionType.
pub data PduSessionType : Type 0 where
  ipv4 ipv6 ipv4_v6 ethernet unstructured : PduSessionType

-- The texts that SupportedPDUSessionType is compared with, and any other.
pub data SupportedType : Type 0 where
  ipv4_text ipv6_text ipv4v6_text ethernet_text other_text : SupportedType

-- EstAcceptCause5gSMValue: zero, and the two causes of the package nasMessage.
pub data Cause : Type 0 where
  no_cause ipv4_only_allowed ipv6_only_allowed : Cause

-- What the choice sets of a session context.
pub record Choice : Type 0 where
  pub selected : ℕ
  pub cause : Cause

-- nasConvert.PDUSessionTypeToModels, which knows some types only, and ModelsToPDUSessionType.
pub record NasConvert : Type 0 where
  pub to_models : ℕ → Option PduSessionType
  pub to_nas : PduSessionType → ℕ

-- allowIPv4, allowIPv6 and allowEthernet.
pub record Allowed : Type 0 where
  pub allow_ipv4 : Bool
  pub allow_ipv6 : Bool
  pub allow_ethernet : Bool

abbrev pub nothing_allowed : Allowed
nothing_allowed = record { allow_ipv4 = false; allow_ipv6 = false; allow_ethernet = false }

unfoldable pub allow : PduSessionType → Allowed → Allowed
allow ipv4 a = record a { allow_ipv4 = true }
allow ipv6 a = record a { allow_ipv6 = true }
allow ipv4_v6 a = record a { allow_ipv4 = true; allow_ipv6 = true }
allow ethernet a = record a { allow_ethernet = true }
allow unstructured a = a

-- The loop over the allowed types of the DNN.
unfoldable pub allow_all : List PduSessionType → Allowed → Allowed
unfolding allow
allow_all [] a = a
allow_all (t ∷ ts) a = allow_all ts (allow t a)

-- The first switch: whether what the SMF supports is allowed.
unfoldable pub supports : SupportedType → Allowed → Bool
supports ipv4_text a = a.allow_ipv4
supports ipv6_text a = a.allow_ipv6
supports ipv4v6_text a = not (not a.allow_ipv4 && not a.allow_ipv6)
supports ethernet_text a = a.allow_ethernet
supports other_text a = true

abbrev pub choose : NasConvert → PduSessionType → Cause → Choice × Outcome (Unit {0})
choose n t c = (record { selected = n.to_nas t; cause = c }, ok tt)

abbrev refuse : Choice → Choice × Outcome (Unit {0})
refuse c = (record c { cause = no_cause }, err)

-- The second switch.
unfoldable pub select :
    NasConvert → Allowed → Option PduSessionType → Choice → Choice × Outcome (Unit {0})
select n a none c = refuse c
select n a (some ipv4) c = if a.allow_ipv4 then choose n ipv4 no_cause else refuse c
select n a (some ipv6) c = if a.allow_ipv6 then choose n ipv6 no_cause else refuse c
select n a (some ipv4_v6) c =
    if a.allow_ipv4 && a.allow_ipv6
    then choose n ipv4_v6 no_cause
    else if a.allow_ipv4
    then choose n ipv4 ipv4_only_allowed
    else if a.allow_ipv6
    then choose n ipv6 ipv6_only_allowed
    else refuse c
select n a (some ethernet) c = if a.allow_ethernet then choose n ethernet no_cause else refuse c
select n a (some unstructured) c =
    (record { selected = n.to_nas unstructured; cause = no_cause }, err)

-- isAllowedPDUSessionType; the DNN may have no session types.
unfoldable pub is_allowed_pdu_session_type :
    NasConvert
    → SupportedType
    → Option (List PduSessionType)
    → ℕ
    → Choice
    → Choice × Outcome (Unit {0})
unfolding allow_all supports select
is_allowed_pdu_session_type n s none requested c = (c, err)
is_allowed_pdu_session_type n s (some types) requested c =
    let a = allow_all types nothing_allowed in
    if supports s a then select n a (n.to_models requested) c else (c, err)
