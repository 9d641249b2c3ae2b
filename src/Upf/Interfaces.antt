-- ===== src/Upf/Interfaces.antt =====
-- context/upf.go: the user plane interfaces of a UPF, the DNNs it is configured for and its features.
-- net.ParseIP and net.ResolveIPAddr are parameters.
use smf_cdac.Base.{
  ℕ, ◌/◌, ◌%◌, Bool, true, false, ◌||◌, Option, none, some, List, [], ◌∷◌, ◌++◌, ◌==◌,
  if◌then◌else◌, Outcome, ok, err,
}
use smf_cdac.Base.Text.{Text, text_eq}
use smf_cdac.GoStd.Strings.{split, trim_space}
use smf_cdac.Topo.Types.{DnnUpfInfoItem, SnssaiUpfInfo}
use smf_cdac.Topo.NodeIds.{to4, to16}
use smf_cdac.Session.Types.{PduSessionType, ipv4, ipv6, ipv4_v6, ethernet, unstructured}

-- UPFInterfaceInfo.
pub record UpfInterfaceInfo : Type 0 where
  pub network_instance : Text
  pub endpoint_fqdn : Text
  pub ipv4_end_point_addresses : List (List ℕ)
  pub ipv6_end_point_addresses : List (List ℕ)

-- models.UpInterfaceType, and InterfaceUpfInfoItem of the configuration.
pub data UpInterfaceType : Type 0 where
  n3 n9 other_interface : UpInterfaceType

pub record InterfaceUpfInfoItem : Type 0 where
  pub network_instance : Text
  pub interface_type : UpInterfaceType
  pub endpoints : List Text

-- The loop of NewUPFInterfaceInfo over the endpoints.
unfoldable pub add_endpoints :
    (Text → Option (List ℕ)) → List Text → UpfInterfaceInfo → UpfInterfaceInfo
unfolding to4
add_endpoints parse [] i = i
add_endpoints parse (e ∷ es) i = add_endpoints parse es (elim (parse e) [
  | none ↦ record i { endpoint_fqdn = e }
  | some ip ↦ elim (to4 ip) [
    | none ↦ record i { ipv6_end_point_addresses = i.ipv6_end_point_addresses ++ (ip ∷ []) }
    | some four ↦ record i { ipv4_end_point_addresses = i.ipv4_end_point_addresses ++ (four ∷ []) }
  ]
])

unfoldable pub new_upf_interface_info :
    (Text → Option (List ℕ)) → InterfaceUpfInfoItem → UpfInterfaceInfo
unfolding add_endpoints
new_upf_interface_info parse item = add_endpoints parse item.endpoints (record {
  network_instance = item.network_instance;
  endpoint_fqdn = [];
  ipv4_end_point_addresses = [];
  ipv6_end_point_addresses = [];
})

-- The interfaces of one type among those that NewUPF is given.
abbrev same_interface : UpInterfaceType → UpInterfaceType → Bool
same_interface n3 n3 = true
same_interface n9 n9 = true
same_interface other_interface other_interface = true
same_interface _ _ = false

unfoldable pub interfaces_of :
    (Text → Option (List ℕ)) → UpInterfaceType → List InterfaceUpfInfoItem → List UpfInterfaceInfo
unfolding new_upf_interface_info
interfaces_of parse t [] = []
interfaces_of parse t (i ∷ is) =
    if same_interface t i.interface_type
    then new_upf_interface_info parse i ∷ interfaces_of parse t is
    else interfaces_of parse t is

abbrev wants_v4 : PduSessionType → Bool
wants_v4 ipv4 = true
wants_v4 ipv4_v6 = true
wants_v4 _ = false

abbrev wants_v6 : PduSessionType → Bool
wants_v6 ipv6 = true
wants_v6 ipv4_v6 = true
wants_v6 _ = false

-- A resolved address for the session's type, where a nil IP is none; it has no error.
unfoldable pub resolved_ip : PduSessionType → List ℕ → Option (List ℕ)
unfolding to4 to16
resolved_ip ipv4 ip = to4 ip
resolved_ip ipv6 ip = to16 ip
resolved_ip ipv4_v6 ip = elim (to4 ip) [ some four ↦ some four | none ↦ to16 ip ]
resolved_ip ethernet ip = elim (to4 ip) [ some four ↦ some four | none ↦ to16 ip ]
resolved_ip unstructured ip = elim (to4 ip) [ some four ↦ some four | none ↦ to16 ip ]

-- The endpoint's name, where no address fits.
unfoldable pub fqdn_ip :
    (Text → Option (List ℕ)) → PduSessionType → Text → Outcome (Option (List ℕ))
unfolding resolved_ip
fqdn_ip resolve t [] = err
fqdn_ip resolve t (c ∷ cs) = elim (resolve (c ∷ cs)) [
  | none ↦ err
  | some ip ↦ ok (resolved_ip t ip)
]

unfoldable pub ip_v6 :
    (Text → Option (List ℕ)) → UpfInterfaceInfo → PduSessionType → Outcome (Option (List ℕ))
unfolding fqdn_ip
ip_v6 resolve i t = elim i.ipv6_end_point_addresses [
  | [] ↦ fqdn_ip resolve t i.endpoint_fqdn
  | ip ∷ ips ↦ if wants_v6 t then ok (some ip) else fqdn_ip resolve t i.endpoint_fqdn
]

-- IP of UPFInterfaceInfo.
unfoldable pub interface_ip :
    (Text → Option (List ℕ)) → UpfInterfaceInfo → PduSessionType → Outcome (Option (List ℕ))
unfolding to4 ip_v6
interface_ip resolve i t = elim i.ipv4_end_point_addresses [
  | [] ↦ ip_v6 resolve i t
  | ip ∷ ips ↦ if wants_v4 t then ok (to4 ip) else ip_v6 resolve i t
]

-- Whether one of the parts between commas is the DNN, both without the spaces around them.
unfoldable pub names_dnn : Text → List Text → Bool
unfolding trim_space
names_dnn dnn [] = false
names_dnn dnn (d ∷ ds) = text_eq (trim_space d) (trim_space dnn) || names_dnn dnn ds

-- GetInterface over the interfaces of the type.
unfoldable pub get_interface : List UpfInterfaceInfo → Text → Option UpfInterfaceInfo
unfolding split names_dnn
get_interface [] dnn = none
get_interface (i ∷ is) dnn =
    if names_dnn dnn (split b',' i.network_instance) then some i else get_interface is dnn

-- IsDnnConfigured.
unfoldable pub lists_dnn : Text → List DnnUpfInfoItem → Bool
lists_dnn s [] = false
lists_dnn s (d ∷ ds) = text_eq d.dnn s || lists_dnn s ds

unfoldable pub is_dnn_configured : List SnssaiUpfInfo → Text → Bool
unfolding lists_dnn
is_dnn_configured [] s = false
is_dnn_configured (i ∷ is) s = lists_dnn s i.dnn_list || is_dnn_configured is s

-- IsUpfSupportUeIpAddrAlloc, of SupportedFeatures1, whose third bit it tests.
unfoldable pub is_upf_support_ue_ip_addr_alloc : Option ℕ → Bool
is_upf_support_ue_ip_addr_alloc none = false
is_upf_support_ue_ip_addr_alloc (some features) = features / 4 % 2 == 1
