-- ===== src/Topo/NodeIds.antt =====
-- context/nodeid.go, and the matching of node IDs in RetrieveUPFNodeByNodeID and RemoveUPFNodeByNodeID
-- of context/upf.go. net.ParseIP and the host look-up are parameters.
use smf_cdac.Base.{
  ℕ, Bool, true, false, not, ◌&&◌, ◌||◌, Option, none, some, List, [], ◌∷◌, ◌==◌, if◌then◌else◌,
  ◌++◌, length,
}
use smf_cdac.Base.Text.{Text, text_eq}
use smf_cdac.Base.Dict.{Dict, lookup, insert, delete}
use smf_cdac.Topo.Types.{NodeId}

-- net.ParseIP, with the 16 bytes that it returns; the bytes that a host's first address parses to; and
-- IP.String.
pub record Network : Type 0 where
  pub parse_ip : Text → Option (List ℕ)
  pub lookup_host : Text → Option (List ℕ)
  pub ip_string : List ℕ → Text

-- What stands behind a prefix.
unfoldable pub behind : List ℕ → List ℕ → Option (List ℕ)
behind [] bs = some bs
behind (p ∷ ps) [] = none
behind (p ∷ ps) (b ∷ bs) = if p == b then behind ps bs else none

abbrev pub v4_prefix : List ℕ
v4_prefix = 0 ∷ 0 ∷ 0 ∷ 0 ∷ 0 ∷ 0 ∷ 0 ∷ 0 ∷ 0 ∷ 0 ∷ 255 ∷ 255 ∷ []

-- net.IPv4zero.
abbrev pub ipv4_zero : List ℕ
ipv4_zero = v4_prefix ++ (0 ∷ 0 ∷ 0 ∷ 0 ∷ [])

-- IP.To4, nil where it is neither 4 bytes nor an IPv4 address in 16.
unfoldable pub to4 : List ℕ → Option (List ℕ)
unfolding behind
to4 ip = if length ip == 4 then some ip else if length ip == 16 then behind v4_prefix ip else none

-- IP.To16.
unfoldable pub to16 : List ℕ → Option (List ℕ)
to16 ip =
    if length ip == 4 then some (v4_prefix ++ ip) else if length ip == 16 then some ip else none

-- NewNodeID.
unfoldable pub new_node_id : Network → Text → NodeId
unfolding to4
new_node_id net s = elim (net.parse_ip s) [
  | none ↦ record { node_id_value = s; node_id_type = 2 }
  | some ip ↦ elim (to4 ip) [
    | some four ↦ record { node_id_value = four; node_id_type = 0 }
    | none ↦ record { node_id_value = ip; node_id_type = 1 }
  ]
]

-- dnsHostIpCache with getDnsHostIp, InsertDnsHostIp and deleteDnsHost.
abbrev pub DnsCache : Type 0
DnsCache = Dict (List ℕ)

unfoldable pub get_dns_host_ip : Text → DnsCache → Option (List ℕ)
unfolding lookup
get_dns_host_ip host cache = lookup host cache

unfoldable pub insert_dns_host_ip : Text → List ℕ → DnsCache → DnsCache
unfolding insert
insert_dns_host_ip host ip cache = insert host ip cache

unfoldable pub delete_dns_host : Text → DnsCache → DnsCache
unfolding delete
delete_dns_host host cache = delete host cache

-- The look-up of a host behind the cache, which keeps what it finds.
unfoldable pub resolve_host : Network → Text → DnsCache → List ℕ × DnsCache
unfolding get_dns_host_ip insert_dns_host_ip
resolve_host net host cache = elim (get_dns_host_ip host cache) [
  | some ip ↦ (ip, cache)
  | none ↦ elim (net.lookup_host host) [
    | none ↦ (ipv4_zero, cache)
    | some ip ↦ (ip, insert_dns_host_ip host ip cache)
  ]
]

-- ResolveNodeIdToIp.
unfoldable pub resolve_node_id_to_ip : Network → NodeId → DnsCache → List ℕ × DnsCache
unfolding resolve_host
resolve_node_id_to_ip net n cache =
    if n.node_id_type == 0 || n.node_id_type == 1
    then (n.node_id_value, cache)
    else if n.node_id_type == 2
    then resolve_host net n.node_id_value cache
    else (ipv4_zero, cache)

-- IP.Equal, which takes an IPv4 address in 4 and in 16 bytes for the same.
unfoldable pub ip_equal : List ℕ → List ℕ → Bool
unfolding behind
ip_equal a b =
    if length a == length b
    then text_eq a b
    else if length a == 4 && length b == 16
    then text_eq (v4_prefix ++ a) b
    else length a == 16 && length b == 4 && text_eq a (v4_prefix ++ b)

-- The cached address of a host, which is nil where there is none.
unfoldable pub cached_ip : Text → DnsCache → List ℕ
unfolding lookup
cached_ip host cache = elim (lookup host cache) [ some ip ↦ ip | none ↦ [] ]

-- RefreshDnsHostIpCache over the names that the cache held when it began.
unfoldable pub refresh_hosts : Network → List Text → DnsCache → DnsCache
unfolding delete_dns_host ip_equal cached_ip insert
refresh_hosts net [] cache = cache
refresh_hosts net (host ∷ hosts) cache = refresh_hosts net hosts (elim (net.lookup_host host) [
  | none ↦ delete_dns_host host cache
  | some ip ↦ if ip_equal (cached_ip host cache) ip then cache else insert host ip cache
])

unfoldable pub host_names : DnsCache → List Text
host_names [] = []
host_names ((host, ip) ∷ cache) = host ∷ host_names cache

unfoldable pub refresh_dns_host_ip_cache : Network → DnsCache → DnsCache
unfolding refresh_hosts host_names
refresh_dns_host_ip_cache net cache = refresh_hosts net (host_names cache) cache

-- reflect.DeepEqual on two IPs, of which one or both may be nil.
unfoldable pub same_ip : Option (List ℕ) → Option (List ℕ) → Bool
same_ip none none = true
same_ip none (some b) = false
same_ip (some a) none = false
same_ip (some a) (some b) = text_eq a b

-- How the UPF pool tells two node IDs alike, given what the host names resolve to.
unfoldable pub same_node : (NodeId → List ℕ) → NodeId → NodeId → Bool
unfolding same_ip to4
same_node resolve a b =
    if not (a.node_id_type == b.node_id_type) && (a.node_id_type == 2 || b.node_id_type == 2)
    then same_ip (to4 (resolve a)) (to4 (resolve b))
    else a.node_id_type == b.node_id_type && text_eq a.node_id_value b.node_id_value

-- RetrieveUPFNodeByNodeID, with the uuid of the UPF, and RemoveUPFNodeByNodeID, over the pool in the
-- order of its list.
unfoldable pub retrieve_upf_node_by_node_id : (NodeId → List ℕ) → NodeId → Dict NodeId → Option Text
unfolding same_node
retrieve_upf_node_by_node_id resolve n [] = none
retrieve_upf_node_by_node_id resolve n ((uuid, m) ∷ pool) =
    if same_node resolve m n then some uuid else retrieve_upf_node_by_node_id resolve n pool

unfoldable pub remove_upf_node_by_node_id :
    (NodeId → List ℕ) → NodeId → Dict NodeId → Bool × Dict NodeId
unfolding retrieve_upf_node_by_node_id delete
remove_upf_node_by_node_id resolve n pool = elim (retrieve_upf_node_by_node_id resolve n pool) [
  | none ↦ (false, pool)
  | some uuid ↦ (true, delete uuid pool)
]
