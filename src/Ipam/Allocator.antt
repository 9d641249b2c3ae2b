-- ===== src/Ipam/Allocator.antt =====
-- context/ip_allocator.go: IPAllocator. An address that may be nil is an option.
use smf_cdac.Base.{ℕ, ◌-◌, ◌^◌, Option, none, some, Outcome, ok, err, panic, ◌>>=◌, List, [], ◌∷◌}
use smf_cdac.Base.Int.{pos, sub_ℕ}
use smf_cdac.Base.Text.{Text}
use smf_cdac.Base.Dict.{Dict, lookup}
use smf_cdac.GoStd.Net.{IpNet, parse_cidr, parse_ip_to4}
use smf_cdac.Ipam.Addr.{mask_bits, ip_addr_with_offset, ip_addr_offset}
use smf_cdac.Ipam.Pool
use smf_cdac.Ipam.Pool.{IdPool, new_id_pool}

pub record IpAllocator : Type 0 where
  pub ip_network : IpNet
  pub pool : IdPool

-- The pool runs from 1 to `1<<(32-maskBits) - 2`.
unfoldable pub new_ip_allocator : Text → Text → Outcome IpAllocator
new_ip_allocator env cidr = elim (parse_cidr cidr) [
  | none ↦ err
  | some n ↦ ok (record {
    ip_network = n;
    pool = new_id_pool env (pos 1) (sub_ℕ (2 ^ (32 - mask_bits n.mask)) 2);
  })
]

-- `staticIps[imsi]` where the map is not nil and the value is not the empty text.
unfoldable pub static_ip : Option (Dict Text) → Text → Option Text
static_ip none imsi = none
static_ip (some ips) imsi = elim (lookup imsi ips) [
  | none ↦ none
  | some [] ↦ none
  | some (c ∷ cs) ↦ some (c ∷ cs)
]

unfoldable pub allocate : Text → Text → IpAllocator → Outcome (Option (List ℕ) × IpAllocator)
allocate env imsi a = elim (static_ip a.pool.static_ips imsi) [
  | some s ↦ ok (parse_ip_to4 s, a)
  | none ↦ elim (Pool.allocate env a.pool) [
    | ok (id, p) ↦ ok (some (ip_addr_with_offset a.ip_network.ip id), record a { pool = p })
    | err ↦ err
    | panic ↦ panic
  ]
]

unfoldable pub block_ip : List ℕ → IpAllocator → Outcome IpAllocator
block_ip ip a = elim (ip_addr_offset ip a.ip_network.ip) [
  | none ↦ panic
  | some offset ↦ ok (record a { pool = Pool.block (pos offset) a.pool })
]

-- The loop of ReserveStaticIps, over the map in any order.
unfoldable pub block_static : Dict Text → IpAllocator → Outcome IpAllocator
unfolding block_ip
block_static [] a = ok a
block_static ((imsi, s) ∷ ips) a = elim (parse_ip_to4 s) [
  | none ↦ block_static ips a
  | some ip ↦ block_ip ip a >>= block_static ips
]

unfoldable pub reserve_static_ips : Dict Text → IpAllocator → Outcome IpAllocator
unfolding block_static
reserve_static_ips ips a =
    block_static ips (record a { pool = record a.pool { static_ips = some ips } })

-- The receiver may be nil: the guard logs an error and goes on to the access that panics.
unfoldable pub release : Text → List ℕ → Option IpAllocator → Outcome IpAllocator
release imsi ip none = panic
release imsi ip (some a) = elim (static_ip a.pool.static_ips imsi) [
  | some s ↦ ok a
  | none ↦ elim (ip_addr_offset ip a.ip_network.ip) [
    | none ↦ panic
    | some offset ↦ ok (record a { pool = Pool.release (pos offset) a.pool })
  ]
]
