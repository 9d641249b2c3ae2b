-- ===== src/Examples/Ipam.antt =====
-- The address pool of context/ip_allocator.go on 192.168.1.0/24, as in context/ip_allocator_test.go.
use smf_cdac.Base.{
  ◌≡◌, refl, true, false, none, some, List, [], ◌∷◌, All, arith, ◌≢◌, ok, ok-injective, sym, ◌∙◌,
}
use mathlib.Core.Path.{subst}
use smf_cdac.Base.Int.{ℤ, pos, ◌+ℤ◌, ◌*ℤ◌, rem}
use smf_cdac.Base.Text.{Text, codes, text_eq}
use smf_cdac.Base.Dict.{Dict, lookup}
use smf_cdac.GoStd.Strconv.{atoi}
use smf_cdac.GoStd.Net.{IpNet, parse_ip_to4, parse_cidr}
use smf_cdac.Ipam.Addr.{ip_addr_with_offset, ip_addr_offset, mask_bits}
use smf_cdac.Ipam.Pool
use smf_cdac.Ipam.Pool.{
  IdPool, new_id_pool, id_init, find_free, allocate_wrapped, next_index, smf_count,
}
use smf_cdac.Ipam.Allocator.{
  IpAllocator, new_ip_allocator, allocate, release, static_ip, reserve_static_ips,
}
use smf_cdac.Ipam.Offsets.{ip_addr_offset-with_offset, IsNetwork}
use smf_cdac.Ipam.Bounds.{AllocateSpec, allocate-AllocateSpec}
use smf_cdac.Ipam.History.{
  Call, allocates, blocks, releases, run, step, give_up, IsExclusive, run-IsExclusive,
}
use smf_cdac.Ipam.Serve.{
  IsServing, ServeSpec, allocate-ServeSpec, allocate-release, new_ip_allocator-IsServing,
}
use smf_cdac.Ipam.Static.{Blocked, reserve_static_ips-Reserved, dynamic_not_static}

abbrev one_smf : Text
one_smf = codes "1"

abbrev home : IpNet
home = record { ip = 192 ∷ 168 ∷ 1 ∷ 0 ∷ []; mask = 255 ∷ 255 ∷ 255 ∷ 0 ∷ [] }

abbrev home_pool : IdPool
home_pool = record {
  static_ips = none;
  is_used = λ _. false;
  min_value = pos 1;
  max_value = pos 254;
  index = pos 1;
}

abbrev home_allocator : IpAllocator
home_allocator = record { ip_network = home; pool = home_pool }

home_opens : new_ip_allocator one_smf (codes "192.168.1.7/24") ≡ ok home_allocator
unfolding new_ip_allocator parse_cidr mask_bits new_id_pool id_init atoi
home_opens = refl

second_smf : id_init (codes "2") ≡ pos 2501
unfolding id_init atoi
second_smf = refl

home_first : id_init one_smf ≡ pos 1
unfolding id_init atoi
home_first = refl

home_IsServing : IsServing one_smf home_allocator
home_IsServing =
    new_ip_allocator-IsServing one_smf (codes "192.168.1.7/24") home_allocator home_opens
      (rw home_first (omega arith)) (omega arith)

ip_addr_offset-with_offset_example :
    ip_addr_offset (ip_addr_with_offset home.ip (pos 9)) home.ip ≡ some 9
ip_addr_offset-with_offset_example =
    ip_addr_offset-with_offset home.ip 8 9
      (record { four = refl; bytes = omega arith; room = omega arith; bits = omega arith })
      (omega arith)

home_IsNetwork : IsNetwork home.ip 8
home_IsNetwork = record { four = refl; bytes = omega arith; room = omega arith; bits = omega arith }

-- 10.0.0.200 and an offset of 100 give 10.0.0.44.
carry_lost_address : ip_addr_with_offset (10 ∷ 0 ∷ 0 ∷ 200 ∷ []) (pos 100) ≡ 10 ∷ 0 ∷ 0 ∷ 44 ∷ []
unfolding ip_addr_with_offset
carry_lost_address = refl

allocate-AllocateSpec_example : AllocateSpec one_smf home_pool (Pool.allocate one_smf home_pool)
allocate-AllocateSpec_example = allocate-AllocateSpec one_smf home_pool home_IsServing.ready

abbrev calls : List Call
calls = allocates ∷ allocates ∷ releases (pos 1) ∷ blocks (pos 3) ∷ allocates ∷ []

run-IsExclusive_example : IsExclusive one_smf (run one_smf (home_pool, []) calls)
run-IsExclusive_example = run-IsExclusive one_smf home_pool calls home_IsServing.ready

calls_held : (run one_smf (home_pool, []) calls).1 ≡ pos 4 ∷ pos 2 ∷ []
unfolding run step give_up Pool.allocate find_free next_index id_init atoi ◌+ℤ◌ ◌*ℤ◌ rem Pool.block
    Pool.release
calls_held = refl

-- The subscriber imsi-2 has a static address.
abbrev static_map : Dict Text
static_map = (codes "imsi-2", codes "192.168.1.1") ∷ []

abbrev reserved : IpAllocator
reserved = record home_allocator {
  pool = record home_pool {
    static_ips = some static_map;
    is_used = Pool.put home_pool.is_used (pos 1) true;
  };
}

allocate-ServeSpec_example :
    ServeSpec one_smf home_allocator none (allocate one_smf (codes "imsi-1") home_allocator)
unfolding static_ip
allocate-ServeSpec_example =
    allocate-ServeSpec one_smf (codes "imsi-1") home_allocator home_IsServing

abbrev first_given : IpAllocator
first_given = record home_allocator {
  pool = record home_pool { is_used = Pool.put home_pool.is_used (pos 1) true; index = pos 2 };
}

first_allocation :
    allocate one_smf (codes "imsi-1") home_allocator
    ≡ ok (some (192 ∷ 168 ∷ 1 ∷ 1 ∷ []), first_given)
unfolding allocate static_ip Pool.allocate find_free next_index id_init atoi ◌+ℤ◌ ◌*ℤ◌ rem
    ip_addr_with_offset
first_allocation = refl

allocate-release_example :
    (c : IpAllocator) × (release (codes "imsi-1") (192 ∷ 168 ∷ 1 ∷ 1 ∷ []) (some first_given)
      ≡ ok c)
    × ((id : ℤ) → c.pool.is_used id ≡ home_allocator.pool.is_used id)
unfolding static_ip
allocate-release_example =
    allocate-release one_smf (codes "imsi-1") home_allocator first_given (192 ∷ 168 ∷ 1 ∷ 1 ∷ [])
      home_IsServing refl first_allocation

reserve_static_ips-Reserved_example :
    (b : IpAllocator) × (reserve_static_ips static_map home_allocator ≡ ok b)
    × Blocked b static_map
    × (b.pool.static_ips ≡ some static_map)
    × IsServing one_smf b
reserve_static_ips-Reserved_example =
    reserve_static_ips-Reserved one_smf static_map home_allocator home_IsServing

reserved_lem : reserve_static_ips static_map home_allocator ≡ ok reserved
unfolding reserve_static_ips parse_ip_to4 ip_addr_offset Pool.block
reserved_lem = refl

reserved_facts : Blocked reserved static_map × IsServing one_smf reserved
reserved_facts =
    let (b, e, k, _, s) =
      reserve_static_ips-Reserved one_smf static_map home_allocator home_IsServing in
    let same = ok-injective (sym e ∙ reserved_lem) in
    (subst (λ (a : IpAllocator). Blocked a static_map) same k, subst (IsServing one_smf) same s)

second_allocation :
    allocate one_smf (codes "imsi-1") reserved
    ≡ ok (
      some (192 ∷ 168 ∷ 1 ∷ 2 ∷ []),
      record reserved {
        pool = record reserved.pool {
          is_used = Pool.put reserved.pool.is_used (pos 2) true;
          index = pos 3;
        };
      },
    )
unfolding allocate static_ip lookup text_eq Pool.allocate find_free next_index id_init atoi ◌+ℤ◌
    ◌*ℤ◌ rem ip_addr_with_offset
second_allocation = refl

dynamic_not_static_example :
    All (λ (e : Text × Text). parse_ip_to4 e.1 ≢ some (192 ∷ 168 ∷ 1 ∷ 2 ∷ [])) static_map
unfolding static_ip lookup text_eq
dynamic_not_static_example =
    dynamic_not_static one_smf (codes "imsi-1") reserved _ (192 ∷ 168 ∷ 1 ∷ 2 ∷ []) static_map
      reserved_facts.1 reserved_facts.0 refl second_allocation
