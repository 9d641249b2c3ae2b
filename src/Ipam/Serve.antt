-- ===== src/Ipam/Serve.antt =====
-- IPAllocator.Allocate and Release: every branch, and an address that comes back.
use smf_cdac.Base.{
  ℕ, ◌+◌, ◌^◌, ◌-◌, ◌<◌, ◌≤◌, ◌≡◌, refl, sym, ap, ◌∙◌, Bool, true, false, Option, none, some,
  Option-cases, Bool-cases, List, reverse, inl, inr, arith, Outcome, ok, err, panic,
}
use smf_cdac.Base.Int.{ℤ, pos, negsuc, sub_ℕ, ◌≤ℤ◌, ◌<ℤ◌, ◌==ℤ◌, ==ℤ_iff}
use smf_cdac.Base.Text.{Text}
use smf_cdac.Base.Dict.{Dict}
use smf_cdac.GoStd.Net.{IpNet, parse_ip_to4}
use smf_cdac.Ipam.Addr.{ip_addr_with_offset, ip_addr_offset}
use smf_cdac.Ipam.Pool
use smf_cdac.Ipam.Pool.{IdPool, new_id_pool, put, id_init}
use smf_cdac.Ipam.Allocator.{IpAllocator, new_ip_allocator, static_ip, allocate, release}
use smf_cdac.Ipam.Offsets.{IsNetwork, ip_addr_offset-with_offset, value, value-with_offset}
use smf_cdac.Ipam.Networks.{new_ip_allocator-Opened}
use native.Mathlib.Nat.{pow-le-pow_right}
use smf_cdac.Ipam.Bounds.{IsReady, Allocated, AllocateSpec, allocate-AllocateSpec}

-- An allocator whose network has room for its pool.
pub record IsServing (env : Text) (a : IpAllocator) : Type 0 where
  pub host_bits : ℕ
  pub network : IsNetwork a.ip_network.ip host_bits
  pub ready : IsReady env a.pool
  pub fits : a.pool.max_value <ℤ pos (2 ^ host_bits)

pool_fits : (n : ℕ) → 1 ≤ n → sub_ℕ n 2 <ℤ pos n
pool_fits n h = ground arith

-- NewIPAllocator returns an allocator that serves, where SMF_COUNT is positive and the network has an
-- address to give.
pub new_ip_allocator-IsServing :
    (env cidr : Text) (a : IpAllocator)
    → new_ip_allocator env cidr ≡ ok a
    → pos 1 ≤ℤ id_init env
    → pos 1 ≤ℤ a.pool.max_value
    → IsServing env a
unfolding new_id_pool
new_ip_allocator-IsServing env cidr a e h k =
    let o = new_ip_allocator-Opened env cidr a e in
    let index_first : a.pool.index ≡ id_init env = ap (λ (p : IdPool). p.index) o.fresh in
    let top : a.pool.max_value ≡ sub_ℕ (2 ^ (32 - o.prefix)) 2 =
      ap (λ (p : IdPool). p.max_value) o.fresh in
    let some_address =
      pow-le-pow_right {n = 2} (omega arith) {i = 0} {j = 32 - o.prefix} (omega arith) in
    record {
      host_bits = 32 - o.prefix;
      network = o.network;
      ready = record {
        first = h;
        some_ids = k;
        from_first = rw index_first (omega arith);
        in_range = inr index_first;
      };
      fits = rw top (pool_fits (2 ^ (32 - o.prefix)) some_address);
    }

-- A dynamic allocation gave out the address at an offset that was free, in the instance's range.
pub record Gave (env : Text) (a : IpAllocator) (ip : List ℕ) (b : IpAllocator) : Type 0 where
  pub offset : ℕ
  pub address : ip ≡ ip_addr_with_offset a.ip_network.ip (pos offset)
  pub found : ip_addr_offset ip a.ip_network.ip ≡ some offset
  pub number : value (reverse ip) ≡ value (reverse a.ip_network.ip) + offset
  pub taken : Allocated env a.pool (pos offset) b.pool
  pub same_network : b.ip_network ≡ a.ip_network

-- Every branch of Allocate. A subscriber with a static address gets that address, or nil where it is
-- no IPv4 address, and nothing changes. Another gets a free address, or an error when every id of the
-- instance's range is in use. Allocate does not panic.
abbrev pub ServeSpec :
    Text → IpAllocator → Option Text → Outcome (Option (List ℕ) × IpAllocator) → Type 0
ServeSpec env a (some s) (ok (ip, b)) = (ip ≡ parse_ip_to4 s) × (b ≡ a)
ServeSpec env a none (ok (some ip, b)) = Gave env a ip b
ServeSpec env a none (ok (none, b)) = ⊥
ServeSpec env a none err =
    (id : ℤ) → id_init env ≤ℤ id → id ≤ℤ a.pool.max_value → a.pool.is_used id ≡ true
ServeSpec env a (some s) err = ⊥
ServeSpec env a s panic = ⊥

Allocated-offset :
    (env : Text) (a : IpAllocator) (id : ℤ) (q : IdPool)
    → IsServing env a
    → Allocated env a.pool id q
    → Gave env a (ip_addr_with_offset a.ip_network.ip id) (record a { pool = q })
Allocated-offset env a (negsuc n) q s t = absurd (omega (arith, s.ready.first, t.above))
Allocated-offset env a (pos n) q s t =
    let small : n < 2 ^ s.host_bits = omega (arith, t.below, s.fits) in
    record {
      offset = n;
      address = refl;
      found = ip_addr_offset-with_offset a.ip_network.ip s.host_bits n s.network small;
      number = (value-with_offset a.ip_network.ip s.host_bits n s.network small).0;
      taken = t;
      same_network = refl;
    }

dynamic :
    (env : Text) (a : IpAllocator) (r : Outcome (ℤ × IdPool))
    → IsServing env a
    → AllocateSpec env a.pool r
    → ServeSpec env a none (elim r [
      | ok (id, p) ↦ ok (some (ip_addr_with_offset a.ip_network.ip id), record a { pool = p })
      | err ↦ err
      | panic ↦ panic
    ])
dynamic env a (ok (id, q)) s t = Allocated-offset env a id q s t
dynamic env a err s t = t
dynamic env a panic s t = t

-- Allocate on a serving allocator never panics: it gives a subscriber with a static address that
-- address and leaves the pool alone, gives any other the address at a free offset of the instance's
-- range, or returns an error because every offset of the range is in use.
pub allocate-ServeSpec :
    (env imsi : Text) (a : IpAllocator)
    → IsServing env a
    → ServeSpec env a (static_ip a.pool.static_ips imsi) (allocate env imsi a)
unfolding allocate
allocate-ServeSpec env imsi a s = elim (Option-cases (static_ip a.pool.static_ips imsi)) [
  | inl e ↦ rw (e, allocate) (dynamic env a _ s (allocate-AllocateSpec env a.pool s.ready))
  | inr (t, e) ↦ rw (e, allocate) (refl, refl)
]

-- A dynamic allocation that returned.
pub dynamic-Gave :
    (env imsi : Text) (a b : IpAllocator) (ip : List ℕ)
    → IsServing env a
    → static_ip a.pool.static_ips imsi ≡ none
    → allocate env imsi a ≡ ok (some ip, b)
    → Gave env a ip b
dynamic-Gave env imsi a b ip s e r = rw (e, r) at (allocate-ServeSpec env imsi a s)

put_back :
    (used : ℤ → Bool) (o id : ℤ) → used o ≡ false → put (put used o true) o false id ≡ used id
put_back used o id f = elim (Bool-cases (id ==ℤ o)) [
  | inl same ↦ let e = (==ℤ_iff id o).0 same in rw (same, e) (sym f)
  | inr other ↦ rw other refl
]

-- A subscriber's dynamic address, once released, is free again, and no other offset changes.
pub allocate-release :
    (env imsi : Text) (a b : IpAllocator) (ip : List ℕ)
    → IsServing env a
    → static_ip a.pool.static_ips imsi ≡ none
    → allocate env imsi a ≡ ok (some ip, b)
    → (c : IpAllocator) × (release imsi ip (some b) ≡ ok c)
      × ((id : ℤ) → c.pool.is_used id ≡ a.pool.is_used id)
unfolding release Pool.release
allocate-release env imsi a b ip s e r =
    let g = dynamic-Gave env imsi a b ip s e r in
    let e' : static_ip b.pool.static_ips imsi ≡ none =
      ap (λ (m : Option (Dict Text)). static_ip m imsi) g.taken.same_static ∙ e in
    let f' : ip_addr_offset ip b.ip_network.ip ≡ some g.offset =
      ap (λ (n : IpNet). ip_addr_offset ip n.ip) g.same_network ∙ g.found in
    (
      record b { pool = record b.pool { is_used = put b.pool.is_used (pos g.offset) false } },
      rw (e', f', release) refl,
      λ id.
          ap (λ (f : ℤ → Bool). put f (pos g.offset) false id) g.taken.marks
          ∙ put_back a.pool.is_used (pos g.offset) id g.taken.was_free,
    )
