-- ===== src/Ipam/Static.antt =====
-- IPAllocator.ReserveStaticIps: static addresses are kept apart from dynamic ones.
use smf_cdac.Base.{
  ℕ, ◌≡◌, ◌≢◌, refl, sym, ◌∙◌, Bool, true, Option, none, some, Option-cases, List, [], ◌∷◌, All,
  length, inl, inr, arith, ok,
}
use smf_cdac.Base.Int.{ℤ, pos}
use smf_cdac.Base.Text.{Text}
use smf_cdac.Base.Dict.{Dict}
use smf_cdac.GoStd.Net.{parse_ip_to4}
use smf_cdac.Ipam.Addr.{ip_addr_offset}
use smf_cdac.Ipam.Pool
use smf_cdac.Ipam.Pool.{IdPool, put, id_init}
use smf_cdac.Ipam.Allocator.{
  IpAllocator, static_ip, allocate, block_ip, block_static, reserve_static_ips,
}
use smf_cdac.Ipam.Offsets.{ip_addr_offset_lem}
use smf_cdac.Ipam.Serve.{IsServing, Gave, dynamic-Gave}
use smf_cdac.Ipam.Networks.{parse_ip_to4-bytes}
use mathlib.Core.Option.{some-injective}

-- Every static address is blocked: its offset is in use.
abbrev pub Blocked : IpAllocator → Dict Text → Type 0
Blocked a ips =
    All
      (λ (e : Text × Text).
        (ip : List ℕ)
        → parse_ip_to4 e.1 ≡ some ip
        → (o : ℕ) × (ip_addr_offset ip a.ip_network.ip ≡ some o) × (a.pool.is_used (pos o) ≡ true))
      ips

clash :
    (env : Text) (a b : IpAllocator) (ip : List ℕ) (ips : Dict Text)
    → Blocked a ips
    → Gave env a ip b
    → All (λ (e : Text × Text). parse_ip_to4 e.1 ≢ some ip) ips
clash env a b ip [] k g = tt
clash env a b ip ((imsi, s) ∷ ips) k g = (
  λ same.
      let (o, at_o, used) = k.0 ip same in
      let e : o ≡ g.offset = some-injective _ _ (sym at_o ∙ g.found) in
      let u : a.pool.is_used (pos g.offset) ≡ true = rw (← e) used in
      let f = g.taken.was_free in cc,
  clash env a b ip ips k.1 g,
)

-- An address that a serving allocator gives to a subscriber with no static address is none of the
-- addresses of a static map that are blocked.
pub dynamic_not_static :
    (env imsi : Text) (a b : IpAllocator) (ip : List ℕ) (ips : Dict Text)
    → IsServing env a
    → Blocked a ips
    → static_ip a.pool.static_ips imsi ≡ none
    → allocate env imsi a ≡ ok (some ip, b)
    → All (λ (e : Text × Text). parse_ip_to4 e.1 ≢ some ip) ips
dynamic_not_static env imsi a b ip ips s k e r =
    clash env a b ip ips k (dynamic-Gave env imsi a b ip s e r)

-- What ReserveStaticIps leaves: the map is kept, each of its IPv4 addresses is blocked, nothing that
-- was in use is free, and the allocator serves as before.
pub record Reserved (env : Text) (ips : Dict Text) (a b : IpAllocator) : Type 0 where
  pub blocked : Blocked b ips
  pub keeps : (id : ℤ) → a.pool.is_used id ≡ true → b.pool.is_used id ≡ true
  pub same_static : b.pool.static_ips ≡ a.pool.static_ips
  pub serving : IsServing env b

block_ip_lem :
    (env : Text) (a : IpAllocator) (ip : List ℕ)
    → IsServing env a
    → length ip ≡ 4
    → (o : ℕ) × (ip_addr_offset ip a.ip_network.ip ≡ some o)
      × (block_ip ip a
          ≡ ok (record a { pool = record a.pool { is_used = put a.pool.is_used (pos o) true } }))
unfolding block_ip Pool.block
block_ip_lem env a ip s e =
    let o = ip_addr_offset_lem ip a.ip_network.ip (e ∙ sym s.network.four) in
    (_, o, rw (o, block_ip) refl)

IsServing-same :
    (env : Text) (a : IpAllocator) (used : ℤ → Bool) (ips : Option (Dict Text))
    → IsServing env a
    → IsServing env (record a { pool = record a.pool { is_used = used; static_ips = ips } })
IsServing-same env a used ips s = record {
  host_bits = s.host_bits;
  network = s.network;
  ready = record {
    first = s.ready.first;
    some_ids = s.ready.some_ids;
    from_first = s.ready.from_first;
    in_range = s.ready.in_range;
  };
  fits = s.fits;
}

block_static-Reserved :
    (env : Text) (ips : Dict Text) (a : IpAllocator)
    → IsServing env a
    → (b : IpAllocator) × (block_static ips a ≡ ok b)
      × Reserved env ips a b
      × (b.ip_network ≡ a.ip_network)
unfolding block_static
block_static-Reserved env [] a s =
    (a, refl, record { blocked = tt; keeps = λ id h. h; same_static = refl; serving = s }, refl)
block_static-Reserved env ((imsi, t) ∷ ips) a s = elim (Option-cases (parse_ip_to4 t)) [
  | inl bad ↦
      let (b, e, r, n) = block_static-Reserved env ips a s in
      (
        b,
        rw (bad, block_static) e,
        record {
          blocked = (λ ip h. let f = rw bad at h in cc, r.blocked);
          keeps = r.keeps;
          same_static = r.same_static;
          serving = r.serving;
        },
        n,
      )
  | inr (ip, good) ↦
      let (o, at_o, e₁) = block_ip_lem env a ip s (parse_ip_to4-bytes t ip good).0 in
      let (b, e, r, n) =
        block_static-Reserved env ips
          (record a { pool = record a.pool { is_used = put a.pool.is_used (pos o) true } })
          (IsServing-same env a (put a.pool.is_used (pos o) true) a.pool.static_ips s) in
      (
        b,
        rw (good, e₁, block_static) e,
        record {
          blocked = (
            λ ip' h.
                let same : ip ≡ ip' = some-injective _ _ (sym good ∙ h) in
                (o, rw (← same, n) at_o, r.keeps (pos o) (ground arith)),
            r.blocked,
          );
          keeps = λ id h. r.keeps id (ground arith);
          same_static = r.same_static;
          serving = r.serving;
        },
        n,
      )
]

-- ReserveStaticIps on a serving allocator returns: the map is kept, the offset of each of its IPv4
-- addresses is in use, and the allocator still serves.
pub reserve_static_ips-Reserved :
    (env : Text) (ips : Dict Text) (a : IpAllocator)
    → IsServing env a
    → (b : IpAllocator) × (reserve_static_ips ips a ≡ ok b)
      × Blocked b ips
      × (b.pool.static_ips ≡ some ips)
      × IsServing env b
unfolding reserve_static_ips
reserve_static_ips-Reserved env ips a s =
    let a' = record a { pool = record a.pool { static_ips = some ips } } in
    let (b, e, r, _) =
      block_static-Reserved env ips a' (IsServing-same env a a.pool.is_used (some ips) s) in
    (b, e, r.blocked, r.same_static, r.serving)
