-- ===== src/Ipam/Networks.antt =====
-- The network that an allocator is built on: net.ParseCIDR clears the host bits, and maskBits counts
-- the ones of its mask.
use smf_cdac.Base.{
  ℕ, ◌+◌, ◌-◌, ◌/◌, ◌^◌, ◌≤◌, ◌<◌, ◌≡◌, refl, sym, ap, ◌∙◌, Bool, true, none, some, Option-cases,
  Bool-cases, List, [], ◌∷◌, arith, length, All, inl, inr, leb, ◌==◌, ==_iff, leb→le, if◌then◌else◌,
  bit_and, all_below, all_below_sound, ok, ok-injective,
}
use Prim.Native.Nat.{min}
use mathlib.Core.Path.{subst}
use mathlib.Core.Option.{some-injective}
use native.Mathlib.Nat.{pow-le-pow_right}
use smf_cdac.Base.Text.{Text}
use smf_cdac.Base.Int.{pos, sub_ℕ}
use smf_cdac.GoStd.Net.{
  IpNet, parse_cidr, cidr_parts, parse_ip_to4, octets, four_bytes, octet, network_of, mask_bytes,
  mask_byte,
}
use smf_cdac.GoStd.Strconv.{magnitude}
use smf_cdac.GoStd.Strings.{split}
use smf_cdac.Ipam.Addr.{mask_bits}
use smf_cdac.Ipam.Pool.{new_id_pool}
use smf_cdac.Ipam.Allocator.{IpAllocator, new_ip_allocator}
use smf_cdac.Ipam.Offsets.{IsByte, IsNetwork}

mask_bits_table : all_below 33 (λ n. mask_bits (mask_bytes 4 n) == n) ≡ true
unfolding all_below mask_bits mask_bytes
mask_bits_table = refl

-- maskBits gives back the prefix length of a mask.
pub mask_bits-mask_bytes : (n : ℕ) → n ≤ 32 → mask_bits (mask_bytes 4 n) ≡ n
mask_bits-mask_bytes n h =
    (==_iff _ _).0
      (all_below_sound 33 (λ k. mask_bits (mask_bytes 4 k) == k) n mask_bits_table (omega arith))

masked_row : ℕ → ℕ → Bool
masked_row m a = leb (bit_and a (255 - 255 / 2 ^ m) + 2 ^ (8 - m)) 256

masked_table : all_below 8 (λ m. all_below 256 (masked_row m)) ≡ true
unfolding all_below masked_row
masked_table = refl

full_table : all_below 256 (λ a. bit_and a 255 == a) ≡ true
unfolding all_below
full_table = refl

masked_low : (m a : ℕ) → m < 8 → a < 256 → bit_and a (255 - 255 / 2 ^ m) + 2 ^ (8 - m) ≤ 256
unfolding masked_row
masked_low m a l h =
    leb→le _ _ (all_below_sound 256 (masked_row m) a (all_below_sound 8 _ m masked_table l) h)

full_byte : (a : ℕ) → a < 256 → bit_and a 255 ≡ a
full_byte a h = (==_iff _ a).0 (all_below_sound 256 _ a full_table h)

-- A byte under a mask byte with `m` ones has room for the bits that the mask leaves.
masked_byte : (m a : ℕ) → a < 256 → bit_and a (mask_byte m) + 2 ^ (8 - m) ≤ 256
masked_byte m a h = elim (Bool-cases (leb 8 m)) [
  | inl big ↦
      let z : 8 - m ≡ 0 = omega (arith, leb→le 8 m big) in
      rw (big, z) (omega (arith, full_byte a h))
  | inr small ↦ rw small (masked_low m a (ground arith) h)
]

octet-lt : (w : Text) (b : ℕ) → octet w ≡ some b → b < 256
unfolding octet
octet-lt w b e = ground arith

octets-IsByte : (ws : List Text) (bs : List ℕ) → octets ws ≡ some bs → All IsByte bs
octets-IsByte [] bs e = subst (All IsByte) (some-injective _ _ e) tt
octets-IsByte (w ∷ ws) bs e = elim (Option-cases (octet w)) [
  | inl bad ↦ let f = rw (bad, octets) at e in cc
  | inr (b, good) ↦ elim (Option-cases (octets ws)) [
    | inl bad ↦ let f = rw (good, bad, octets) at e in cc
    | inr (rest, goods) ↦
        subst (All IsByte) (some-injective _ _ (rw (good, goods, octets) at e))
          (octet-lt w b good, octets-IsByte ws rest goods)
  ]
]

pub parse_ip_to4-bytes :
    (s : Text) (ip : List ℕ) → parse_ip_to4 s ≡ some ip → (length ip ≡ 4) × All IsByte ip
unfolding parse_ip_to4
parse_ip_to4-bytes s ip e = elim (Option-cases (octets (split b'.' s))) [
  | inl bad ↦ let f = rw bad at e in cc
  | inr (bs, good) ↦
      let f : four_bytes (some bs) ≡ some ip = rw good at e in
      let g : (length bs ≡ 4) × (bs ≡ ip) = ground arith in
      rw (← g.1) (g.0, octets-IsByte (split b'.' s) bs good)
]

masked_room : (k m a : ℕ) → a < 256 → min k 8 ≡ 8 - m → bit_and a (mask_byte m) + 2 ^ min k 8 ≤ 256
masked_room k m a h e = rw e (masked_byte m a h)

masked-IsByte : (m a : ℕ) → a < 256 → IsByte (bit_and a (mask_byte m))
masked-IsByte m a h = omega (
  arith,
  masked_byte m a h,
  pow-le-pow_right {n = 2} (omega arith) {i = 0} {j = 8 - m} (omega arith),
)

network_of-mask : (ip : List ℕ) (n : ℕ) → n ≤ 32 → mask_bits (network_of ip n).mask ≡ n
unfolding network_of
network_of-mask ip n h = mask_bits-mask_bytes n h

-- The bytes of a network under a mask of `n` ones, the last first.
IsNetwork-room :
    (a b c d n : ℕ)
    → All IsByte (a ∷ b ∷ c ∷ d ∷ [])
    → n ≤ 32
    → IsNetwork (network_of (a ∷ b ∷ c ∷ d ∷ []) n).ip (32 - n)
unfolding network_of
IsNetwork-room a b c d n (ha, (hb, (hc, (hd, _)))) l = record {
  four = refl;
  bytes = (
    masked-IsByte _ d hd,
    (masked-IsByte _ c hc, (masked-IsByte _ b hb, (masked-IsByte _ a ha, tt))),
  );
  room = (
    masked_room (32 - n) _ d hd (omega arith),
    (
      masked_room (32 - n - 8) _ c hc (omega arith),
      (
        masked_room (32 - n - 8 - 8) _ b hb (omega arith),
        (masked_room (32 - n - 8 - 8 - 8) _ a ha (omega arith), tt),
      ),
    ),
  );
  bits = omega arith;
}

-- net.ParseCIDR returns a network, and a mask of as many ones as its prefix is long.
network_of-IsNetwork :
    (ip : List ℕ) (n : ℕ)
    → length ip ≡ 4
    → All IsByte ip
    → n ≤ 32
    → IsNetwork (network_of ip n).ip (32 - n)
network_of-IsNetwork (a ∷ b ∷ c ∷ d ∷ []) n e h l = IsNetwork-room a b c d n h l
network_of-IsNetwork [] n e h l = absurd (omega arith)
network_of-IsNetwork (a ∷ []) n e h l = absurd (omega arith)
network_of-IsNetwork (a ∷ b ∷ []) n e h l = absurd (omega arith)
network_of-IsNetwork (a ∷ b ∷ c ∷ []) n e h l = absurd (omega arith)
network_of-IsNetwork (a ∷ b ∷ c ∷ d ∷ x ∷ xs) n e h l = absurd (omega arith)

-- A network that net.ParseCIDR can return.
record Parsed (net : IpNet) : Type 0 where
  addr : List ℕ
  prefix : ℕ
  prefix_le : prefix ≤ 32
  addr_ip : (length addr ≡ 4) × All IsByte addr
  same : net ≡ network_of addr prefix

cidr_parts-Parsed : (ws : List Text) (net : IpNet) → cidr_parts ws ≡ some net → Parsed net
unfolding cidr_parts
cidr_parts-Parsed (s ∷ bits ∷ []) net e = elim (Option-cases (parse_ip_to4 s)) [
  | inl bad ↦ let f = rw (bad, cidr_parts) at e in cc
  | inr (ip, good) ↦ elim (Option-cases (magnitude bits)) [
    | inl bad ↦ let f = rw (good, bad, cidr_parts) at e in cc
    | inr (n, number) ↦
        let f : (if leb n 32 then some (network_of ip n) else none) ≡ some net =
          rw (good, number, cidr_parts) at e in
        record {
          addr = ip;
          prefix = n;
          prefix_le = ground arith;
          addr_ip = parse_ip_to4-bytes s ip good;
          same = ground arith;
        }
  ]
]
cidr_parts-Parsed [] net e = cc
cidr_parts-Parsed (s ∷ []) net e = cc
cidr_parts-Parsed (s ∷ bits ∷ t ∷ ts) net e = cc

-- What NewIPAllocator returns when it returns: for some prefix length up to 32, the base is a network
-- with the host bits that the prefix leaves, and the pool is empty and runs from 1 to the last
-- offset but one.
pub record Opened (env : Text) (a : IpAllocator) : Type 0 where
  pub prefix : ℕ
  pub prefix_le : prefix ≤ 32
  pub network : IsNetwork a.ip_network.ip (32 - prefix)
  pub fresh : a.pool ≡ new_id_pool env (pos 1) (sub_ℕ (2 ^ (32 - prefix)) 2)

opened :
    (env : Text) (net : IpNet)
    → Parsed net
    → Opened env (record {
      ip_network = net;
      pool = new_id_pool env (pos 1) (sub_ℕ (2 ^ (32 - mask_bits net.mask)) 2);
    })
opened env net q = record {
  prefix = q.prefix;
  prefix_le = q.prefix_le;
  network =
      subst (λ (m : IpNet). IsNetwork m.ip (32 - q.prefix)) (sym q.same)
        (network_of-IsNetwork q.addr q.prefix q.addr_ip.0 q.addr_ip.1 q.prefix_le);
  fresh =
      ap (λ (k : ℕ). new_id_pool env (pos 1) (sub_ℕ (2 ^ (32 - k)) 2))
        (ap (λ (m : IpNet). mask_bits m.mask) q.same ∙ network_of-mask q.addr q.prefix q.prefix_le);
}

pub new_ip_allocator-Opened :
    (env cidr : Text) (a : IpAllocator) → new_ip_allocator env cidr ≡ ok a → Opened env a
unfolding new_ip_allocator parse_cidr
new_ip_allocator-Opened env cidr a e = elim (Option-cases (cidr_parts (split b'/' cidr))) [
  | inl bad ↦ let f = rw (bad, new_ip_allocator) at e in cc
  | inr (net, good) ↦
      let f : ok (record {
        ip_network = net;
        pool = new_id_pool env (pos 1) (sub_ℕ (2 ^ (32 - mask_bits net.mask)) 2);
      })
          ≡ ok a =
        rw (good, new_ip_allocator) at e in
      subst (Opened env) (ok-injective f)
        (opened env net (cidr_parts-Parsed (split b'/' cidr) net good))
]
