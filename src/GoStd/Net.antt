-- ===== src/GoStd/Net.antt =====
-- net.ParseIP followed by To4, net.CIDRMask of 32 bits and net.ParseCIDR, on dotted decimal text. An
-- IPv4 address is a list of four bytes; IPv6 text, mapped IPv4 included, is refused.
use smf_cdac.Base.{
  ℕ, zero, suc, ◌-◌, ◌/◌, ◌^◌, Bool, true, false, ◌&&◌, Option, none, some, List, [], ◌∷◌, leb,
  ◌==◌, if◌then◌else◌, bit_and, length,
}
use smf_cdac.Base.Int.{ℤ, pos, negsuc}
use smf_cdac.Base.Text.{Text}
use smf_cdac.GoStd.Strconv.{magnitude}
use smf_cdac.GoStd.Strings.{split}

abbrev pub no_leading_zero : Text → Bool
no_leading_zero [] = false
no_leading_zero (c ∷ []) = true
no_leading_zero (c ∷ d ∷ cs) = if c == b'0' then false else true

-- One of the four numbers: no sign, no leading zero, at most 255.
unfoldable pub octet : Text → Option ℕ
unfolding magnitude
octet s = elim (magnitude s) [
  | none ↦ none
  | some n ↦ if no_leading_zero s && leb (length s) 3 && leb n 255 then some n else none
]

abbrev pub octets : List Text → Option (List ℕ)
octets [] = some []
octets (w ∷ ws) = elim (octet w) [
  | none ↦ none
  | some b ↦ elim (octets ws) [ none ↦ none | some bs ↦ some (b ∷ bs) ]
]

abbrev pub four_bytes : Option (List ℕ) → Option (List ℕ)
four_bytes none = none
four_bytes (some bs) = if length bs == 4 then some bs else none

-- `net.ParseIP(s).To4()`; `none` is nil.
unfoldable pub parse_ip_to4 : Text → Option (List ℕ)
unfolding octet split
parse_ip_to4 s = four_bytes (octets (split b'.' s))

-- One byte of a mask with `n` ones left, and the ones left behind it.
abbrev pub mask_byte : ℕ → ℕ
mask_byte n = if leb 8 n then 255 else 255 - 255 / 2 ^ n

unfoldable pub mask_bytes : ℕ → ℕ → List ℕ
mask_bytes zero n = []
mask_bytes (suc k) n = mask_byte n ∷ mask_bytes k (n - 8)

-- `net.CIDRMask(ones, 32)`; `none` is nil.
unfoldable pub cidr_mask : ℤ → Option (List ℕ)
unfolding mask_bytes
cidr_mask (pos n) = if leb n 32 then some (mask_bytes 4 n) else none
cidr_mask (negsuc n) = none

pub record IpNet : Type 0 where
  pub ip : List ℕ
  pub mask : List ℕ

unfoldable pub and_bytes : List ℕ → List ℕ → List ℕ
and_bytes [] ms = []
and_bytes (b ∷ bs) [] = []
and_bytes (b ∷ bs) (m ∷ ms) = bit_and b m ∷ and_bytes bs ms

-- The network of an address and a prefix length.
unfoldable pub network_of : List ℕ → ℕ → IpNet
unfolding and_bytes mask_bytes
network_of addr n = record { ip = and_bytes addr (mask_bytes 4 n); mask = mask_bytes 4 n }

-- The address and the prefix length, as net.ParseCIDR reads them.
unfoldable pub cidr_parts : List Text → Option IpNet
cidr_parts (addr ∷ bits ∷ []) = elim (parse_ip_to4 addr) [
  | none ↦ none
  | some a ↦ elim (magnitude bits) [
    | none ↦ none
    | some n ↦ if leb n 32 then some (network_of a n) else none
  ]
]
cidr_parts _ = none

-- `net.ParseCIDR`; `none` is an error.
unfoldable pub parse_cidr : Text → Option IpNet
unfolding cidr_parts network_of parse_ip_to4 magnitude split
parse_cidr s = cidr_parts (split b'/' s)
