-- ===== src/Ipam/Addr.antt =====
-- context/ip_allocator.go: maskBits, IPAddrWithOffset and IPAddrOffset. An address is a list of
-- bytes; the loops run from its last byte, so each works on the reversed list.
use smf_cdac.Base.{
  ℕ, zero, suc, ◌+◌, ◌-◌, ◌*◌, ◌/◌, ◌%◌, Option, none, some, List, [], ◌∷◌, reverse, length, take,
  ltb, ◌==◌, if◌then◌else◌,
}
use smf_cdac.Base.Int.{ℤ, pos, ◌+ℤ◌, ◌==ℤ◌, quo, rem, to_u8}

-- `for ; b != 0; b /= 2 { if b%2 != 0 { cnt++ } }`. The fuel is the number of rounds that are left; a
-- byte takes eight at most.
unfoldable pub byte_bits : ℕ → ℕ → ℕ → ℕ
byte_bits zero b cnt = cnt
byte_bits (suc fuel) b cnt =
    let next = byte_bits fuel (b / 2) (if b % 2 == 0 then cnt else cnt + 1) in
    if b == 0 then cnt else next

unfoldable pub mask_bits_from : ℕ → List ℕ → ℕ
unfolding byte_bits
mask_bits_from cnt [] = cnt
mask_bits_from cnt (b ∷ bs) = mask_bits_from (byte_bits 8 b cnt) bs

unfoldable pub mask_bits : List ℕ → ℕ
unfolding mask_bits_from
mask_bits mask = mask_bits_from 0 mask

-- The loop of IPAddrWithOffset: it ends when the offset is 0, whatever the carry.
unfoldable pub add_from_last : List ℕ → ℤ → ℤ → List ℕ
unfolding ◌+ℤ◌ quo rem to_u8
add_from_last [] carry offset = []
add_from_last (b ∷ bs) carry offset =
    let val = pos b +ℤ carry +ℤ rem offset (pos 256) in
    let rest = add_from_last bs (quo val (pos 256)) (quo offset (pos 256)) in
    if offset ==ℤ pos 0 then b ∷ bs else to_u8 (rem val (pos 256)) ∷ rest

unfoldable pub ip_addr_with_offset : List ℕ → ℤ → List ℕ
unfolding add_from_last
ip_addr_with_offset ip offset = reverse (add_from_last (reverse ip) (pos 0) offset)

-- The loop of IPAddrOffset. The difference of two bytes wraps; `offset` and `exp` are Go ints, which
-- do not overflow on bases of up to seven bytes.
unfoldable pub offset_from_last : List ℕ → List ℕ → ℕ → ℕ → ℕ
offset_from_last ins [] offset exp = offset
offset_from_last [] (b ∷ bs) offset exp = offset
offset_from_last (i ∷ ins) (b ∷ bs) offset exp =
    offset_from_last ins bs (offset + (i + 256 - b) % 256 * exp) (exp * 256)

-- `none` is the panic on an index out of range. Of a longer `in` the first bytes are read.
unfoldable pub ip_addr_offset : List ℕ → List ℕ → Option ℕ
unfolding offset_from_last
ip_addr_offset in_ip base =
    if ltb (length in_ip) (length base)
    then none
    else some (offset_from_last (reverse (take (length base) in_ip)) (reverse base) 0 1)
