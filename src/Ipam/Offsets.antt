-- ===== src/Ipam/Offsets.antt =====
-- The arithmetic on addresses: when no digit of base and offset carries, the offset of a shifted
-- address is the shift.
use smf_cdac.Base.{
  ℕ, zero, suc, ◌+◌, ◌-◌, ◌*◌, ◌/◌, ◌%◌, ◌^◌, ◌≤◌, ◌<◌, ◌≡◌, refl, ap, ◌∙◌, ◌≢◌, false, some, List,
  [], ◌∷◌, reverse, arith, length, take, take-length, length-reverse, All, Bool-cases, inl, inr,
  ◌==◌,
}
use smf_cdac.Base.Int.{ℤ, pos, ◌==ℤ◌}
use mathlib.Core.List.{reverse-reverse}
use native.Mathlib.Nat.{pow-suc, pow-le-pow_right}
use Prim.Native.Nat.{min}
use smf_cdac.Ipam.Addr.{add_from_last, ip_addr_with_offset, offset_from_last, ip_addr_offset}

abbrev pub IsByte : ℕ → Type 0
IsByte b = b < 256

-- No digit of the offset carries on top of the byte of the base; bytes are read from the last.
abbrev pub NoCarry : List ℕ → ℕ → Type 0
NoCarry [] n = Unit {0}
NoCarry (b ∷ bs) n = (b + n % 256 < 256) × NoCarry bs (n / 256)

offset_from_last_self :
    (bs : List ℕ) (acc exp : ℕ) → All IsByte bs → offset_from_last bs bs acc exp ≡ acc
unfolding offset_from_last
offset_from_last_self [] acc exp h = refl
offset_from_last_self (b ∷ bs) acc exp h =
    let z : (b + 256 - b) % 256 ≡ 0 = omega (arith, h.0) in
    rw z (rw (offset_from_last_self bs (acc + 0 * exp) (exp * 256) h.1) (omega arith))

add_from_last_stop : (bs : List ℕ) (carry : ℤ) → add_from_last bs carry (pos 0) ≡ bs
unfolding add_from_last
add_from_last_stop [] carry = refl
add_from_last_stop (b ∷ bs) carry = refl

add_from_last_step :
    (b : ℕ) (bs : List ℕ) (n : ℕ)
    → n ≢ 0
    → b + n % 256 < 256
    → add_from_last (b ∷ bs) (pos 0) (pos n)
      ≡ (b + n % 256) ∷ add_from_last bs (pos 0) (pos (n / 256))
unfolding add_from_last
add_from_last_step b bs n h k =
    let d : (b + 0 + n % 256) / 256 ≡ 0 = omega arith in
    let v : (b + 0 + n % 256) % 256 % 256 ≡ b + n % 256 = omega arith in rw (d, v) (ground arith)

offset-add_digit :
    (b : ℕ) (bs : List ℕ) (n acc exp : ℕ)
    → offset_from_last
        (add_from_last bs (pos 0) (pos (n / 256)))
        bs
        (acc + n % 256 * exp)
        (exp * 256)
      ≡ acc + n % 256 * exp + exp * 256 * (n / 256)
    → offset_from_last ((b + n % 256) ∷ add_from_last bs (pos 0) (pos (n / 256))) (b ∷ bs) acc exp
      ≡ acc + exp * n
unfolding offset_from_last
offset-add_digit b bs n acc exp ih =
    let d : (b + n % 256 + 256 - b) % 256 ≡ n % 256 = omega arith in
    let m : n ≡ n % 256 + 256 * (n / 256) = omega arith in
    rw d (rw ih (omega (arith, ap (λ (t : ℕ). exp * t) m)))

offset-add :
    (bs : List ℕ) (n acc exp : ℕ)
    → All IsByte bs
    → NoCarry bs n
    → n < 256 ^ length bs
    → offset_from_last (add_from_last bs (pos 0) (pos n)) bs acc exp ≡ acc + exp * n
offset-add bs zero acc exp h c k =
    rw (add_from_last_stop bs (pos 0)) (rw (offset_from_last_self bs acc exp h) (omega arith))
offset-add [] (suc n) acc exp h c k = absurd (omega arith)
offset-add (b ∷ bs) (suc n) acc exp h c k =
    let room : suc n / 256 < 256 ^ length bs = omega (arith, pow-suc 256 (length bs)) in
    rw (add_from_last_step b bs (suc n) (omega arith) c.0) (
      offset-add_digit b bs (suc n) acc exp
        (offset-add bs (suc n / 256) (acc + suc n % 256 * exp) (exp * 256) h.1 c.1 room))

length-add : (bs : List ℕ) (carry offset : ℤ) → length (add_from_last bs carry offset) ≡ length bs
unfolding add_from_last
length-add [] carry offset = refl
length-add (b ∷ bs) carry offset = elim (Bool-cases (offset ==ℤ pos 0)) [
  | inl done ↦ rw done
  | inr more ↦ rw more (ap suc (length-add bs _ _))
]

-- The number that the bytes stand for, the last byte of an address being the lowest digit.
unfoldable pub value : List ℕ → ℕ
value [] = 0
value (b ∷ bs) = b + 256 * value bs

value-add :
    (bs : List ℕ) (n : ℕ)
    → NoCarry bs n
    → n < 256 ^ length bs
    → value (add_from_last bs (pos 0) (pos n)) ≡ value bs + n
unfolding value
value-add bs zero c k = rw (add_from_last_stop bs (pos 0)) (omega arith)
value-add [] (suc n) c k = absurd (omega arith)
value-add (b ∷ bs) (suc n) c k =
    let room : suc n / 256 < 256 ^ length bs = omega (arith, pow-suc 256 (length bs)) in
    rw (add_from_last_step b bs (suc n) (omega arith) c.0)
      (omega (arith, value-add bs (suc n / 256) c.1 room))

-- The bits that `h` host bits leave free: each byte has room for its share of them.
abbrev pub HostRoom : ℕ → List ℕ → Type 0
HostRoom h [] = Unit {0}
HostRoom h (b ∷ bs) = (b + 2 ^ min h 8 ≤ 256) × HostRoom (h - 8) bs

pow_eight : (h : ℕ) → 2 ^ suc (suc (suc (suc (suc (suc (suc (suc h))))))) ≡ 256 * 2 ^ h
pow_eight h = simp pow-suc (omega arith)

host_byte :
    (h b n : ℕ) → b + 2 ^ min h 8 ≤ 256 → n < 2 ^ h → (b + n % 256 < 256) × (n / 256 < 2 ^ (h - 8))
host_byte zero b n p q = omega arith
host_byte (suc zero) b n p q = omega arith
host_byte (suc (suc zero)) b n p q = omega arith
host_byte (suc (suc (suc zero))) b n p q = omega arith
host_byte (suc (suc (suc (suc zero)))) b n p q = omega arith
host_byte (suc (suc (suc (suc (suc zero))))) b n p q = omega arith
host_byte (suc (suc (suc (suc (suc (suc zero)))))) b n p q = omega arith
host_byte (suc (suc (suc (suc (suc (suc (suc zero))))))) b n p q = omega arith
host_byte (suc (suc (suc (suc (suc (suc (suc (suc h)))))))) b n p q =
    let low : suc (suc (suc (suc (suc (suc (suc (suc h))))))) - 8 ≡ h = omega arith in
    let top : min (suc (suc (suc (suc (suc (suc (suc (suc h)))))))) 8 ≡ 8 = omega arith in
    let full = rw top at p in rw low (omega (arith, full, pow_eight h))

HostRoom-NoCarry : (h : ℕ) (bs : List ℕ) (n : ℕ) → HostRoom h bs → n < 2 ^ h → NoCarry bs n
HostRoom-NoCarry h [] n r q = tt
HostRoom-NoCarry h (b ∷ bs) n r q =
    let (fits, less) = host_byte h b n r.0 q in
    (fits, HostRoom-NoCarry (h - 8) bs (n / 256) r.1 less)

-- The address of a network with `h` host bits: four bytes, whose host bits are 0.
pub record IsNetwork (ip : List ℕ) (h : ℕ) : Type 0 where
  pub four : length ip ≡ 4
  pub bytes : All IsByte (reverse ip)
  pub room : HostRoom h (reverse ip)
  pub bits : h ≤ 32

pow_le_32 : (h : ℕ) → h ≤ 32 → 2 ^ h ≤ 4294967296
pow_le_32 h p = pow-le-pow_right {n = 2} (omega arith) p

NoCarry-network : (ip : List ℕ) (h n : ℕ) → IsNetwork ip h → n < 2 ^ h → NoCarry (reverse ip) n
NoCarry-network ip h n w q = HostRoom-NoCarry h (reverse ip) n w.room q

network_bound : (ip : List ℕ) (h n : ℕ) → IsNetwork ip h → n < 2 ^ h → n < 256 ^ length (reverse ip)
network_bound ip h n w q = rw (length-reverse ip, w.four) (omega (arith, pow_le_32 h w.bits))

length-with_offset : (ip : List ℕ) (n : ℤ) → length (ip_addr_with_offset ip n) ≡ length ip
unfolding ip_addr_with_offset
length-with_offset ip n =
    length-reverse (add_from_last (reverse ip) (pos 0) n)
    ∙ length-add (reverse ip) (pos 0) n
    ∙ length-reverse ip

reverse-with_offset :
    (ip : List ℕ) (n : ℤ)
    → reverse (ip_addr_with_offset ip n) ≡ add_from_last (reverse ip) (pos 0) n
unfolding ip_addr_with_offset
reverse-with_offset ip n = reverse-reverse (add_from_last (reverse ip) (pos 0) n)

-- Of an address as long as the base every byte is read.
pub ip_addr_offset_lem :
    (x base : List ℕ)
    → length x ≡ length base
    → ip_addr_offset x base ≡ some (offset_from_last (reverse x) (reverse base) 0 1)
unfolding ip_addr_offset
ip_addr_offset_lem x base e =
    let whole : take (length base) x ≡ x = rw (← e) (take-length x) in ground (arith, whole)

-- In a network, the offset of the address at offset `n` is `n`, for every `n` below the number of its
-- addresses.
pub ip_addr_offset-with_offset :
    (ip : List ℕ) (h n : ℕ)
    → IsNetwork ip h
    → n < 2 ^ h
    → ip_addr_offset (ip_addr_with_offset ip (pos n)) ip ≡ some n
ip_addr_offset-with_offset ip h n w q =
    rw (ip_addr_offset_lem (ip_addr_with_offset ip (pos n)) ip (length-with_offset ip (pos n))) (
      rw (reverse-with_offset ip (pos n)) (
        ap some (
          offset-add (reverse ip) n 0 1 w.bytes (NoCarry-network ip h n w q)
            (network_bound ip h n w q)
          ∙ omega arith)))

-- In a network, the address at offset `n` is the base plus `n`, read as numbers of the same length.
pub value-with_offset :
    (ip : List ℕ) (h n : ℕ)
    → IsNetwork ip h
    → n < 2 ^ h
    → (value (reverse (ip_addr_with_offset ip (pos n))) ≡ value (reverse ip) + n)
      × (length (ip_addr_with_offset ip (pos n)) ≡ length ip)
value-with_offset ip h n w q = (
  rw (reverse-with_offset ip (pos n))
      (value-add (reverse ip) n (NoCarry-network ip h n w q) (network_bound ip h n w q)),
  length-with_offset ip (pos n),
)

-- The loop drops the carry once the offset is used up: where the last byte of the base and an offset
-- below 256 exceed a byte, the result is 256 too low.
carry_lost :
    (b : ℕ) (bs : List ℕ) (n : ℕ)
    → b < 256
    → n < 256
    → 256 ≤ b + n
    → value (add_from_last (b ∷ bs) (pos 0) (pos n)) + 256 ≡ value (b ∷ bs) + n
unfolding add_from_last value
carry_lost b bs n p q r =
    let spent : n / 256 ≡ 0 = omega arith in
    let digit : (b + 0 + n % 256) % 256 % 256 ≡ b + n - 256 = omega arith in
    let more : (n == 0) ≡ false = ground arith in
    rw (spent, digit) (ground (arith, add_from_last_stop bs (pos ((b + 0 + n % 256) / 256))))
