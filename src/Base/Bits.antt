-- ===== src/Base/Bits.antt =====
-- Bytes: `bit_or` of fields that do not overlap is a sum, `bit_and` with a mask is a remainder.
use Prim.Native.Nat.{ℕ, ◌+◌, ◌*◌, ◌/◌, ◌%◌, ◌<◌, bit_or, bit_and}
use mathlib.Core.Path.{◌≡◌, refl}
use mathlib.Core.Bool.{true}
use native.Mathlib.Omega.{arith}
use smf_cdac.Base.Tests.{◌==◌, ==_iff, all_below, all_below_sound}

or_table_16 : all_below 256 (λ n. bit_or (n / 16 * 16) (n % 16) == n) ≡ true
unfolding all_below
or_table_16 = refl

or_table_64 : all_below 256 (λ n. bit_or (n / 64 * 64) (n % 64) == n) ≡ true
unfolding all_below
or_table_64 = refl

or_table_32 : all_below 16 (λ n. bit_or (n / 2 * 32) (n % 2 * 16) == n * 16) ≡ true
unfolding all_below
or_table_32 = refl

pub bit_or_nibbles : (hi lo : ℕ) → hi < 16 → lo < 16 → bit_or (hi * 16) lo ≡ hi * 16 + lo
bit_or_nibbles hi lo h l =
    let n = hi * 16 + lo in
    let q : n / 16 ≡ hi = omega arith in
    let r : n % 16 ≡ lo = omega arith in
    rw (q, r) at ((==_iff _ n).0 (all_below_sound 256 _ n or_table_16 (omega arith)))

pub bit_or_sixty_four : (hi lo : ℕ) → hi < 4 → lo < 64 → bit_or (hi * 64) lo ≡ hi * 64 + lo
bit_or_sixty_four hi lo h l =
    let n = hi * 64 + lo in
    let q : n / 64 ≡ hi = omega arith in
    let r : n % 64 ≡ lo = omega arith in
    rw (q, r) at ((==_iff _ n).0 (all_below_sound 256 _ n or_table_64 (omega arith)))

pub bit_or_flag : (hi lo : ℕ) → hi < 8 → lo < 2 → bit_or (hi * 32) (lo * 16) ≡ (hi * 2 + lo) * 16
bit_or_flag hi lo h l =
    let n = hi * 2 + lo in
    let q : n / 2 ≡ hi = omega arith in
    let r : n % 2 ≡ lo = omega arith in
    rw (q, r) at ((==_iff _ (n * 16)).0 (all_below_sound 16 _ n or_table_32 (omega arith)))

and_table_63 : all_below 256 (λ n. bit_and 63 n == n % 64) ≡ true
unfolding all_below
and_table_63 = refl

pub bit_and_low_six : (n : ℕ) → n < 256 → bit_and 63 n ≡ n % 64
bit_and_low_six n h = (==_iff _ _).0 (all_below_sound 256 _ n and_table_63 h)

and_table_224 : all_below 256 (λ n. bit_and 224 n == n / 32 * 32) ≡ true
unfolding all_below
and_table_224 = refl

pub bit_and_high_three : (n : ℕ) → n < 256 → bit_and 224 n ≡ n / 32 * 32
bit_and_high_three n h = (==_iff _ _).0 (all_below_sound 256 _ n and_table_224 h)

or_table_e_bit : all_below 64 (λ n. bit_or n 64 == n + 64) ≡ true
unfolding all_below
or_table_e_bit = refl

pub bit_or_e_bit : (n : ℕ) → n < 64 → bit_or n 64 ≡ n + 64
bit_or_e_bit n h = (==_iff _ _).0 (all_below_sound 64 _ n or_table_e_bit h)
