-- ===== src/GoStd/Strconv.antt =====
-- strconv.Atoi.
use smf_cdac.Base.{
  ℕ, ◌+◌, ◌-◌, ◌*◌, ◌^◌, Bool, true, false, ◌&&◌, Option, none, some, [], ◌∷◌, leb, ltb, ◌==◌,
  if◌then◌else◌,
}
use smf_cdac.Base.Int.{ℤ, pos, negate}
use smf_cdac.Base.Text.{Text}

abbrev pub is_digit : ℕ → Bool
is_digit c = leb b'0' c && leb c b'9'

-- The value of a run of digits behind `acc`.
unfoldable pub digits_from : ℕ → Text → Option ℕ
digits_from acc [] = some acc
digits_from acc (c ∷ cs) =
    let rest = digits_from (acc * 10 + (c - b'0')) cs in if is_digit c then rest else none

-- A number has one digit at least.
unfoldable pub magnitude : Text → Option ℕ
unfolding digits_from
magnitude [] = none
magnitude (c ∷ cs) = digits_from 0 (c ∷ cs)

-- What Atoi returns: the value, and whether there is an error. The value is 0 at a syntax error, and
-- the nearest int64 at a range error.
abbrev non_negative : Option ℕ → ℤ × Bool
non_negative none = (pos 0, true)
non_negative (some n) = if ltb n (2 ^ 63) then (pos n, false) else (pos (2 ^ 63 - 1), true)

abbrev negative : Option ℕ → ℤ × Bool
negative none = (pos 0, true)
negative (some n) = if leb n (2 ^ 63) then (negate n, false) else (negate (2 ^ 63), true)

unfoldable pub atoi : Text → ℤ × Bool
unfolding magnitude
atoi [] = (pos 0, true)
atoi (c ∷ cs) =
    if c == b'-'
    then negative (magnitude cs)
    else (if c == b'+' then non_negative (magnitude cs) else non_negative (magnitude (c ∷ cs)))
