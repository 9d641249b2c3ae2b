-- ===== src/Qos/BitRates.antt =====
-- util/qos_convert.go: BitRateTokbps and NormalizeBitRate.
use smf_cdac.Base.{ℕ, ◌+◌, ◌/◌, List, [], ◌∷◌, ◌++◌, if◌then◌else◌, Outcome, ok, panic}
use smf_cdac.Base.Int.{ℤ, pos, negsuc, negate, ◌*ℤ◌, to_u64}
use smf_cdac.Base.Text.{Text, codes, text_eq}
use smf_cdac.GoStd.Strconv.{atoi}
use smf_cdac.GoStd.Strings.{split, trim_space}

-- Go's division, which drops the fraction on both sides of 0.
abbrev thousandth : ℤ → ℤ
thousandth (pos n) = pos (n / 1000)
thousandth (negsuc n) = negate ((n + 1) / 1000)

-- The switch over the unit; a product that leaves int64 wraps, and so does the conversion to uint64.
unfoldable pub to_kbps : ℤ → Text → ℕ
unfolding to_u64 text_eq ◌*ℤ◌
to_kbps digit unit =
    if text_eq unit (codes "bps")
    then to_u64 (thousandth digit)
    else if text_eq unit (codes "Kbps")
    then to_u64 digit
    else if text_eq unit (codes "Mbps")
    then to_u64 (digit *ℤ pos 1000)
    else if text_eq unit (codes "Gbps")
    then to_u64 (digit *ℤ pos 1000000)
    else if text_eq unit (codes "Tbps")
    then to_u64 (digit *ℤ pos 1000000000)
    else 0

-- BitRateTokbps on the words of its text; a number without a unit is a panic.
unfoldable pub rate_of_words : List Text → Outcome ℕ
unfolding atoi to_kbps
rate_of_words [] = panic
rate_of_words (number ∷ []) = if (atoi number).1 then ok 0 else panic
rate_of_words (number ∷ unit ∷ more) =
    if (atoi number).1 then ok 0 else ok (to_kbps (atoi number).0 unit)

unfoldable pub bit_rate_to_kbps : Text → Outcome ℕ
unfolding split rate_of_words
bit_rate_to_kbps bitrate = rate_of_words (split b' ' bitrate)

-- NormalizeBitRate.
unfoldable pub normalized : List Text → Text → Text
normalized [] br = br
normalized (whole ∷ []) br = br
normalized (whole ∷ fraction ∷ more) br = whole ++ codes " Kbps"

unfoldable pub normalize_bit_rate : Text → Text
unfolding split normalized trim_space
normalize_bit_rate br = trim_space (normalized (split b'.' br) br)
