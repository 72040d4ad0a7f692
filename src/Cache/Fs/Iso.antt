-- ===== src/Cache/Fs/Iso.antt =====
-- `parse_iso_to_ms` of crates/smfs-core/src/cache/fs.rs: the milliseconds since 1970 of a time like
-- `2026-04-18T06:55:52.356Z`. What follows the `Z`, `+` or `-` after the time is not read.
pub mod Calendar
use smfs.Prelude.{
  ℕ, ◌+◌, ◌-◌, ◌*◌, ◌/◌, ◌%◌, ◌^◌, ltb, leb, Bool, true, false, ◌&&◌, ◌||◌, Option, none, some,
  List, [], ◌∷◌, ◌++◌, take, length, if◌then◌else◌,
}
use mathlib.Core.Option
use smfs.Prelude.Eq.{Text, nat_eq, bytes, ◌==◌}
use smfs.Prelude.Int.{ℤ, pos, negsuc}
use smfs.Prelude.Text.{is_empty, split}

-- `s.split_once(p)`
abbrev pub split_once : (ℕ → Bool) → Text → Option (Text × Text)
split_once p [] = none
split_once p (c ∷ s) =
    let rest = split_once p s in
    if p c then some ([], s) else elim rest [ none ↦ none | some (a, b) ↦ some (c ∷ a, b) ]

abbrev pub is_ascii_digit : ℕ → Bool
is_ascii_digit c = leb b'0' c && leb c b'9'

abbrev pub digits_from : ℕ → Text → Option ℕ
digits_from n [] = some n
digits_from n (c ∷ s) = if is_ascii_digit c then digits_from (n * 10 + (c - b'0')) s else none

-- the bounds of `i64`; no piece that is parsed has a `-`
abbrev pub in_i64 : Option ℕ → Option ℕ
in_i64 none = none
in_i64 (some n) = if ltb n (2 ^ 63) then some n else none

-- `s.parse::<i64>().ok()`
abbrev pub parse_digits : Text → Option ℕ
parse_digits s = if is_empty s then none else in_i64 (digits_from 0 s)

abbrev pub parse_i64 : Text → Option ℕ
parse_i64 [] = none
parse_i64 (c ∷ s) = if c == b'+' then parse_digits s else parse_digits (c ∷ s)

abbrev pub only_digits : Text → Text
only_digits [] = []
only_digits (c ∷ s) = if is_ascii_digit c then c ∷ only_digits s else only_digits s

-- three digits of the fraction, filled up with zeros
abbrev pub millis : Text → Option ℕ
millis frac = parse_i64 (take 3 (only_digits frac ++ bytes "000"))

abbrev pub pair_of : Option ℕ → Option ℕ → Option (ℕ × ℕ)
pair_of (some a) (some b) = some (a, b)
pair_of _ _ = none

-- seconds and milliseconds
abbrev pub parse_seconds : Text → Option (ℕ × ℕ)
parse_seconds s = elim (split_once (λ c. c == b'.') s) [
  | some (whole, frac) ↦ pair_of (parse_i64 whole) (millis frac)
  | none ↦ pair_of (parse_i64 s) (some 0)
]

abbrev pub triple_of : Option ℕ → Option ℕ → Option ℕ → Option (ℕ × ℕ × ℕ)
triple_of (some a) (some b) (some c) = some (a, b, c)
triple_of _ _ _ = none

abbrev pub date_of : List Text → Option (ℕ × ℕ × ℕ)
date_of (y ∷ m ∷ d ∷ more) = triple_of (parse_i64 y) (parse_i64 m) (parse_i64 d)
date_of _ = none

abbrev pub ms_of : Option ℕ → Option ℕ → Option (ℕ × ℕ) → Option ℕ
ms_of (some h) (some mi) (some (sec, ms)) = some ((h * 3600 + mi * 60 + sec) * 1000 + ms)
ms_of _ _ _ = none

abbrev pub time_of : List Text → Option ℕ
time_of (h ∷ mi ∷ s ∷ more) = ms_of (parse_i64 h) (parse_i64 mi) (parse_seconds s)
time_of _ = none

-- `era * 146_097`, and `doe` without the day of the year
abbrev pub era_days : ℕ → ℕ
era_days y = y / 400 * 146097 + ((y % 400) * 365 + (y % 400) / 4 - (y % 400) / 100)

abbrev pub march_month : ℕ → ℕ
march_month m = if leb 3 m then m - 3 else m + 9

-- The year that starts in March, in the next era: the year before the year 0 is in the era before.
abbrev pub march_year : ℕ → ℕ → ℕ
march_year y m = if leb m 2 then y + 400 - 1 else y + 400

-- `days` and `days_before_epoch`, so that no difference is negative
unfoldable pub civil_days : ℕ → ℕ → ℕ → ℕ
civil_days y m d = era_days (march_year y m) + (153 * march_month m + 2) / 5 + d

abbrev pub days_before_epoch : ℕ
days_before_epoch = 719468 + 146097 + 1

abbrev pub int_sub : ℕ → ℕ → ℤ
int_sub a b = if leb b a then pos (a - b) else negsuc (b - a - 1)

abbrev pub total_ms : Option (ℕ × ℕ × ℕ) → Option ℕ → Option ℤ
total_ms (some (y, m, d)) (some ms) =
    some (int_sub (civil_days y m d * 86400000 + ms) (days_before_epoch * 86400000))
total_ms _ _ = none

abbrev pub is_zone : ℕ → Bool
is_zone c = c == b'Z' || c == b'+' || c == b'-'

-- The numbers that are read are in `i64`; the sums of them are written without its bounds, which they
-- pass only for years, days or times far from any date of the server.
unfoldable pub parse_iso_to_ms : Text → Option ℤ
parse_iso_to_ms iso = elim (split_once (λ c. c == b'T') iso) [
  | none ↦ none
  | some (date, rest) ↦ elim (split_once is_zone rest) [
    | none ↦ none
    | some (time, zone) ↦ total_ms (date_of (split b'-' date)) (time_of (split b':' time))
  ]
]
