-- ===== src/Cache/Fs/Iso/Calendar.antt =====
-- The days that `parse_iso_to_ms` of crates/smfs-core/src/cache/fs.rs counts are those of the
-- Gregorian calendar.
use smfs.Prelude.{
  ℕ, ◌+◌, ◌*◌, ◌/◌, ◌%◌, ◌≤◌, false, ◌||◌, ◌≡◌, zero, suc, inl, inr, eqb_iff, Bool-cases, refl,
  arith, if◌then◌else◌, some,
}
use smfs.Prelude.Eq.{nat_eq, bytes, ◌==◌}
use smfs.Prelude.Int.{pos}
use smfs.Cache.Fs.Iso.{
  era_days, march_month, march_year, civil_days, days_before_epoch, parse_iso_to_ms,
}

abbrev month_length : ℕ → ℕ → ℕ
month_length y m =
    if m == 2
    then (if y % 400 == 0 then 29 else if y % 100 == 0 then 28 else if y % 4 == 0 then 29 else 28)
    else if m == 4 || m == 6 || m == 9 || m == 11
    then 30
    else 31

era_days-suc :
    (y : ℕ)
    → era_days (y + 1)
      ≡ era_days y
        + 365
        + (if (y + 1) % 400 == 0
            then 1
            else if (y + 1) % 100 == 0
            then 0
            else if (y + 1) % 4 == 0
            then 1
            else 0)
era_days-suc y = ground arith

abbrev next_month : ℕ → ℕ
next_month m = if m == 12 then 1 else m + 1

-- the days before a month in the year that starts in March
abbrev offset : ℕ → ℕ
offset m = (153 * march_month m + 2) / 5

offset-next :
    (m : ℕ)
    → 1 ≤ m
    → m ≤ 12
    → (m == 2) ≡ false
    → offset (next_month m) ≡ offset m + (if m == 4 || m == 6 || m == 9 || m == 11 then 30 else 31)
offset-next zero low high other = absurd (omega (arith, low))
offset-next (suc zero) low high other = refl
offset-next (suc (suc zero)) low high other = cc other
offset-next (suc (suc (suc zero))) low high other = refl
offset-next (suc (suc (suc (suc zero)))) low high other = refl
offset-next (suc (suc (suc (suc (suc zero))))) low high other = refl
offset-next (suc (suc (suc (suc (suc (suc zero)))))) low high other = refl
offset-next (suc (suc (suc (suc (suc (suc (suc zero))))))) low high other = refl
offset-next (suc (suc (suc (suc (suc (suc (suc (suc zero)))))))) low high other = refl
offset-next (suc (suc (suc (suc (suc (suc (suc (suc (suc zero))))))))) low high other = refl
offset-next (suc (suc (suc (suc (suc (suc (suc (suc (suc (suc zero)))))))))) low high other = refl
offset-next (suc (suc (suc (suc (suc (suc (suc (suc (suc (suc (suc zero))))))))))) low high other =
    refl
offset-next (suc (suc (suc (suc (suc (suc (suc (suc (suc (suc (suc (suc zero)))))))))))) low high
      other =
    refl
offset-next (suc (suc (suc (suc (suc (suc (suc (suc (suc (suc (suc (suc (suc m))))))))))))) low high
      other =
    absurd (omega (arith, high))

march_year-next :
    (y m : ℕ)
    → 1 ≤ m
    → m ≤ 12
    → (m == 2) ≡ false
    → march_year (if m == 12 then y + 1 else y) (next_month m) ≡ march_year y m
march_year-next y m low high other = ground (arith, low, high, other)

-- The first day of the next month is as many days later as the month has in the Gregorian calendar,
-- in every year.
pub civil_days-next_month :
    (y m : ℕ)
    → 1 ≤ m
    → m ≤ 12
    → civil_days (if m == 12 then y + 1 else y) (if m == 12 then 1 else m + 1) 1
      ≡ civil_days y m 1 + month_length y m
unfolding civil_days
civil_days-next_month y m low high = elim (Bool-cases (m == 2)) [
  | inl february ↦
      let two : m ≡ 2 = (eqb_iff m 2).0 february in rw two (ground (arith, era_days-suc (y + 399)))
  | inr other ↦
      let months = offset-next m low high other in
      let years = march_year-next y m low high other in rw (years, other) (omega (arith, months))
]

epoch : civil_days 1970 1 1 ≡ days_before_epoch
unfolding civil_days
epoch = refl

stamp : parse_iso_to_ms (bytes "2026-04-18T06:55:52.356Z") ≡ some (pos 1776495352356)
unfolding parse_iso_to_ms civil_days
stamp = refl
