-- ===== src/DateTime.antt =====
-- common/tool/datetime.h: seconds since 1970, and the date and time of day.
pub mod Loops
pub mod RoundTrip
mod Tests
use clean_os.Base.{
  ℕ, zero, suc, ◌+◌, ◌-◌, ◌*◌, ◌/◌, ◌%◌, ◌^◌, Bool, true, false, Option, none, some, List, [], ◌∷◌,
  ltb, leb, ◌==◌, if◌then◌else◌,
}
use clean_os.Bitmap.{u32}

-- `datetime_t`
pub record DateTime : Type 0 where
  pub year : ℕ
  pub month : ℕ
  pub day : ℕ
  pub hour : ℕ
  pub minute : ℕ
  pub second : ℕ

-- For times from 1970 on, which are not negative; the month is below 2 ^ 31.
unfoldable pub mktime64 : ℕ → ℕ → ℕ → ℕ → ℕ → ℕ → ℕ
mktime64 year0 mon0 day hour min sec =
    let early = leb mon0 2 in
    let mon = if early then mon0 + 12 - 2 else mon0 - 2 in
    let year = if early then year0 - 1 else year0 in
    (((u32 (year / 4 - year / 100 + year / 400 + 367 * mon / 12 + day) + u32 (year * 365) - 719499)
              * 24
            + hour)
          * 60
        + min)
      * 60
    + sec

abbrev pub hours_per_year : ℕ → ℕ
hours_per_year year = if year % 4 == 0 then 365 * 24 + 24 else 365 * 24

-- The loop over the years, which takes at most four rounds.
unfoldable pub year_loop : ℕ → ℕ → ℕ → Option (ℕ × ℕ)
year_loop zero year time = none
year_loop (suc rounds) year time =
    let rest = year_loop rounds (year + 1) (time - hours_per_year year) in
    if ltb time (hours_per_year year) then some (year, time) else rest

-- The loop over the months, on the days of the months left; behind the last month is a fault.
unfoldable pub month_loop : List ℕ → ℕ → ℕ → Option (ℕ × ℕ)
month_loop [] month time = none
month_loop (d ∷ days) month time =
    let rest = month_loop days (month + 1) (time - d) in
    if ltb d time then rest else some (month, time)

abbrev pub days_of : List ℕ
days_of = 31 ∷ 28 ∷ 31 ∷ 30 ∷ 31 ∷ 30 ∷ 31 ∷ 31 ∷ 30 ∷ 31 ∷ 30 ∷ 31 ∷ []

-- The month and the day of the day `time` of a year, counted from 1.
unfoldable pub month_day : ℕ → ℕ → Option (ℕ × ℕ)
month_day year time =
    let leap = year % 4 == 0 in
    let later = if leap then (if ltb 60 time then time - 1 else time) else time in
    if leap
    then (if time == 60 then some (1, 29) else month_loop days_of 0 later)
    else month_loop days_of 0 later

unfoldable pub mkdatetime : ℕ → Option DateTime
mkdatetime time =
    let minutes = time / 60 in
    let hours = minutes / 60 in
    elim (year_loop 4 (1970 + hours / (1461 * 24) * 4) (hours % (1461 * 24))) [
      | none ↦ none
      | some (year, left) ↦ elim (month_day year (left / 24 + 1)) [
        | none ↦ none
        | some (month, day) ↦ some (record {
          year = year;
          month = month;
          day = day;
          hour = left % 24;
          minute = minutes % 60;
          second = time % 60;
        })
      ]
    ]
