-- ===== src/Dates/Format.antt =====
-- `Format` of the package time, for the layouts "2006-01-02" and "2006-01-02T15:04:05.000Z07:00".
use Prim.Native.String.{String, char_at}
use trekr_go.Prelude.{
  ℕ, zero, suc, ◌+◌, ◌-◌, ◌*◌, ◌/◌, ◌%◌, Bool, leb, ltb, if◌then◌else◌, ◌≡◌, refl,
}
use trekr_go.Dates.{days_in, is_leap, month_start, year_start, epoch, day_length}

-- The year of a day: 400 years have 146097 days, so the estimate is the year or the next one.
unfoldable year_of : ℕ → ℕ
unfolding year_start
year_of day =
    let y = day * 400 / 146097 in
    if ltb day (year_start y) then y - 1 else if leb (year_start (y + 1)) day then y + 1 else y

-- The month of a day of the year: of the first `n` months the last one that has begun.
unfoldable month_of : ℕ → ℕ → Bool → ℕ
unfolding month_start
month_of zero rest leap = 1
month_of (suc n) rest leap =
    let before = month_of n rest leap in
    if leb (month_start (suc n) leap) rest then suc n else before

-- A number as one digit.
abbrev put_digit : ℕ → String → String
put_digit n acc = String.◌∷◌ (char_at "0123456789" (n % 10)) acc

abbrev put_two : ℕ → String → String
put_two n acc = put_digit (n / 10) (put_digit n acc)

abbrev put_three : ℕ → String → String
put_three n acc = put_digit (n / 100) (put_two n acc)

abbrev put_dash : String → String
put_dash acc = String.◌∷◌ (char_at "-" 0) acc

abbrev put_date : ℕ → String → String
put_date day acc =
    let y = year_of day in
    let rest = day - year_start y in
    let m = month_of 12 rest (is_leap y) in
    put_two (y / 100) (
      put_two y
        (put_dash (put_two m (put_dash (put_two (rest - month_start m (is_leap y) + 1) acc)))))

-- The date of a day, for the years that have four digits
unfoldable pub format_date : ℕ → String
unfolding year_of month_of month_start year_start is_leap
format_date day = put_date day ""

abbrev mark : ℕ → String → String
mark i acc = String.◌∷◌ (char_at "T:.Z" i) acc

-- A time in UTC, to the millisecond
unfoldable pub format_time : ℕ → String
unfolding year_of month_of month_start year_start is_leap
format_time now =
    let ms = now % day_length / 1000000 in
    put_date (epoch + now / day_length) (
      mark 0 (
        put_two (ms / 3600000) (
          mark 1 (
            put_two (ms / 60000 % 60)
              (mark 1 (put_two (ms / 1000 % 60) (mark 2 (put_three (ms % 1000) (mark 3 "")))))))))

formatted :
    (format_time 1784009246123000000 ≡ "2026-07-14T06:07:26.123Z")
    × (format_time 0 ≡ "1970-01-01T00:00:00.000Z")
    × (format_date 739310 ≡ "2024-02-29")
    × (format_date 739676 ≡ "2025-03-01")
    × (format_date 739250 ≡ "2023-12-31")
    × (format_date 739251 ≡ "2024-01-01")
    × (format_date 366 ≡ "0001-01-01")
unfolding format_date format_time year_of month_of month_start year_start is_leap days_in
formatted = (refl, refl, refl, refl, refl, refl, refl)
