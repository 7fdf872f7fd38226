-- ===== src/Dates.antt =====
-- The dates of services/booking_service.go: `parseDate` with `time.Parse` for the layout
-- "2006-01-02", and `today`. A date is the number of its day since the year 0, at UTC midnight.
pub mod Format
use Prim.Native.String.{String}
use trekr_go.Prelude.{
  codes, ℕ, zero, suc, ◌+◌, ◌-◌, ◌*◌, ◌/◌, ◌%◌, Bool, true, not, ◌&&◌, ◌||◌, Option, none, some,
  List, [], ◌∷◌, leb, ◌==◌, nat_instance, string_instance, if◌then◌else◌, ◌≡◌, refl,
}

is_digit : ℕ → Bool
is_digit c = leb b'0' c && leb c b'9'

all_digits : List ℕ → Bool
unfolding is_digit
all_digits [] = true
all_digits (c ∷ cs) = is_digit c && all_digits cs

digit : ℕ → ℕ
digit c = c - b'0'

unfoldable pub is_leap : ℕ → Bool
is_leap y = y % 4 == 0 && (not (y % 100 == 0) || y % 400 == 0)

unfoldable pub days_in : ℕ → Bool → ℕ
days_in m leap =
    if m == 2
    then (if leap then 29 else 28)
    else if m == 4 || (m == 6 || (m == 9 || m == 11))
    then 30
    else 31

-- The day of the year, from 0, on which a month starts.
unfoldable pub month_start : ℕ → Bool → ℕ
month_start zero leap = 0
month_start (suc m) leap = month_start m leap + (if m == 0 then 0 else days_in m leap)

unfoldable pub year_start : ℕ → ℕ
year_start y = 365 * y + (y + 3) / 4 + (y + 399) / 400 - (y + 99) / 100

-- The number of the day with this year, month and day of the month.
unfoldable pub ordinal : ℕ → ℕ → ℕ → ℕ
unfolding month_start year_start is_leap
ordinal y m d = year_start y + month_start m (is_leap y) + (d - 1)

-- A date that is in the calendar.
unfoldable pub read_date : ℕ → ℕ → ℕ → Option ℕ
unfolding is_leap
read_date y m d =
    if leb 1 m && (leb m 12 && (leb 1 d && leb d (days_in m (is_leap y))))
    then some (ordinal y m d)
    else none

two_digits : ℕ → ℕ → ℕ
unfolding digit
two_digits a b = digit a * 10 + digit b

-- Four digits, a dash, two digits, a dash, two digits, and no more.
parse_codes : List ℕ → Option ℕ
parse_codes (a ∷ b ∷ c ∷ d ∷ s ∷ e ∷ f ∷ t ∷ g ∷ h ∷ []) =
    if all_digits (a ∷ b ∷ c ∷ d ∷ e ∷ f ∷ g ∷ h ∷ []) && (s == b'-' && t == b'-')
    then read_date (two_digits a b * 100 + two_digits c d) (two_digits e f) (two_digits g h)
    else none
parse_codes _ = none

-- `parseDate`: no date for an empty or unparseable text.
unfoldable pub parse_date : String → Option ℕ
unfolding parse_codes all_digits two_digits
parse_date s = if s == "" then none else parse_codes (codes s)

-- 1970-01-01
abbrev pub epoch : ℕ
epoch = 719528

abbrev pub day_length : ℕ
day_length = 86400000000000

-- `today`: the date of the clock's time.
unfoldable pub today : ℕ → ℕ
today now = epoch + now / day_length

epoch_lem : parse_date "1970-01-01" ≡ some (today 0)
unfolding parse_date read_date ordinal days_in today
epoch_lem = refl

parse_date_tests :
    (parse_date "2026-07-14" ≡ some (today 1784009246123000000))
    × (parse_date "2024-02-29" ≡ some 739310)
    × (parse_date "2023-02-29" ≡ none)
    × (parse_date "2024-2-29" ≡ none)
    × (parse_date "2024-02-29 " ≡ none)
    × (parse_date "" ≡ none)
unfolding parse_date read_date ordinal days_in today
parse_date_tests = (refl, refl, refl, refl, refl, refl)
