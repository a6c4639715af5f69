-- ===== src/Time.antt =====
-- kernel/arch/x86_64/time/time.c: the clock in seconds and its rendering as a date.
-- The two loops of `time_get_current` run on fuel; `Time.Calendar` shows that they end.
pub mod Calendar
mod Tests
use sonna_os.Prelude.{
  ℕ, zero, suc, ◌+◌, ◌-◌, ◌*◌, ◌/◌, ◌%◌, Bool, true, false, not, ◌&&◌, ◌||◌, Option, none, some,
  List, [], ◌∷◌, ◌==◌, leb, if◌then◌else◌, ◌++◌, get_elem?, add64, sub64, u8,
}

-- `boot_timestamp` and `boot_tsc`.
pub record Clock : Type 0 where
  pub boot_timestamp : ℕ
  pub boot_tsc : ℕ

-- `time_init`: `boot_date` is the bootloader's timestamp if it gave one that is not negative.
unfoldable pub time_init : (boot_date : Option ℕ) → (tsc : ℕ) → Clock
time_init (some t) tsc = record { boot_timestamp = t; boot_tsc = tsc }
time_init none tsc = record { boot_timestamp = 0; boot_tsc = tsc }

-- `time_get_timestamp` when `rdtsc` gives `tsc`.
unfoldable pub time_get_timestamp : (tsc_frequency_hz : ℕ) → (tsc : ℕ) → Clock → ℕ
time_get_timestamp tsc_frequency_hz tsc c =
    add64 c.boot_timestamp (sub64 tsc c.boot_tsc / tsc_frequency_hz)

abbrev pub is_leap : ℕ → Bool
is_leap year = (year % 4 == 0) && (not (year % 100 == 0) || (year % 400 == 0))

abbrev pub days_in_year : ℕ → ℕ
days_in_year year = if is_leap year then 366 else 365

-- The first loop: the year and the days left in it.
unfoldable pub year_loop : (fuel : ℕ) → (days year : ℕ) → Option (ℕ × ℕ)
year_loop zero days year = none
year_loop (suc fuel) days year =
    let rest = year_loop fuel (days - days_in_year year) (year + 1) in
    if leb (days_in_year year) days then rest else some (year, days)

abbrev pub month_days : List ℕ
month_days = 31 ∷ 28 ∷ 31 ∷ 30 ∷ 31 ∷ 30 ∷ 31 ∷ 31 ∷ 30 ∷ 31 ∷ 30 ∷ 31 ∷ []

abbrev february : (leap : Bool) → (month : ℕ) → Option ℕ → Option ℕ
february leap month none = none
february leap month (some dim) = some (if (month == 1) && leap then 29 else dim)

-- The length of a month, `none` behind the table.
abbrev pub days_in_month : (leap : Bool) → (month : ℕ) → Option ℕ
days_in_month leap month = february leap month (get_elem? month_days month)

abbrev month_step : (days month : ℕ) → Option ℕ → Option (ℕ × ℕ) → Option (ℕ × ℕ)
month_step days month none rest = none
month_step days month (some dim) rest = if leb dim days then rest else some (month, days)

abbrev minus_month : ℕ → Option ℕ → ℕ
minus_month days none = days
minus_month days (some dim) = days - dim

-- The second loop: the month from 0 and the days left in it.
unfoldable pub month_loop : (fuel : ℕ) → Bool → (days month : ℕ) → Option (ℕ × ℕ)
month_loop zero leap days month = none
month_loop (suc fuel) leap days month =
    let dim = days_in_month leap month in
    let rest = month_loop fuel leap (minus_month days dim) (month + 1) in
    month_step days month dim rest

pub record Date : Type 0 where
  pub year : ℕ
  pub month : ℕ
  pub day : ℕ

abbrev of_month : ℕ → Option (ℕ × ℕ) → Option Date
of_month year none = none
of_month year (some (month, days)) = some (record { year = year; month = month; day = days + 1 })

abbrev of_year : Option (ℕ × ℕ) → Option Date
of_year none = none
of_year (some (year, days)) = of_month year (month_loop 12 (is_leap year) days 0)

-- Year, month from 0 and day of a number of days since 1970.
unfoldable pub date_of_days : (fuel : ℕ) → (days : ℕ) → Option Date
unfolding year_loop month_loop
date_of_days fuel days = of_year (year_loop fuel days 1970)

-- `'0' + n` as a `char`.
abbrev pub digit : ℕ → ℕ
digit n = u8 (48 + n)

-- The text that `time_get_current` writes, for the seconds `ts`: YYYY/MM/DD hh:mm:ss.
abbrev pub render : (d : Date) → (hour min sec : ℕ) → List ℕ
render d hour min sec =
    digit (d.year / 1000 % 10)
    ∷ digit (d.year / 100 % 10)
    ∷ digit (d.year / 10 % 10)
    ∷ digit (d.year % 10)
    ∷ 47
    ∷ digit ((d.month + 1) / 10)
    ∷ digit ((d.month + 1) % 10)
    ∷ 47
    ∷ digit (d.day / 10)
    ∷ digit (d.day % 10)
    ∷ 32
    ∷ digit (hour / 10)
    ∷ digit (hour % 10)
    ∷ 58
    ∷ digit (min / 10)
    ∷ digit (min % 10)
    ∷ 58
    ∷ digit (sec / 10)
    ∷ digit (sec % 10)
    ∷ 0
    ∷ []

abbrev render_at : (secs_in_day : ℕ) → Option Date → Option (List ℕ)
render_at secs none = none
render_at secs (some d) = some (render d (secs / 3600) ((secs % 3600) / 60) (secs % 60))

-- `time_get_current` at the time `ts`.
unfoldable pub time_get_current : (fuel : ℕ) → (ts : ℕ) → Option (List ℕ)
unfolding date_of_days
time_get_current fuel ts = render_at (ts % 86400) (date_of_days fuel (ts / 86400))
