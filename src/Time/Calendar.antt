-- ===== src/Time/Calendar.antt =====
-- The loops of `time_get_current` find the date of a day.
use sonna_os.Prelude.{
  ℕ, zero, suc, ◌+◌, ◌-◌, ◌<◌, ◌≤◌, ◌≡◌, refl, sym, ◌∙◌, ap, Bool, Bool-cases, ◌*◌, ◌/◌, ◌==◌, ◌&&◌,
  inl, inr, true, false, Option, none, some, leb, leb→le, if◌then◌else◌, arith,
}
use sonna_os.Prelude.Bits.{every_below, every_below-at}
use sonna_os.Time.{is_leap, days_in_year, year_loop, days_in_month, month_loop, Date, date_of_days}

-- The days of `n` years from `year` on.
abbrev pub years_length : (year n : ℕ) → ℕ
years_length year zero = 0
years_length year (suc n) = days_in_year year + years_length (year + 1) n

abbrev pub or_zero : Option ℕ → ℕ
or_zero none = 0
or_zero (some n) = n

-- The days of the first `month` months.
abbrev pub months_length : Bool → (month : ℕ) → ℕ
months_length leap zero = 0
months_length leap (suc month) = months_length leap month + or_zero (days_in_month leap month)

-- The calendar, apart from the code: the number of days in the years 1 to `y` of the Gregorian
-- calendar, with a leap day in every fourth year, in no hundredth and in every four-hundredth.
abbrev pub days_through : (y : ℕ) → ℕ
days_through y = 365 * y + y / 4 + y / 400 - y / 100

-- Whether the year `y` has a leap day.
abbrev pub has_leap_day : (y : ℕ) → Bool
has_leap_day y = days_through y == days_through (y - 1) + 366

-- The days of the year before the month, from 0, by the formula of the calendar literature, and
-- the length of the month.
abbrev pub days_before : (leap : Bool) → (month : ℕ) → ℕ
days_before leap month = (367 * month + 5) / 12 - (if leb month 1 then 0 else if leap then 1 else 2)

abbrev pub month_length : (leap : Bool) → (month : ℕ) → ℕ
month_length leap month = days_before leap (month + 1) - days_before leap month

-- `d` is the date of the day number `days` since the first of January 1970.
pub record IsDateOf (days : ℕ) (d : Date) : Type 0 where
  pub since_epoch : 1970 ≤ d.year
  pub month_bound : d.month < 12
  pub day_lower : 1 ≤ d.day
  pub day_upper : d.day ≤ month_length (has_leap_day d.year) d.month
  pub total :
      days_through (d.year - 1) + days_before (has_leap_day d.year) d.month + d.day
      ≡ days_through 1969 + 1 + days

is_leap-has_leap_day : (y : ℕ) → 1 ≤ y → has_leap_day y ≡ is_leap y
is_leap-has_leap_day y positive = ground arith

days_in_year-days_through : (y : ℕ) → 1 ≤ y → days_through (y - 1) + days_in_year y ≡ days_through y
days_in_year-days_through y positive = ground arith

years_length-days_through :
    (n y : ℕ) → days_through y + years_length (y + 1) n ≡ days_through (y + n)
years_length-days_through zero y = omega arith
years_length-days_through (suc n) y =
    let one = days_in_year-days_through (y + 1) (omega arith) in
    let back : y + 1 - 1 ≡ y = omega arith in
    let step : days_through y + days_in_year (y + 1) ≡ days_through (y + 1) =
      ap (λ z. days_through z + days_in_year (y + 1)) (sym back) ∙ one in
    let same : y + 1 + n ≡ y + suc n = omega arith in
    omega (arith, step, years_length-days_through n (y + 1), ap days_through same)

agrees_at : (leap : Bool) (month : ℕ) → Bool
agrees_at leap month =
    (months_length leap month == days_before leap month)
    && (or_zero (days_in_month leap month) == month_length leap month)

all_agree : (leap : Bool) → every_below 12 (agrees_at leap) ≡ true
unfolding every_below agrees_at
all_agree true = refl
all_agree false = refl

days_in_month-month_length :
    (leap : Bool) (month : ℕ)
    → month < 12
    → (months_length leap month ≡ days_before leap month)
      × (or_zero (days_in_month leap month) ≡ month_length leap month)
unfolding agrees_at
days_in_month-month_length leap month lt =
    let both = every_below-at 12 (agrees_at leap) month (all_agree leap) lt in
    both_true (months_length leap month) (days_before leap month)
      (or_zero (days_in_month leap month)) (month_length leap month) both
  where
    both_true : (a b c d : ℕ) → (a == b) && (c == d) ≡ true → (a ≡ b) × (c ≡ d)
    both_true a b c d e = (ground arith, ground arith)

pub record YearFound (days year : ℕ) (r : Option (ℕ × ℕ)) : Type 0 where
  pub passed : ℕ
  pub left : ℕ
  pub result : r ≡ some (year + passed, left)
  pub bound : left < days_in_year (year + passed)
  pub total : years_length year passed + left ≡ days

days_in_year-bounds : (year : ℕ) → (365 ≤ days_in_year year) × (days_in_year year ≤ 366)
days_in_year-bounds year = ground arith

pub year_loop-YearFound :
    (fuel days year : ℕ) → days < fuel → YearFound days year (year_loop fuel days year)
unfolding year_loop
year_loop-YearFound zero days year lt = absurd (omega arith)
year_loop-YearFound (suc fuel) days year lt = elim (Bool-cases (leb (days_in_year year) days)) [
  | inl more ↦
      let le = leb→le (days_in_year year) days more in
      let long = days_in_year-bounds year in
      let r = year_loop-YearFound fuel (days - days_in_year year) (year + 1) (omega arith) in
      let same : (year + 1) + r.passed ≡ year + suc r.passed = omega arith in
      record {
        passed = suc r.passed;
        left = r.left;
        result = rw more (r.result ∙ ap (λ y. some (y, r.left)) same);
        bound = rw (sym same) r.bound;
        total = omega (arith, r.total);
      }
  | inr done ↦
      let same : year ≡ year + 0 = omega arith in
      record {
        passed = 0;
        left = days;
        result = rw done (ap (λ y. some (y, days)) same);
        bound = rw (sym same) (ground arith);
        total = omega arith;
      }
]

pub record MonthFound (leap : Bool) (before : ℕ) (r : Option (ℕ × ℕ)) : Type 0 where
  pub month : ℕ
  pub left : ℕ
  pub result : r ≡ some (month, left)
  pub month_bound : month < 12
  pub bound : left < or_zero (days_in_month leap month)
  pub total : months_length leap month + left ≡ before

months_length-year : (leap : Bool) → months_length leap 12 ≡ (if leap then 366 else 365)
months_length-year true = refl
months_length-year false = refl

has_month : Bool → ℕ → Bool
has_month leap month = leb 28 (or_zero (days_in_month leap month))

all_months : (leap : Bool) → every_below 12 (has_month leap) ≡ true
unfolding every_below has_month
all_months true = refl
all_months false = refl

some_of_positive : (o : Option ℕ) → 1 ≤ or_zero o → o ≡ some (or_zero o)
some_of_positive none le = absurd (omega arith)
some_of_positive (some n) le = refl

days_in_month-some :
    (leap : Bool) (month : ℕ)
    → month < 12
    → days_in_month leap month ≡ some (or_zero (days_in_month leap month))
unfolding has_month
days_in_month-some leap month lt =
    let le =
      leb→le 28 (or_zero (days_in_month leap month))
        (every_below-at 12 (has_month leap) month (all_months leap) lt) in
    some_of_positive (days_in_month leap month) (omega arith)

month_loop-step :
    (fuel : ℕ) (leap : Bool) (days month dim : ℕ)
    → days_in_month leap month ≡ some dim
    → month_loop (suc fuel) leap days month
      ≡ (if leb dim days then month_loop fuel leap (days - dim) (month + 1) else some (month, days))
unfolding month_loop
month_loop-step fuel leap days month dim e = rw e refl

month_loop-MonthFound :
    (fuel : ℕ) (leap : Bool) (days month : ℕ)
    → month + fuel ≡ 12
    → months_length leap month + days < (if leap then 366 else 365)
    → MonthFound leap (months_length leap month + days) (month_loop fuel leap days month)
month_loop-MonthFound zero leap days month at lt =
    let full : month ≡ 12 = omega arith in
    let all : months_length leap month ≡ (if leap then 366 else 365) =
      ap (months_length leap) full ∙ months_length-year leap in
    absurd (omega (arith, all))
month_loop-MonthFound (suc fuel) leap days month at lt =
    let dim = or_zero (days_in_month leap month) in
    let step =
      month_loop-step fuel leap days month dim (days_in_month-some leap month (omega arith)) in
    let one : month + 1 ≡ suc month = omega arith in
    let next : months_length leap (month + 1) ≡ months_length leap month + dim =
      ap (months_length leap) one in
    elim (Bool-cases (leb dim days)) [
      | inl more ↦
          let le = leb→le dim days more in
          let r =
            month_loop-MonthFound fuel leap (days - dim) (month + 1) (omega arith)
              (omega (arith, lt, next)) in
          record {
            month = r.month;
            left = r.left;
            result = rw (step, more) r.result;
            month_bound = r.month_bound;
            bound = r.bound;
            total = omega (arith, r.total, next);
          }
      | inr done ↦ record {
        month = month;
        left = days;
        result = rw (step, done) refl;
        month_bound = omega arith;
        bound = ground arith;
        total = refl;
      }
    ]

-- For every number of days and fuel above it, the loops of time_get_current end with the date of
-- that day in the Gregorian calendar, given apart from the code by closed formulas: the days of
-- the years before, with a leap day in every fourth year, in no hundredth and in every four-
-- hundredth, the days of the year's months before and the day add up to those of the first of
-- January 1970 and the given number; the year is from 1970 on, the month below 12 and the day
-- within the month's length, 29 for the second month of a leap year.
pub date_of_days-IsDateOf :
    (fuel days : ℕ) → days < fuel → (d : Date) × (date_of_days fuel days ≡ some d) × IsDateOf days d
unfolding date_of_days
date_of_days-IsDateOf fuel days lt =
    let y = year_loop-YearFound fuel days 1970 lt in
    let year = 1970 + y.passed in
    let leap = is_leap-has_leap_day year (omega arith) in
    let m = month_loop-MonthFound 12 (is_leap year) y.left 0 refl (omega (arith, y.bound)) in
    let month = days_in_month-month_length (is_leap year) m.month m.month_bound in
    let years : days_through 1969 + years_length 1970 y.passed ≡ days_through (year - 1) =
      years_length-days_through y.passed 1969 ∙ ap days_through (omega arith) in
    (
      record { year = year; month = m.month; day = m.left + 1 },
      rw (y.result, m.result) refl,
      record {
        since_epoch = omega arith;
        month_bound = m.month_bound;
        day_lower = omega arith;
        day_upper = rw leap (omega (arith, m.bound, month.1));
        total = rw leap (omega (arith, y.total, m.total, month.0, years));
      },
    )
