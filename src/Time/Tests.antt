-- ===== src/Time/Tests.antt =====
-- The first of March 1970 is day 59.
use sonna_os.Prelude.{◌≡◌, refl, some, [], ◌∷◌, arith}
use sonna_os.Time.{Date, date_of_days, time_get_current, year_loop, month_loop}
use sonna_os.Time.Calendar.{IsDateOf, date_of_days-IsDateOf}

first_of_march : date_of_days 2 59 ≡ some (record { year = 1970; month = 2; day = 1 })
unfolding date_of_days year_loop month_loop
first_of_march = refl

epoch_text :
    time_get_current 1 0
    ≡ some (
        49 ∷ 57 ∷ 55 ∷ 48 ∷ 47 ∷ 48 ∷ 49 ∷ 47 ∷ 48 ∷ 49 ∷ 32 ∷ 48 ∷ 48 ∷ 58 ∷ 48 ∷ 48 ∷ 58 ∷ 48 ∷ 48
        ∷ 0 ∷ [])
unfolding time_get_current date_of_days year_loop month_loop
epoch_text = refl

date_of_days-IsDateOf_example : (d : Date) × (date_of_days 60 59 ≡ some d) × IsDateOf 59 d
date_of_days-IsDateOf_example = date_of_days-IsDateOf 60 59 (omega arith)
