-- ===== src/Schedule/Samples.antt =====
-- A week with one overnight schedule, on the plain platform.
use benchwarmer.Prelude.{◌≡◌, refl, true, any, none, some, arith}
use benchwarmer.Platform.{LocalTime}
use benchwarmer.Platform.Plain.{plain, utc}
use benchwarmer.Config.Plain.{plain_config, night}
use benchwarmer.Schedule.{clock_minutes, weekday, in_window, has_day, in_minutes, next_change}
use benchwarmer.Schedule.Window.{covers_day, in_window-covers}
use benchwarmer.Schedule.Change.{IsNextChange, next_change-IsNextChange}

-- Saturday, two in the morning.
abbrev saturday : LocalTime
saturday = record { weekday = 6; hour = 2; minute = 0 }

half_past_ten : clock_minutes "22:30" ≡ some 1350
unfolding clock_minutes
half_past_ten = refl

one_digit_hour : clock_minutes "7:05" ≡ some 425
unfolding clock_minutes
one_digit_hour = refl

hour_out_of_range : clock_minutes "24:00" ≡ none
unfolding clock_minutes
hour_out_of_range = refl

-- The morning of the day after belongs to the window of the day before.
morning_after : in_window plain night saturday ≡ true
unfolding in_window clock_minutes has_day weekday in_minutes
morning_after = refl

in_window-covers_example :
    in_window plain night saturday
    ≡ any (λ x. covers_day 1350 360 6 120 (weekday plain x)) night.days
unfolding clock_minutes
in_window-covers_example =
    in_window-covers plain night saturday 1350 360 refl refl (omega arith) (omega arith)
      (omega arith)

next_change-IsNextChange_example :
    IsNextChange plain plain_config utc 0 (next_change plain plain_config 0)
next_change-IsNextChange_example = next_change-IsNextChange plain plain_config utc 0 refl
