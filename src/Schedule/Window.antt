-- ===== src/Schedule/Window.antt =====
-- internal/schedule/schedule.go, inWindow: a schedule covers one stretch of each week for each of
-- its days, which begins on that day and may end on the next.
use benchwarmer.Prelude.{
  ℕ, ◌+◌, ◌-◌, ◌*◌, ◌%◌, ◌<◌, ◌≡◌, ltb, ◌==◌, Bool, false, ◌||◌, List, [], ◌∷◌, any, Option, none,
  some, String, arith, if◌then◌else◌,
}
use mathlib.Core.Path.{◌∙◌, ap₂}
use benchwarmer.Platform.{Platform, LocalTime}
use benchwarmer.Config.{Schedule}
use benchwarmer.Schedule.{in_minutes, is_day, clock_minutes, weekday, has_day, in_window}

abbrev pub week : ℕ
week = 10_080

-- Minutes from the window's start to its end, which is on the next day if it is not later.
abbrev pub window_length : ℕ → ℕ → ℕ
window_length start end = if ltb start end then end - start else end + 1440 - start

-- Minute `m` of day `today` lies less than the window's length after `start` of day `d`, as the
-- minutes of a week go round.
abbrev pub covers : ℕ → ℕ → ℕ → ℕ → ℕ → Bool
covers start end today m d =
    ltb ((today * 1440 + m + week - (d * 1440 + start)) % week) (window_length start end)

in_minutes-covers :
    (start end today m d : ℕ)
    → start < 1440
    → end < 1440
    → m < 1440
    → today < 7
    → d < 7
    → in_minutes (λ e. d == e) start end today m ≡ covers start end today m d
unfolding in_minutes
in_minutes-covers start end today m d hs he hm ht hd = ground arith

-- The same for the named days of a schedule.
abbrev pub covers_day : ℕ → ℕ → ℕ → ℕ → Option ℕ → Bool
covers_day start end today m none = false
covers_day start end today m (some d) = covers start end today m d

abbrev IsDay : Option ℕ → Type 0
IsDay none = Unit {0}
IsDay (some d) = d < 7

in_minutes-covers_day :
    (start end today m : ℕ) (x : Option ℕ)
    → start < 1440
    → end < 1440
    → m < 1440
    → today < 7
    → IsDay x
    → in_minutes (is_day x) start end today m ≡ covers_day start end today m x
unfolding in_minutes
in_minutes-covers_day start end today m none hs he hm ht hd = ground arith
in_minutes-covers_day start end today m (some d) hs he hm ht hd =
    in_minutes-covers start end today m d hs he hm ht hd

in_minutes-or :
    (p q : ℕ → Bool) (start end today m : ℕ)
    → in_minutes (λ d. p d || q d) start end today m
      ≡ (in_minutes p start end today m || in_minutes q start end today m)
unfolding in_minutes
in_minutes-or p q start end today m = ground arith

in_minutes-none : (start end today m : ℕ) → in_minutes (λ _. false) start end today m ≡ false
unfolding in_minutes
in_minutes-none start end today m = ground arith

clock_minutes-lt : (s : String) {m : ℕ} → clock_minutes s ≡ some m → m < 1440
unfolding clock_minutes
clock_minutes-lt s h = ground arith

module _ (P : Platform) where
  weekday-IsDay : (s : String) → IsDay (weekday P s)
  unfolding weekday
  weekday-IsDay s = ground arith

  any-covers_day :
      (start end today m : ℕ) (days : List String)
      → start < 1440
      → end < 1440
      → m < 1440
      → today < 7
      → in_minutes (λ d. any (λ x. is_day (weekday P x) d) days) start end today m
        ≡ any (λ x. covers_day start end today m (weekday P x)) days
  any-covers_day start end today m [] hs he hm ht = in_minutes-none start end today m
  any-covers_day start end today m (x ∷ days) hs he hm ht =
      in_minutes-or (λ d. is_day (weekday P x) d) (λ d. any (λ y. is_day (weekday P y) d) days)
        start end today m
      ∙ ap₂ ◌||◌
          (in_minutes-covers_day start end today m (weekday P x) hs he hm ht (weekday-IsDay x))
          (any-covers_day start end today m days hs he hm ht)

  -- When start and end parse and the reading is of a clock, a schedule's window holds at an instant
  -- exactly when the instant lies, in the week as a circle, less than the window's length after the
  -- start on one of the schedule's days. The length runs to the end, on the next day if the end is
  -- not later than the start.
  pub in_window-covers :
      (s : Schedule) (local : LocalTime) (start end : ℕ)
      → clock_minutes s.start ≡ some start
      → clock_minutes s.end ≡ some end
      → local.weekday < 7
      → local.hour < 24
      → local.minute < 60
      → in_window P s local
        ≡ any
            (λ x. covers_day start end local.weekday (local.hour * 60 + local.minute) (weekday P x))
            s.days
  unfolding in_window has_day
  in_window-covers s local start end hs he hd hh hm =
      rw (hs, he, in_window)
        (any-covers_day start end local.weekday (local.hour * 60 + local.minute) s.days
          (clock_minutes-lt s.start hs) (clock_minutes-lt s.end he) (omega arith) hd)
