-- ===== src/Date/Calendar.antt =====
-- The calendar of a date: every second has one, and its date tells the second.
use nre.Base.{
  ℕ, zero, suc, ◌+◌, ◌-◌, ◌*◌, ◌/◌, ◌%◌, ◌^◌, ◌≤◌, ◌<◌, ◌≡◌, refl, sym, ap, ◌∙◌, arith, Bool, true,
  false, ◌&&◌, ◌||◌, if◌then◌else◌, ltb, leb, ◌==◌, add64,
}
use native.Mathlib.Decide.{ℕ_discrete}
use nre.Math.{moddiv}
use nre.Date.Years.{leaps, leaps_lem, year_lem}
use nre.Date.{is_leap, to_int, days_of, mktime, month_of, at, year_of, gmtime}

-- The number of days of a month.
pub month_size : Bool → ℕ → ℕ
month_size is_long mon =
    if mon == 2
    then 28 + to_int is_long
    else if mon == 4 || mon == 6 || mon == 9 || mon == 11
    then 30
    else 31

-- What holds for all numbers below a bound, by computation.
all_below : ℕ → (ℕ → Bool) → Bool
all_below zero p = true
all_below (suc n) p = let rest = all_below n p in if p n then rest else false

all_below-step :
    (n : ℕ) (p : ℕ → Bool) → all_below (suc n) p ≡ true → (p n ≡ true) × (all_below n p ≡ true)
unfolding all_below
all_below-step n p e = ground (arith, e)

all_below-at : (n : ℕ) (p : ℕ → Bool) (i : ℕ) → all_below n p ≡ true → i < n → p i ≡ true
all_below-at zero p i e h = absurd (omega (arith, h))
all_below-at (suc n) p i e h =
    let (here, below) = all_below-step n p e in
    elim (ℕ_discrete i n) [
      | yes same ↦ ap p same ∙ here
      | no other ↦ all_below-at n p i below (omega (arith, h, other))
    ]

-- The days before the month in the sum that `mktime` forms, and the day of the month.
offset : Bool → ℕ × ℕ → ℕ
offset is_long (mon, mday) =
    (mon + 10) * 367 / 12 + (if ltb mon 3 then 2 - to_int is_long else 0) + mday

-- The month and its day are in the calendar.
pub in_calendar : Bool → ℕ × ℕ → Bool
in_calendar is_long (mon, mday) =
    leb 1 mon && leb mon 12 && leb 1 mday && leb mday (month_size is_long mon)

day_right : Bool → ℕ → Bool
unfolding offset in_calendar
day_right is_long d =
    in_calendar is_long (month_of is_long d)
    && offset is_long (month_of is_long d) == d + 339 - to_int is_long

day_right-parts :
    (is_long : Bool) (d : ℕ)
    → day_right is_long d ≡ true
    → (in_calendar is_long (month_of is_long d) ≡ true)
      × (offset is_long (month_of is_long d) ≡ d + 339 - to_int is_long)
unfolding day_right
day_right-parts is_long d e = (ground (arith, e), ground (arith, e))

days_right : (all_below 365 (day_right false) ≡ true) × (all_below 366 (day_right true) ≡ true)
unfolding all_below day_right month_of at to_int month_size offset in_calendar
days_right = (refl, refl)

right_at : (is_long : Bool) (d : ℕ) → d < 365 + to_int is_long → day_right is_long d ≡ true
unfolding to_int
right_at true d h = all_below-at 366 (day_right true) d days_right.1 h
right_at false d h = all_below-at 365 (day_right false) d days_right.0 (omega (arith, h))

month_lem :
    (is_long : Bool) (d : ℕ)
    → d < 365 + to_int is_long
    → (in_calendar is_long (month_of is_long d) ≡ true)
      × (offset is_long (month_of is_long d) ≡ d + 339 - to_int is_long)
month_lem is_long d h = day_right-parts is_long d (right_at is_long d h)

inside_366 : (is_long : Bool) (d : ℕ) → d < 365 + to_int is_long → d < 366
unfolding to_int
inside_366 is_long d h = ground (arith, h)

-- The sum of `mktime`, for a year in which `int` does not overflow.
days_of-offset :
    (p mon mday d : ℕ)
    → p < 2 ^ 22
    → d < 366
    → 719162 ≤ p * 365 + leaps p + d
    → offset (is_leap (suc p)) (mon, mday) ≡ d + 339 - to_int (is_leap (suc p))
    → days_of (suc p) mon mday ≡ p * 365 + leaps p + d - 719162
unfolding days_of offset leaps to_int
days_of-offset p mon mday d small short after e =
    ground (arith, small, short, after, e, leaps_lem p)

-- The seconds since the year 1, and their days.
abbrev since : ℕ → ℕ
since t = t + 62135596800

abbrev day_count : ℕ → ℕ
day_count t = since t / 60 / 60 / 24

abbrev date_of : ℕ → ℕ × ℕ
date_of days = month_of (is_leap (year_of days).0) (year_of days).1

gmtime-parts :
    (t : ℕ)
    → t < 2 ^ 46
    → ((gmtime t).year ≡ (year_of (day_count t)).0)
      × ((gmtime t).mon ≡ (date_of (day_count t)).0)
      × ((gmtime t).mday ≡ (date_of (day_count t)).1)
      × ((gmtime t).hour ≡ since t / 60 / 60 % 24)
      × ((gmtime t).min ≡ since t / 60 % 60)
      × ((gmtime t).sec ≡ since t % 60)
      × ((gmtime t).yday ≡ (year_of (day_count t)).1 + 1)
      × ((gmtime t).wday ≡ (day_count t + 1) % 7)
unfolding gmtime moddiv
gmtime-parts t h =
    let s : add64 t 62135596800 ≡ since t = omega (arith, h) in
    rw s (refl, refl, refl, refl, refl, refl, refl, omega (arith, h))

-- Every second of the first two million years since 1970: `mktime` gives it back for the date that `gmtime`
-- makes of it, and this date is one of the calendar: its month has its day, and its hour, minute
-- and second are below 24, 60 and 60.
pub mktime-gmtime :
    (t : ℕ)
    → t < 2 ^ 46
    → (mktime (gmtime t) ≡ t)
      × (in_calendar (is_leap (gmtime t).year) ((gmtime t).mon, (gmtime t).mday) ≡ true)
      × ((gmtime t).hour < 24)
      × ((gmtime t).min < 60)
      × ((gmtime t).sec < 60)
unfolding mktime
mktime-gmtime t h =
    let (is_year, is_mon, is_mday, is_hour, is_min, is_sec, _, _) = gmtime-parts t h in
    let days : ℕ = day_count t in
    let (some_year, small, is_days, inside) = year_lem days (omega (arith, h)) in
    let (valid, at_offset) = month_lem (is_leap (year_of days).0) (year_of days).1 inside in
    let p : ℕ = (year_of days).0 - 1 in
    let is_suc : (year_of days).0 ≡ suc p = omega (arith, some_year) in
    let shape : is_leap (year_of days).0 ≡ is_leap (suc p) = ap is_leap is_suc in
    let moved : offset (is_leap (suc p)) (date_of days)
        ≡ (year_of days).1 + 339 - to_int (is_leap (suc p)) =
      ap (λ (b : Bool). offset b (date_of days)) (sym shape)
      ∙ at_offset
      ∙ ap (λ (b : Bool). (year_of days).1 + 339 - to_int b) shape in
    let counted =
      days_of-offset p (date_of days).0 (date_of days).1 (year_of days).1 (omega (arith, small))
        (inside_366 (is_leap (year_of days).0) (year_of days).1 inside) (omega (arith, is_days))
        moved in
    let whole : days_of (gmtime t).year (gmtime t).mon (gmtime t).mday ≡ days - 719162 =
      cc (is_year, is_mon, is_mday, is_suc) ∙ counted ∙ omega (arith, is_days) in
    (
      omega (arith, whole, is_hour, is_min, is_sec, h),
      cc (is_year, is_mon, is_mday, valid),
      omega (arith, is_hour),
      omega (arith, is_min),
      omega (arith, is_sec),
    )
