-- ===== src/Date/Tests.antt =====
-- The last day of the year 2000, one second before midnight.
use nre.Base.{ℕ, ◌<◌, ◌≡◌, refl, arith, true}
use nre.Date.{is_leap, mktime, gmtime, year_of, month_of, at}
use nre.Math.{moddiv, divmod}
use nre.Date.Calendar.{in_calendar, mktime-gmtime}

abbrev last_second : ℕ
last_second = 978307199

gmtime_run : gmtime last_second ≡ record {
  sec = 59;
  min = 59;
  hour = 23;
  mday = 31;
  mon = 12;
  year = 2000;
  wday = 0;
  yday = 366;
}
unfolding gmtime year_of month_of at is_leap moddiv divmod
gmtime_run = refl

mktime-gmtime_example :
    (mktime (gmtime last_second) ≡ last_second)
    × (in_calendar
          (is_leap (gmtime last_second).year)
          ((gmtime last_second).mon, (gmtime last_second).mday)
        ≡ true)
    × ((gmtime last_second).hour < 24)
    × ((gmtime last_second).min < 60)
    × ((gmtime last_second).sec < 60)
mktime-gmtime_example = mktime-gmtime last_second (omega arith)
