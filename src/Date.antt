-- ===== src/Date.antt =====
-- nre/include/util/Date.h: seconds since 1970 from a date, and the date from the seconds. The sums of
-- `int` are taken as word sums, since all that is added to a `timevalue_t` is taken modulo 2 ^ 64 there.
pub mod Years
pub mod Calendar
mod Tests
use nre.Base.{
  ℕ, zero, suc, ◌+◌, ◌-◌, ◌*◌, ◌/◌, ◌%◌, ◌^◌, Bool, true, false, ◌&&◌, ◌||◌, not, if◌then◌else◌,
  ltb, leb, ◌==◌, List, [], ◌∷◌, add64, sub64, u32_mod, word_mod,
}
use nre.Math.{divmod, moddiv}

pub record DateInfo : Type 0 where
  pub sec : ℕ
  pub min : ℕ
  pub hour : ℕ
  pub mday : ℕ
  pub mon : ℕ
  pub year : ℕ
  pub wday : ℕ
  pub yday : ℕ

unfoldable pub is_leap : ℕ → Bool
is_leap year = (year % 4 == 0 && not (year % 100 == 0)) || year % 400 == 0

-- 1 for true, as in C.
pub to_int : Bool → ℕ
to_int b = if b then 1 else 0

-- The days since 1970, modulo 2 ^ 64, of a day of a month.
pub days_of : ℕ → ℕ → ℕ → ℕ
unfolding is_leap to_int
days_of year mon mday =
    let before_march = ltb mon 3 in
    let days =
      sub64 ((mon + 10) * 367 / 12 + 2 * to_int before_march + mday + year * 365)
        (719866 + (if before_march then to_int (is_leap year) else 0)) in
    add64 days (year / 4 - year / 100 + year / 400)

pub mktime : DateInfo → ℕ
unfolding days_of
mktime tm =
    (((days_of tm.year tm.mon tm.mday * 24 + tm.hour) * 60 + tm.min) * 60 + tm.sec) % word_mod

abbrev pub leap : List ℕ
leap = 0 ∷ 31 ∷ 60 ∷ 91 ∷ 121 ∷ 152 ∷ 182 ∷ 213 ∷ 244 ∷ 274 ∷ 305 ∷ 335 ∷ 366 ∷ []

abbrev pub noleap : List ℕ
noleap = 0 ∷ 31 ∷ 59 ∷ 90 ∷ 120 ∷ 151 ∷ 181 ∷ 212 ∷ 243 ∷ 273 ∷ 304 ∷ 334 ∷ 365 ∷ []

-- The months are below 12, so that the index is at most 12.
unfoldable pub at : List ℕ → ℕ → ℕ
at [] i = 0
at (x ∷ xs) zero = x
at (x ∷ xs) (suc i) = at xs i

-- The month and the day of it, both from 1, of a day of the year.
unfoldable pub month_of : Bool → ℕ → ℕ × ℕ
unfolding at
month_of is_long days =
    let l = if is_long then leap else noleap in
    let m = days / 31 in
    let left = sub64 days (at l m) in
    let size = at l (m + 1) - at l m in
    if leb size left then (m + 1 + 1, left - size + 1) else (m + 1, left + 1)

-- The year of a day since the first of January of the year 1, and the day of that year.
unfoldable pub year_of : ℕ → ℕ × ℕ
unfolding divmod
year_of days =
    let years400 = (divmod days (4 * 36524 + 1)).0 % u32_mod in
    let days₁ = (divmod days (4 * 36524 + 1)).1 in
    let all_centuries = (divmod days₁ 36524).0 == 4 in
    let years100 = if all_centuries then 3 else (divmod days₁ 36524).0 in
    let days₂ = if all_centuries then (divmod days₁ 36524).1 + 36524 else (divmod days₁ 36524).1 in
    let years4 = (divmod days₂ 1461).0 in
    let days₃ = (divmod days₂ 1461).1 in
    let all_years = (divmod days₃ 365).0 == 4 in
    let years = if all_years then 3 else (divmod days₃ 365).0 in
    (
      ((((years400 * 4 + years100) * 25 + years4) * 4) + years + 1) % u32_mod,
      if all_years then (divmod days₃ 365).1 + 365 else (divmod days₃ 365).1,
    )

unfoldable pub gmtime : ℕ → DateInfo
unfolding moddiv year_of month_of is_leap
gmtime t =
    let seconds = add64 t ((719528 - 366) * 86400) in
    let minutes = (moddiv seconds 60).1 in
    let hours = (moddiv minutes 60).1 in
    let days = (moddiv hours 24).1 in
    let (year, day) = year_of days in
    let (mon, mday) = month_of (is_leap year) day in
    record {
      sec = (moddiv seconds 60).0;
      min = (moddiv minutes 60).0;
      hour = (moddiv hours 24).0;
      mday = mday;
      mon = mon;
      year = year;
      wday = (moddiv (add64 days 1) 7).0;
      yday = day + 1;
    }
