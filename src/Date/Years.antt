-- ===== src/Date/Years.antt =====
-- The year of a day.
use nre.Base.{
  ℕ, suc, ◌+◌, ◌-◌, ◌*◌, ◌/◌, ◌%◌, ◌^◌, ◌<◌, ◌≡◌, ap, ◌∙◌, arith, if◌then◌else◌, ◌==◌, u32_mod,
}
use nre.Math.{divmod}
use nre.Date.{is_leap, to_int, year_of}

-- The leap years up to a year.
unfoldable pub leaps : ℕ → ℕ
leaps y = y / 4 - y / 100 + y / 400

pub leaps_lem : (y : ℕ) → leaps (suc y) ≡ leaps y + to_int (is_leap (suc y))
unfolding leaps is_leap to_int
leaps_lem y = ground arith

-- The leap years before the year that the parts give.
leaps_of :
    (a b c e : ℕ)
    → b < 4
    → c < 25
    → e < 4
    → leaps (((a * 4 + b) * 25 + c) * 4 + e) ≡ a * 97 + b * 24 + c
unfolding leaps
leaps_of a b c e hb hc he = omega (arith, hb, hc, he)

century : ℕ → ℕ × ℕ
century days =
    let all = days / 36524 == 4 in
    (if all then 3 else days / 36524, if all then days % 36524 + 36524 else days % 36524)

century_lem :
    (days : ℕ)
    → days < 146097
    → ((century days).0 < 4)
      × (days ≡ (century days).0 * 36524 + (century days).1)
      × ((century days).1 < 36525)
      × ((century days).0 < 3 → (century days).1 < 36524)
unfolding century
century_lem days h =
    (ground (arith, h), ground (arith, h), ground (arith, h), λ l. ground (arith, h, l))

single : ℕ → ℕ × ℕ
single days =
    let all = days / 365 == 4 in
    (if all then 3 else days / 365, if all then days % 365 + 365 else days % 365)

single_lem :
    (days : ℕ)
    → days < 1461
    → ((single days).0 < 4)
      × (days ≡ (single days).0 * 365 + (single days).1)
      × ((single days).1 < 366)
      × ((single days).0 < 3 → (single days).1 < 365)
unfolding single
single_lem days h =
    (ground (arith, h), ground (arith, h), ground (arith, h), λ l. ground (arith, h, l))

year_of-parts :
    (days : ℕ)
    → days < 2 ^ 44
    → year_of days ≡ (
      (((((days / 146097 * 4 + (century (days % 146097)).0) * 25
                + (century (days % 146097)).1 / 1461)
              * 4)
            + (single ((century (days % 146097)).1 % 1461)).0
            + 1)
          % u32_mod),
      (single ((century (days % 146097)).1 % 1461)).1,
    )
unfolding year_of century single divmod
year_of-parts days h =
    ap
      (λ (x : ℕ). (
        ((((x * 4 + (century (days % 146097)).0) * 25 + (century (days % 146097)).1 / 1461) * 4)
              + (single ((century (days % 146097)).1 % 1461)).0
              + 1)
            % u32_mod,
        (single ((century (days % 146097)).1 % 1461)).1,
      ))
      (omega (arith, h))

inside_year :
    (a b c e d : ℕ)
    → b < 4
    → e < 4
    → d < 366
    → c * 1461 + (e * 365 + d) < 36525
    → (b < 3 → c * 1461 + (e * 365 + d) < 36524)
    → (e < 3 → d < 365)
    → d < 365 + to_int (is_leap (suc (((a * 4 + b) * 25 + c) * 4 + e)))
unfolding to_int is_leap
inside_year a b c e d hb he hd hr hr' hd' = ground (arith, hb, he, hd, hr, hr', hd')

-- Any day of the first four million years: it is the given day of the given year.
pub year_lem :
    (days : ℕ)
    → days < 2 ^ 30
    → (0 < (year_of days).0)
      × ((year_of days).0 < 2 ^ 22)
      × (days ≡ ((year_of days).0 - 1) * 365 + leaps ((year_of days).0 - 1) + (year_of days).1)
      × ((year_of days).1 < 365 + to_int (is_leap (year_of days).0))
year_lem days h =
    let parts = year_of-parts days (omega (arith, h)) in
    let a : ℕ = days / 146097 in
    let r : ℕ = (century (days % 146097)).1 in
    let b : ℕ = (century (days % 146097)).0 in
    let c : ℕ = r / 1461 in
    let e : ℕ = (single (r % 1461)).0 in
    let d : ℕ = (single (r % 1461)).1 in
    let (b_small, sum₁, r_small, r_less) = century_lem (days % 146097) (omega arith) in
    let (e_small, sum₂, d_small, d_less) = single_lem (r % 1461) (omega arith) in
    let y : ℕ = ((a * 4 + b) * 25 + c) * 4 + e in
    let is_y : (year_of days).0 ≡ suc y =
      ap (λ (x : ℕ × ℕ). x.0) parts ∙ omega (arith, b_small, e_small, r_small, h) in
    let is_d : (year_of days).1 ≡ d = ap (λ (x : ℕ × ℕ). x.1) parts in
    let one_less : suc y - 1 ≡ y = omega arith in
    let before = leaps_of a b c e b_small (omega (arith, r_small)) e_small in
    let less : d < 365 + to_int (is_leap (suc y)) =
      inside_year a b c e d b_small e_small d_small (omega (arith, sum₂, r_small))
        (λ l. omega (arith, sum₂, r_less l)) d_less in
    rw (is_y, is_d)
      (
        omega arith,
        omega (arith, h, b_small, e_small, r_small),
        omega (arith, sum₁, sum₂, before, ap leaps one_less),
        less,
      )
