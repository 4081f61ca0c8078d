-- ===== src/Cron/Calendar/Dates.antt =====
-- What `time.Date` gives at the arguments that cronexpr.go passes: in range, one day past the end of
-- the month, one month past the end of the year.
use spec_powers.Prelude.{ℕ, ◌+◌, ◌-◌, ◌/◌, ◌%◌, ◌≤◌, ◌<◌, ◌≡◌, arith, ◌==◌, if◌then◌else◌, le→leb}
use native.Mathlib.Nat.{add-zero}
use spec_powers.Cron.Calendar.{Time, IsCivil, date, roll_day, days_in}

pub days_in-le : (y m : ℕ) → days_in y m ≤ 31
unfolding days_in
days_in-le y m = ground arith

pub days_in-ge : (y m : ℕ) → 28 ≤ days_in y m
unfolding days_in
days_in-ge y m = ground arith

abbrev pub civil : ℕ → ℕ → ℕ → ℕ → ℕ → Time
civil y m d h mi = record { year = y; month = m; day = d; hour = h; minute = mi; nanos = 0 }

-- The first midnight of the month after.
abbrev pub month_after : ℕ → ℕ → Time
month_after y m = if m == 12 then civil (y + 1) 1 1 0 0 else civil y (m + 1) 1 0 0

roll_day_in : (y m d h mi : ℕ) → d ≤ days_in y m → roll_day y m d h mi ≡ civil y m d h mi
unfolding roll_day
roll_day_in y m d h mi p = rw (le→leb _ _ p)

roll_day_past :
    (y m d : ℕ) → 1 ≤ m → m ≤ 12 → d ≡ days_in y m + 1 → roll_day y m d 0 0 ≡ month_after y m
unfolding roll_day
roll_day_past y m d p q e = ground arith

-- Only February differs from year to year, by a day.
pub days_in-le-suc : (y y' m : ℕ) → days_in y m ≤ days_in y' m + 1
unfolding days_in
days_in-le-suc y y' m = ground arith

module _ (y m : ℕ) (m_pos : 1 ≤ m) (m_le : m ≤ 12) where
  same_year : y + (m - 1) / 12 ≡ y
  same_year = omega arith

  same_month : (m - 1) % 12 + 1 ≡ m
  same_month = omega arith

  pub date_in_range :
      (d h mi : ℕ) → d ≤ days_in y m → h < 24 → mi < 60 → date y m d h mi ≡ civil y m d h mi
  unfolding date
  date_in_range d h mi p q r =
      rw (same_year, same_month)
        (ground (arith, roll_day_in y m (d + (h + mi / 60) / 24) ((h + mi / 60) % 24) (mi % 60)))

  pub date_past_day : (d : ℕ) → d ≡ days_in y m + 1 → date y m d 0 0 ≡ month_after y m
  unfolding date
  date_past_day d e =
      rw (same_year, same_month) (ground (arith, roll_day_past y m (d + 0) m_pos m_le))

  pub date_past_month : date y (m + 1) 1 0 0 ≡ month_after y m
  unfolding date roll_day
  date_past_month = ground (arith, days_in-ge (y + (m + 1 - 1) / 12) ((m + 1 - 1) % 12 + 1))

  pub date_24 : (d : ℕ) → date y m d 24 0 ≡ date y m (d + 1) 0 0
  unfolding date
  date_24 d = simp add-zero

  pub date_60 : (d h : ℕ) → date y m d h 60 ≡ date y m d (h + 1) 0
  unfolding date
  date_60 d h = rw (add-zero)

  pub date-IsCivil :
      (d h mi : ℕ) → 1 ≤ d → d ≤ days_in y m + 1 → h < 24 → mi < 60 → IsCivil (date y m d h mi)
  unfolding date roll_day
  date-IsCivil d h mi p q r k =
      rw (same_year, same_month)
        (ground (arith, days_in-ge y m, days_in-ge (y + m / 12) (m % 12 + 1)))
