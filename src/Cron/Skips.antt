-- ===== src/Cron/Skips.antt =====
-- cronexpr.go: the jumps of the loop of `Next`.
use spec_powers.Prelude.{
  ℕ, ◌+◌, ◌≤◌, ◌<◌, ◌≡◌, inl, inr, arith, Bool-cases, if◌then◌else◌, leb→lt, leb→le, leb, ltb,
}
use spec_powers.Cron.Calendar.{Time, IsCivil, date, days_in, minute_key}
use spec_powers.Cron.Calendar.Dates.{
  days_in-le, days_in-ge, civil, month_after, date_in_range, date_past_day, date_past_month,
  date_24, date_60,
}

-- `u` is a minute from `t` up to, and without, `t'`.
pub record Between (t u t' : Time) : Type 0 where
  pub civil_time : IsCivil u
  pub from : minute_key t ≤ minute_key u
  pub upto : minute_key u < minute_key t'

-- A jump goes forward to the start of a minute of the calendar.
pub record Jump (t t' : Time) : Type 0 where
  pub civil_time : IsCivil t'
  pub whole : t'.nanos ≡ 0
  pub later : minute_key t < minute_key t'

-- The midnight after.
day_after : Time → Time
day_after t =
    if leb (t.day + 1) (days_in t.year t.month)
    then civil t.year t.month (t.day + 1) 0 0
    else month_after t.year t.month

module _ (t : Time) (c : IsCivil t) where
  date-day_after : date t.year t.month (t.day + 1) 0 0 ≡ day_after t
  unfolding day_after
  date-day_after = elim (Bool-cases (leb (t.day + 1) (days_in t.year t.month))) [
    | inl e ↦ rw e (
        date_in_range t.year t.month c.month_pos c.month_le (t.day + 1) 0 0 (leb→le _ _ e)
          (omega arith) (omega arith))
    | inr e ↦ rw e (
        date_past_day t.year t.month c.month_pos c.month_le (t.day + 1)
          (omega (arith, leb→lt _ _ e, c.day_le)))
  ]

  month_after-Jump : Jump t (month_after t.year t.month)
  unfolding minute_key
  month_after-Jump =
      ground (
        arith,
        days_in-ge t.year (t.month + 1),
        days_in-ge (t.year + 1) 1,
        days_in-le t.year t.month,
      )

  day_after-Jump : Jump t (day_after t)
  unfolding day_after minute_key
  day_after-Jump = ground (arith, month_after-Jump, days_in-le t.year t.month)

  pub next_month-Jump : Jump t (date t.year (t.month + 1) 1 0 0)
  next_month-Jump = rw (date_past_month t.year t.month c.month_pos c.month_le) month_after-Jump

  pub next_day-Jump : Jump t (date t.year t.month (t.day + 1) 0 0)
  next_day-Jump = rw date-day_after day_after-Jump

  pub hour-Jump : (h : ℕ) → t.hour < h → h < 24 → Jump t (date t.year t.month t.day h 0)
  unfolding minute_key
  hour-Jump h p q =
      rw (date_in_range t.year t.month c.month_pos c.month_le t.day h 0 c.day_le q (omega arith))
        (ground arith)

  pub full_hour-Jump : Jump t (date t.year t.month t.day (t.hour + 1) 0)
  full_hour-Jump = elim (Bool-cases (ltb t.hour 23)) [
    | inl e ↦ hour-Jump (t.hour + 1) (omega arith) (ground arith)
    | inr e ↦
        let at_23 : t.hour + 1 ≡ 24 = ground arith in
        rw (at_23, date_24 t.year t.month c.month_pos c.month_le t.day) next_day-Jump
  ]

  pub minute-Jump : (m : ℕ) → t.minute < m → m < 60 → Jump t (date t.year t.month t.day t.hour m)
  unfolding minute_key
  minute-Jump m p q =
      rw (date_in_range t.year t.month c.month_pos c.month_le t.day t.hour m c.day_le c.hour_lt q)
        (ground arith)

  pub first_minute-Jump : Jump t (date t.year t.month t.day t.hour (t.minute + 1))
  first_minute-Jump = elim (Bool-cases (ltb t.minute 59)) [
    | inl e ↦ minute-Jump (t.minute + 1) (omega arith) (ground arith)
    | inr e ↦
        let at_59 : t.minute + 1 ≡ 60 = ground arith in
        rw (at_59, date_60 t.year t.month c.month_pos c.month_le t.day t.hour) full_hour-Jump
  ]

-- What the minutes before such a jump share with its start.
module _ (t : Time) (c : IsCivil t) (u : Time) where
  month_after-same :
      Between t u (month_after t.year t.month) → (u.year ≡ t.year) × (u.month ≡ t.month)
  unfolding minute_key
  month_after-same b =
      ground
        (arith, days_in-le t.year t.month, days_in-le u.year u.month, b.civil_time, b.from, b.upto)

  day_after-same :
      Between t u (day_after t) → (u.year ≡ t.year) × (u.month ≡ t.month) × (u.day ≡ t.day)
  unfolding minute_key day_after
  day_after-same b =
      ground
        (arith, days_in-le t.year t.month, days_in-le u.year u.month, b.civil_time, b.from, b.upto)

  pub next_month-same :
      Between t u (date t.year (t.month + 1) 1 0 0) → (u.year ≡ t.year) × (u.month ≡ t.month)
  next_month-same b =
      month_after-same (rw (date_past_month t.year t.month c.month_pos c.month_le) at b)

  pub next_day-same :
      Between t u (date t.year t.month (t.day + 1) 0 0)
      → (u.year ≡ t.year) × (u.month ≡ t.month) × (u.day ≡ t.day)
  next_day-same b = day_after-same (rw (date-day_after t c) at b)

  pub hour-same :
      (h : ℕ)
      → t.hour < h
      → h < 24
      → Between t u (date t.year t.month t.day h 0)
      → (u.year ≡ t.year) × (u.month ≡ t.month) × (u.day ≡ t.day) × (t.hour ≤ u.hour) × (u.hour < h)
  unfolding minute_key
  hour-same h p q b =
      let in_range =
        date_in_range t.year t.month c.month_pos c.month_le t.day h 0 c.day_le q (omega arith) in
      let b' = rw in_range at b in
      ground (
        arith,
        days_in-le t.year t.month,
        days_in-le u.year u.month,
        b'.civil_time,
        b'.from,
        b'.upto,
      )

  pub minute-same :
      (m : ℕ)
      → t.minute < m
      → m < 60
      → Between t u (date t.year t.month t.day t.hour m)
      → (u.year ≡ t.year)
        × (u.month ≡ t.month)
        × (u.day ≡ t.day)
        × (u.hour ≡ t.hour)
        × (t.minute ≤ u.minute)
        × (u.minute < m)
  unfolding minute_key
  minute-same m p q b =
      let in_range =
        date_in_range t.year t.month c.month_pos c.month_le t.day t.hour m c.day_le c.hour_lt q in
      let b' = rw in_range at b in
      ground (
        arith,
        days_in-le t.year t.month,
        days_in-le u.year u.month,
        b'.civil_time,
        b'.from,
        b'.upto,
      )

  pub full_hour-same :
      Between t u (date t.year t.month t.day (t.hour + 1) 0)
      → (u.year ≡ t.year) × (u.month ≡ t.month) × (u.day ≡ t.day) × (u.hour ≡ t.hour)
  unfolding minute_key
  full_hour-same b = elim (Bool-cases (ltb t.hour 23)) [
    | inl e ↦ ground (arith, hour-same (t.hour + 1) (omega arith) (ground arith) b)
    | inr e ↦
        let at_23 : t.hour + 1 ≡ 24 = ground arith in
        let b' = rw (at_23, date_24 t.year t.month c.month_pos c.month_le t.day) at b in
        ground (arith, next_day-same b', b'.from, b'.civil_time)
  ]

  pub next_minute-same :
      Between t u (date t.year t.month t.day t.hour (t.minute + 1)) → minute_key u ≡ minute_key t
  unfolding minute_key
  next_minute-same b = elim (Bool-cases (ltb t.minute 59)) [
    | inl e ↦ ground (arith, minute-same (t.minute + 1) (omega arith) (ground arith) b)
    | inr e ↦
        let at_59 : t.minute + 1 ≡ 60 = ground arith in
        let b' = rw (at_59, date_60 t.year t.month c.month_pos c.month_le t.day t.hour) at b in
        ground (arith, full_hour-same b', b'.from, b'.civil_time)
  ]

-- Within a day, and within an hour, the order of the minutes is that of the clock.
pub hour-le :
    (t u : Time)
    → IsCivil u
    → minute_key t ≤ minute_key u
    → u.year ≡ t.year
    → u.month ≡ t.month
    → u.day ≡ t.day
    → t.hour ≤ u.hour
unfolding minute_key
hour-le t u c k y m d = omega arith

pub minute-le :
    (t u : Time)
    → minute_key t ≤ minute_key u
    → u.year ≡ t.year
    → u.month ≡ t.month
    → u.day ≡ t.day
    → u.hour ≡ t.hour
    → t.minute ≤ u.minute
unfolding minute_key
minute-le t u k y m d h = omega arith
