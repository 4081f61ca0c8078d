-- ===== src/Cron/Calendar.antt =====
-- The part of Go's `time` package that cronexpr.go calls: civil times in one location of fixed
-- offset (no clock changes), which starts its minutes with those of UTC. A time is its civil date,
-- hour, minute, and the nanoseconds since that minute began.
pub mod Dates
use spec_powers.Prelude.{
  ℕ, ◌+◌, ◌-◌, ◌*◌, ◌/◌, ◌%◌, ◌≤◌, ◌<◌, Bool, ◌&&◌, ◌||◌, not, ltb, leb, ◌==◌, if◌then◌else◌, [],
  ◌∷◌, get_or,
}

pub record Time : Type 0 where
  pub year : ℕ
  pub month : ℕ
  pub day : ℕ
  pub hour : ℕ
  pub minute : ℕ
  pub nanos : ℕ

abbrev pub minute_nanos : ℕ
minute_nanos = 60_000_000_000

is_leap : ℕ → Bool
is_leap y = (y % 4 == 0) && (not (y % 100 == 0) || (y % 400 == 0))

-- The number of days of a month, 1 to 12.
unfoldable pub days_in : ℕ → ℕ → ℕ
unfolding is_leap
days_in y m =
    if m == 2
    then (if is_leap y then 29 else 28)
    else if m == 4 || m == 6 || m == 9 || m == 11
    then 30
    else 31

-- A day past the end of its month falls into the next one; the source is never more than one day
-- past it.
roll_day : ℕ → ℕ → ℕ → ℕ → ℕ → Time
roll_day y m d h mi =
    let len = days_in y m in
    if leb d len
    then record { year = y; month = m; day = d; hour = h; minute = mi; nanos = 0 }
    else record {
      year = y + m / 12;
      month = m % 12 + 1;
      day = d - len;
      hour = h;
      minute = mi;
      nanos = 0;
    }

-- `time.Date`: minutes, hours, months and days past their range carry over.
unfoldable pub date : ℕ → ℕ → ℕ → ℕ → ℕ → Time
unfolding roll_day
date y m d h mi =
    let h' = h + mi / 60 in
    roll_day (y + (m - 1) / 12) ((m - 1) % 12 + 1) (d + h' / 24) (h' % 24) (mi % 60)

-- The minutes in order, and the instants in order.
unfoldable pub minute_key : Time → ℕ
minute_key t = (((t.year * 13 + t.month) * 32 + t.day) * 24 + t.hour) * 60 + t.minute

unfoldable pub stamp : Time → ℕ
unfolding minute_key
stamp t = minute_key t * minute_nanos + t.nanos

-- `t.Before(u)`.
unfoldable pub before : Time → Time → Bool
before t u = ltb (stamp t) (stamp u)

-- `int(t.Weekday())`, 0 for Sunday.
unfoldable pub weekday : Time → ℕ
weekday t =
    let y = if leb t.month 2 then t.year - 1 else t.year in
    (y
      + y / 4
      - y / 100
      + y / 400
      + get_or (0 ∷ 3 ∷ 2 ∷ 5 ∷ 0 ∷ 3 ∷ 5 ∷ 1 ∷ 4 ∷ 6 ∷ 2 ∷ 4 ∷ []) (t.month - 1) 0
      + t.day)
    % 7

-- A time that a clock can show.
pub record IsCivil (t : Time) : Type 0 where
  pub month_pos : 1 ≤ t.month
  pub month_le : t.month ≤ 12
  pub day_pos : 1 ≤ t.day
  pub day_le : t.day ≤ days_in t.year t.month
  pub hour_lt : t.hour < 24
  pub minute_lt : t.minute < 60
  pub nanos_lt : t.nanos < minute_nanos
