-- ===== src/Cron/Schedule.antt =====
-- cronexpr.go: `Schedule`, `dayMatches` and `Next`.
use spec_powers.Prelude.{
  ℕ, zero, suc, ◌+◌, ◌-◌, Bool, ◌&&◌, ◌||◌, if◌then◌else◌, Option, none, some, List, get_or,
}
use spec_powers.Cron.Calendar.{Time, date, minute_key, before, weekday}

-- `bitset`: one Boolean for each value of the field, the field's minimum first.
abbrev pub Bitset : Type 0
Bitset = List Bool

-- `out[i]`; an index past the end, where Go panics, reads `false`.
abbrev pub bit : Bitset → ℕ → Bool
bit bits i = get_or bits i Bool.false

pub record Schedule : Type 0 where
  pub minute : Bitset
  pub hour : Bitset
  pub dom : Bitset
  pub month : Bitset
  pub dow : Bitset
  pub dom_star : Bool
  pub dow_star : Bool

-- The `switch` over the two stars.
unfoldable pub day_matches : Schedule → Time → Bool
day_matches s t =
    let dom_ok = s.dom_star || bit s.dom (t.day - 1) in
    let dow_ok = s.dow_star || bit s.dow (weekday t) in
    if s.dom_star && s.dow_star
    then Bool.true
    else if s.dom_star
    then dow_ok
    else if s.dow_star
    then dom_ok
    else dom_ok || dow_ok

-- The first set bit from `h` on, within `k` places: the inner `for` loops.
unfoldable pub first_set : Bitset → ℕ → ℕ → Option ℕ
first_set bits h zero = none
first_set bits h (suc k) = elim (bit bits h) [
  | Bool.true ↦ some h
  | Bool.false ↦ first_set bits (suc h) k
]

-- One round of the outer loop: `return t`, or `t = …` and on to the next round.
pub data Round : Type 0 where
  found : Round
  continue : Time → Round

-- The next set hour of the day, else the next midnight.
unfoldable pub next_hour : Time → Option ℕ → Time
next_hour t none = date t.year t.month (t.day + 1) 0 0
next_hour t (some h) = date t.year t.month t.day h 0

-- The next set minute of the hour, else the next full hour.
unfoldable pub next_minute : Time → Option ℕ → Time
next_minute t none = date t.year t.month t.day (t.hour + 1) 0
next_minute t (some m) = date t.year t.month t.day t.hour m

unfoldable pub advance : Schedule → Time → Round
unfolding next_hour next_minute
advance s t =
    if bit s.month (t.month - 1)
    then (if day_matches s t
        then (if bit s.hour t.hour
            then (if bit s.minute t.minute
                then found
                else continue (next_minute t (first_set s.minute (t.minute + 1) (59 - t.minute))))
            else continue (next_hour t (first_set s.hour (t.hour + 1) (23 - t.hour))))
        else continue (date t.year t.month (t.day + 1) 0 0))
    else continue (date t.year (t.month + 1) 1 0 0)

-- `found t`, the zero time, or too little fuel.
pub data NextResult : Type 0 where
  fires : Time → NextResult
  never : NextResult
  out_of_fuel : NextResult

-- `for t.Before(limit)`.
unfoldable pub search_from : ℕ → Schedule → Time → Time → NextResult
search_from zero s limit t = out_of_fuel
search_from (suc fuel) s limit t = elim (before t limit) [
  | Bool.false ↦ never
  | Bool.true ↦ elim (advance s t) [ found ↦ fires t | continue t' ↦ search_from fuel s limit t' ]
]

-- `after.Truncate(time.Minute).Add(time.Minute)`.
unfoldable pub first_minute : Time → Time
first_minute t = date t.year t.month t.day t.hour (t.minute + 1)

-- `after.AddDate(5, 0, 0)`.
unfoldable pub five_years_on : Time → Time
five_years_on t = record (date (t.year + 5) t.month t.day t.hour t.minute) { nanos = t.nanos }

-- Each round goes to a later minute, so the minutes up to the limit bound the rounds.
unfoldable pub next : Schedule → Time → NextResult
unfolding search_from
next s after =
    let limit = five_years_on after in
    search_from (suc (suc (minute_key limit - minute_key after))) s limit (first_minute after)
