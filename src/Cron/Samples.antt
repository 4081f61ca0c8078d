-- ===== src/Cron/Samples.antt =====
-- Runs of the parser and of `Next`, and the theorems at concrete expressions.
use spec_powers.Prelude.{
  ℕ, ◌+◌, ◌-◌, ◌≤◌, ◌≡◌, refl, true, false, [], ◌∷◌, codes, length, any, set, replicate, arith,
  some,
}
use spec_powers.Prelude.Int.{pos}
use spec_powers.Cron.Calendar.{Time, IsCivil, weekday, before, stamp, date, days_in}
use spec_powers.Cron.Calendar.Dates.{civil}
use spec_powers.Cron.Schedule.{
  bit, Schedule, next, fires, never, first_minute, five_years_on, advance, day_matches, first_set,
}
use spec_powers.Cron.Parse.{
  ok, invalid, panic, parse, parse_field, set_range, bounds, split, fields, range_and_step, cut,
  atoi,
}
use spec_powers.Cron.Selection.{part_selects, parse_field-selects}
use spec_powers.Cron.Steps.{set_range_panics}
use spec_powers.Cron.Next.{IsNext, next-IsNext}

abbrev friday_evening : Time
friday_evening = record { year = 2026; month = 2; day = 27; hour = 18; minute = 5; nanos = 7 }

friday : weekday friday_evening ≡ 5
unfolding weekday
friday = refl

friday_evening-IsCivil : IsCivil friday_evening
unfolding days_in
friday_evening-IsCivil = omega arith

-- "30 9 * * 1-5".
abbrev workday_mornings : Schedule
workday_mornings = record {
  minute = set (replicate 60 false) 30 true;
  hour = set (replicate 24 false) 9 true;
  dom = replicate 31 true;
  month = replicate 12 true;
  dow = false ∷ true ∷ true ∷ true ∷ true ∷ true ∷ false ∷ [];
  dom_star = true;
  dow_star = false;
}

parse_workdays : parse (codes "30 9 * * 1-5") ≡ ok workday_mornings
unfolding parse parse_field bounds set_range fields split range_and_step cut atoi
parse_workdays = refl

-- Over a weekend and the end of February.
next_workday : next workday_mornings friday_evening ≡ fires (civil 2026 3 2 9 30)
unfolding next before stamp first_minute date days_in five_years_on advance day_matches weekday
    first_set
next_workday = refl

next-IsNext_example : IsNext workday_mornings friday_evening (next workday_mornings friday_evening)
next-IsNext_example = next-IsNext workday_mornings friday_evening friday_evening-IsCivil

-- "0 0 30 2 *": the thirtieth of February.
abbrev february_30 : Schedule
february_30 = record {
  minute = set (replicate 60 false) 0 true;
  hour = set (replicate 24 false) 0 true;
  dom = set (replicate 31 false) 29 true;
  month = set (replicate 12 false) 1 true;
  dow = replicate 7 true;
  dom_star = false;
  dow_star = true;
}

no_february_30 : next february_30 friday_evening ≡ never
unfolding next before stamp first_minute date days_in five_years_on advance day_matches weekday
    first_set
no_february_30 = refl

-- Lists, ranges and steps.
parse_field_lists :
    parse_field (codes "1-9/4,7") 0 9
    ≡ ok (false ∷ true ∷ false ∷ false ∷ false ∷ true ∷ false ∷ true ∷ false ∷ true ∷ [])
unfolding parse_field bounds set_range split range_and_step cut atoi
parse_field_lists = refl

bad_fields :
    (parse_field (codes "1-") 0 9 ≡ invalid)
    × (parse_field (codes "7-3") 0 9 ≡ invalid)
    × (parse_field (codes "*/0") 0 9 ≡ invalid)
    × (parse_field (codes "10") 0 9 ≡ invalid)
unfolding parse_field bounds set_range split range_and_step cut atoi
bad_fields = (refl, refl, refl, refl)

parse_field-selects_example :
    (length (false ∷ true ∷ false ∷ false ∷ false ∷ true ∷ false ∷ true ∷ false ∷ true ∷ [])
      ≡ 9 - 0 + 1)
    × ((v : ℕ)
        → 0 ≤ v
        → bit
            (false ∷ true ∷ false ∷ false ∷ false ∷ true ∷ false ∷ true ∷ false ∷ true ∷ [])
            (v - 0)
          ≡ any (part_selects 0 9 v) (split b',' (codes "1-9/4,7")))
parse_field-selects_example =
    parse_field-selects 0 9 (codes "1-9/4,7")
      (false ∷ true ∷ false ∷ false ∷ false ∷ true ∷ false ∷ true ∷ false ∷ true ∷ [])
      parse_field_lists

range_1_9 : bounds (codes "1-9") 0 9 ≡ some (pos 1, pos 9)
unfolding bounds cut atoi
range_1_9 = refl

set_range_panics_example :
    set_range (replicate 10 false) (codes "1-9") 0 9 9223372036854775807 ≡ panic
set_range_panics_example =
    set_range_panics (replicate 10 false) (codes "1-9") 0 9 9223372036854775807 1 9 range_1_9
      (omega arith) (omega arith) (omega arith) (omega arith) (omega arith)

-- A whole expression with five fields of valid bounds.
parse_panics : parse (codes "0 0 */9223372036854775807 * *") ≡ panic
unfolding parse parse_field bounds set_range fields split range_and_step cut atoi
parse_panics = refl
