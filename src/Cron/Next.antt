-- ===== src/Cron/Next.antt =====
-- `Next` against the meaning of a cron expression: the earliest matching minute, or none.
use mathlib.Core.Path.{subst}
use spec_powers.Prelude.{
  ℕ, zero, suc, ◌+◌, ◌-◌, ◌≤◌, ◌<◌, ◌≡◌, sym, inl, inr, true, false, arith, Bool-cases, ltb, ltb→lt,
}
use spec_powers.Cron.Calendar.{Time, IsCivil, stamp, before, minute_key}
use spec_powers.Cron.Calendar.Dates.{days_in-le-suc, date-IsCivil}
use spec_powers.Cron.Schedule.{
  Schedule, found, continue, advance, NextResult, fires, never, out_of_fuel, search_from,
  first_minute, five_years_on, next,
}
use spec_powers.Cron.Skips.{Between, Jump, first_minute-Jump, next_minute-same}
use spec_powers.Cron.Rounds.{matches, stops, skips, advance-Sound}

-- What `next` promises, for the minutes from `t` on, before `limit`.
abbrev IsFirst : Schedule → Time → Time → NextResult → Type 0
IsFirst s limit t (fires t') =
    IsCivil t'
    × (t'.nanos ≡ 0)
    × (before t' limit ≡ true)
    × (matches s t' ≡ true)
    × (minute_key t ≤ minute_key t')
    × ((u : Time)
        → IsCivil u
        → minute_key t ≤ minute_key u
        → minute_key u < minute_key t'
        → matches s u ≡ false)
IsFirst s limit t never =
    (u : Time)
    → IsCivil u
    → u.nanos ≡ 0
    → minute_key t ≤ minute_key u
    → before u limit ≡ true
    → matches s u ≡ false
IsFirst s limit t out_of_fuel = ⊥

-- What lies before the limit, lies in its minute or an earlier one.
minute_key-le_of_before :
    (t limit : Time) → IsCivil limit → before t limit ≡ true → minute_key t ≤ minute_key limit
unfolding before stamp
minute_key-le_of_before t limit c e = ground (arith, c.nanos_lt)

before_mono :
    (t u limit : Time)
    → t.nanos ≡ 0
    → minute_key t ≤ minute_key u
    → before t limit ≡ false
    → before u limit ≡ false
unfolding before stamp
before_mono t u limit z k e = ground arith

module _ (s : Schedule) (limit : Time) (cl : IsCivil limit) where
  widen :
      (t t' : Time) (r : NextResult)
      → Jump t t'
      → ((u : Time) → Between t u t' → matches s u ≡ false)
      → IsFirst s limit t' r
      → IsFirst s limit t r
  widen t t' (fires v) j skip (c, z, b, m, k, first) = (
    c,
    z,
    b,
    m,
    omega (arith, j.later),
    λ u cu p q. elim (Bool-cases (ltb (minute_key u) (minute_key t'))) [
      | inl e ↦ skip u (record { civil_time = cu; from = p; upto = ground arith })
      | inr e ↦ first u cu (ground arith) q
    ],
  )
  widen t t' never j skip rest = λ u cu z p b.
      elim (Bool-cases (ltb (minute_key u) (minute_key t'))) [
        | inl e ↦ skip u (record { civil_time = cu; from = p; upto = ground arith })
        | inr e ↦ rest u cu z (ground arith) b
      ]
  widen t t' out_of_fuel j skip h = h

  search_past :
      (fuel : ℕ) (t : Time) → before t limit ≡ false → search_from (suc fuel) s limit t ≡ never
  unfolding search_from
  search_past fuel t e = rw (e, search_from)

  search_stop :
      (fuel : ℕ) (t : Time)
      → before t limit ≡ true
      → advance s t ≡ found
      → search_from (suc fuel) s limit t ≡ fires t
  unfolding search_from
  search_stop fuel t e r = rw (e, r, search_from)

  search_on :
      (fuel : ℕ) (t t' : Time)
      → before t limit ≡ true
      → advance s t ≡ continue t'
      → search_from (suc fuel) s limit t ≡ search_from fuel s limit t'
  unfolding search_from
  search_on fuel t t' e r = rw (e, r, search_from)

  search_from-IsFirst :
      (fuel : ℕ) (t : Time)
      → IsCivil t
      → t.nanos ≡ 0
      → minute_key limit + 2 ≤ minute_key t + fuel
      → 1 ≤ fuel
      → IsFirst s limit t (search_from fuel s limit t)
  search_from-IsFirst zero t c z enough p = absurd (omega arith)
  search_from-IsFirst (suc fuel) t c z enough p = elim (Bool-cases (before t limit)) [
    | inr e ↦
        subst (IsFirst s limit t) (sym (search_past fuel t e))
          (λ u cu zu k b. absurd (ground (arith, before_mono t u limit z k e)))
    | inl e ↦
        let inside = minute_key-le_of_before t limit cl e in
        elim (advance-Sound s t c) [
          | stops r m ↦
              subst (IsFirst s limit t) (sym (search_stop fuel t e r))
                (c, z, e, m, omega arith, λ u cu p q. absurd (omega arith))
          | skips t' r j skip ↦ subst (IsFirst s limit t) (sym (search_on fuel t t' e r)) (
              widen t t' _ j skip (
                search_from-IsFirst fuel t' j.civil_time j.whole (omega (arith, j.later))
                  (omega arith)))
        ]
  ]

-- The limit is a time of the calendar, later than the start.
five_years_on-IsCivil : (t : Time) → IsCivil t → IsCivil (five_years_on t)
unfolding five_years_on
five_years_on-IsCivil t c =
    let civil =
      date-IsCivil (t.year + 5) t.month c.month_pos c.month_le t.day t.hour t.minute c.day_pos
        (omega (arith, c.day_le, days_in-le-suc t.year (t.year + 5) t.month)) c.hour_lt
        c.minute_lt in
    record {
      month_pos = civil.month_pos;
      month_le = civil.month_le;
      day_pos = civil.day_pos;
      day_le = civil.day_le;
      hour_lt = civil.hour_lt;
      minute_lt = civil.minute_lt;
      nanos_lt = c.nanos_lt;
    }

-- The promise of `next`, over the instants after `after`.
abbrev pub IsNext : Schedule → Time → NextResult → Type 0
IsNext s after (fires t) =
    IsCivil t
    × (t.nanos ≡ 0)
    × (before after t ≡ true)
    × (before t (five_years_on after) ≡ true)
    × (matches s t ≡ true)
    × ((u : Time)
        → IsCivil u
        → u.nanos ≡ 0
        → before after u ≡ true
        → before u t ≡ true
        → matches s u ≡ false)
IsNext s after never =
    (u : Time)
    → IsCivil u
    → u.nanos ≡ 0
    → before after u ≡ true
    → before u (five_years_on after) ≡ true
    → matches s u ≡ false
IsNext s after out_of_fuel = ⊥

-- The minutes from the first one on are the instants at the start of a minute after `after`.
first_minute-lem :
    (after u : Time)
    → IsCivil after
    → u.nanos ≡ 0
    → before after u ≡ true
    → suc (minute_key after) ≤ minute_key u
unfolding before stamp
first_minute-lem after u c z b = ground (arith, c.nanos_lt)

first_minute-le :
    (after u : Time)
    → IsCivil after
    → suc (minute_key after) ≤ minute_key u
    → IsCivil u
    → minute_key (first_minute after) ≤ minute_key u
unfolding first_minute
first_minute-le after u c k cu =
    elim (Bool-cases (ltb (minute_key u) (minute_key (first_minute after)))) [
      | inr e ↦ ground arith
      | inl e ↦ absurd (
          omega (
            arith,
            next_minute-same after c u
                (record { civil_time = cu; from = omega arith; upto = ltb→lt _ _ e }),
          ))
    ]

-- From the minutes of the loop to the instants of the caller.
of_first :
    (s : Schedule) (after : Time) (r : NextResult)
    → IsCivil after
    → IsFirst s (five_years_on after) (first_minute after) r
    → IsNext s after r
unfolding before stamp first_minute
of_first s after (fires t) c (ct, z, b, m, k, first) = (
  ct,
  z,
  ground (arith, c.nanos_lt, (first_minute-Jump after c).later),
  b,
  m,
  λ u cu zu p q.
      first u cu (first_minute-le after u c (first_minute-lem after u c zu p) cu) (ground arith),
)
of_first s after never c rest =
    λ u cu zu p q. rest u cu zu (first_minute-le after u c (first_minute-lem after u c zu p) cu) q
of_first s after out_of_fuel c h = h

-- On a calendar time, `Next` returns the earliest instant at the start of a minute, later than
-- `after` and before five years on, that the expression matches; it returns the zero time only if
-- there is none, and it always returns.
pub next-IsNext : (s : Schedule) (after : Time) → IsCivil after → IsNext s after (next s after)
unfolding next first_minute
next-IsNext s after c =
    let jump = first_minute-Jump after c in
    of_first s after _ c (
      search_from-IsFirst s (five_years_on after) (five_years_on-IsCivil after c)
        (suc (suc (minute_key (five_years_on after) - minute_key after))) (first_minute after)
        jump.civil_time jump.whole (omega (arith, jump.later)) (omega arith))
