-- ===== src/Cron/Rounds.antt =====
-- cronexpr.go: one round of the loop of `Next`.
use spec_powers.Prelude.{
  ℕ, zero, suc, ◌+◌, ◌-◌, ◌≤◌, ◌<◌, ◌≡◌, refl, ◌∙◌, inl, inr, Bool, true, false, ◌&&◌, Option, none,
  some, arith, Bool-cases, ltb,
}
use spec_powers.Cron.Calendar.{Time, IsCivil, weekday}
use spec_powers.Cron.Schedule.{
  Bitset, bit, Schedule, day_matches, first_set, next_hour, next_minute, Round, found, continue,
  advance,
}
use spec_powers.Cron.Skips.{
  Between, Jump, next_month-Jump, next_day-Jump, hour-Jump, full_hour-Jump, minute-Jump,
  next_month-same, next_day-same, hour-same, minute-same, full_hour-same, hour-le, minute-le,
}

-- A cron expression matches a minute: month, day, hour and minute all do.
unfoldable pub matches : Schedule → Time → Bool
matches s t =
    bit s.month (t.month - 1) && day_matches s t && bit s.hour t.hour && bit s.minute t.minute

-- A bit is clear from `h` on if it is clear at `h` and above.
clear_from :
    (bits : Bitset) (h i : ℕ)
    → bit bits h ≡ false
    → h ≤ i
    → (suc h ≤ i → bit bits i ≡ false)
    → bit bits i ≡ false
clear_from bits h i b p above = elim (Bool-cases (ltb h i)) [
  | inl e ↦ above (ground arith)
  | inr e ↦ let here : i ≡ h = ground arith in rw here b
]

first_set-some :
    (bits : Bitset) (h k n : ℕ)
    → first_set bits h k ≡ some n
    → (h ≤ n) × (n < h + k) × ((i : ℕ) → h ≤ i → i < n → bit bits i ≡ false)
unfolding first_set
first_set-some bits h zero n e = absurd (ground arith)
first_set-some bits h (suc k) n e = elim (Bool-cases (bit bits h)) [
  | inl b ↦ (ground arith, ground arith, λ i p q. absurd (ground arith))
  | inr b ↦
      let (lo, hi, clear) = first_set-some bits (suc h) k n (ground arith) in
      (omega arith, omega arith, λ i p q. clear_from bits h i b p (λ r. clear i r q))
]

first_set-none :
    (bits : Bitset) (h k : ℕ)
    → first_set bits h k ≡ none
    → (i : ℕ) → h ≤ i
    → i < h + k
    → bit bits i ≡ false
unfolding first_set
first_set-none bits h zero e i p q = absurd (omega arith)
first_set-none bits h (suc k) e i p q = elim (Bool-cases (bit bits h)) [
  | inl b ↦ absurd (ground arith)
  | inr b ↦
      clear_from bits h i b p (λ r. first_set-none bits (suc h) k (ground arith) i r (omega arith))
]

day_matches-same :
    (s : Schedule) (t u : Time)
    → u.year ≡ t.year
    → u.month ≡ t.month
    → u.day ≡ t.day
    → day_matches s u ≡ day_matches s t
unfolding day_matches weekday
day_matches-same s t u y m d = rw (y, m, d) refl

-- One round: it stops at a match, or jumps over minutes that do not match.
pub data Sound (s : Schedule) (t : Time) (r : Round) : Type 0 where
  stops : r ≡ found → matches s t ≡ true → Sound s t r
  skips :
      (t' : Time)
      → r ≡ continue t'
      → Jump t t'
      → ((u : Time) → Between t u t' → matches s u ≡ false)
      → Sound s t r

-- A time with a clear bit does not match.
month_fails : (s : Schedule) (u : Time) → bit s.month (u.month - 1) ≡ false → matches s u ≡ false
unfolding matches
month_fails s u e = rw e

day_fails : (s : Schedule) (u : Time) → day_matches s u ≡ false → matches s u ≡ false
unfolding matches
day_fails s u e = ground arith

hour_fails : (s : Schedule) (u : Time) → bit s.hour u.hour ≡ false → matches s u ≡ false
unfolding matches
hour_fails s u e = ground arith

minute_fails : (s : Schedule) (u : Time) → bit s.minute u.minute ≡ false → matches s u ≡ false
unfolding matches
minute_fails s u e = ground arith

module _ (s : Schedule) (t : Time) (c : IsCivil t) where
  hour_round :
      (o : Option ℕ)
      → first_set s.hour (t.hour + 1) (23 - t.hour) ≡ o
      → bit s.hour t.hour ≡ false
      → Sound s t (continue (next_hour t o))
  unfolding next_hour
  hour_round none e b = skips _ refl (next_day-Jump t c) λ u w.
      let same = next_day-same t c u w in
      let later = hour-le t u w.civil_time w.from same.0 same.1 same.2 in
      hour_fails s u (
        clear_from s.hour t.hour u.hour b later λ r.
          first_set-none s.hour (t.hour + 1) (23 - t.hour) e u.hour (omega arith)
            (omega (arith, c.hour_lt, w.civil_time.hour_lt)))
  hour_round (some h) e b =
      let (lo, hi, clear) = first_set-some s.hour (t.hour + 1) (23 - t.hour) h e in
      skips _ refl (hour-Jump t c h (omega arith) (omega (arith, c.hour_lt))) λ u w.
        let same = hour-same t c u h (omega arith) (omega (arith, c.hour_lt)) w in
        hour_fails s u
          (clear_from s.hour t.hour u.hour b same.3 (λ r. clear u.hour (omega arith) same.4))

  minute_round :
      (o : Option ℕ)
      → first_set s.minute (t.minute + 1) (59 - t.minute) ≡ o
      → bit s.minute t.minute ≡ false
      → Sound s t (continue (next_minute t o))
  unfolding next_minute
  minute_round none e b = skips _ refl (full_hour-Jump t c) λ u w.
      let same = full_hour-same t c u w in
      let later = minute-le t u w.from same.0 same.1 same.2 same.3 in
      minute_fails s u (
        clear_from s.minute t.minute u.minute b later λ r.
          first_set-none s.minute (t.minute + 1) (59 - t.minute) e u.minute (omega arith)
            (omega (arith, c.minute_lt, w.civil_time.minute_lt)))
  minute_round (some m) e b =
      let (lo, hi, clear) = first_set-some s.minute (t.minute + 1) (59 - t.minute) m e in
      skips _ refl (minute-Jump t c m (omega arith) (omega (arith, c.minute_lt))) λ u w.
        let same = minute-same t c u m (omega arith) (omega (arith, c.minute_lt)) w in
        minute_fails s u (
          clear_from s.minute t.minute u.minute b same.4 (λ r. clear u.minute (omega arith) same.5))

  pub advance-Sound : Sound s t (advance s t)
  unfolding advance
  advance-Sound = elim (Bool-cases (bit s.month (t.month - 1))) [
    | inr b ↦ rw b (
        skips _ refl (next_month-Jump t c)
          λ u w. let same = next_month-same t c u w in month_fails s u (rw same.1 b))
    | inl month_ok ↦ rw month_ok (elim (Bool-cases (day_matches s t)) [
      | inr b ↦ rw b (
          skips _ refl (next_day-Jump t c) λ u w.
            let same = next_day-same t c u w in
            day_fails s u (day_matches-same s t u same.0 same.1 same.2 ∙ b))
      | inl day_ok ↦ rw day_ok (elim (Bool-cases (bit s.hour t.hour)) [
        | inr b ↦ rw b (hour_round _ refl b)
        | inl hour_ok ↦ rw hour_ok (elim (Bool-cases (bit s.minute t.minute)) [
          | inr b ↦ rw b (minute_round _ refl b)
          | inl minute_ok ↦
              rw minute_ok
                (stops refl (unfold matches in simp (month_ok, day_ok, hour_ok, minute_ok)))
        ])
      ])
    ])
  ]
