-- ===== src/Cron/Selection.antt =====
-- cronexpr.go: which values the parts of a field and the field select.
use spec_powers.Prelude.{
  ℕ, suc, ◌+◌, ◌-◌, ◌≤◌, ◌<◌, ◌≡◌, refl, ◌∙◌, ap, Bool, false, ◌||◌, arith, Option, none, some,
  List, [], ◌∷◌, length, any, length-replicate, get_or-replicate, replicate,
}
use spec_powers.Prelude.Int.{ℤ, pos, negsuc}
use spec_powers.Cron.Calendar.{Time, IsCivil, weekday}
use spec_powers.Cron.Calendar.Dates.{days_in-le}
use spec_powers.Cron.Schedule.{Bitset, bit, Schedule}
use spec_powers.Cron.Parse.{
  Parsed, ok, invalid, panic, mark, mark_range, mark_bounds, bounds, set_range, range_and_step,
  set_part, set_parts, parse_field, split, fields, parse_fields, parse, ◌>>=◌,
}
use spec_powers.Cron.Fields.{in_steps, mark_bits}

abbrev value_in : Option (ℤ × ℤ) → ℕ → ℕ → Bool
value_in (some (pos lo, pos hi)) step v = in_steps lo hi step v
value_in _ step v = false

abbrev selects : ℕ → ℕ → ℕ → Option (List ℕ × ℕ) → Bool
selects min max v (some (part, step)) = value_in (bounds part min max) step v
selects min max v none = false

-- Some part of the field names the value: `"*"`, `"a"` or `"a-b"` with its step.
unfoldable pub part_selects : ℕ → ℕ → ℕ → List ℕ → Bool
part_selects min max v part = selects min max v (range_and_step part)

-- A sequence that parses has parsed its first step.
>>=-ok :
    {A B : Type 0} {b : B} (p : Parsed A) (rest : A → Parsed B)
    → p >>= rest ≡ ok b
    → (value : A) × (p ≡ ok value) × (rest value ≡ ok b)
>>=-ok (ok value) rest parsed = (value, refl, parsed)
>>=-ok invalid rest parsed = absurd (ground arith)
>>=-ok panic rest parsed = absurd (ground arith)

or_assoc : (a b c : Bool) → ((a || b) || c) ≡ (a || (b || c))
or_assoc a b c = ground arith

step_pos : (part rest : List ℕ) (step : ℕ) → range_and_step part ≡ some (rest, step) → 1 ≤ step
unfolding range_and_step
step_pos part rest step e = ground arith

module _ (min max : ℕ) where
  mark_range_bits :
      (out out' : Bitset) (lo hi : ℤ) (step : ℕ)
      → mark_range out lo hi min max step ≡ ok out'
      → 1 ≤ step
      → length out ≡ max - min + 1
      → (length out' ≡ length out)
        × ((v : ℕ)
            → min ≤ v
            → bit out' (v - min) ≡ (bit out (v - min) || value_in (some (lo, hi)) step v))
  unfolding mark_range
  mark_range_bits out out' (pos lo) (pos hi) step e p len =
      let in_range : (min ≤ lo)
          × (hi ≤ max)
          × (lo ≤ hi)
          × (mark (suc (suc hi - lo)) out (pos lo) hi min step ≡ ok out') =
        ground arith in
      mark_bits (suc (suc hi - lo)) out out' lo hi min step in_range.3 (omega arith) p in_range.0
        (omega arith)
  mark_range_bits out out' (negsuc lo) hi step e p len = absurd (ground arith)
  mark_range_bits out out' (pos lo) (negsuc hi) step e p len = absurd (ground arith)

  set_part_bits :
      (out out' : Bitset) (o : Option (List ℕ × ℕ))
      → ((part : List ℕ) (step : ℕ) → o ≡ some (part, step) → 1 ≤ step)
      → set_part out o min max ≡ ok out'
      → length out ≡ max - min + 1
      → (length out' ≡ length out)
        × ((v : ℕ) → min ≤ v → bit out' (v - min) ≡ (bit out (v - min) || selects min max v o))
  unfolding set_part set_range
  set_part_bits out out' none pos_step e len = absurd (ground arith)
  set_part_bits out out' (some (part, step)) pos_step e len = go (bounds part min max) e
    where
      go :
          (o : Option (ℤ × ℤ))
          → mark_bounds out o min max step ≡ ok out'
          → (length out' ≡ length out)
            × ((v : ℕ) → min ≤ v → bit out' (v - min) ≡ (bit out (v - min) || value_in o step v))
      go none e = absurd (ground arith)
      go (some (lo, hi)) e = mark_range_bits out out' lo hi step e (pos_step part step refl) len

  set_parts_bits :
      (parts : List (List ℕ)) (out out' : Bitset)
      → set_parts out parts min max ≡ ok out'
      → length out ≡ max - min + 1
      → (length out' ≡ length out)
        × ((v : ℕ)
            → min ≤ v
            → bit out' (v - min) ≡ (bit out (v - min) || any (part_selects min max v) parts))
  unfolding set_parts part_selects
  set_parts_bits [] out out' e len =
      let same : out' ≡ out = ground arith in rw same (refl, λ v m. ground arith)
  set_parts_bits (part ∷ parts) out out' e len =
      let (mid, first, rest) = >>=-ok (set_part out (range_and_step part) min max) _ e in
      let (len1, bits1) = set_part_bits out mid (range_and_step part) (step_pos part) first len in
      let (len2, bits2) = set_parts_bits parts mid out' rest (len1 ∙ len) in
      (
        len2 ∙ len1,
        λ v m.
            bits2 v m
            ∙ ap (λ b. b || any (part_selects min max v) parts) (bits1 v m)
            ∙ or_assoc (bit out (v - min)) (part_selects min max v part)
                (any (part_selects min max v) parts),
      )

  -- A field that parses has a bit for each of its values, and the bit of a value is set exactly if
  -- one of the parts of the field selects the value.
  pub parse_field-selects :
      (field : List ℕ) (out : Bitset)
      → parse_field field min max ≡ ok out
      → (length out ≡ max - min + 1)
        × ((v : ℕ) → min ≤ v → bit out (v - min) ≡ any (part_selects min max v) (split b',' field))
  unfolding parse_field
  parse_field-selects field out e =
      let (mid, marked, kept) =
        >>=-ok (set_parts (replicate (max - min + 1) false) (split b',' field) min max) _ e in
      let same : mid ≡ out = ground arith in
      let (len, bits) = set_parts_bits (split b',' field) _ mid marked (length-replicate _ _) in
      rw (← same) (
        len ∙ length-replicate _ _,
        λ v m.
            bits v m
            ∙ ap (λ b. b || any (part_selects min max v) (split b',' field))
                (get_or-replicate (max - min + 1) (v - min) false),
      )

-- An expression that parses has a bit for every value that a clock can show: 60 minutes, 24 hours,
-- 31 days, 12 months and 7 weekdays, so that `Next` reads no bit past the end.
pub record HasAllBits (s : Schedule) : Type 0 where
  pub minutes : length s.minute ≡ 60
  pub hours : length s.hour ≡ 24
  pub days : length s.dom ≡ 31
  pub months : length s.month ≡ 12
  pub weekdays : length s.dow ≡ 7

field_bits :
    (field : List ℕ) (min max : ℕ) (out : Bitset)
    → parse_field field min max ≡ ok out
    → length out ≡ max - min + 1
field_bits field min max out e = (parse_field-selects min max field out e).0

parse_fields-HasAllBits :
    (fs : List (List ℕ)) (s : Schedule) → parse_fields fs ≡ ok s → HasAllBits s
unfolding parse_fields
parse_fields-HasAllBits (mi ∷ h ∷ d ∷ mo ∷ w ∷ []) s e =
    let (minute, pmi, e1) = >>=-ok (parse_field mi 0 59) _ e in
    let (hour, ph, e2) = >>=-ok (parse_field h 0 23) _ e1 in
    let (dom, pd, e3) = >>=-ok (parse_field d 1 31) _ e2 in
    let (month, pmo, e4) = >>=-ok (parse_field mo 1 12) _ e3 in
    let (dow, pw, e5) = >>=-ok (parse_field w 0 6) _ e4 in
    ground (
      arith,
      field_bits mi 0 59 minute pmi,
      field_bits h 0 23 hour ph,
      field_bits d 1 31 dom pd,
      field_bits mo 1 12 month pmo,
      field_bits w 0 6 dow pw,
    )
parse_fields-HasAllBits _ s e = ground arith

parse-HasAllBits : (spec : List ℕ) (s : Schedule) → parse spec ≡ ok s → HasAllBits s
unfolding parse
parse-HasAllBits spec s e = parse_fields-HasAllBits (fields spec) s e

-- Every bit that `Next` reads at a time of the calendar is there, if the expression was parsed.
pub parse-in_range :
    (spec : List ℕ) (s : Schedule) (t : Time)
    → parse spec ≡ ok s
    → IsCivil t
    → (t.month - 1 < length s.month)
      × (t.day - 1 < length s.dom)
      × (weekday t < length s.dow)
      × (t.hour < length s.hour)
      × (t.minute < length s.minute)
unfolding weekday
parse-in_range spec s t e c = omega (arith, parse-HasAllBits spec s e, days_in-le t.year t.month)
