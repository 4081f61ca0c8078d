-- ===== src/Cron/Parse.antt =====
-- cronexpr.go: `Parse`, `parseField` and `setRange`, over the code points of the expression, with the
-- part of `strings` and `strconv` that they call.
use spec_powers.Prelude.{
  ℕ, zero, suc, ◌+◌, ◌-◌, ◌*◌, ◌^◌, Bool, true, false, ◌&&◌, ◌||◌, ltb, leb, ◌==◌, if◌then◌else◌,
  Option, none, some, List, [], ◌∷◌, ◌++◌, set, replicate, any, is_space,
}
use spec_powers.Prelude.Int.{ℤ, pos, negsuc}
use spec_powers.Cron.Schedule.{Bitset, Schedule}

-- A value, `ErrInvalidSpec`, or a run-time panic.
pub data Parsed (A : Type 0) : Type 0 where
  ok : A → Parsed A
  invalid : Parsed A
  panic : Parsed A

infixl 5 ◌>>=◌
abbrev pub ◌>>=◌ : {A B : Type 0} → Parsed A → (A → Parsed B) → Parsed B
ok a >>= f = f a
invalid >>= f = invalid
panic >>= f = panic

-- The largest `int`.
abbrev pub max_int : ℕ
max_int = 2 ^ 63 - 1

abbrev pub is_digit : ℕ → Bool
is_digit c = leb 48 c && leb c 57

-- The digits of `s` after those read in `n`.
digits : ℕ → List ℕ → Option ℕ
digits n [] = some n
digits n (c ∷ s) = if is_digit c then digits (n * 10 + (c - 48)) s else none

unsigned : List ℕ → Option ℕ
unfolding digits
unsigned [] = none
unsigned (c ∷ s) = digits 0 (c ∷ s)

non_negative : Option ℕ → Option ℤ
non_negative none = none
non_negative (some n) = if leb n max_int then some (pos n) else none

negative : Option ℕ → Option ℤ
negative none = none
negative (some zero) = some (pos 0)
negative (some (suc n)) = if leb n max_int then some (negsuc n) else none

-- `strconv.Atoi`: a sign, digits, and a value that fits in 64 bits.
unfoldable pub atoi : List ℕ → Option ℤ
unfolding unsigned non_negative negative
atoi [] = none
atoi (c ∷ s) =
    if c == b'-'
    then negative (unsigned s)
    else if c == b'+'
    then non_negative (unsigned s)
    else non_negative (unsigned (c ∷ s))

-- `strings.Index(s, sep)`, with what stands on either side.
unfoldable pub cut : ℕ → List ℕ → Option (List ℕ × List ℕ)
cut sep [] = none
cut sep (c ∷ s) = elim (c == sep) [
  | true ↦ some ([], s)
  | false ↦ elim (cut sep s) [ none ↦ none | some (l, r) ↦ some (c ∷ l, r) ]
]

-- `strings.Split(s, sep)`.
add_first : ℕ → List (List ℕ) → List (List ℕ)
add_first c [] = (c ∷ []) ∷ []
add_first c (p ∷ ps) = (c ∷ p) ∷ ps

unfoldable pub split : ℕ → List ℕ → List (List ℕ)
unfolding add_first
split sep [] = [] ∷ []
split sep (c ∷ s) = let rest = split sep s in if c == sep then [] ∷ rest else add_first c rest

-- `strings.Fields(s)`: `word` holds the field that is being read, backwards.
end_field : List ℕ → List (List ℕ) → List (List ℕ)
end_field [] rest = rest
end_field (c ∷ word) rest = (c ∷ word) ∷ rest

fields_from : List ℕ → List ℕ → List (List ℕ)
unfolding end_field is_space
fields_from word [] = end_field word []
fields_from word (c ∷ s) = elim (is_space c) [
  | true ↦ end_field word (fields_from [] s)
  | false ↦ fields_from (word ++ c ∷ []) s
]

unfoldable pub fields : List ℕ → List (List ℕ)
unfolding fields_from
fields s = fields_from [] s

-- The `int` that a sum of two non-negative ones is: past `max_int` it wraps.
abbrev pub wrapped : ℕ → ℤ
wrapped n = if leb n max_int then pos n else negsuc (2 ^ 64 - 1 - n)

-- `for v := lo; v <= hi; v += step { out[v-min] = true }`, for 0 ≤ min ≤ lo: a negative `v` is not
-- above `hi`, and its index is out of range. The last sum takes a round of its own, so the rounds are at
-- most hi - lo + 2.
unfoldable pub mark : ℕ → Bitset → ℤ → ℕ → ℕ → ℕ → Parsed Bitset
mark zero out v hi min step = ok out
mark (suc rounds) out (negsuc v) hi min step = panic
mark (suc rounds) out (pos v) hi min step = elim (leb v hi) [
  | false ↦ ok out
  | true ↦ mark rounds (set out (v - min) true) (wrapped (v + step)) hi min step
]

-- The bounds are checked as integers, and are natural numbers from then on.
unfoldable pub mark_range : Bitset → ℤ → ℤ → ℕ → ℕ → ℕ → Parsed Bitset
unfolding mark
mark_range out (pos lo) (pos hi) min max step =
    if ltb lo min || ltb max hi || ltb hi lo
    then invalid
    else mark (suc (suc hi - lo)) out (pos lo) hi min step
mark_range out (negsuc lo) hi min max step = invalid
mark_range out (pos lo) (negsuc hi) min max step = invalid

-- `lo` and `hi` of one part: `"*"`, `"a"` or `"a-b"`.
is_star : List ℕ → Bool
is_star (c ∷ []) = c == b'*'
is_star _ = false

one_value : Option ℤ → Option (ℤ × ℤ)
one_value none = none
one_value (some v) = some (v, v)

two_values : Option ℤ → Option ℤ → Option (ℤ × ℤ)
two_values (some lo) (some hi) = some (lo, hi)
two_values _ _ = none

dashed : List ℕ → Option (List ℕ × List ℕ) → Option (ℤ × ℤ)
unfolding one_value two_values
dashed part none = one_value (atoi part)
dashed part (some ([], r)) = none
dashed part (some (c ∷ l, [])) = none
dashed part (some (c ∷ l, d ∷ r)) = two_values (atoi (c ∷ l)) (atoi (d ∷ r))

unfoldable pub bounds : List ℕ → ℕ → ℕ → Option (ℤ × ℤ)
unfolding is_star dashed
bounds part min max = if is_star part then some (pos min, pos max) else dashed part (cut b'-' part)

unfoldable pub mark_bounds : Bitset → Option (ℤ × ℤ) → ℕ → ℕ → ℕ → Parsed Bitset
unfolding mark_range
mark_bounds out none min max step = invalid
mark_bounds out (some (lo, hi)) min max step = mark_range out lo hi min max step

unfoldable pub set_range : Bitset → List ℕ → ℕ → ℕ → ℕ → Parsed Bitset
unfolding mark_bounds
set_range out part min max step = mark_bounds out (bounds part min max) min max step

-- The text before a slash, and the step after it: 1 if there is none, and at least 1.
step_of : Option ℤ → Option ℕ
step_of (some (pos (suc n))) = some (suc n)
step_of _ = none

slashed : List ℕ → Option (List ℕ × List ℕ) → Option (List ℕ × ℕ)
unfolding step_of
slashed part none = some (part, 1)
slashed part (some (l, r)) = elim (step_of (atoi r)) [ none ↦ none | some n ↦ some (l, n) ]

unfoldable pub range_and_step : List ℕ → Option (List ℕ × ℕ)
unfolding slashed
range_and_step part = slashed part (cut b'/' part)

unfoldable pub set_part : Bitset → Option (List ℕ × ℕ) → ℕ → ℕ → Parsed Bitset
set_part out none min max = invalid
set_part out (some (part, step)) min max = set_range out part min max step

-- The loop over the parts.
unfoldable pub set_parts : Bitset → List (List ℕ) → ℕ → ℕ → Parsed Bitset
unfolding set_part
set_parts out [] min max = ok out
set_parts out (part ∷ parts) min max =
    set_part out (range_and_step part) min max >>= λ out'. set_parts out' parts min max

abbrev some_bit : Bitset → Parsed Bitset
some_bit out = if any (λ b. b) out then ok out else invalid

unfoldable pub parse_field : List ℕ → ℕ → ℕ → Parsed Bitset
unfolding set_parts
parse_field field min max =
    set_parts (replicate (max - min + 1) false) (split b',' field) min max >>= some_bit

unfoldable pub parse_fields : List (List ℕ) → Parsed Schedule
unfolding is_star
parse_fields (mi ∷ h ∷ d ∷ mo ∷ w ∷ []) = do
  minute ← parse_field mi 0 59
  hour ← parse_field h 0 23
  dom ← parse_field d 1 31
  month ← parse_field mo 1 12
  dow ← parse_field w 0 6
  ok (record {
    minute = minute;
    hour = hour;
    dom = dom;
    month = month;
    dow = dow;
    dom_star = is_star d;
    dow_star = is_star w;
  })
parse_fields _ = invalid

unfoldable pub parse : List ℕ → Parsed Schedule
unfolding parse_fields
parse spec = parse_fields (fields spec)
