-- ===== src/Cron/Steps.antt =====
-- cronexpr.go: `setRange` on bounds within the field.
use spec_powers.Prelude.{
  ℕ, zero, suc, ◌+◌, ◌-◌, ◌≤◌, ◌<◌, ◌≡◌, refl, inl, inr, true, false, ◌||◌, leb, leb→le, Bool-cases,
  arith, some, List, length, set,
}
use spec_powers.Prelude.Int.{pos}
use spec_powers.Cron.Schedule.{Bitset, bit}
use spec_powers.Cron.Parse.{ok, panic, max_int, mark, mark_range, mark_bounds, bounds, set_range}
use spec_powers.Cron.Fields.{in_steps, mark_bits}

mark_ok :
    (rounds : ℕ) (out : Bitset) (v hi min step : ℕ)
    → hi + step ≤ max_int
    → (out' : Bitset) × (mark rounds out (pos v) hi min step ≡ ok out')
unfolding mark
mark_ok zero out v hi min step fits = (out, refl)
mark_ok (suc rounds) out v hi min step fits = elim (Bool-cases (leb v hi)) [
  | inr past ↦ (out, ground arith)
  | inl inside ↦
      let room : v + step ≤ max_int = omega (arith, leb→le _ _ inside) in
      let (out', e) = mark_ok rounds (set out (v - min) true) (v + step) hi min step fits in
      (out', ground (arith, room, e))
]

module _ (out : Bitset) (part : List ℕ) (min max step lo hi : ℕ)
    (reads : bounds part min max ≡ some (pos lo, pos hi)) (from : min ≤ lo) (upto : hi ≤ max)
    (nonempty : lo ≤ hi) where
  marks : set_range out part min max step ≡ mark (suc (suc hi - lo)) out (pos lo) hi min step
  unfolding set_range mark_bounds mark_range
  marks = rw reads (ground arith)

  -- If the last value plus the step fits in an `int`, the part is accepted and adds just the values
  -- lo, lo + step, … up to hi.
  pub set_range_ok :
      1 ≤ step
      → hi + step ≤ max_int
      → length out ≡ max - min + 1
      → (out' : Bitset) × (set_range out part min max step ≡ ok out')
        × (length out' ≡ length out)
        × ((v : ℕ) → min ≤ v → bit out' (v - min) ≡ (bit out (v - min) || in_steps lo hi step v))
  set_range_ok p fits len =
      let (out', e) = mark_ok (suc (suc hi - lo)) out lo hi min step fits in
      let (same, bits) =
        mark_bits (suc (suc hi - lo)) out out' lo hi min step e (omega arith) p from
          (omega arith) in
      (out', rw marks e, same, bits)

  -- If the first value plus the step passes the largest `int`, the sum wraps to a negative number,
  -- which is not above the last value either, and the write at its index panics, although every bound
  -- of the part is valid. The step is an `int`.
  pub set_range_panics :
      step ≤ max_int → max_int < lo + step → set_range out part min max step ≡ panic
  unfolding mark
  set_range_panics int big =
      let over : leb (lo + step) max_int ≡ false = ground (arith, big) in
      let some_round : suc hi - lo ≡ suc (hi - lo) = omega arith in
      rw (marks, some_round) (ground (arith, over))
