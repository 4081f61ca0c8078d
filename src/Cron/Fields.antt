-- ===== src/Cron/Fields.antt =====
-- What a parsed field selects: the values that one of its parts names.
use native.Mathlib.Nat.{mod-eq_of_lt, mod-eq-sub-mod}
use spec_powers.Prelude.{
  ℕ, zero, suc, ◌+◌, ◌-◌, ◌%◌, ◌≤◌, ◌<◌, ◌≡◌, ◌≢◌, refl, ◌∙◌, ap, subst, ◌^◌, inl, inr, Bool, true,
  false, ◌&&◌, ◌||◌, leb, ◌==◌, Bool-cases, arith, leb→le, leb→lt, set, length, length-set,
  get_or-set_self, get_or-set_ne,
}
use spec_powers.Prelude.Int.{pos, negsuc}
use spec_powers.Cron.Schedule.{Bitset, bit}
use spec_powers.Cron.Parse.{ok, mark, wrapped, max_int}

-- `w` is one of lo, lo + step, lo + 2 step, … up to hi.
unfoldable pub in_steps : ℕ → ℕ → ℕ → ℕ → Bool
in_steps lo hi step w = leb lo w && leb w hi && ((w - lo) % step == 0)

below_step : (lo step w : ℕ) → w < lo + step → 1 ≤ step → (w - lo) % step ≡ w - lo
below_step lo step w near q = mod-eq_of_lt (omega arith)

in_steps-suc :
    (lo hi step w : ℕ)
    → lo ≤ hi
    → 1 ≤ step
    → in_steps lo hi step w ≡ ((w == lo) || in_steps (lo + step) hi step w)
unfolding in_steps
in_steps-suc lo hi step w p q = elim (Bool-cases (leb (lo + step) w)) [
  | inl e ↦
      let far : lo + step ≤ w = leb→le _ _ e in
      let same : (w - lo) % step ≡ (w - (lo + step)) % step =
        mod-eq-sub-mod (omega arith) ∙ ap (λ (n : ℕ). n % step) (omega arith) in
      ground (arith, same)
  | inr e ↦ let near : w < lo + step = leb→lt _ _ e in ground (arith, below_step lo step w near q)
]

in_steps_past : (lo hi step w : ℕ) → hi < lo → in_steps lo hi step w ≡ false
unfolding in_steps
in_steps_past lo hi step w p = ground arith

bit-set :
    (out : Bitset) (i j : ℕ) → i < length out → bit (set out i true) j ≡ ((j == i) || bit out j)
bit-set out i j p = elim (Bool-cases (j == i)) [
  | inl e ↦ let same : j ≡ i = ground arith in rw e (rw same (get_or-set_self out i true false p))
  | inr e ↦ rw e (get_or-set_ne out i j true false (λ same. ground arith))
]

negative-panics :
    (rounds v hi min step : ℕ) (out out' : Bitset)
    → 1 ≤ rounds
    → mark rounds out (negsuc v) hi min step ≢ ok out'
unfolding mark
negative-panics zero v hi min step out out' some_left e = omega arith
negative-panics (suc rounds) v hi min step out out' some_left e = ground arith

stays : (n : ℕ) → leb n max_int ≡ true → wrapped n ≡ pos n
stays n h = rw h refl

wraps : (n : ℕ) → leb n max_int ≡ false → wrapped n ≡ negsuc (2 ^ 64 - 1 - n)
wraps n h = rw h refl

-- A run of the marking loop that ends without a panic sets just the values in steps.
pub mark_bits :
    (rounds : ℕ) (out out' : Bitset) (v hi min step : ℕ)
    → mark rounds out (pos v) hi min step ≡ ok out'
    → suc hi < v + rounds
    → 1 ≤ step
    → min ≤ v
    → hi - min < length out
    → (length out' ≡ length out)
      × ((w : ℕ) → min ≤ w → bit out' (w - min) ≡ (bit out (w - min) || in_steps v hi step w))
unfolding mark
mark_bits zero out out' v hi min step e enough p q room =
    let same : out' ≡ out = ground arith in
    rw same (refl, λ w m. ground (arith, in_steps_past v hi step w (omega arith)))
mark_bits (suc rounds) out out' v hi min step e enough p q room = elim (Bool-cases (leb v hi)) [
  | inr past ↦
      let same : out' ≡ out = ground arith in
      rw same (refl, λ w m. ground (arith, in_steps_past v hi step w (leb→lt _ _ past)))
  | inl inside ↦
      let v_le : v ≤ hi = leb→le _ _ inside in
      let here : v - min < length out = omega arith in
      let after : mark rounds (set out (v - min) true) (wrapped (v + step)) hi min step ≡ ok out' =
        rw (inside, mark) at e in
      elim (Bool-cases (leb (v + step) max_int)) [
        | inr over ↦ absurd (
            negative-panics rounds _ hi min step (set out (v - min) true) out' (omega arith) (
              subst (λ x. mark rounds (set out (v - min) true) x hi min step ≡ ok out')
                (wraps (v + step) over) after))
        | inl fits ↦
            let (len, bits) =
              mark_bits rounds (set out (v - min) true) out' (v + step) hi min step
                (subst (λ x. mark rounds (set out (v - min) true) x hi min step ≡ ok out')
                  (stays (v + step) fits) after)
                (omega arith) p (omega arith) (omega (arith, length-set {0} out (v - min) true)) in
            (
              len ∙ length-set out (v - min) true,
              λ w m. ground (
                arith,
                bits w m,
                bit-set out (v - min) (w - min) here,
                in_steps-suc v hi step w v_le p,
                in_steps v hi step w,
                in_steps (v + step) hi step w,
              ),
            )
      ]
]
