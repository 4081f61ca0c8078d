-- ===== src/Api.antt =====
-- backend/internal/httpapi/router.go: the errors of the API; and what a service method is: a function
-- of the state behind the stores, which returns a value or an API error and the new state. A request
-- runs alone: no other request writes between its reads.
use spec_powers.Prelude.{
  ℕ, String, Bool, true, false, Option, none, some, ◌≡◌, refl, sym, ap, subst, ◌∙◌, arith,
}

pub record AppError : Type 0 where
  pub status : ℕ
  pub code : String
  pub message : String

abbrev pub err_invalid : String → AppError
err_invalid msg = record { status = 400; code = "invalid_request"; message = msg }

abbrev pub err_forbidden : String → AppError
err_forbidden msg = record { status = 403; code = "forbidden"; message = msg }

abbrev pub err_not_found : String → AppError
err_not_found msg = record { status = 404; code = "not_found"; message = msg }

abbrev pub err_conflict : String → AppError
err_conflict msg = record { status = 409; code = "conflict"; message = msg }

abbrev pub err_internal : String → AppError
err_internal msg = record { status = 500; code = "internal"; message = msg }

-- How httpapi.Recover answers a panic.
abbrev pub recovered : AppError
recovered = err_internal "internal server error"

pub data Result (A : Type 0) : Type 0 where
  ok : A → Result A
  err : AppError → Result A

-- What a store returns: a row, `store.ErrNotFound`, or another error.
pub data Stored (A : Type 0) : Type 0 where
  found : A → Stored A
  missing : Stored A
  failed : Stored A

-- `if err == store.ErrNotFound { … } if err != nil { … }`.
abbrev pub checked : {A : Type 0} → Stored A → AppError → AppError → Result A
checked (found a) absent broken = ok a
checked missing absent broken = err absent
checked failed absent broken = err broken

-- `if err != nil { return err_internal(…) }`, whatever the error is.
abbrev pub required : {A : Type 0} → Stored A → AppError → Result A
required (found a) broken = ok a
required missing broken = err broken
required failed broken = err broken

-- `if !done { return e }` after a call that reports its success.
abbrev pub succeeds : Bool → AppError → Result (Unit {0})
succeeds true e = ok tt
succeeds false e = err e

abbrev pub Action : Type 0 → Type 0 → Type 0
Action S A = S → Result A × S

module _ {S : Type 0} where
  abbrev pub pure : {A : Type 0} → A → Action S A
  pure a s = (ok a, s)

  abbrev pub fail : {A : Type 0} → AppError → Action S A
  fail e s = (err e, s)

  abbrev pub lift : {A : Type 0} → Result A → Action S A
  lift r s = (r, s)

  -- A read of the state.
  abbrev pub gets : {A : Type 0} → (S → A) → Action S A
  gets f s = (ok (f s), s)

  abbrev pub reads : {A : Type 0} → (S → Result A) → Action S A
  reads f s = (f s, s)

  -- A write, whose failures are reported by one error.
  abbrev pub writes : {A : Type 0} → (S → Stored A × S) → AppError → Action S A
  writes f e s = let (r, s') = f s in (required r e, s')

  abbrev pub continue : {A B : Type 0} → Result A → (A → Action S B) → Action S B
  continue (ok a) f s = f a s
  continue (err e) f s = (err e, s)

  infixl 5 ◌>>=◌ ◌>>◌
  abbrev pub ◌>>=◌ : {A B : Type 0} → Action S A → (A → Action S B) → Action S B
  ◌>>=◌ m f s = let (r, s') = m s in continue r f s'

  abbrev pub ◌>>◌ : {A B : Type 0} → Action S A → Action S B → Action S B
  m >> n = m >>= λ _. n

  -- `if !b { return e }`.
  abbrev pub guard : Bool → AppError → Action S (Unit {0})
  guard true e s = (ok tt, s)
  guard false e s = (err e, s)

  -- A write that tells `store.ErrNotFound` apart.
  abbrev pub tries : {A : Type 0} → (S → Stored A × S) → AppError → AppError → Action S A
  tries f absent broken s = let (r, s') = f s in (checked r absent broken, s')

  abbrev pub calls : (S → Bool × S) → AppError → Action S (Unit {0})
  calls f e s = let (done, s') = f s in (succeeds done e, s')

  -- A call whose failure is only logged.
  abbrev pub does : (S → S) → Action S (Unit {0})
  does f s = (ok tt, f s)

  abbrev pub whenever : Bool → Action S (Unit {0}) → Action S (Unit {0})
  whenever true m = m
  whenever false m = pure tt

  -- `if c != nil { … }` for a collaborator that may be nil.
  abbrev pub given : {C : Type 0} → Option C → (C → Action S (Unit {0})) → Action S (Unit {0})
  given none f = pure tt
  given (some c) f = f c

-- A list read whose failure is an internal error.
abbrev pub listed : {A : Type 0} → Option A → String → Result A
listed none msg = err (err_internal msg)
listed (some l) msg = ok l

-- What both steps of a sequence leave alone, the sequence leaves alone.
module _ {S A B C : Type 0} (f : S → C) where
  continue-keeps :
      (r : Result A) (k : A → Action S B)
      → ((a : A) (s : S) → f (k a s).1 ≡ f s)
      → (s : S) → f (continue r k s).1 ≡ f s
  continue-keeps (ok a) k h s = h a s
  continue-keeps (err e) k h s = refl

  pub >>=-keeps :
      (m : Action S A) (k : A → Action S B)
      → ((s : S) → f (m s).1 ≡ f s)
      → ((a : A) (s : S) → f (k a s).1 ≡ f s)
      → (s : S) → f ((m >>= k) s).1 ≡ f s
  >>=-keeps m k hm hk s = continue-keeps (m s).0 k hk (m s).1 ∙ hm s

-- A sequence that succeeds got a value from its first step.
pub >>=-value :
    {S A B : Type 0} (m : Action S A) (k : A → Action S B) (s : S) (b : B)
    → ((m >>= k) s).0 ≡ ok b
    → (a : A) × ((k a (m s).1).0 ≡ ok b)
>>=-value {S} {A} {B} m k s b h = value (m s).0 (m s).1 h
  where
    value : (r : Result A) (s' : S) → (continue r k s').0 ≡ ok b → (a : A) × ((k a s').0 ≡ ok b)
    value (ok a) s' h = (a, h)
    value (err e) s' h = absurd (ground arith)

-- And that value, with the state of the first step, is what the second step goes on from.
pub >>=-splits :
    {S A B : Type 0} (m : Action S A) (k : A → Action S B) (s : S) (b : B)
    → ((m >>= k) s).0 ≡ ok b
    → (a : A) × ((m s).0 ≡ ok a) × ((k a (m s).1).0 ≡ ok b) × (((m >>= k) s).1 ≡ (k a (m s).1).1)
>>=-splits {S} {A} {B} m k s b h = splits (m s).0 (m s).1 h
  where
    splits :
        (r : Result A) (s' : S)
        → (continue r k s').0 ≡ ok b
        → (a : A) × (r ≡ ok a) × ((k a s').0 ≡ ok b) × ((continue r k s').1 ≡ (k a s').1)
    splits (ok a) s' h' = (a, refl, h', refl)
    splits (err e) s' h' = absurd (ground arith)

-- A step that only reads, and one whose successors only read.
pub >>=-reads :
    {S A B : Type 0} (I : S → Type 0) (m : Action S A) (k : A → Action S B) (s : S)
    → (m s).1 ≡ s
    → I s
    → ((a : A) → (m s).0 ≡ ok a → I (k a s).1)
    → I ((m >>= k) s).1
>>=-reads {S} {A} {B} I m k s stays i h = elim_read (m s).0 (m s).1 stays h
  where
    elim_read :
        (r : Result A) (s' : S)
        → s' ≡ s
        → ((a : A) → r ≡ ok a → I (k a s).1)
        → I (continue r k s').1
    elim_read (ok a) s' e h' = subst (λ x. I (k a x).1) (sym e) (h' a refl)
    elim_read (err x) s' e h' = subst I (sym e) i

pub >>=-after :
    {S A B : Type 0} (I : S → Type 0) (m : Action S A) (k : A → Action S B) (s : S)
    → ((a : A) (x : S) → (k a x).1 ≡ x)
    → I (m s).1
    → I ((m >>= k) s).1
>>=-after {S} {A} {B} I m k s stays i = elim_after (m s).0 (m s).1 i
  where
    elim_after : (r : Result A) (s' : S) → I s' → I (continue r k s').1
    elim_after (ok a) s' i' = subst I (sym (stays a s')) i'
    elim_after (err x) s' i' = i'

-- A step whose outcome is known.
pub >>=-ok :
    {S A B : Type 0} (m : Action S A) (k : A → Action S B) (s s' : S) (a : A)
    → m s ≡ (ok a, s')
    → (m >>= k) s ≡ k a s'
>>=-ok m k s s' a e = ap (λ p. continue p.0 k p.1) e

-- A step that only reads, for what holds of an outcome and its state.
pub >>=-ends :
    {S A B : Type 0} (J : Result B × S → Type 0) (m : Action S A) (k : A → Action S B) (s : S)
    → (m s).1 ≡ s
    → ((e : AppError) → J (err e, s))
    → ((a : A) → (m s).0 ≡ ok a → J (k a s))
    → J ((m >>= k) s)
>>=-ends {S} {A} {B} J m k s stays fails h = ends (m s).0 (m s).1 stays h
  where
    ends : (r : Result A) (s' : S) → s' ≡ s → ((a : A) → r ≡ ok a → J (k a s)) → J (continue r k s')
    ends (ok a) s' e h' = subst (λ x. J (k a x)) (sym e) (h' a refl)
    ends (err x) s' e h' = subst (λ y. J (err x, y)) (sym e) (fails x)

-- What the first step brings about and the second preserves.
pub >>=-holds :
    {S A B : Type 0} (I : S → Type 0) (m : Action S A) (k : A → Action S B) (s : S)
    → I (m s).1
    → ((a : A) (x : S) → I x → I (k a x).1)
    → I ((m >>= k) s).1
>>=-holds {S} {A} {B} I m k s i h = holds (m s).0 (m s).1 i
  where
    holds : (r : Result A) (s' : S) → I s' → I (continue r k s').1
    holds (ok a) s' i' = h a s' i'
    holds (err x) s' i' = i'
