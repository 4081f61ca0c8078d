-- ===== src/Issue/Forest.antt =====
-- issue/service.go: the tree of issues under `UpdateIssue`, on the tables of store/postgres/issues.go.
use spec_powers.Prelude.{
  ℕ, zero, suc, ◌≤◌, String, ◌≡◌, ◌≢◌, refl, ap, ◌∙◌, false, str_eq, eq_iff, arith, Bool-cases, inl,
  inr, ◌⊎◌,
}
use spec_powers.Domain.{Issue}
use spec_powers.Api.{Stored, found, missing, failed, ok, err}
use spec_powers.Issue.Tree.{no_answer, climb, climb_from, validate_new_parent}

-- `n` steps up the parents at most lead to an issue without a parent.
abbrev pub Rooted : (String → Stored Issue) → ℕ → Issue → Type 0
Rooted get zero i = i.parent_id ≡ ""
Rooted get (suc n) i =
    (i.parent_id ≡ "") ⊎ ((p : Issue) × (get i.parent_id ≡ found p) × Rooted get n p)

pub Stored-cases :
    {A : Type 0} (r : Stored A) → ((a : A) × (r ≡ found a)) ⊎ (r ≡ missing) ⊎ (r ≡ failed)
Stored-cases (found a) = inl (a, refl)
Stored-cases missing = inr (inl refl)
Stored-cases failed = inr (inr refl)

-- The walk ends: it takes one round more than there are steps to the root.
pub climb-ends :
    (n : ℕ) (get : String → Stored Issue) (current : String) (a : Issue)
    → Rooted get n a
    → climb (suc n) get current a ≢ err no_answer
unfolding climb
climb-ends zero get current a h e = ground (arith, eq_iff a.parent_id "")
climb-ends (suc n) get current a (inl h) e = ground (arith, eq_iff a.parent_id "")
climb-ends (suc n) get current a (inr (p, g, r)) e = ground (arith, climb-ends n get current p r)

module _ (get get' : String → Stored Issue) (current : String)
    (same : (id : String) → str_eq id current ≡ false → get' id ≡ get id) where
  -- A walk that was let through is a way to a root past the issue that moves.
  pub climb-Rooted : (fuel : ℕ) (a : Issue) → climb fuel get current a ≡ ok tt → Rooted get' fuel a
  unfolding climb
  climb-Rooted zero a h = absurd (ground arith)
  climb-Rooted (suc fuel) a h = elim (Bool-cases (str_eq a.parent_id "")) [
    | inl t ↦ inl ((eq_iff a.parent_id "").0 t)
    | inr t ↦ elim (Bool-cases (str_eq a.parent_id current)) [
      | inl u ↦ absurd (ground arith)
      | inr u ↦ elim (Stored-cases (get a.parent_id)) [
        | inl (p, g) ↦ inr (p, same a.parent_id u ∙ g, climb-Rooted fuel p (ground arith))
        | inr (inl g) ↦ absurd (ground arith)
        | inr (inr g) ↦ absurd (ground arith)
      ]
    ]
  ]

  -- The other issues keep a way to a root, perhaps by the moved one.
  pub Rooted-moves :
      (moved : Issue) (m : ℕ)
      → get' current ≡ found moved
      → Rooted get' m moved
      → (n : ℕ) (i : Issue) → Rooted get n i
      → (k : ℕ) × Rooted get' k i
  Rooted-moves moved m g r zero i h = (zero, h)
  Rooted-moves moved m g r (suc n) i (inl h) = (zero, h)
  Rooted-moves moved m g r (suc n) i (inr (p, gp, rp)) =
      elim (Bool-cases (str_eq i.parent_id current)) [
        | inl e ↦ (suc m, inr (moved, ap get' ((eq_iff i.parent_id current).0 e) ∙ g, r))
        | inr e ↦
            let (k, rk) = Rooted-moves moved m g r n p rp in
            (suc k, inr (p, same i.parent_id e ∙ gp, rk))
      ]

-- Where no parent changes, the ways stay.
pub Rooted-stays :
    (get get' : String → Stored Issue)
    → ((id : String) (i : Issue)
        → get id ≡ found i
        → (i' : Issue) × (get' id ≡ found i') × (i'.parent_id ≡ i.parent_id))
    → (n : ℕ) (i i' : Issue) → i'.parent_id ≡ i.parent_id
    → Rooted get n i
    → Rooted get' n i'
Rooted-stays get get' keeps zero i i' e h = e ∙ h
Rooted-stays get get' keeps (suc n) i i' e (inl h) = inl (e ∙ h)
Rooted-stays get get' keeps (suc n) i i' e (inr (p, g, r)) =
    let (p', g', e') = keeps i.parent_id p g in
    inr (p', ap get' e ∙ g', Rooted-stays get get' keeps n p p' e' r)

Rooted-more :
    (get : String → Stored Issue) (n k : ℕ) (i : Issue) → n ≤ k → Rooted get n i → Rooted get k i
Rooted-more get zero zero i le h = h
Rooted-more get zero (suc k) i le h = inl h
Rooted-more get (suc n) zero i le h = absurd (omega arith)
Rooted-more get (suc n) (suc k) i le (inl h) = inl h
Rooted-more get (suc n) (suc k) i le (inr (p, g, r)) =
    inr (p, g, Rooted-more get n k p (omega arith) r)

-- The walk of validateNewParent ends: where every issue has a way up to a root, there is a number of
-- rounds with which, and with any larger number, it gives its answer.
pub validate_new_parent-answers :
    (get : String → Stored Issue)
    → ((id : String) (i : Issue) → get id ≡ found i → (n : ℕ) × Rooted get n i)
    → (current : Issue) (parent_id : String)
    → (rounds : ℕ) × ((fuel : ℕ)
        → rounds ≤ fuel
        → validate_new_parent fuel get current parent_id ≢ err no_answer)
unfolding validate_new_parent climb_from
validate_new_parent-answers get forest current parent_id = elim (Stored-cases (get parent_id)) [
  | inl (q, g) ↦ let (n, r) = forest parent_id q g in (suc n, λ fuel le. answers q g n r fuel le)
  | inr (inl g) ↦ (0, λ fuel le e. ground arith)
  | inr (inr g) ↦ (0, λ fuel le e. ground arith)
]
  where
    answers :
        (q : Issue)
        → get parent_id ≡ found q
        → (n : ℕ) → Rooted get n q
        → (fuel : ℕ) → suc n ≤ fuel
        → validate_new_parent fuel get current parent_id ≢ err no_answer
    answers q g n r zero le e = absurd (omega arith)
    answers q g n r (suc k) le e =
        ground (arith, climb-ends k get current.id q (Rooted-more get n k q (omega arith) r))
