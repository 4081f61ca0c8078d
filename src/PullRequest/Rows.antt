-- ===== src/PullRequest/Rows.antt =====
-- pr/service.go on the tables: what an upsert of a row does to the states of the rows.
use mathlib.Core.Option.{some-injective}
use spec_powers.Prelude.{
  ℕ, String, ◌≡◌, refl, ap, ◌∙◌, Bool, true, false, none, some, List, [], ◌∷◌, ◌++◌, map, any, find,
  arith, Bool-cases, inl, inr,
}
use spec_powers.Prelude.Int.{ℤ}
use spec_powers.Domain.{Issue, IssueEvent}
use spec_powers.PullRequest.Service.{PullRequest, UpsertInput}
use spec_powers.PullRequest.Postgres.{PullDb, Others, same_pull, refreshed, upsert_pull, fits_pull}

-- Closing issues leaves the pull requests alone.
abbrev pub Aside : Others → Type 0
Aside o =
    ((i : Issue) (d : PullDb) → (o.update_issue i d).1.pulls ≡ d.pulls)
    × ((f : IssueEvent → PullDb → Bool × PullDb)
        → o.events ≡ some f
        → (e : IssueEvent) (d : PullDb) → (f e d).1.pulls ≡ d.pulls)

find-refreshed :
    (a b : String) (n : ℤ) (q p : PullRequest) (rows : List PullRequest)
    → find (same_pull a b n) rows ≡ some p
    → find (same_pull a b n) (map (refreshed q) rows) ≡ some (refreshed q p)
find-refreshed a b n q p [] h = absurd (ground (arith, h))
find-refreshed a b n q p (x ∷ rows) h = elim (Bool-cases (same_pull a b n x)) [
  | inl e ↦
      let same : x ≡ p = some-injective x p (rw e at h) in
      let kept : same_pull a b n (refreshed q x) ≡ true = key_stays x e in
      rw kept (ap (λ y. some (refreshed q y)) same)
  | inr e ↦
      let kept : same_pull a b n (refreshed q x) ≡ false = key_stays x e in
      rw kept (find-refreshed a b n q p rows (rw e at h))
]
  where
    key_stays :
        {r : Bool} (x : PullRequest) → same_pull a b n x ≡ r → same_pull a b n (refreshed q x) ≡ r
    key_stays x e = elim (Bool-cases (same_pull q.project_id q.repo q.number x)) [
      | inl f ↦ rw f e
      | inr f ↦ rw f e
    ]

refreshed-state : (q p : PullRequest) → (refreshed q p).state ≡ p.state
refreshed-state q p = elim (Bool-cases (same_pull q.project_id q.repo q.number p)) [
  | inl f ↦ rw f refl
  | inr f ↦ rw f refl
]

find-append :
    (q : PullRequest → Bool) (rows more : List PullRequest) (x : PullRequest)
    → find q rows ≡ some x
    → find q (rows ++ more) ≡ some x
find-append q [] more x h = absurd (ground (arith, h))
find-append q (y ∷ rows) more x h = elim (Bool-cases (q y)) [
  | inl e ↦ rw e (rw e at h)
  | inr e ↦ rw e (find-append q rows more x (rw e at h))
]

-- The pull request of the number is in the state.
abbrev pub HasState : String → String → ℤ → String → List PullRequest → Type 0
HasState project repo number state rows =
    (p : PullRequest) × (find (same_pull project repo number) rows ≡ some p) × (p.state ≡ state)

-- The row that an upsert proposes.
abbrev pub row_of : String → String → UpsertInput → String → PullRequest
row_of user project u state = record {
  id = "";
  project_id = project;
  repo = u.repo;
  number = u.number;
  title = u.title;
  body = u.body;
  head_branch = u.head_branch;
  state = state;
  merged_at = none;
  created_by = user;
}

pub upsert-HasState :
    (new_id : ℕ → String) (a b s : String) (n : ℤ) (q : PullRequest) (d : PullDb)
    → HasState a b n s d.pulls
    → HasState a b n s (upsert_pull new_id q d).1.pulls
unfolding upsert_pull
upsert-HasState new_id a b s n q d (p, at, state) = elim (Bool-cases (fits_pull q)) [
  | inr e ↦ rw e (p, at, state)
  | inl e ↦ elim (Bool-cases (any (same_pull q.project_id q.repo q.number) d.pulls)) [
    | inl f ↦
        rw (e, f) (refreshed q p, find-refreshed a b n q p d.pulls at, refreshed-state q p ∙ state)
    | inr f ↦ rw (e, f) (p, find-append (same_pull a b n) d.pulls _ p at, state)
  ]
]
