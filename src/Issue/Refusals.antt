-- ===== src/Issue/Refusals.antt =====
-- issue/service.go over store/postgres/issues.go: what the constraints of the table refuse.
use spec_powers.Prelude.{
  ℕ, String, ◌≡◌, ◌≢◌, refl, sym, ap, ◌∙◌, Bool, true, false, ◌&&◌, some, any, str_eq, eq_iff,
  arith, Bool-cases, Option-cases, inl, inr, ◌⊎◌,
}
use spec_powers.Domain.{Issue}
use spec_powers.Api.{
  AppError, Stored, missing, failed, Result, err, Action, writes, err_internal, reads, lift, ◌>>=◌,
  >>=-ends,
}
use spec_powers.Issue.Status.{is_valid_status, transition_in}
use spec_powers.Issue.Access.{UpdateInput, require_project_issue, directory_for}
use spec_powers.Issue.Update.{updated, or_else, check_update, update_issue_for}
use spec_powers.Issue.Transition.{transition_status}
use spec_powers.Issue.Postgres.{
  IssueDb, IssueOthers, has_text, normalize, spelled, fits_table, update_at, update_issue,
  pg_issues,
}

-- An error, and the tables as they were.
abbrev pub Fails : {A : Type 0} → IssueDb → Result A × IssueDb → Type 0
Fails d r = (e : AppError) × (r ≡ (err e, d))

IsRefused : IssueDb → Stored Issue × IssueDb → Type 0
IsRefused d r = (r ≡ (missing, d)) ⊎ (r ≡ (failed, d))

-- A row that breaks a constraint is not written.
update-IsRefused :
    (i : Issue) (d : IssueDb)
    → fits_table d (normalize d i) ≡ false
    → IsRefused d (update_issue i d)
unfolding update_issue update_at IsRefused
update-IsRefused i d h = elim (Option-cases (d.uuid i.id)) [
  | inl e ↦ inr (ground arith)
  | inr (k, e) ↦ elim (Bool-cases (any (λ (x : Issue). str_eq x.id k) d.issues)) [
    | inl f ↦ inr (ground (arith, e, f, h))
    | inr f ↦ inl (ground (arith, e, f))
  ]
]

refused-Fails :
    {A : Type 0} (i : Issue) (x : AppError) (k : Issue → Action IssueDb A) (d : IssueDb)
    → IsRefused d (update_issue i d)
    → Fails d ((writes (update_issue i) x >>= k) d)
unfolding IsRefused
refused-Fails i x k d (inl e) = (x, rw e refl)
refused-Fails i x k d (inr e) = (x, rw e refl)

custom-misfits :
    (i : Issue) (d : IssueDb)
    → is_valid_status i.status ≡ false
    → i.status ≢ ""
    → fits_table d (normalize d i) ≡ false
unfolding fits_table normalize
custom-misfits i d h ne = ground (arith, eq_iff i.status "")

and_false : (a : Bool) → (a && false) ≡ false
and_false true = refl
and_false false = refl

spelled-uuid : (d : IssueDb) (t k : String) → d.uuid t ≡ some k → t ≢ "" → spelled d t ≡ k
spelled-uuid d t k e ne = elim (Bool-cases (str_eq t "")) [
  | inl f ↦ absurd (ne ((eq_iff t "").0 f))
  | inr f ↦ rw (f, e) refl
]

-- A row whose assignee is no user.
unassignable :
    (j : Issue) (d : IssueDb)
    → has_text j.assignee_id d.users ≡ false
    → j.assignee_id ≢ ""
    → fits_table d j ≡ false
unfolding fits_table
unassignable j d foreign ne =
    let set : str_eq j.assignee_id "" ≡ false = ground (arith, eq_iff j.assignee_id "") in
    rw (set, foreign) (and_false _)

assignee-misfits :
    (i : Issue) (d : IssueDb) (k : String)
    → d.uuid i.assignee_id ≡ some k
    → has_text k d.users ≡ false
    → i.assignee_id ≢ ""
    → k ≢ ""
    → fits_table d (normalize d i) ≡ false
unfolding normalize
assignee-misfits i d k e foreign ne ne' =
    let at : (normalize d i).assignee_id ≡ k = spelled-uuid d i.assignee_id k e ne in
    unassignable (normalize d i) d (ap (λ t. has_text t d.users) at ∙ foreign)
      (λ z. ne' (sym at ∙ z))

module _ (new_id : ℕ → String) (o : IssueOthers) (user issue : String) (d : IssueDb) where
  required-state : (require_project_issue (pg_issues new_id o) user issue d).1 ≡ d
  unfolding require_project_issue
  required-state = ground arith

  check-state :
      (fuel : ℕ) (u : UpdateInput) → (check_update (pg_issues new_id o) fuel user issue u d).1 ≡ d
  unfolding check_update
  check-state fuel u = ground arith

  -- On the Postgres tables TransitionStatus to a status that is not one of the seven built-in ones
  -- always ends in an error and changes no table, whatever statuses the directory of the workspace
  -- has and whatever moves it allows.
  pub transition-custom_never :
      (to : String)
      → is_valid_status to ≡ false
      → to ≢ ""
      → Fails d (transition_status (pg_issues new_id o) user issue to d)
  unfolding transition_status
  transition-custom_never to custom ne =
      >>=-ends (Fails d) (require_project_issue (pg_issues new_id o) user issue) _ d required-state
        (λ e. (e, refl))
        (λ c _.
          >>=-ends (Fails d) (reads (directory_for (pg_issues new_id o) c.project_id)) _ d refl
            (λ e. (e, refl))
            (λ dir _.
              >>=-ends (Fails d) (lift (transition_in dir c.status to)) _ d refl (λ e. (e, refl))
                (λ t _.
                  refused-Fails (record c { status = to }) (err_internal "update issue failed") _ d
                    (update-IsRefused (record c { status = to }) d
                      (custom-misfits (record c { status = to }) d custom ne)))))

  -- On the Postgres tables an UpdateIssue that names an assignee who is not a user, such as a squad,
  -- always ends in an error and changes no table, although UpdateIssue lets the ids of squads through.
  -- The assignee is a uuid in any spelling.
  pub update-foreign_never :
      (fuel : ℕ) (u : UpdateInput) (a k : String)
      → u.assignee_id ≡ some a
      → d.uuid a ≡ some k
      → has_text k d.users ≡ false
      → a ≢ ""
      → k ≢ ""
      → Fails d (update_issue_for (pg_issues new_id o) fuel user issue u d)
  unfolding update_issue_for
  update-foreign_never fuel u a k given_a reads_a foreign ne ne' =
      >>=-ends (Fails d) (check_update (pg_issues new_id o) fuel user issue u) _ d
        (check-state fuel u) (λ e. (e, refl))
        (λ c _.
          let to : (updated c u).assignee_id ≡ a = ap (λ x. or_else x c.assignee_id) given_a in
          refused-Fails (updated c u) (err_internal "update issue failed") _ d (
            update-IsRefused (updated c u) d (
              assignee-misfits (updated c u) d k (ap d.uuid to ∙ reads_a) foreign
                (λ z. ne (sym to ∙ z)) ne')))
