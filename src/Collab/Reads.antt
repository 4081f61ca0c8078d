-- ===== src/Collab/Reads.antt =====
-- collab/service.go: the access check changes nothing.
use spec_powers.Prelude.{ℕ, String, ◌≡◌, refl, Bool, true, false, List}
use spec_powers.Domain.{Issue}
use spec_powers.Api.{
  err_not_found, err_internal, err_forbidden, checked, guard, reads, pure, ◌>>◌, >>=-keeps,
}
use spec_powers.Collab.Stores.{IssueMetadata, require_project_issue, is_any_role}
use spec_powers.Collab.Postgres.{CollabDb, Others, pg_collab}

module _ (new_id : ℕ → String) (ordered : List IssueMetadata → List IssueMetadata)
    (o : Others) where
  pub project_issue-reads :
      (user issue : String) (d : CollabDb)
      → (require_project_issue (pg_collab new_id ordered o) user issue d).1 ≡ d
  unfolding require_project_issue
  project_issue-reads user issue d =
      >>=-keeps (λ (x : CollabDb). x)
        (reads (λ s.
          checked (o.issue issue s) (err_not_found "issue not found")
            (err_internal "get issue failed")))
        _ (λ x. refl)
        (λ i x.
          >>=-keeps (λ (y : CollabDb). y)
            (reads (λ s.
              checked (o.project i.project_id s) (err_not_found "project not found")
                (err_internal "get project failed")))
            _ (λ y. refl)
            (λ _ y.
              >>=-keeps (λ (z : CollabDb). z)
                (reads (λ s.
                  checked (o.member i.project_id user s) (err_forbidden "not a project member")
                    (err_internal "get project member failed")))
                (λ pm. guard (is_any_role pm.role) (err_forbidden "not a project member") >> pure i)
                (λ z. refl) (λ pm z. any_role-reads (is_any_role pm.role) i z) y)
            x)
        d
    where
      any_role-reads :
          (b : Bool) (i : Issue) (z : CollabDb)
          → ((guard b (err_forbidden "not a project member") >> pure i) z).1 ≡ z
      any_role-reads true i z = refl
      any_role-reads false i z = refl
