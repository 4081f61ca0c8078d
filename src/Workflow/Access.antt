-- ===== src/Workflow/Access.antt =====
-- workflow/service.go: who may touch a change, and the reads behind that check.
use spec_powers.Prelude.{
  ℕ, String, Bool, false, not, ◌&&◌, Option, none, some, List, str_eq, concat, if◌then◌else◌,
}
use spec_powers.Domain.{Change, Artifact, TaskMapping}
use spec_powers.Api.{
  err_invalid, err_forbidden, err_not_found, err_internal, Result, ok, err, checked, Action, reads,
  pure, ◌>>=◌, ◌>>◌, guard, listed,
}
use spec_powers.Workflow.Phases.{is_valid_kind, kind_verify}
use spec_powers.Workflow.Stores.{Stores}

module _ (st : Stores) where
  open st use {
    State, get_change, get_change_by_issue, get_artifact, list_artifacts, list_artifact_versions,
    list_task_mappings, get_issue, get_project, get_project_member, agent_access,
  }

  abbrev pub is_agent : Option (String → State → Bool) → String → State → Bool
  is_agent none user s = false
  is_agent (some access) user s = access user s

  unfoldable pub require_project_role : String → String → State → Result (Unit {0})
  require_project_role user project s =
      if is_agent agent_access user s
      then ok tt
      else elim (checked (get_project project s) (err_not_found "project not found")
          (err_internal "get project failed")) [
            | err e ↦ err e
            | ok _ ↦
                elim (checked (get_project_member project user s)
                  (err_forbidden "not a project member")
                  (err_internal "get project member failed")) [ err e ↦ err e | ok _ ↦ ok tt ]
          ]

  unfoldable pub require_change_role : String → String → Action State Change
  require_change_role user change = do
    c ← reads (λ s.
        checked (get_change change s) (err_not_found "change not found")
          (err_internal "get change failed"))
    reads (require_project_role user c.project_id)
    pure c

  unfoldable pub get_change_by_issue_for : String → String → Action State Change
  unfolding require_project_role
  get_change_by_issue_for user issue = do
    i ← reads (λ s.
        checked (get_issue issue s) (err_not_found "issue not found")
          (err_internal "get issue failed"))
    reads (require_project_role user i.project_id)
    reads (λ s.
        checked (get_change_by_issue issue s) (err_not_found "change not found")
          (err_internal "get change failed"))

  unfoldable pub list_artifacts_for : String → String → Action State (List Artifact)
  list_artifacts_for user change = do
    require_change_role user change
    reads (λ s. listed (list_artifacts change s) "list artifacts failed")

  unfoldable pub get_artifact_for : String → String → String → ℕ → Action State Artifact
  unfolding is_valid_kind
  get_artifact_for user change kind version = do
    guard (not (not (is_valid_kind kind) && not (str_eq kind kind_verify)))
        (err_invalid (concat "unknown artifact kind: " kind))
    require_change_role user change
    reads (λ s.
        checked (get_artifact change kind version s) (err_not_found "artifact not found")
          (err_internal "get artifact failed"))

  unfoldable pub list_artifact_versions_for :
      String → String → String → Action State (List Artifact)
  unfolding is_valid_kind
  list_artifact_versions_for user change kind = do
    guard (is_valid_kind kind) (err_invalid (concat "unknown artifact kind: " kind))
    require_change_role user change
    reads (λ s. listed (list_artifact_versions change kind s) "list artifact versions failed")

  unfoldable pub list_task_mappings_for : String → String → Action State (List TaskMapping)
  list_task_mappings_for user change = do
    require_change_role user change
    reads (λ s. listed (list_task_mappings change s) "list task mappings failed")
