-- ===== src/Issue/Directory.antt =====
-- issue/service.go: the operations on the status directory of a workspace.
use spec_powers.Prelude.{String, not, Option, none, some, List, length, is_blank, concat}
use spec_powers.Prelude.Int.{ℤ}
use spec_powers.Domain.{Project, WorkspaceStatus}
use spec_powers.Api.{
  err_invalid, err_not_found, err_internal, Result, ok, err, checked, listed, Action, reads, calls,
  tries, pure, guard, lift, ◌>>=◌, ◌>>◌,
}
use spec_powers.Issue.Status.{is_valid_status_category}
use spec_powers.Issue.Stores.{IssueStores, StatusStore}
use spec_powers.Issue.Access.{require_project_role, directory_for}

pub record StatusInput : Type 0 where
  pub name : String
  pub category : String
  pub position : Option ℤ

abbrev pub configured : {S : Type 0} → Option (StatusStore S) → Result (StatusStore S)
configured none = err (err_internal "status directory not configured")
configured (some store) = ok store

module _ (st : IssueStores) where
  open st use {State, get_project, statuses}

  abbrev pub project_of : String → State → Result Project
  project_of project s =
      checked (get_project project s) (err_not_found "project not found")
        (err_internal "get project failed")

  abbrev pub directory_of : StatusStore State → String → State → Result (List WorkspaceStatus)
  directory_of store workspace s = listed (store.list workspace s) "list workspace statuses failed"

  unfoldable pub list_statuses : String → String → Action State (List WorkspaceStatus)
  list_statuses user project = do
    reads (require_project_role st user project "member")
    reads (directory_for st project)

  -- A new entry without a position comes last.
  unfoldable pub entry_position : StatusStore State → String → Option ℤ → Action State ℤ
  entry_position store workspace (some p) = pure p
  entry_position store workspace none = do
    dir ← reads (directory_of store workspace)
    pure (ℤ.pos (length dir))

  unfoldable pub upsert_status : String → String → StatusInput → Action State (List WorkspaceStatus)
  unfolding is_blank entry_position
  upsert_status user project u = do
    reads (require_project_role st user project "owner")
    guard (not (is_blank u.name)) (err_invalid "status name is required")
    guard (is_valid_status_category u.category)
        (err_invalid (concat "unknown status category: " u.category))
    store ← lift (configured statuses)
    p ← reads (project_of project)
    place ← entry_position store p.workspace_id u.position
    calls
        (store.upsert (record {
          workspace_id = p.workspace_id;
          name = u.name;
          category = u.category;
          position = place;
        }))
        (err_internal "upsert workspace status failed")
    reads (directory_of store p.workspace_id)

  unfoldable pub delete_status : String → String → String → Action State (List WorkspaceStatus)
  delete_status user project name = do
    reads (require_project_role st user project "owner")
    store ← lift (configured statuses)
    p ← reads (project_of project)
    tries (store.delete p.workspace_id name) (err_not_found "status not found")
        (err_internal "delete workspace status failed")
    reads (directory_of store p.workspace_id)
