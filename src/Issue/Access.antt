-- ===== src/Issue/Access.antt =====
-- issue/service.go: who may touch an issue, the directory of a project, and the checks of assignees.
use spec_powers.Prelude.{
  ℕ, String, Bool, true, false, not, ◌&&◌, Option, none, some, List, str_eq, concat, if◌then◌else◌,
}
use spec_powers.Prelude.Int.{ℤ}
use spec_powers.Domain.{Project, ProjectMember, Issue, WorkspaceStatus, Squad}
use spec_powers.Api.{
  err_invalid, err_forbidden, err_not_found, err_internal, Stored, found, missing, failed, Result,
  ok, err, checked, listed, Action, reads, pure, given, calls, ◌>>=◌, ◌>>◌,
}
use spec_powers.Issue.Status.{default_directory, is_valid_priority}
use spec_powers.Issue.Stores.{IssueStores, StatusStore, EventStore}

abbrev pub then_check : {A B : Type 0} → Result A → (A → Result B) → Result B
then_check (ok a) f = f a
then_check (err e) f = err e

-- `if minRole == "owner" && pm.Role != "owner"`.
abbrev pub role_suffices : String → ProjectMember → Result (Unit {0})
role_suffices min pm =
    if str_eq min "owner" && not (str_eq pm.role "owner")
    then err (err_forbidden "owner role required")
    else ok tt

-- `validatePriority`.
unfoldable pub validate_priority : String → Result (Unit {0})
unfolding is_valid_priority
validate_priority p =
    if is_valid_priority p then ok tt else err (err_invalid (concat "unknown priority: " p))

-- The fields that an update may carry; nil leaves a field alone.
pub record UpdateInput : Type 0 where
  pub title : Option String
  pub description : Option String
  pub priority : Option String
  pub assignee_id : Option String
  pub due_date : Option ℕ
  pub labels : Option (List String)
  pub parent_id : Option String
  pub stage : Option ℤ
  pub position : Option ℤ

abbrev pub is_nil : {A : Type 0} → Option A → Bool
is_nil none = true
is_nil (some a) = false

-- Nothing but the assignee is given.
unfoldable pub only_assignee : UpdateInput → Bool
only_assignee u =
    is_nil u.title
    && is_nil u.description
    && is_nil u.priority
    && is_nil u.due_date
    && is_nil u.labels
    && is_nil u.stage
    && is_nil u.position
    && is_nil u.parent_id

module _ (st : IssueStores) where
  open st use {
    State, get_issue, get_project, get_project_member, get_user, squads, statuses, events,
  }

  -- `requireProjectRole`.
  unfoldable pub require_project_role : String → String → String → State → Result (Unit {0})
  require_project_role user project min s =
      then_check
        (checked (get_project project s) (err_not_found "project not found")
          (err_internal "get project failed"))
        (λ _.
          then_check
            (checked (get_project_member project user s) (err_forbidden "not a project member")
              (err_internal "get project member failed"))
            (role_suffices min))

  -- `requireProjectIssue`.
  unfoldable pub require_project_issue : String → String → Action State Issue
  require_project_issue user issue = do
    i ← reads (λ s.
        checked (get_issue issue s) (err_not_found "issue not found")
          (err_internal "get issue failed"))
    reads (require_project_role user i.project_id "member")
    pure i

  workspace_directory : StatusStore State → String → State → Result (List WorkspaceStatus)
  workspace_directory store project s =
      then_check
        (checked (get_project project s) (err_not_found "project not found")
          (err_internal "get project failed"))
        (λ (p : Project). listed (store.list p.workspace_id s) "list workspace statuses failed")

  directory_in : Option (StatusStore State) → String → State → Result (List WorkspaceStatus)
  unfolding workspace_directory
  directory_in none project s = ok default_directory
  directory_in (some store) project s = workspace_directory store project s

  -- `directoryFor`.
  unfoldable pub directory_for : String → State → Result (List WorkspaceStatus)
  unfolding directory_in
  directory_for project s = directory_in statuses project s

  squad_assignee : Option (String → State → Stored Squad) → String → State → Result (Unit {0})
  squad_assignee none id s = err (err_not_found "assignee not found")
  squad_assignee (some get_squad) id s = elim (get_squad id s) [
    | found sq ↦ ok tt
    | missing ↦ err (err_not_found "assignee not found")
    | failed ↦ err (err_internal "lookup squad assignee failed")
  ]

  -- `validateAssignee`.
  unfoldable pub validate_assignee : String → State → Result (Unit {0})
  unfolding squad_assignee
  validate_assignee id s = if str_eq id "" then ok tt else elim (get_user id s) [
    | found u ↦ ok tt
    | failed ↦ err (err_internal "lookup assignee failed")
    | missing ↦ squad_assignee squads id s
  ]

  abbrev pub squad_in : Option (String → State → Stored Squad) → String → State → Option Squad
  squad_in none id s = none
  squad_in (some get_squad) id s =
      if str_eq id "" then none else elim (get_squad id s) [ found sq ↦ some sq | _ ↦ none ]

  -- The squad that an assignee is: `isSquadAssignee`, and the lookup after it, which reads the same
  -- row.
  unfoldable pub assigned_squad : String → State → Option Squad
  assigned_squad id s = squad_in squads id s

  abbrev pub is_led_by : String → Option Squad → Bool
  is_led_by user none = false
  is_led_by user (some sq) = str_eq sq.leader_id user

  -- `squadLeaderOverride`.
  unfoldable pub squad_leader_override : String → Issue → UpdateInput → State → Bool
  unfolding assigned_squad only_assignee
  squad_leader_override user current u s =
      not (str_eq user "")
      && is_led_by user (assigned_squad current.assignee_id s)
      && only_assignee u

  abbrev pub leader_only : String → Option Squad → Result (Unit {0})
  leader_only user none = ok tt
  leader_only user (some sq) =
      if str_eq sq.leader_id user
      then ok tt
      else err (err_forbidden "only the squad leader can reassign")

  -- `requireLeaderForSquadReassign`.
  unfoldable pub require_leader : String → Issue → String → State → Result (Unit {0})
  unfolding assigned_squad
  require_leader user current assignee s =
      if str_eq assignee current.assignee_id
      then ok tt
      else leader_only user (assigned_squad current.assignee_id s)

  -- `recordEvent`.
  unfoldable pub record_event : String → String → String → String → String → Action State (Unit {0})
  record_event issue actor field old new = given events λ (store : EventStore State).
      calls
        (store.create (record {
          issue_id = issue;
          actor_id = actor;
          field = field;
          old_value = old;
          new_value = new;
        }))
        (err_internal "record issue event failed")
