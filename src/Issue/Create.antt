-- ===== src/Issue/Create.antt =====
-- issue/service.go: `CreateIssue`, and the reads.
use spec_powers.Prelude.{ℕ, String, not, Option, none, some, List, str_eq, is_blank, if◌then◌else◌}
use spec_powers.Prelude.Int.{ℤ}
use spec_powers.Domain.{Issue, WorkspaceStatus, IssueEvent}
use spec_powers.Api.{
  err_invalid, err_internal, Result, ok, err, listed, Action, reads, writes, pure, guard, given,
  does, calls, whenever, ◌>>=◌, ◌>>◌,
}
use spec_powers.Issue.Status.{default_status}
use spec_powers.Issue.Stores.{IssueStores, IssueFilter, SubscriberStore, RunTrigger, EventStore}
use spec_powers.Issue.Access.{
  then_check, validate_priority, require_project_role, require_project_issue, directory_for,
  validate_assignee, record_event,
}
use spec_powers.Issue.Tree.{parent_row}

pub record CreateInput : Type 0 where
  pub title : String
  pub description : String
  pub priority : String
  pub assignee_id : String
  pub due_date : Option ℕ
  pub labels : List String
  pub parent_id : String
  pub stage : ℤ

abbrev pub priority_or_none : String → String
priority_or_none p = if str_eq p "" then "none" else p

abbrev pub in_project : String → Issue → Result (Unit {0})
in_project project parent =
    if str_eq parent.project_id project
    then ok tt
    else err (err_invalid "parent issue belongs to another project")

module _ (st : IssueStores) where
  open st use {
    State, get_issue, create_issue, list_issues, next_position, subscribers, events, trigger,
  }

  unfoldable pub check_parent : String → String → State → Result (Unit {0})
  check_parent project parent_id s =
      if str_eq parent_id ""
      then ok tt
      else then_check (parent_row (get_issue parent_id s)) (in_project project)

  -- The checks, in their order; the last answer is the directory.
  unfoldable pub check_create : String → String → CreateInput → Action State (List WorkspaceStatus)
  unfolding check_parent is_blank
  check_create user project c = do
    reads (require_project_role st user project "member")
    guard (not (is_blank c.title)) (err_invalid "issue title is required")
    reads (λ _. validate_priority (priority_or_none c.priority))
    reads (validate_assignee st c.assignee_id)
    dir ← reads (directory_for st project)
    reads (check_parent project c.parent_id)
    pure dir

  abbrev pub new_issue : String → String → CreateInput → String → ℤ → Issue
  new_issue user project c status place = record {
    id = "";
    project_id = project;
    parent_id = c.parent_id;
    title = c.title;
    description = c.description;
    status = status;
    priority = priority_or_none c.priority;
    assignee_id = c.assignee_id;
    due_date = c.due_date;
    labels = c.labels;
    stage = c.stage;
    position = place;
    created_by = user;
  }

  -- What follows the insertion: the subscription is best effort.
  unfoldable pub after_create : String → CreateInput → Issue → Action State (Unit {0})
  after_create user c created = do
    given subscribers λ (sub : SubscriberStore State). does (λ s. (sub.add created.id user s).1)
    record_event st created.id user "created" "" created.title
    given trigger λ (t : RunTrigger State).
        whenever (not (str_eq c.assignee_id ""))
          (calls (t.assigned created) (err_internal "notify assignment failed"))

  unfoldable pub insert_issue : String → String → CreateInput → String → Action State Issue
  insert_issue user project c status = do
    place ← reads (λ s. listed (next_position project c.parent_id c.stage s) "next position failed")
    writes (create_issue (new_issue user project c status place))
        (err_internal "create issue failed")

  unfoldable pub create_issue_in : String → String → CreateInput → Action State Issue
  create_issue_in user project c = do
    dir ← check_create user project c
    created ← insert_issue user project c (default_status dir)
    after_create user c created
    pure created

  unfoldable pub list_issues_for : String → String → IssueFilter → Action State (List Issue)
  list_issues_for user project filter = do
    reads (require_project_role st user project "member")
    reads (λ s. listed (list_issues project filter s) "list issues failed")

  timeline : Option (EventStore State) → String → State → Result (List IssueEvent)
  timeline none issue s = ok List.[]
  timeline (some store) issue s = listed (store.list issue s) "list issue events failed"

  -- `GetIssueTimeline`.
  unfoldable pub get_issue_timeline : String → String → Action State (List IssueEvent)
  unfolding timeline
  get_issue_timeline user issue = do
    i ← require_project_issue st user issue
    reads (timeline events i.id)
