-- ===== src/Issue/Transition.antt =====
-- issue/service.go: `TransitionStatus`, and the wakeup of a parent whose children have all ended.
use spec_powers.Prelude.{
  String, Bool, not, ◌||◌, Option, none, some, List, all, str_eq, concat, if◌then◌else◌,
}
use spec_powers.Domain.{Issue, WorkspaceStatus}
use spec_powers.Api.{
  err_internal, required, listed, Action, reads, writes, pure, given, calls, does, whenever, lift,
  ◌>>=◌, ◌>>◌,
}
use spec_powers.Notification.Fanout.{NotifyInput, Sink, notify_many}
use spec_powers.Issue.Status.{is_terminal, is_terminal_in, transition_in}
use spec_powers.Issue.Stores.{IssueStores, IssueFilter, SubscriberStore, RunTrigger}
use spec_powers.Issue.Access.{require_project_issue, directory_for, record_event}

abbrev pub children_of : String → IssueFilter
children_of parent = record { parent_id = some parent; status = ""; stage = none; label = "" }

abbrev pub status_notice : Issue → String → String → NotifyInput
status_notice i from to = record {
  user_id = "";
  kind = "status_changed";
  title = concat "Status changed on: " i.title;
  body = concat from (concat " → " to);
  issue_id = i.id;
  project_id = i.project_id;
}

module _ (st : IssueStores) where
  open st use {
    State, get_issue, update_issue, list_issues, create_wakeup, subscribers, trigger, notifier,
  }

  -- The wakeup itself, and the hook on the parent.
  unfoldable pub wake_parent : Issue → Action State (Unit {0})
  wake_parent child = do
    calls (create_wakeup child.parent_id child.id) (err_internal "record parent wakeup failed")
    given trigger λ (t : RunTrigger State). do
      parent ←
          reads
            (λ s. required (get_issue child.parent_id s) (err_internal "get parent issue failed"))
      calls (t.wakeup parent) (err_internal "notify parent wakeup failed")

  abbrev pub all_terminal : List WorkspaceStatus → List Issue → Bool
  all_terminal dir siblings = all (λ (i : Issue). is_terminal_in dir i.status) siblings

  -- `wakeParentIfChildrenTerminal`; whether the child has ended is asked of the built-in statuses.
  unfoldable pub wake_if_terminal : Issue → Action State (Unit {0})
  wake_if_terminal child =
      if str_eq child.parent_id "" || not (is_terminal child.status) then pure tt else do
        siblings ← reads (λ s.
            listed (list_issues child.project_id (children_of child.parent_id) s)
              "list sibling issues failed")
        dir ← reads (directory_for st child.project_id)
        whenever (all_terminal dir siblings) (wake_parent child)

  tell : Sink State → SubscriberStore State → String → Issue → String → String → State → State
  unfolding notify_many
  tell sink sub actor i from to s = elim (sub.list i.id s) [
    | none ↦ s
    | some ids ↦ notify_many (some sink) ids actor (status_notice i from to) s
  ]

  tell_both :
      Option (Sink State)
      → Option (SubscriberStore State)
      → String
      → Issue
      → String
      → String
      → State
      → State
  unfolding tell
  tell_both (some sink) (some sub) actor i from to s = tell sink sub actor i from to s
  tell_both _ _ actor i from to s = s

  -- `notifySubscribersStatusChanged`.
  unfoldable pub tell_subscribers : String → Issue → String → String → State → State
  unfolding tell_both
  tell_subscribers actor i from to s = tell_both notifier subscribers actor i from to s

  -- What follows the write of the new status.
  unfoldable pub after_transition : String → Issue → String → String → Action State (Unit {0})
  after_transition user saved from to = do
    record_event st saved.id user "status" from to
    wake_if_terminal saved
    given trigger λ (t : RunTrigger State).
        calls (t.status_changed saved) (err_internal "notify status change failed")
    does (tell_subscribers user saved from to)

  unfoldable pub transition_status : String → String → String → Action State Issue
  transition_status user issue to = do
    current ← require_project_issue st user issue
    dir ← reads (directory_for st current.project_id)
    lift (transition_in dir current.status to)
    saved ←
        writes (update_issue (record current { status = to })) (err_internal "update issue failed")
    after_transition user saved current.status to
    pure saved
