-- ===== src/Agent/Finished.antt =====
-- agent/queue.go: `notifyRunFinished`, who hears of the end of a run.
use spec_powers.Prelude.{
  String, false, ◌||◌, Option, none, some, List, [], ◌≡◌, ◌∙◌, str_eq, eq_iff, concat,
  if◌then◌else◌, arith, Bool-cases, inl, inr,
}
use spec_powers.Domain.{Issue}
use spec_powers.Agent.Runs.{Run}
use spec_powers.Notification.Fanout.{NotifyInput, Sink, is_in, notify_many}
use spec_powers.Notification.Delivery.{times, keep, once, told_times}

abbrev pub finished_notice : Run → Issue → String → String → NotifyInput
finished_notice r i status message = record {
  user_id = i.assignee_id;
  kind = "run_finished";
  title =
      concat "Agent run "
        (concat (if str_eq status "failed" then "failed" else "finished") (concat " on: " i.title));
  body = message;
  issue_id = i.id;
  project_id = i.project_id;
}

module _ {S : Type 0} where
  -- `if i.AssigneeID != "" { … }`.
  abbrev pub to_assignee : Sink S → NotifyInput → S → S
  to_assignee sink n s = if str_eq n.user_id "" then s else sink n s

  -- The subscribers, save the assignee; `none` is a failed listing.
  unfoldable pub to_subscribers :
      Sink S → Option (String → S → Option (List String)) → Run → Issue → NotifyInput → S → S
  to_subscribers sink none r i n s = s
  to_subscribers sink (some subs) r i n s = elim (subs r.issue_id s) [
    | none ↦ s
    | some users ↦ notify_many (some sink) users i.assignee_id n s
  ]

  unfoldable pub notify_issue_of :
      Sink S
      → Option (String → S → Option (List String))
      → Run
      → String
      → String
      → Option Issue
      → S
      → S
  unfolding to_subscribers
  notify_issue_of sink subs r status message none s = s
  notify_issue_of sink subs r status message (some i) s =
      to_subscribers sink subs r i (finished_notice r i status message)
        (to_assignee sink (finished_notice r i status message) s)

  -- The sink and the issue lookup may be absent; a failed lookup is `none`.
  unfoldable pub notify_run_finished :
      Option (Sink S)
      → Option (String → S → Option Issue)
      → Option (String → S → Option (List String))
      → Run
      → String
      → String
      → S
      → S
  unfolding notify_issue_of
  notify_run_finished (some sink) (some issue) subs r status message s =
      notify_issue_of sink subs r status message (issue r.issue_id s) s
  notify_run_finished _ _ subs r status message s = s

-- The end of a run is told once to the assignee of its issue and to each subscriber, and to nobody
-- twice: for every user, the number of notices is 1 if the user is the assignee or subscribes, and 0
-- otherwise, also if the assignee subscribes or the list of subscribers repeats itself.
pub notify_run_finished-times :
    (x : String) (i : Issue) (users : List String) (r : Run) (status message : String)
    → str_eq x "" ≡ false
    → times x (
        notify_run_finished
          (some keep)
          (some (λ id s. some i))
          (some (λ id s. some users))
          r
          status
          message
          [])
      ≡ once (str_eq i.assignee_id x || is_in x users)
unfolding notify_run_finished notify_issue_of to_subscribers times
notify_run_finished-times x i users r status message named =
    elim (Bool-cases (str_eq i.assignee_id "")) [
      | inl e ↦ rw e (
          told_times x users i.assignee_id _ []
          ∙ ground (arith, named, eq_iff i.assignee_id "", eq_iff i.assignee_id x, eq_iff x ""))
      | inr e ↦
          rw e
            (told_times x users i.assignee_id _ _ ∙ ground (arith, named, eq_iff i.assignee_id x))
    ]
