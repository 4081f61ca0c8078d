-- ===== src/Notification/Due.antt =====
-- notification/due.go: `Scan` over the issues with a due date. Times are instants in nanoseconds.
use spec_powers.Prelude.{
  ℕ, ◌-◌, ◌*◌, String, Bool, true, false, Option, none, some, List, [], ◌∷◌, ltb, leb, str_eq,
  concat, if◌then◌else◌,
}
use spec_powers.Domain.{Issue}
use spec_powers.Notification.Fanout.{NotifyInput, Sink}

-- `DueSoonWindow`.
abbrev pub due_soon_window : ℕ
due_soon_window = 24 * 3600 * 1_000_000_000

-- The collaborators: `none` is a failed query of the duplicates.
pub record Scanner : Type 1 where
  pub State : Type 0
  pub due_issues : State → Option (List Issue)
  pub agents : Option (String → State → Bool)
  pub dedupe : Option (String → String → String → String → State → Option Bool)
  pub sink : Option (Sink State)
  pub window : ℕ

abbrev pub due_notice : Issue → String → NotifyInput
due_notice i title = record {
  user_id = i.assignee_id;
  kind = "due";
  title = title;
  body = "";
  issue_id = i.id;
  project_id = i.project_id;
}

module _ (sc : Scanner) where
  open sc use {State, due_issues, agents, dedupe, sink, window}

  abbrev pub is_agent : Option (String → State → Bool) → String → State → Bool
  is_agent none id s = false
  is_agent (some known) id s = known id s

  -- The `switch` over the due date: the title of the notice, if there is one.
  unfoldable pub due_title : ℕ → ℕ → String → Option String
  due_title due now title =
      if ltb due now
      then some (concat "Issue overdue: " title)
      else if leb (due - now) window
      then some (concat "Issue due soon: " title)
      else none

  -- The insertion, unless the check for duplicates fails or finds one.
  unfoldable pub unless_sent : Option Bool → Sink State → NotifyInput → State → State
  unless_sent none send n s = s
  unless_sent (some true) send n s = s
  unless_sent (some false) send n s = send n s

  unfoldable pub notify_titled :
      Sink State
      → (String → String → String → String → State → Option Bool)
      → Issue
      → Option String
      → State
      → State
  unfolding unless_sent
  notify_titled send has i none s = s
  notify_titled send has i (some title) s =
      unless_sent (has i.assignee_id i.id "due" title s) send (due_notice i title) s

  unfoldable pub notify_due :
      Option (Sink State)
      → Option (String → String → String → String → State → Option Bool)
      → Option ℕ
      → Issue
      → ℕ
      → State
      → State
  unfolding notify_titled due_title
  notify_due (some send) (some has) (some due) i now s =
      if str_eq i.assignee_id ""
      then s
      else if is_agent agents i.assignee_id s
      then s
      else notify_titled send has i (due_title due now i.title) s
  notify_due _ _ _ i now s = s

  unfoldable pub notify_issue : Issue → ℕ → State → State
  unfolding notify_due
  notify_issue i now s = notify_due sink dedupe i.due_date i now s

  unfoldable pub scan_list : List Issue → ℕ → State → State
  unfolding notify_issue
  scan_list [] now s = s
  scan_list (i ∷ list) now s = scan_list list now (notify_issue i now s)

  -- The first component says whether the source failed.
  unfoldable pub scan_found : Option (List Issue) → ℕ → State → Bool × State
  unfolding scan_list
  scan_found none now s = (false, s)
  scan_found (some list) now s = (true, scan_list list now s)

  unfoldable pub scan : ℕ → State → Bool × State
  unfolding scan_found
  scan now s = scan_found (due_issues s) now s
