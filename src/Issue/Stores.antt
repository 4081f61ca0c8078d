-- ===== src/Issue/Stores.antt =====
-- The interfaces that issue/service.go is written against (store.IssueStore, ProjectStore, UserStore,
-- SubscriberStore, WorkspaceStatusStore, IssueEventStore, SquadLookup, RunTrigger, notification.Sink)
-- over one state; a collaborator that may be nil is an `Option`. Of the libraries, `due_text` is
-- `time.Time.Format("2006-01-02")` and `int_text` is `strconv.Itoa`.
use spec_powers.Prelude.{ℕ, String, Bool, Option, List}
use spec_powers.Prelude.Int.{ℤ}
use spec_powers.Domain.{Project, ProjectMember, Issue, WorkspaceStatus, IssueEvent, Squad}
use spec_powers.Api.{Stored}
use spec_powers.Notification.Fanout.{Sink}

-- `store.IssueFilter`, as the service uses it.
pub record IssueFilter : Type 0 where
  pub parent_id : Option String
  pub status : String
  pub stage : Option ℤ
  pub label : String

pub record StatusStore (S : Type 0) : Type 0 where
  pub list : String → S → Option (List WorkspaceStatus)
  pub upsert : WorkspaceStatus → S → Bool × S
  pub delete : String → String → S → Stored (Unit {0}) × S

pub record EventStore (S : Type 0) : Type 0 where
  pub create : IssueEvent → S → Bool × S
  pub list : String → S → Option (List IssueEvent)

pub record SubscriberStore (S : Type 0) : Type 0 where
  pub add : String → String → S → Bool × S
  pub list : String → S → Option (List String)

-- What happens to runs and inboxes: each call reports its success.
pub record RunTrigger (S : Type 0) : Type 0 where
  pub assigned : Issue → S → Bool × S
  pub status_changed : Issue → S → Bool × S
  pub wakeup : Issue → S → Bool × S

pub record IssueStores : Type 1 where
  pub State : Type 0
  pub get_issue : String → State → Stored Issue
  pub create_issue : Issue → State → Stored Issue × State
  pub update_issue : Issue → State → Stored Issue × State
  pub delete_issue : String → State → Stored (Unit {0}) × State
  pub list_issues : String → IssueFilter → State → Option (List Issue)
  pub next_position : String → String → ℤ → State → Option ℤ
  pub create_wakeup : String → String → State → Bool × State
  pub get_project : String → State → Stored Project
  pub get_project_member : String → String → State → Stored ProjectMember
  pub get_user : String → State → Stored (Unit {0})
  pub squads : Option (String → State → Stored Squad)
  pub statuses : Option (StatusStore State)
  pub events : Option (EventStore State)
  pub subscribers : Option (SubscriberStore State)
  pub trigger : Option (RunTrigger State)
  pub notifier : Option (Sink State)
  pub due_text : ℕ → String
  pub int_text : ℤ → String
