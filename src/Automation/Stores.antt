-- ===== src/Automation/Stores.antt =====
-- What automation/service.go is written against (store.WebhookStore, store.AutopilotStore,
-- IssueCreator, RunCreator), over one state, and the records of domain/models.go that it keeps.
use spec_powers.Prelude.{String, Bool, Option, List}
use spec_powers.Domain.{Issue}
use spec_powers.Api.{AppError, err_internal, Stored, Action}
use spec_powers.Issue.Create.{CreateInput}
use spec_powers.Cron.Calendar.{Time}

pub record Webhook : Type 0 where
  pub id : String
  pub name : String
  pub secret : String
  pub enabled : Bool

pub record Autopilot : Type 0 where
  pub id : String
  pub name : String
  pub trigger_type : String
  pub cron_spec : String
  pub webhook_id : String
  pub action_type : String
  pub agent_id : String
  pub project_id : String
  pub issue_id : String
  pub issue_title : String
  pub issue_description : String
  pub created_by : String
  pub enabled : Bool
  pub last_fired_at : Option Time
  pub next_run_at : Option Time

pub record AutopilotInput : Type 0 where
  pub name : String
  pub trigger_type : String
  pub cron_spec : String
  pub webhook_id : String
  pub action_type : String
  pub agent_id : String
  pub project_id : String
  pub issue_id : String
  pub issue_title : String
  pub issue_description : String
  pub enabled : Bool

pub record EventPayload : Type 0 where
  pub issue_id : String
  pub title : String

-- `create_run` takes the agent, the issue and the trigger, and reports its success.
pub record Automation : Type 1 where
  pub State : Type 0
  pub create_webhook : Webhook → State → Stored Webhook × State
  pub list_webhooks : State → Option (List Webhook)
  pub get_webhook : String → State → Stored Webhook
  pub update_webhook : Webhook → State → Stored Webhook × State
  pub delete_webhook : String → State → Stored (Unit {0}) × State
  pub create_autopilot : Autopilot → State → Stored Autopilot × State
  pub list_autopilots : State → Option (List Autopilot)
  pub get_autopilot : String → State → Stored Autopilot
  pub update_autopilot : Autopilot → State → Stored Autopilot × State
  pub delete_autopilot : String → State → Stored (Unit {0}) × State
  pub by_webhook : String → Bool → State → Option (List Autopilot)
  pub due : Time → State → Option (List Autopilot)
  pub create_issue : String → String → CreateInput → Action State Issue
  pub create_run : String → String → String → State → Bool × State

-- How the handlers answer an error that is no API error.
abbrev pub request_failed : AppError
request_failed = err_internal "automation request failed"

-- `time.Time{}`.
abbrev pub zero_time : Time
zero_time = record { year = 1; month = 1; day = 1; hour = 0; minute = 0; nanos = 0 }
