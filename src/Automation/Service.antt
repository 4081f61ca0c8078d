-- ===== src/Automation/Service.antt =====
-- automation/service.go. The clock and a new secret are arguments. An error that is no API error is
-- what the handlers make of it, and so is a panic of the cron parser.
use spec_powers.Prelude.{
  ℕ, suc, String, Bool, true, false, not, ◌||◌, Option, none, some, List, [], ◌∷◌, str_eq, concat,
  codes, is_blank, if◌then◌else◌,
}
use spec_powers.Prelude.Int.{pos}
use spec_powers.Api.{
  recovered, AppError, err_invalid, err_not_found, err_conflict, Stored, found, missing, failed,
  Result, ok, err, checked, Action, pure, lift, reads, writes, tries, calls, guard, ◌>>=◌, ◌>>◌,
}
use spec_powers.Issue.Create.{CreateInput}
use spec_powers.Cron.Calendar.{Time}
use spec_powers.Cron.Schedule.{Schedule, next, NextResult, fires, never, out_of_fuel}
use spec_powers.Cron.Parse.{parse, Parsed}
use spec_powers.Automation.Stores.{
  Automation, Webhook, Autopilot, AutopilotInput, EventPayload, request_failed, zero_time,
}

abbrev pub trigger_cron : String
trigger_cron = "cron"

abbrev pub trigger_webhook : String
trigger_webhook = "webhook"

abbrev pub trigger_manual : String
trigger_manual = "manual"

abbrev pub action_create_issue : String
action_create_issue = "create_issue"

abbrev pub action_run_agent : String
action_run_agent = "run_agent"

-- What `Next` returns; it does not run out of fuel.
abbrev pub instant : NextResult → Time
instant (fires t) = t
instant never = zero_time
instant out_of_fuel = zero_time

abbrev pub parsed_spec : Parsed Schedule → Result Schedule
parsed_spec (Parsed.ok s) = ok s
parsed_spec Parsed.invalid = err (err_invalid "invalid cron spec")
parsed_spec Parsed.panic = err recovered

abbrev pub spec_of : String → Parsed Schedule
spec_of text = parse (codes text)

abbrev pub require : Bool → AppError → Result (Unit {0})
require true e = ok tt
require false e = err e

abbrev pub discard : {A : Type 0} → Result A → Result (Unit {0})
discard (ok a) = ok tt
discard (err e) = err e

-- `if payload.X != "" { … = payload.X }`.
abbrev pub override : String → String → String
override old new = if str_eq new "" then old else new

abbrev pub or_old : {A : Type 0} → Option A → A → A
or_old none a = a
or_old (some b) a = b

-- The fields that a caller gives.
abbrev pub configured : Autopilot → AutopilotInput → Autopilot
configured a u = record a {
  name = u.name;
  trigger_type = u.trigger_type;
  cron_spec = u.cron_spec;
  webhook_id = u.webhook_id;
  action_type = u.action_type;
  agent_id = u.agent_id;
  project_id = u.project_id;
  issue_id = u.issue_id;
  issue_title = u.issue_title;
  issue_description = u.issue_description;
  enabled = u.enabled;
}

abbrev pub blank_autopilot : String → Autopilot
blank_autopilot user = record {
  id = "";
  name = "";
  trigger_type = "";
  cron_spec = "";
  webhook_id = "";
  action_type = "";
  agent_id = "";
  project_id = "";
  issue_id = "";
  issue_title = "";
  issue_description = "";
  created_by = user;
  enabled = false;
  last_fired_at = none;
  next_run_at = none;
}

-- The second `switch` of `validate`.
unfoldable pub check_action : Autopilot → Result (Unit {0})
unfolding is_blank
check_action a =
    if str_eq a.action_type action_create_issue
    then (if str_eq a.project_id ""
        then err (err_invalid "create_issue action requires a project")
        else require (not (is_blank a.issue_title))
            (err_invalid "create_issue action requires an issue title"))
    else if str_eq a.action_type action_run_agent
    then require (not (str_eq a.agent_id "" || str_eq a.issue_id ""))
        (err_invalid "run_agent action requires an agent and an issue")
    else err (err_invalid (concat "unknown action type: " a.action_type))

-- The run after an update or a creation: a cron autopilot has one, others have none.
abbrev pub next_for : Autopilot → Time → Result (Option Time)
next_for a now = elim (str_eq a.trigger_type trigger_cron) [
  | false ↦ ok none
  | true ↦ elim (parsed_spec (spec_of a.cron_spec)) [
    | ok s ↦ ok (some (instant (next s now)))
    | err e ↦ err e
  ]
]

-- `if sched, err := cronexpr.Parse(…); err == nil { … }`; a panic ends the request.
abbrev pub rescheduled : Parsed Schedule → Option Time → Time → Result (Option Time)
rescheduled (Parsed.ok s) old now = ok (some (instant (next s now)))
rescheduled Parsed.invalid old now = ok old
rescheduled Parsed.panic old now = err recovered

abbrev pub fired_next : Autopilot → Time → Result (Option Time)
fired_next a now = elim (str_eq a.trigger_type trigger_cron) [
  | false ↦ ok a.next_run_at
  | true ↦ rescheduled (spec_of a.cron_spec) a.next_run_at now
]

module _ (st : Automation) where
  open st use {
    State, create_webhook, list_webhooks, get_webhook, update_webhook, delete_webhook,
    create_autopilot, list_autopilots, get_autopilot, update_autopilot, delete_autopilot,
    by_webhook, create_issue, create_run,
  }

  -- `CreateWebhook`, with the new secret.
  unfoldable pub new_webhook : String → String → Action State Webhook
  unfolding is_blank
  new_webhook secret name = do
    guard (not (is_blank name)) (err_invalid "webhook name is required")
    writes (create_webhook (record { id = ""; name = name; secret = secret; enabled = true }))
        request_failed

  -- `GetWebhook`.
  unfoldable pub webhook_of : String → Action State Webhook
  webhook_of id =
      reads (λ s. checked (get_webhook id s) (err_not_found "webhook not found") request_failed)

  abbrev pub check_name : Option String → Result (Unit {0})
  unfolding is_blank
  check_name none = ok tt
  check_name (some name) = require (not (is_blank name)) (err_invalid "webhook name is required")

  -- `UpdateWebhook`.
  unfoldable pub change_webhook : String → Option String → Option Bool → Action State Webhook
  unfolding webhook_of
  change_webhook id name enabled = do
    w ← webhook_of id
    lift (check_name name)
    writes
        (update_webhook
          (record w { name = or_old name w.name; enabled = or_old enabled w.enabled }))
        request_failed

  -- `DeleteWebhook`.
  unfoldable pub drop_webhook : String → Action State (Unit {0})
  drop_webhook id = tries (delete_webhook id) (err_not_found "webhook not found") request_failed

  abbrev pub known_webhook : Stored Webhook → Result (Unit {0})
  known_webhook (found w) = ok tt
  known_webhook missing = err (err_not_found "webhook not found")
  known_webhook failed = ok tt

  -- The first `switch` of `validate`.
  unfoldable pub check_trigger : Autopilot → State → Result (Unit {0})
  check_trigger a s =
      if str_eq a.trigger_type trigger_cron
      then discard (parsed_spec (spec_of a.cron_spec))
      else if str_eq a.trigger_type trigger_webhook
      then (if str_eq a.webhook_id ""
          then err (err_invalid "webhook trigger requires a webhook")
          else known_webhook (get_webhook a.webhook_id s))
      else if str_eq a.trigger_type trigger_manual
      then ok tt
      else err (err_invalid (concat "unknown trigger type: " a.trigger_type))

  unfoldable pub validate : Autopilot → Action State (Unit {0})
  unfolding is_blank check_trigger check_action
  validate a = do
    guard (not (is_blank a.name)) (err_invalid "autopilot name is required")
    reads (check_trigger a)
    lift (check_action a)

  -- `CreateAutopilot`.
  unfoldable pub new_autopilot : Time → String → AutopilotInput → Action State Autopilot
  unfolding validate
  new_autopilot now user u = do
    let a = configured (blank_autopilot user) u
    validate a
    run ← lift (next_for a now)
    writes (create_autopilot (record a { next_run_at = run })) request_failed

  -- `GetAutopilot`.
  unfoldable pub autopilot_of : String → Action State Autopilot
  autopilot_of id =
      reads (λ s. checked (get_autopilot id s) (err_not_found "autopilot not found") request_failed)

  -- `UpdateAutopilot`.
  unfoldable pub change_autopilot : Time → String → AutopilotInput → Action State Autopilot
  unfolding autopilot_of validate
  change_autopilot now id u = do
    current ← autopilot_of id
    let a = configured current u
    validate a
    run ← lift (next_for a now)
    writes (update_autopilot (record a { next_run_at = run })) request_failed

  -- `DeleteAutopilot`.
  unfoldable pub drop_autopilot : String → Action State (Unit {0})
  drop_autopilot id =
      tries (delete_autopilot id) (err_not_found "autopilot not found") request_failed

  abbrev pub new_issue : Autopilot → EventPayload → CreateInput
  new_issue a payload = record {
    title = override a.issue_title payload.title;
    description = a.issue_description;
    priority = "";
    assignee_id = "";
    due_date = none;
    labels = [];
    parent_id = "";
    stage = pos 0;
  }

  -- `executeAction`.
  unfoldable pub execute_action : Autopilot → EventPayload → Action State (Unit {0})
  execute_action a payload =
      if str_eq a.action_type action_create_issue
      then (create_issue a.created_by a.project_id (new_issue a payload) >> pure tt)
      else if str_eq a.action_type action_run_agent
      then calls (create_run a.agent_id (override a.issue_id payload.issue_id) "autopilot")
          request_failed
      else lift (err (err_invalid (concat "unknown action type: " a.action_type)))

  unfoldable pub fire : Time → Autopilot → EventPayload → Action State (Unit {0})
  unfolding execute_action
  fire now a payload = do
    execute_action a payload
    run ← lift (fired_next a now)
    writes (update_autopilot (record a { last_fired_at = some now; next_run_at = run }))
        request_failed
    pure tt

  unfoldable pub trigger_autopilot : Time → String → EventPayload → Action State (Unit {0})
  unfolding autopilot_of fire
  trigger_autopilot now id payload = do
    a ← autopilot_of id
    guard a.enabled (err_conflict "autopilot is disabled")
    fire now a payload

  abbrev pub counted : Result (Unit {0}) → ℕ → ℕ
  counted (ok u) n = suc n
  counted (err e) n = n

  -- The loop of `fireWebhook`, after `fired` of them.
  unfoldable pub fire_each : Time → EventPayload → List Autopilot → ℕ → State → ℕ × State
  unfolding fire
  fire_each now payload [] fired s = (fired, s)
  fire_each now payload (a ∷ list) fired s =
      let (r, s') = fire now a payload s in fire_each now payload list (counted r fired) s'

  fire_found : Time → EventPayload → Option (List Autopilot) → State → Option ℕ × State
  unfolding fire_each
  fire_found now payload none s = (none, s)
  fire_found now payload (some list) s =
      let (n, s') = fire_each now payload list 0 s in (some n, s')

  -- `fireWebhook`; `none` is a failed listing.
  unfoldable pub fire_webhook : Time → String → EventPayload → State → Option ℕ × State
  unfolding fire_found
  fire_webhook now id payload s = fire_found now payload (by_webhook id true s) s
