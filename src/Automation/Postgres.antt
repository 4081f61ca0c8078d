-- ===== src/Automation/Postgres.antt =====
-- backend/internal/store/postgres/webhooks.go and autopilots.go: the tables of webhooks and autopilots,
-- with the CHECK constraints of migration 0014_webhooks_autopilots. Rows stand in the order of insertion; ids
-- come from `new_id`, as from gen_random_uuid(), and foreign keys are taken to hold.
use spec_powers.Prelude.{
  ℕ, suc, String, Bool, true, not, ◌&&◌, ◌||◌, Option, none, some, List, [], ◌∷◌, ◌++◌, map, all,
  any, find, select, ◌==◌, leb, codes, str_eq, length, if◌then◌else◌,
}
use spec_powers.Domain.{Issue}
use spec_powers.Api.{Stored, found, missing, failed, Action}
use spec_powers.Issue.Create.{CreateInput}
use spec_powers.Cron.Calendar.{Time, before}
use spec_powers.Automation.Stores.{Automation, Webhook, Autopilot}
use spec_powers.Automation.Service.{
  trigger_cron, trigger_webhook, trigger_manual, action_create_issue, action_run_agent,
}

pub record AutoDb : Type 0 where
  pub webhooks : List Webhook
  pub autopilots : List Autopilot
  pub serial : ℕ

abbrev pub one_webhook : Option Webhook → Stored Webhook
one_webhook none = missing
one_webhook (some w) = found w

abbrev pub one_autopilot : Option Autopilot → Stored Autopilot
one_autopilot none = missing
one_autopilot (some a) = found a

-- `length(btrim(name)) > 0`.
abbrev pub has_text : String → Bool
has_text name = not (all (λ c. c == 32) (codes name))

-- The CHECK constraints of the two tables.
abbrev pub fits_webhook : Webhook → Bool
fits_webhook w = has_text w.name && leb 16 (length (codes w.secret))

abbrev pub fits_autopilot : Autopilot → Bool
fits_autopilot a =
    has_text a.name
    && (str_eq a.trigger_type trigger_cron
        || str_eq a.trigger_type trigger_webhook
        || str_eq a.trigger_type trigger_manual)
    && (str_eq a.action_type action_create_issue || str_eq a.action_type action_run_agent)

-- Last inserted first, for `ORDER BY created_at DESC, id DESC`.
reversed : {A : Type 0} → List A → List A → List A
reversed done [] = done
reversed done (x ∷ rows) = reversed (x ∷ done) rows

unfoldable pub create_webhook : (ℕ → String) → Webhook → AutoDb → Stored Webhook × AutoDb
create_webhook new_id w d =
    let row = record w { id = new_id d.serial } in
    if fits_webhook w
    then (found row, record d { webhooks = d.webhooks ++ row ∷ []; serial = suc d.serial })
    else (failed, d)

unfoldable pub get_webhook : String → AutoDb → Stored Webhook
get_webhook id d = one_webhook (find (λ (w : Webhook). str_eq w.id id) d.webhooks)

unfoldable pub list_webhooks : AutoDb → Option (List Webhook)
unfolding reversed
list_webhooks d = some (reversed [] d.webhooks)

abbrev pub set_webhook : Webhook → Webhook → Webhook
set_webhook w x = if str_eq x.id w.id then w else x

unfoldable pub update_webhook : Webhook → AutoDb → Stored Webhook × AutoDb
unfolding get_webhook
update_webhook w d =
    let d' = record d { webhooks = map (set_webhook w) d.webhooks } in
    if any (λ (x : Webhook). str_eq x.id w.id) d.webhooks && not (fits_webhook w)
    then (failed, d)
    else (get_webhook w.id d', d')

-- The autopilots that are bound to the webhook go with it.
unfoldable pub delete_webhook : String → AutoDb → Stored (Unit {0}) × AutoDb
delete_webhook id d =
    if any (λ (w : Webhook). str_eq w.id id) d.webhooks
    then (
      found tt,
      record d {
        webhooks = select (λ (w : Webhook). not (str_eq w.id id)) d.webhooks;
        autopilots = select (λ (a : Autopilot). not (str_eq a.webhook_id id)) d.autopilots;
      },
    )
    else (missing, d)

unfoldable pub create_autopilot : (ℕ → String) → Autopilot → AutoDb → Stored Autopilot × AutoDb
create_autopilot new_id a d =
    let row = record a { id = new_id d.serial; last_fired_at = none } in
    if fits_autopilot a
    then (found row, record d { autopilots = d.autopilots ++ row ∷ []; serial = suc d.serial })
    else (failed, d)

unfoldable pub get_autopilot : String → AutoDb → Stored Autopilot
get_autopilot id d = one_autopilot (find (λ (a : Autopilot). str_eq a.id id) d.autopilots)

unfoldable pub list_autopilots : AutoDb → Option (List Autopilot)
unfolding reversed
list_autopilots d = some (reversed [] d.autopilots)

-- All columns but the creator are written.
abbrev pub set_autopilot : Autopilot → Autopilot → Autopilot
set_autopilot a x = if str_eq x.id a.id then record a { created_by = x.created_by } else x

unfoldable pub update_autopilot : Autopilot → AutoDb → Stored Autopilot × AutoDb
unfolding get_autopilot
update_autopilot a d =
    let d' = record d { autopilots = map (set_autopilot a) d.autopilots } in
    if any (λ (x : Autopilot). str_eq x.id a.id) d.autopilots && not (fits_autopilot a)
    then (failed, d)
    else (get_autopilot a.id d', d')

unfoldable pub delete_autopilot : String → AutoDb → Stored (Unit {0}) × AutoDb
delete_autopilot id d =
    if any (λ (a : Autopilot). str_eq a.id id) d.autopilots
    then (
      found tt,
      record d { autopilots = select (λ (a : Autopilot). not (str_eq a.id id)) d.autopilots },
    )
    else (missing, d)

unfoldable pub list_by_webhook : String → Bool → AutoDb → Option (List Autopilot)
list_by_webhook id enabled_only d = some (
    select (λ (a : Autopilot). str_eq a.webhook_id id && (not enabled_only || a.enabled))
      d.autopilots)

-- `next_run_at IS NULL OR next_run_at <= $1`.
abbrev pub is_past : Time → Option Time → Bool
is_past now none = true
is_past now (some t) = not (before now t)

abbrev pub is_due : Time → Autopilot → Bool
is_due now a = str_eq a.trigger_type trigger_cron && a.enabled && is_past now a.next_run_at

unfoldable pub due_cron_autopilots : Time → AutoDb → Option (List Autopilot)
due_cron_autopilots now d = some (select (is_due now) d.autopilots)

-- What acts on the other tables.
pub record Actions : Type 0 where
  pub issue : String → String → CreateInput → Action AutoDb Issue
  pub run : String → String → String → AutoDb → Bool × AutoDb

abbrev pub pg_automation : (ℕ → String) → Actions → Automation
pg_automation new_id o = record {
  State = AutoDb;
  create_webhook = create_webhook new_id;
  list_webhooks = list_webhooks;
  get_webhook = get_webhook;
  update_webhook = update_webhook;
  delete_webhook = delete_webhook;
  create_autopilot = create_autopilot new_id;
  list_autopilots = list_autopilots;
  get_autopilot = get_autopilot;
  update_autopilot = update_autopilot;
  delete_autopilot = delete_autopilot;
  by_webhook = list_by_webhook;
  due = due_cron_autopilots;
  create_issue = o.issue;
  create_run = o.run;
}
