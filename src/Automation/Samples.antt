-- ===== src/Automation/Samples.antt =====
-- Runs of the scheduler and of the signatures, and the theorems at concrete autopilots.
use spec_powers.Prelude.{
  ℕ, Option, ◌≡◌, refl, true, false, none, some, String, List, Bool, [], ◌∷◌, ◌++◌, ◌↔◌, codes,
  replicate, set, arith, any, eq_iff, ◌≤◌, length,
}
use spec_powers.Api.{ok, err, found}
use spec_powers.Cron.Calendar.{Time, IsCivil, weekday, before, stamp, date, days_in}
use spec_powers.Cron.Calendar.Dates.{civil}
use spec_powers.Cron.Schedule.{
  Schedule, next, fires, never, first_minute, five_years_on, advance, day_matches, first_set,
}
use spec_powers.Cron.Parse.{
  Parsed, parse, parse_field, set_range, bounds, split, fields, range_and_step, cut, atoi,
}
use spec_powers.Automation.Stores.{Autopilot, Webhook, EventPayload, request_failed, zero_time}
use spec_powers.Automation.Service.{spec_of, fire_webhook}
use spec_powers.Automation.Hook.{prefix, decode, verify_signature, sign, payload_of, receive_event}
use spec_powers.Automation.Scheduler.{ticked, next_cron_time, in_an_hour, tick}
use spec_powers.Automation.Postgres.{
  AutoDb, Actions, due_cron_autopilots, get_webhook, list_by_webhook, update_autopilot,
  pg_automation,
}
use spec_powers.Automation.Signatures.{verify_signature-sign}
use spec_powers.Automation.Ticks.{tick-none_due}
use spec_powers.Automation.Hopeless.{named, tick-still_due}
use spec_powers.Automation.Events.{receive_event-signed}

abbrev friday_evening : Time
friday_evening = record { year = 2026; month = 2; day = 27; hour = 18; minute = 5; nanos = 7 }

friday_evening-IsCivil : IsCivil friday_evening
unfolding days_in
friday_evening-IsCivil = omega arith

abbrev autopilot : String → String → Bool → Autopilot
autopilot id spec enabled = record {
  id = id;
  name = "nightly";
  trigger_type = "cron";
  cron_spec = spec;
  webhook_id = "";
  action_type = "run_agent";
  agent_id = "agent";
  project_id = "";
  issue_id = "issue";
  issue_title = "";
  issue_description = "";
  created_by = "ann";
  enabled = enabled;
  last_fired_at = none;
  next_run_at = none;
}

-- "30 9 * * 1-5".
abbrev workday_mornings : Schedule
workday_mornings = record {
  minute = set (replicate 60 false) 30 true;
  hour = set (replicate 24 false) 9 true;
  dom = replicate 31 true;
  month = replicate 12 true;
  dow = false ∷ true ∷ true ∷ true ∷ true ∷ true ∷ false ∷ [];
  dom_star = true;
  dow_star = false;
}

next_workday : next workday_mornings friday_evening ≡ fires (civil 2026 3 2 9 30)
unfolding next before stamp first_minute date days_in five_years_on advance day_matches weekday
    first_set
next_workday = refl

parse_workdays : spec_of "30 9 * * 1-5" ≡ Parsed.ok workday_mornings
unfolding parse parse_field bounds set_range fields split range_and_step cut atoi
parse_workdays = refl

-- Actions that fail; an autopilot that is due, and a disabled one whose expression does not parse.
abbrev refusing : Actions
refusing = record { issue = λ u p i d. (err request_failed, d); run = λ a i k d. (false, d) }

abbrev new_id : ℕ → String
new_id n = "id"

abbrev two_autopilots : AutoDb
two_autopilots = record {
  webhooks = [];
  autopilots = autopilot "a" "30 9 * * 1-5" true ∷ autopilot "b" "oops" false ∷ [];
  serial = 2;
}

abbrev after_tick : AutoDb
after_tick = (tick (pg_automation new_id refusing) friday_evening two_autopilots).1

tick-none_due_example :
    ((tick (pg_automation new_id refusing) friday_evening two_autopilots).0 ≡ ticked)
    × (due_cron_autopilots friday_evening
          (tick (pg_automation new_id refusing) friday_evening two_autopilots).1
        ≡ some [])
tick-none_due_example =
    tick-none_due new_id refusing friday_evening friday_evening-IsCivil (λ u p i d. refl)
      (λ a i k d. refl) two_autopilots (refl, (refl, tt))
      (
        (λ due. (workday_mornings, civil 2026 3 2 9 30, parse_workdays, next_workday)),
        ((λ due. absurd (ground (arith, due))), tt),
      )

-- "0 0 30 2 *": the thirtieth of February.
abbrev february_30 : Schedule
february_30 = record {
  minute = set (replicate 60 false) 0 true;
  hour = set (replicate 24 false) 0 true;
  dom = set (replicate 31 false) 29 true;
  month = set (replicate 12 false) 1 true;
  dow = replicate 7 true;
  dom_star = false;
  dow_star = true;
}

parse_february_30 : spec_of "0 0 30 2 *" ≡ Parsed.ok february_30
unfolding parse parse_field bounds set_range fields split range_and_step cut atoi
parse_february_30 = refl

no_february_30 : next february_30 friday_evening ≡ never
unfolding next before stamp first_minute date days_in five_years_on advance day_matches weekday
    first_set
no_february_30 = refl

after_zero : before zero_time friday_evening ≡ true
unfolding before stamp
after_zero = refl

abbrev hot : Autopilot
hot = autopilot "a" "0 0 30 2 *" true

hot_next : next_cron_time hot friday_evening ≡ some zero_time
hot_next = rw (parse_february_30, no_february_30) refl

abbrev with_hot : AutoDb
with_hot = record two_autopilots { autopilots = hot ∷ autopilot "b" "oops" true ∷ [] }

tick-still_due_example :
    ((tick (pg_automation new_id refusing) friday_evening with_hot).0 ≡ ticked)
    × ((due : List Autopilot) × (due_cron_autopilots friday_evening
            (tick (pg_automation new_id refusing) friday_evening with_hot).1
          ≡ some due)
        × (any (named "a") due ≡ true))
unfolding parse parse_field bounds set_range fields split range_and_step cut atoi
tick-still_due_example =
    tick-still_due new_id refusing friday_evening friday_evening-IsCivil (λ u p i d. refl)
      (λ a i k d. refl) hot friday_evening with_hot (refl, (refl, tt))
      ((λ due. (zero_time, hot_next)), ((λ due. (in_an_hour friday_evening, refl)), tt))
      ((λ same. refl), ((λ same. absurd (ground (arith, eq_iff "b" "a"))), tt)) refl
      (february_30, parse_february_30, no_february_30) after_zero

-- A stand-in for HMAC: the key and the body behind each other.
abbrev joined : List ℕ → List ℕ → List ℕ
joined key body = key ++ body

verify_signature-sign_example :
    ((verify_signature joined (1 ∷ []) (171 ∷ []) (codes "sha256=01Ab") ≡ true) ↔ (
      (hex : List ℕ) × (codes "sha256=01Ab" ≡ prefix ++ hex) × (decode hex ≡ some (1 ∷ 171 ∷ []))))
    × (verify_signature joined (1 ∷ []) (171 ∷ []) (sign joined (1 ∷ []) (171 ∷ [])) ≡ true)
verify_signature-sign_example =
    verify_signature-sign joined (1 ∷ []) (171 ∷ []) (codes "sha256=01Ab")
      (omega arith, (omega arith, tt))

mixed_case :
    (verify_signature joined (1 ∷ []) (171 ∷ []) (codes "sha256=01Ab") ≡ true)
    × (verify_signature joined (1 ∷ []) (171 ∷ []) (codes "sha256=01ac") ≡ false)
unfolding verify_signature
mixed_case = (refl, refl)

-- One webhook, and one autopilot that listens to it and another that does not.
abbrev listening : AutoDb
listening = record {
  webhooks = record { id = "h"; name = "push"; secret = "k"; enabled = true } ∷ [];
  autopilots =
      record (autopilot "a" "" true) { trigger_type = "webhook"; webhook_id = "h" }
      ∷ autopilot "b" "" true
      ∷ [];
  serial = 3;
}

abbrev running : Actions
running = record { issue = λ u p i d. (err request_failed, d); run = λ a i k d. (true, d) }

abbrev json : List ℕ → Option EventPayload
json body = some (record { issue_id = ""; title = "t" })

event_works :
    (receive_event joined
      (pg_automation new_id running)
      json
      friday_evening
      "h"
      (171 ∷ [])
      (codes "sha256=6bAB")
      listening).0
    ≡ ok 1
unfolding receive_event verify_signature get_webhook fire_webhook list_by_webhook update_autopilot
event_works = refl

receive_event-signed_example :
    (hook : Webhook) × (payload : EventPayload) × (hex : List ℕ) × (get_webhook "h" listening
      ≡ found hook)
    × (hook.enabled ≡ true)
    × (length {A = ℕ} (171 ∷ []) ≤ 1_048_576)
    × (codes "sha256=6bAB" ≡ prefix ++ hex)
    × (decode hex ≡ some (codes hook.secret ++ 171 ∷ []))
    × (payload_of joined (pg_automation new_id running) json (171 ∷ []) ≡ ok payload)
    × (fire_webhook (pg_automation new_id running) friday_evening hook.id payload listening ≡ (
      some 1,
      (receive_event joined
          (pg_automation new_id running)
          json
          friday_evening
          "h"
          (171 ∷ [])
          (codes "sha256=6bAB")
          listening).1,
    ))
receive_event-signed_example =
    receive_event-signed joined (pg_automation new_id running) json friday_evening "h" (171 ∷ [])
      (codes "sha256=6bAB") listening 1 event_works
