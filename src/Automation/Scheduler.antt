-- ===== src/Automation/Scheduler.antt =====
-- automation/scheduler.go: `Tick`. The clock is an argument.
use spec_powers.Prelude.{◌+◌, Bool, true, false, Option, none, some, List, [], ◌∷◌}
use spec_powers.Api.{Result, ok, err}
use spec_powers.Cron.Calendar.{Time, date}
use spec_powers.Cron.Schedule.{Schedule, next}
use spec_powers.Cron.Parse.{Parsed}
use spec_powers.Automation.Stores.{Automation, Autopilot, EventPayload}
use spec_powers.Automation.Service.{instant, spec_of, execute_action}

-- How a tick ends: the listing failed, all due autopilots had their turn, or the parser panicked.
pub data TickEnd : Type 0 where
  unlisted : TickEnd
  ticked : TickEnd
  panicked : TickEnd

-- `now.Add(time.Hour)`.
abbrev pub in_an_hour : Time → Time
in_an_hour t = record (date t.year t.month t.day (t.hour + 1) t.minute) { nanos = t.nanos }

abbrev pub next_time : Parsed Schedule → Time → Option Time
next_time (Parsed.ok s) now = some (instant (next s now))
next_time Parsed.invalid now = some (in_an_hour now)
next_time Parsed.panic now = none

-- `nextCronTime`; `none` is a panic of the parser.
abbrev pub next_cron_time : Autopilot → Time → Option Time
next_cron_time a now = next_time (spec_of a.cron_spec) now

abbrev pub no_payload : EventPayload
no_payload = record { issue_id = ""; title = "" }

abbrev pub stamped : Result (Unit {0}) → Autopilot → Time → Autopilot
stamped (ok u) a now = record a { last_fired_at = some now }
stamped (err e) a now = a

module _ (st : Automation) where
  open st use {State, update_autopilot, due}

  -- What the loop writes, once the action has run; `false` is a panic.
  abbrev pub reschedule : Autopilot → Option Time → State → Bool × State
  reschedule a none s = (false, s)
  reschedule a (some t) s = (true, (update_autopilot (record a { next_run_at = some t }) s).1)

  unfoldable pub tick_one : Time → Autopilot → State → Bool × State
  unfolding execute_action
  tick_one now a s =
      let (r, s') = execute_action st a no_payload s in
      reschedule (stamped r a now) (next_cron_time a now) s'

  unfoldable pub tick_each : Time → List Autopilot → State → TickEnd × State
  tick_each now [] s = (ticked, s)
  tick_each now (a ∷ list) s =
      let (goes_on, s') = tick_one now a s in
      elim goes_on [ true ↦ tick_each now list s' | false ↦ (panicked, s') ]

  unfoldable pub tick_found : Time → Option (List Autopilot) → State → TickEnd × State
  unfolding tick_each
  tick_found now none s = (unlisted, s)
  tick_found now (some list) s = tick_each now list s

  unfoldable pub tick : Time → State → TickEnd × State
  unfolding tick_found
  tick now s = tick_found now (due now s) s
