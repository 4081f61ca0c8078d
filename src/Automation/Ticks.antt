-- ===== src/Automation/Ticks.antt =====
-- automation/scheduler.go on the tables: what a tick leaves due.
use spec_powers.Prelude.{
  ℕ, String, ◌≡◌, refl, ap, subst, ◌∙◌, Bool, true, false, not, ◌||◌, some, List, [], ◌∷◌, map, any,
  select, All, All-imp, eq_refl, str_eq, str_eq_comm, arith, Bool-cases, inl, inr, ◌⊎◌,
}
use spec_powers.Api.{Result, ok, err, pure, >>=-keeps}
use spec_powers.Cron.Calendar.{Time, IsCivil, before}
use spec_powers.Cron.Schedule.{Schedule, next, fires}
use spec_powers.Cron.Parse.{Parsed}
use spec_powers.Cron.Next.{next-IsNext}
use spec_powers.Issue.Create.{CreateInput}
use spec_powers.Automation.Stores.{Autopilot, zero_time}
use spec_powers.Automation.Service.{
  action_create_issue, action_run_agent, spec_of, new_issue, execute_action,
}
use spec_powers.Automation.Scheduler.{
  ticked, no_payload, stamped, tick_one, tick_each, tick_found, tick,
}
use spec_powers.Automation.Postgres.{
  AutoDb, Actions, fits_autopilot, set_autopilot, update_autopilot, is_due, due_cron_autopilots,
  pg_automation,
}

-- The expression parses, and fires within five years.
abbrev pub Fires : Time → Autopilot → Type 0
Fires now a =
    (s : Schedule) × (t : Time) × (spec_of a.cron_spec ≡ Parsed.ok s) × (next s now ≡ fires t)

abbrev named_in : List Autopilot → String → Bool
named_in list id = any (λ (a : Autopilot). str_eq a.id id) list

-- A row may be due only if the list has its turn still to come.
abbrev Left : Time → List Autopilot → Autopilot → Type 0
Left now list x = (not (is_due now x) || named_in list x.id) ≡ true

abbrev pub Fits : Autopilot → Type 0
Fits x = fits_autopilot x ≡ true

later : (s : Schedule) (now t : Time) → IsCivil now → next s now ≡ fires t → before now t ≡ true
later s now t c h = let (_, _, b, _, _, _) = rw h at (next-IsNext s now c) in b

set-Left :
    (now t : Time) (a : Autopilot) (list rows : List Autopilot)
    → before now t ≡ true
    → All (Left now (a ∷ list)) rows
    → All (Left now list) (map (set_autopilot (record a { next_run_at = some t })) rows)
set-Left now t a list [] h hs = tt
set-Left now t a list (x ∷ rows) h (l, ls) =
    (step (Bool-cases (str_eq x.id a.id)), set-Left now t a list rows h ls)
  where
    step :
        (str_eq x.id a.id ≡ true) ⊎ (str_eq x.id a.id ≡ false)
        → Left now list (set_autopilot (record a { next_run_at = some t }) x)
    step (inl e) = rw e (ground (arith, h))
    step (inr e) = rw e (ground (arith, l, str_eq_comm x.id a.id))

set-Fits :
    (a : Autopilot) (rows : List Autopilot)
    → Fits a
    → All Fits rows
    → All Fits (map (set_autopilot a) rows)
set-Fits a [] f fs = tt
set-Fits a (x ∷ rows) f (g, gs) = (ground arith, set-Fits a rows f gs)

named_more :
    (list : List Autopilot) (a : Autopilot) (id : String)
    → named_in list id ≡ true
    → named_in (a ∷ list) id ≡ true
named_more list a id h = ground arith

Left-more :
    (now : Time) (a : Autopilot) (list rows : List Autopilot)
    → All (Left now list) rows
    → All (Left now (a ∷ list)) rows
Left-more now a list rows ls = All-imp rows (λ x l. ground (arith, l, named_more list a x.id)) ls

-- At first, the due rows have their turn to come, and no others are due.
All-Left : (now : Time) (rows : List Autopilot) → All (Left now (select (is_due now) rows)) rows
All-Left now [] = tt
All-Left now (x ∷ rows) = elim (Bool-cases (is_due now x)) [
  | inl e ↦
      let chosen : x ∷ select (is_due now) rows ≡ select (is_due now) (x ∷ rows) = rw e refl in
      subst (λ l. All (Left now l) (x ∷ rows)) chosen
        (
          ground (arith, eq_refl x.id),
          Left-more now x (select (is_due now) rows) rows (All-Left now rows),
        )
  | inr e ↦
      let chosen : select (is_due now) rows ≡ select (is_due now) (x ∷ rows) = rw e refl in
      subst (λ l. All (Left now l) (x ∷ rows)) chosen (ground (arith, e), All-Left now rows)
]

pub All-select :
    {A : Type 0} (P : A → Type 0) (p : A → Bool) (rows : List A)
    → All (λ a. p a ≡ true → P a) rows
    → All P (select p rows)
All-select P p [] hs = tt
All-select P p (x ∷ rows) (h, hs) = elim (Bool-cases (p x)) [
  | inl e ↦ rw e (h e, All-select P p rows hs)
  | inr e ↦ rw e (All-select P p rows hs)
]

none-due :
    (now : Time) (rows : List Autopilot) → All (Left now []) rows → select (is_due now) rows ≡ []
none-due now [] ls = refl
none-due now (x ∷ rows) (l, ls) =
    let e : is_due now x ≡ false = ground (arith, l) in rw e (none-due now rows ls)

pub zero-is_due :
    (r : Result (Unit {0})) (a : Autopilot) (now now' : Time)
    → str_eq a.trigger_type "cron" ≡ true
    → a.enabled ≡ true
    → before zero_time now' ≡ true
    → is_due now' (record (stamped r a now) { next_run_at = some zero_time }) ≡ true
unfolding before
zero-is_due (ok u) a now now' cron on late =
    let past : before now' zero_time ≡ false = ground (arith, late) in rw (cron, on, past) refl
zero-is_due (err x) a now now' cron on late =
    let past : before now' zero_time ≡ false = ground (arith, late) in rw (cron, on, past) refl

module _ (new_id : ℕ → String) (o : Actions) (now : Time) (c : IsCivil now)
    (quiet_issue : (u p : String) (i : CreateInput) (d : AutoDb)
      → (o.issue u p i d).1.autopilots ≡ d.autopilots)
    (quiet_run : (a i k : String) (d : AutoDb) → (o.run a i k d).1.autopilots ≡ d.autopilots) where
  pub action-autopilots :
      (a : Autopilot) (d : AutoDb)
      → (execute_action (pg_automation new_id o) a no_payload d).1.autopilots ≡ d.autopilots
  unfolding execute_action
  action-autopilots a d = elim (Bool-cases (str_eq a.action_type action_create_issue)) [
    | inl e ↦ rw e (
        >>=-keeps (λ (x : AutoDb). x.autopilots)
          (o.issue a.created_by a.project_id (new_issue (pg_automation new_id o) a no_payload))
          (λ _. pure tt) (λ x. quiet_issue _ _ _ x) (λ _ x. refl) d)
    | inr e ↦ elim (Bool-cases (str_eq a.action_type action_run_agent)) [
      | inl f ↦ rw (e, f) (quiet_run a.agent_id a.issue_id "autopilot" d)
      | inr f ↦ rw (e, f) refl
    ]
  ]

  pub written-autopilots :
      (a : Autopilot) (d : AutoDb)
      → Fits a
      → (update_autopilot a d).1.autopilots ≡ map (set_autopilot a) d.autopilots
  unfolding update_autopilot
  written-autopilots a d f = ground arith

  turn :
      (r : Result (Unit {0})) (a : Autopilot) (list rows : List Autopilot) (t : Time)
      → before now t ≡ true
      → Fits a
      → All (Left now (a ∷ list)) rows
      → All Fits rows
      → (let u = record (stamped r a now) { next_run_at = some t } in
          Fits u
          × All (Left now list) (map (set_autopilot u) rows)
          × All Fits (map (set_autopilot u) rows))
  turn (ok u) a list rows t b f ls fs = (
    f,
    set-Left now t (stamped (ok u) a now) list rows b ls,
    set-Fits (record (stamped (ok u) a now) { next_run_at = some t }) rows f fs,
  )
  turn (err e) a list rows t b f ls fs = (
    f,
    set-Left now t (stamped (err e) a now) list rows b ls,
    set-Fits (record (stamped (err e) a now) { next_run_at = some t }) rows f fs,
  )

  turn_lem :
      (a : Autopilot) (d : AutoDb) (s : Schedule) (t : Time)
      → spec_of a.cron_spec ≡ Parsed.ok s
      → next s now ≡ fires t
      → (let (r, d1) = execute_action (pg_automation new_id o) a no_payload d in
          tick_one (pg_automation new_id o) now a d
          ≡ (true, (update_autopilot (record (stamped r a now) { next_run_at = some t }) d1).1))
  unfolding tick_one
  turn_lem a d s t spec e = rw (spec, e) refl

  ticks-Left :
      (list : List Autopilot) (d : AutoDb)
      → All (Fires now) list
      → All Fits list
      → All (Left now list) d.autopilots
      → All Fits d.autopilots
      → (let r = tick_each (pg_automation new_id o) now list d in
          (r.0 ≡ ticked) × All (Left now []) r.1.autopilots)
  unfolding tick_each
  ticks-Left [] d fire fits ls fs = (refl, ls)
  ticks-Left (a ∷ list) d ((s, t, spec, e), more) (f, fits) ls fs =
      let d1 = (execute_action (pg_automation new_id o) a no_payload d).1 in
      let r = (execute_action (pg_automation new_id o) a no_payload d).0 in
      let same = action-autopilots a d in
      let u = record (stamped r a now) { next_run_at = some t } in
      let (fu, ls', fs') = turn r a list d.autopilots t (later s now t c e) f ls fs in
      let written : (update_autopilot u d1).1.autopilots ≡ map (set_autopilot u) d.autopilots =
        written-autopilots u d1 fu ∙ ap (map (set_autopilot u)) same in
      let one = turn_lem a d s t spec e in
      rw (one, tick_each, one)
        (ticks-Left list (update_autopilot u d1).1 more fits (rw written ls') (rw written fs'))

  -- A tick leaves nothing to fire: if the expressions of the due autopilots parse and fire within
  -- five years, a tick gives every due autopilot its turn, and afterwards none is due at that time,
  -- whether or not their actions succeed. The rows meet the table's constraints, and the actions
  -- leave the table alone.
  pub tick-none_due :
      (d : AutoDb)
      → All Fits d.autopilots
      → All (λ a. is_due now a ≡ true → Fires now a) d.autopilots
      → (let r = tick (pg_automation new_id o) now d in
          (r.0 ≡ ticked) × (due_cron_autopilots now r.1 ≡ some []))
  unfolding tick tick_found due_cron_autopilots
  tick-none_due d fits firing =
      let (end, ls) =
        ticks-Left (select (is_due now) d.autopilots) d
          (All-select (Fires now) (is_due now) d.autopilots firing)
          (All-select Fits (is_due now) d.autopilots (All-imp d.autopilots (λ x f e. f) fits))
          (All-Left now d.autopilots) fits in
      (end, ap some (none-due now _ ls))
