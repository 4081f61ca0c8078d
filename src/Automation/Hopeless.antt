-- ===== src/Automation/Hopeless.antt =====
-- automation/scheduler.go on the tables: a tick with an expression that never fires.
use spec_powers.Prelude.{
  ℕ, String, ◌≡◌, refl, ap, subst, ◌∙◌, sym, Bool, true, false, ◌&&◌, ◌||◌, some, List, [], ◌∷◌,
  map, any, select, All, eq_iff, str_eq, arith, Bool-cases, inl, inr,
}
use spec_powers.Api.{Result, ok, err}
use spec_powers.Cron.Calendar.{Time, IsCivil, before}
use spec_powers.Cron.Schedule.{Schedule, next, never}
use spec_powers.Cron.Parse.{Parsed}
use spec_powers.Issue.Create.{CreateInput}
use spec_powers.Automation.Stores.{Autopilot, zero_time}
use spec_powers.Automation.Service.{spec_of, execute_action}
use spec_powers.Automation.Scheduler.{
  ticked, next_cron_time, no_payload, stamped, tick_one, tick_each, tick_found, tick,
}
use spec_powers.Automation.Postgres.{
  AutoDb, Actions, set_autopilot, is_due, due_cron_autopilots, pg_automation,
}
use spec_powers.Automation.Ticks.{
  Fits, All-select, action-autopilots, written-autopilots, zero-is_due,
}

-- The parser ends on the expression.
abbrev pub Parses : Time → Autopilot → Type 0
Parses now x = (t : Time) × (next_cron_time x now ≡ some t)

-- The expression parses, and does not fire within five years.
abbrev pub Hopeless : Time → Autopilot → Type 0
Hopeless now a = (s : Schedule) × (spec_of a.cron_spec ≡ Parsed.ok s) × (next s now ≡ never)

abbrev pub named : String → Autopilot → Bool
named id x = str_eq x.id id

abbrev still : String → Time → Autopilot → Bool
still id later x = str_eq x.id id && is_due later x

set-still :
    (id : String) (later : Time) (a : Autopilot) (rows : List Autopilot)
    → str_eq a.id id ≡ true
    → is_due later a ≡ true
    → any (named id) rows ≡ true
    → any (still id later) (map (set_autopilot a) rows) ≡ true
set-still id later a [] same due h = h
set-still id later a (x ∷ rows) same due h = elim (Bool-cases (str_eq x.id a.id)) [
  | inl e ↦ rw (e, same, due) refl
  | inr e ↦ rw e (let rest = set-still id later a rows same due in ground (arith, rest, other))
]
  where
    other : str_eq x.id id ≡ true → str_eq x.id a.id ≡ true
    other f = (eq_iff x.id a.id).1 ((eq_iff x.id id).0 f ∙ sym ((eq_iff a.id id).0 same))

set-others :
    (p : Autopilot → Bool) (a : Autopilot) (rows : List Autopilot)
    → ((x : Autopilot) → p x ≡ true → str_eq x.id a.id ≡ false)
    → any p rows ≡ true
    → any p (map (set_autopilot a) rows) ≡ true
set-others p a [] apart h = h
set-others p a (x ∷ rows) apart h = elim (Bool-cases (p x)) [
  | inl e ↦ rw (apart x e, e) refl
  | inr e ↦ ground (arith, set-others p a rows apart (rw e at h))
]

set-named :
    (id : String) (a : Autopilot) (rows : List Autopilot)
    → any (named id) (map (set_autopilot a) rows) ≡ any (named id) rows
set-named id a [] = refl
set-named id a (x ∷ rows) = elim (Bool-cases (str_eq x.id a.id)) [
  | inl e ↦ rw (e, (eq_iff x.id a.id).0 e) (ap (λ b. str_eq a.id id || b) (set-named id a rows))
  | inr e ↦ rw e (ap (λ b. str_eq x.id id || b) (set-named id a rows))
]

any_of_select :
    (p q : Autopilot → Bool) (rows : List Autopilot)
    → any p (select q rows) ≡ true
    → any p rows ≡ true
any_of_select p q [] h = h
any_of_select p q (x ∷ rows) h = elim (Bool-cases (q x)) [
  | inl e ↦
      let split : (p x || any p (select q rows)) ≡ true = rw e at h in
      ground (arith, any_of_select p q rows)
  | inr e ↦ ground (arith, any_of_select p q rows (rw e at h))
]

any_both :
    (p q : Autopilot → Bool) (rows : List Autopilot)
    → any (λ x. p x && q x) rows ≡ true
    → any p (select q rows) ≡ true
any_both p q [] h = h
any_both p q (x ∷ rows) h = elim (Bool-cases (q x)) [
  | inl e ↦ rw e (ground (arith, any_both p q rows))
  | inr e ↦ rw e (any_both p q rows (ground arith))
]

stamped-is_due :
    (r : Result (Unit {0})) (x : Autopilot) (now t later : Time)
    → is_due later (record (stamped r x now) { next_run_at = some t })
      ≡ is_due later (record x { next_run_at = some t })
stamped-is_due (ok u) x now t later = refl
stamped-is_due (err e) x now t later = refl

stamped-id : (r : Result (Unit {0})) (x : Autopilot) (now : Time) → (stamped r x now).id ≡ x.id
stamped-id (ok u) x now = refl
stamped-id (err e) x now = refl

stamped-Fits :
    (r : Result (Unit {0})) (x : Autopilot) (now t : Time)
    → Fits x
    → Fits (record (stamped r x now) { next_run_at = some t })
stamped-Fits (ok u) x now t f = f
stamped-Fits (err e) x now t f = f

module _ (new_id : ℕ → String) (o : Actions) (now : Time) (c : IsCivil now)
    (quiet_issue : (u p : String) (i : CreateInput) (d : AutoDb)
      → (o.issue u p i d).1.autopilots ≡ d.autopilots)
    (quiet_run : (a i k : String) (d : AutoDb) → (o.run a i k d).1.autopilots ≡ d.autopilots) where
  -- What a turn writes.
  written_row : Autopilot → Time → AutoDb → Autopilot
  written_row x t d =
      record (stamped (execute_action (pg_automation new_id o) x no_payload d).0 x now) {
        next_run_at = some t;
      }

  turn_rows :
      (x : Autopilot) (t : Time) (d : AutoDb)
      → next_cron_time x now ≡ some t
      → Fits x
      → ((tick_one (pg_automation new_id o) now x d).0 ≡ true)
        × ((tick_one (pg_automation new_id o) now x d).1.autopilots
            ≡ map (set_autopilot (written_row x t d)) d.autopilots)
  unfolding tick_one written_row
  turn_rows x t d at f =
      let (r, d1) = execute_action (pg_automation new_id o) x no_payload d in
      rw at (
        refl,
        written-autopilots new_id o now c quiet_issue quiet_run (written_row x t d) d1
              (stamped-Fits r x now t f)
            ∙ ap (map (set_autopilot (written_row x t d)))
                (action-autopilots new_id o now c quiet_issue quiet_run x d),
      )

  module _ (id : String) (later : Time) where
    -- A turn of the row with the id leaves it due; a turn of another leaves it alone.
    Turn : Autopilot → Type 0
    Turn x =
        (t : Time) × (next_cron_time x now ≡ some t)
        × Fits x
        × (str_eq x.id id ≡ true → is_due later (record x { next_run_at = some t }) ≡ true)

    after_turn :
        (x : Autopilot) (t : Time) (d : AutoDb) (rest : Bool)
        → (str_eq x.id id ≡ true → is_due later (record x { next_run_at = some t }) ≡ true)
        → any (named id) d.autopilots ≡ true
        → (str_eq x.id id || rest || any (still id later) d.autopilots) ≡ true
        → (rest || any (still id later) (map (set_autopilot (written_row x t d)) d.autopilots))
          ≡ true
    unfolding written_row
    after_turn x t d rest again stored turns =
        let r = (execute_action (pg_automation new_id o) x no_payload d).0 in
        let w = written_row x t d in
        let same_id : w.id ≡ x.id = stamped-id r x now in
        elim (Bool-cases (str_eq x.id id)) [
          | inl e ↦
              let due =
                set-still id later w d.autopilots (rw same_id e)
                  (stamped-is_due r x now t later ∙ again e) stored in
              ground (arith, due)
          | inr e ↦ elim (Bool-cases rest) [
            | inl f ↦ rw f refl
            | inr f ↦
                let left : any (still id later) d.autopilots ≡ true = ground (arith) in
                let kept =
                  set-others (still id later) w d.autopilots
                    (λ y p. elsewhere y (rw same_id refl) e p) left in
                ground (arith, kept)
          ]
        ]
      where
        elsewhere :
            (y : Autopilot)
            → (written_row x t d).id ≡ x.id
            → str_eq x.id id ≡ false
            → still id later y ≡ true
            → str_eq y.id (written_row x t d).id ≡ false
        elsewhere y same e p = elim (Bool-cases (str_eq y.id (written_row x t d).id)) [
          | inr g ↦ g
          | inl g ↦
              let at : y.id ≡ id = (eq_iff y.id id).0 (ground arith) in
              let back =
                (eq_iff x.id id).1
                  (sym same ∙ sym ((eq_iff y.id (written_row x t d).id).0 g) ∙ at) in
              absurd (ground arith)
        ]

    turns-still :
        (list : List Autopilot) (d : AutoDb)
        → All Turn list
        → any (named id) d.autopilots ≡ true
        → (any (named id) list || any (still id later) d.autopilots) ≡ true
        → (let r = tick_each (pg_automation new_id o) now list d in
            (r.0 ≡ ticked) × (any (still id later) r.1.autopilots ≡ true))
    unfolding tick_each Turn
    turns-still [] d turns stored h = (refl, h)
    turns-still (x ∷ list) d ((t, at, f, again), turns) stored h =
        let (goes_on, rows) = turn_rows x t d at f in
        let d' = (tick_one (pg_automation new_id o) now x d).1 in
        let stored' : any (named id) d'.autopilots ≡ true =
          ap (any (named id)) rows ∙ set-named id (written_row x t d) d.autopilots ∙ stored in
        let h' : (any (named id) list || any (still id later) d'.autopilots) ≡ true =
          ap (λ l. any (named id) list || any (still id later) l) rows
          ∙ after_turn x t d (any (named id) list) again stored (ground arith) in
        let (end, kept) = turns-still list d' turns stored' h' in
        rw (goes_on, tick_each) (end, kept)

  row_turns :
      (a : Autopilot) (later : Time) (rows : List Autopilot)
      → Hopeless now a
      → before zero_time later ≡ true
      → All Fits rows
      → All (λ x. is_due now x ≡ true → Parses now x) rows
      → All (λ x. str_eq x.id a.id ≡ true → x ≡ a) rows
      → All (λ x. is_due now x ≡ true → Turn a.id later x) rows
  unfolding Turn
  row_turns a later [] hopeless late fits parses unique = tt
  row_turns a later (x ∷ rows) hopeless late (f, fits) (p, parses) (u, unique) =
      (turn, row_turns a later rows hopeless late fits parses unique)
    where
      zero : next_cron_time a now ≡ some zero_time
      zero = let (s, spec, e) = hopeless in rw (spec, e) refl

      again :
          (t : Time)
          → is_due now x ≡ true
          → next_cron_time x now ≡ some t
          → str_eq x.id a.id ≡ true
          → is_due later (record x { next_run_at = some t }) ≡ true
      again t due at same =
          let back : some zero_time ≡ some t =
            sym zero ∙ ap (λ y. next_cron_time y now) (sym (u same)) ∙ at in
          let is_zero : zero_time ≡ t = cc in
          subst (λ y. is_due later (record x { next_run_at = some y }) ≡ true) is_zero
            (zero-is_due (ok tt) x now later (ground (arith, due)) (ground (arith, due)) late)

      turn :
          is_due now x ≡ true
          → (t : Time) × (next_cron_time x now ≡ some t)
            × Fits x
            × (str_eq x.id a.id ≡ true → is_due later (record x { next_run_at = some t }) ≡ true)
      turn due = let (t, at) = p due in (t, at, f, again t due at)

  -- An autopilot whose expression never fires is due at every tick: if it is due at one tick, every
  -- autopilot that is due then has its turn, whether or not its action succeeds, and afterwards the
  -- row with its id is listed as due at any later time again. The parser panics on no expression that
  -- is due, ids are unique, the rows meet the table's constraints, and the actions leave the table
  -- alone.
  pub tick-still_due :
      (a : Autopilot) (later : Time) (d : AutoDb)
      → All Fits d.autopilots
      → All (λ x. is_due now x ≡ true → Parses now x) d.autopilots
      → All (λ x. str_eq x.id a.id ≡ true → x ≡ a) d.autopilots
      → any (named a.id) (select (is_due now) d.autopilots) ≡ true
      → Hopeless now a
      → before zero_time later ≡ true
      → (let r = tick (pg_automation new_id o) now d in
          (r.0 ≡ ticked)
          × ((due : List Autopilot) × (due_cron_autopilots later r.1 ≡ some due)
              × (any (named a.id) due ≡ true)))
  unfolding tick tick_found due_cron_autopilots
  tick-still_due a later d fits parses unique due (s, spec, e) late =
      let list = select (is_due now) d.autopilots in
      let (end, kept) =
        turns-still a.id later list d
          (All-select (Turn a.id later) (is_due now) d.autopilots
            (row_turns a later d.autopilots (s, spec, e) late fits parses unique))
          (any_of_select (named a.id) (is_due now) d.autopilots due) (ground (arith, due)) in
      (
        end,
        (
          select (is_due later) (tick_each (pg_automation new_id o) now list d).1.autopilots,
          refl,
          any_both (named a.id) (is_due later) _ kept,
        ),
      )
