-- ===== src/Agent/Ends.antt =====
-- agent/queue.go: what `RunOne` leaves behind.
use spec_powers.Prelude.{
  ℕ, String, ◌≡◌, refl, ap, subst, Bool, true, false, ◌&&◌, ◌||◌, ◌==◌, Option, none, some, List,
  [], ◌∷◌, map, any, find, All, arith, inl, inr, ◌⊎◌, Option-cases, Bool-cases, str_eq, concat,
}
use spec_powers.Api.{Stored, found, missing, failed}
use spec_powers.Agent.Runs.{
  Runs, Run, Agent, RunStatus, done, failed_run, is_queued, is_running, is_unfinished,
  remote_queued, finish_run, finish_if, claim_next_run, started, start_at,
}
use spec_powers.Agent.Claims.{Oldest, Claimed, claim-Claimed}
use spec_powers.Agent.Steps.{Steps, stays, by_server, has_queued, Taken, Taken-Steps, Claims-Taken}
use spec_powers.Agent.Queue.{
  Executor, Ran, execute, finish_as, run_claimed, run_one, serve, reported,
}

-- A run with the id that is queued or running.
abbrev pub has_open : ℕ → List Run → Bool
has_open i rs = any (λ (x : Run). x.id == i && (is_queued x.status || is_running x.status)) rs

nothing_running :
    (i : ℕ) (rs : List Run)
    → find (is_unfinished i) rs ≡ none
    → has_queued i rs ≡ false
    → has_open i rs ≡ false
nothing_running i [] h k = refl
nothing_running i (x ∷ rs) h k = elim (Bool-cases (is_unfinished i x)) [
  | inl e ↦ absurd (ground arith)
  | inr e ↦ ground (arith, nothing_running i rs)
]

has_open-finish :
    (i now : ℕ) (status : RunStatus) (error : String) (rs : List Run)
    → is_queued status || is_running status ≡ false
    → has_queued i rs ≡ false
    → has_open i (map (finish_if i now status error) rs) ≡ false
has_open-finish i now status error [] h k = refl
has_open-finish i now status error (x ∷ rs) h k =
    ground (arith, has_open-finish i now status error rs h)

finish-ends :
    (i : ℕ) (status : RunStatus) (error : String) (d : Runs)
    → is_queued status || is_running status ≡ false
    → Taken i d.runs
    → has_open i (finish_run i status error d).1.runs ≡ false
unfolding finish_run Taken
finish-ends i status error d ended (h, k) = elim (Option-cases (find (is_unfinished i) d.runs)) [
  | inl e ↦ rw (e, finish_run) (nothing_running i d.runs e k)
  | inr (q, e) ↦ rw (e, finish_run) (has_open-finish i d.now status error d.runs ended k)
]

finish_as-ends :
    (r : Run) (e : Option String) (d : Runs)
    → Taken r.id d.runs
    → has_open r.id (finish_as r e d).1.runs ≡ false
finish_as-ends r none d h = finish-ends r.id done "" d refl h
finish_as-ends r (some e) d h = finish-ends r.id failed_run e d refl h

reported-ran : (o : Stored Run) → (reported o).ran ≡ true
reported-ran (found r) = refl
reported-ran missing = refl
reported-ran failed = refl

pair_of : {c : Stored Run × Runs} {r : Run} → c.0 ≡ found r → c ≡ (found r, c.1)
pair_of {c} e = ap (λ o. (o, c.1)) e

abbrev pub agent_of : Run → Runs → Option Agent
agent_of r d = find (λ (a : Agent). str_eq a.id r.agent_id) d.agents

-- From the table `d` the executor ran on the run and its agent, and the run was then finished in the
-- table that it left: as done if it gave no error, and as failed with its error if it gave one. If the
-- run's agent has no row, the run was finished as failed, with an error that says so.
abbrev pub Executed : Executor → Run → Runs → Runs → Type 0
Executed exec r d end =
    ((a : Agent) × (agent_of r d ≡ some a)
      × ((((exec r a d).0 ≡ none) × (end ≡ (finish_run r.id done "" (exec r a d).1).1))
          ⊎ ((e : String) × ((exec r a d).0 ≡ some e)
              × (end ≡ (finish_run r.id failed_run e (exec r a d).1).1))))
    ⊎ ((agent_of r d ≡ none)
        × (end ≡ (finish_run r.id failed_run (concat "agent not found: " r.agent_id) d).1))

-- What `RunOne` did: nothing, as no run is due, or the oldest due run was set running and executed, and
-- is no longer open.
unfoldable pub Outcome : Executor → Runs → Ran × Runs → Type 0
Outcome exec d (o, d') =
    (All (λ x. remote_queued d.agents x ≡ false) d.runs × (o.ran ≡ false) × (d' ≡ d))
    ⊎ ((q : Run) × Oldest (remote_queued d.agents) d.runs q
        × (o.ran ≡ true)
        × Executed exec (started d.now q) (record d { runs = map (start_at q.id d.now) d.runs }) d'
        × (has_open q.id d'.runs ≡ false))

finish_as-cases :
    (r : Run) (e : Option String) (x : Runs)
    → ((e ≡ none) × ((finish_as r e x).1 ≡ (finish_run r.id done "" x).1))
      ⊎ ((t : String) × (e ≡ some t) × ((finish_as r e x).1 ≡ (finish_run r.id failed_run t x).1))
finish_as-cases r none x = inl (refl, refl)
finish_as-cases r (some t) x = inr (t, refl, refl)

run_claimed-Executed :
    (exec : Executor) (r : Run) (d : Runs) → Executed exec r d (run_claimed exec r d).1
unfolding run_claimed execute
run_claimed-Executed exec r d = elim (Option-cases (agent_of r d)) [
  | inl e ↦ inr (e, rw (e, execute) refl)
  | inr (a, e) ↦ inl (a, e, rw (e, execute) (finish_as-cases r (exec r a d).0 (exec r a d).1))
]

module _ (new_id : ℕ → ℕ) (exec : Executor)
    (acts : (r : Run) (a : Agent) (d : Runs) → Steps new_id d (exec r a d).1) where
  execute-Steps : (r : Run) (d : Runs) → Steps new_id d (execute exec r d).1
  unfolding execute
  execute-Steps r d = elim (Option-cases (find (λ (a : Agent). str_eq a.id r.agent_id) d.agents)) [
    | inl e ↦ rw (e, execute) (stays d)
    | inr (a, e) ↦ rw (e, execute) (acts r a d)
  ]

  run_claimed-ends :
      (r : Run) (d : Runs) → Taken r.id d.runs → has_open r.id (run_claimed exec r d).1.runs ≡ false
  unfolding run_claimed
  run_claimed-ends r d h =
      finish_as-ends r (execute exec r d).0 (execute exec r d).1
        (Taken-Steps r.id new_id (execute-Steps r d) h)

  ran_claimed : (r : Run) (d : Runs) → (run_claimed exec r d).0.ran ≡ true
  unfolding run_claimed
  ran_claimed r d = reported-ran _

  Claimed-Outcome :
      (d : Runs) (c : Stored Run × Runs)
      → ((r : Run) → c.0 ≡ found r → Taken r.id c.1.runs)
      → Claimed (remote_queued d.agents) d c
      → Outcome exec d (serve exec c)
  unfolding serve Claimed Outcome
  Claimed-Outcome d (found r, d') taken (q, oldest, same, table) = inr (
    q,
    oldest,
    ran_claimed r d',
    subst (λ (p : Run × Runs). Executed exec p.0 p.1 (run_claimed exec r d').1)
        (λ i. (same i, table i)) (run_claimed-Executed exec r d'),
    subst (λ i. has_open i (run_claimed exec r d').1.runs ≡ false) (ap (λ (x : Run). x.id) same)
        (run_claimed-ends r d' (taken r refl)),
  )
  Claimed-Outcome d (missing, d') taken (none_due, same) = inl (none_due, refl, same)
  Claimed-Outcome d (failed, d') taken h = absurd h

  -- RunOne, with an executor that does statements on the table only, does nothing if no run of an
  -- agent that is not local is queued; else it sets the oldest of these running and runs the executor
  -- on it and its agent. The state it ends in is that of the finishing write on the table that the
  -- executor left: done if the executor gave no error, failed with the executor's error, and failed
  -- as well if the agent has no row. Afterwards no row with the run's id is queued or running,
  -- whatever the executor did.
  pub run_one-Outcome : (d : Runs) → Outcome exec d (run_one exec d)
  unfolding claim_next_run run_one
  run_one-Outcome d =
      Claimed-Outcome d (claim_next_run d)
        (λ r e. Claims-Taken {d = d} {d' = (claim_next_run d).1} (by_server (pair_of e)))
        (claim-Claimed (remote_queued d.agents) d)
