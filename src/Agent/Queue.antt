-- ===== src/Agent/Queue.antt =====
-- agent/queue.go: `Enqueue` and `RunOne`. The executor is a parameter: it works on the state of the
-- server and ends with no error or with the text of one. Notifications are delivered apart from the
-- table, with no result: they are in Finished.
use spec_powers.Prelude.{ℕ, String, Bool, true, false, Option, none, some, find, str_eq, concat}
use spec_powers.Api.{err_internal, Stored, found, missing, failed, Action, writes}
use spec_powers.Agent.Runs.{
  Runs, Run, Agent, done, failed_run, create_run, claim_next_run, finish_run,
}

abbrev pub Executor : Type 0
Executor = Run → Agent → Runs → Option String × Runs

unfoldable pub enqueue : (ℕ → ℕ) → String → String → String → Action Runs Run
enqueue new_id agent issue trigger =
    writes (create_run new_id agent issue trigger) (err_internal "enqueue run failed")

-- What `RunOne` reports: whether a run was executed, and whether a statement failed.
pub record Ran : Type 0 where
  pub ran : Bool
  pub broken : Bool

-- `Queue.execute`.
unfoldable pub execute : Executor → Run → Runs → Option String × Runs
execute exec r d = elim (find (λ (a : Agent). str_eq a.id r.agent_id) d.agents) [
  | none ↦ (some (concat "agent not found: " r.agent_id), d)
  | some a ↦ exec r a d
]

-- `if _, ferr := …; ferr != nil { return true, ferr }`.
abbrev pub reported : Stored Run → Ran
reported (found r) = record { ran = true; broken = false }
reported missing = record { ran = true; broken = true }
reported failed = record { ran = true; broken = true }

abbrev pub finish_as : Run → Option String → Runs → Stored Run × Runs
finish_as r none d = finish_run r.id done "" d
finish_as r (some e) d = finish_run r.id failed_run e d

unfoldable pub run_claimed : Executor → Run → Runs → Ran × Runs
unfolding execute
run_claimed exec r d =
    let (e, d1) = execute exec r d in let (f, d2) = finish_as r e d1 in (reported f, d2)

-- `RunOne` after the claim.
unfoldable pub serve : Executor → Stored Run × Runs → Ran × Runs
serve exec (missing, d) = (record { ran = false; broken = false }, d)
serve exec (failed, d) = (record { ran = false; broken = true }, d)
serve exec (found r, d) = run_claimed exec r d

unfoldable pub run_one : Executor → Runs → Ran × Runs
unfolding serve
run_one exec d = serve exec (claim_next_run d)
