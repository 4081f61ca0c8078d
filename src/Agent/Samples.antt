-- ===== src/Agent/Samples.antt =====
-- The queue over a table of three runs.
use spec_powers.Prelude.{ℕ, ◌≡◌, ◌≢◌, refl, none, List, [], ◌∷◌}
use spec_powers.Api.{found}
use spec_powers.Agent.Runs.{
  Runs, Run, Agent, done, new_run, started, oldest, create_run, claim, claim_next_run,
  claim_next_run_for_agent, finish_run, remote_queued, queued_of,
}
use spec_powers.Agent.Queue.{Executor, run_one}
use spec_powers.Agent.Claims.{Claimed, claim-takes_oldest}
use spec_powers.Agent.Steps.{stays, goes, creates, finishes, by_server, by_agent, claimed_once}
use spec_powers.Agent.Logs.{RunLog, log_row}
use spec_powers.Agent.Ends.{Outcome, run_one-Outcome}

abbrev next_id : ℕ → ℕ
next_id n = n

abbrev helper : Agent
helper = record { id = "helper"; name = "Helper"; runtime = "server" }

abbrev laptop : Agent
laptop = record { id = "laptop"; name = "Laptop"; runtime = "local" }

abbrev table : List Run → ℕ → Runs
table runs now = record { runs = runs; agents = helper ∷ laptop ∷ []; serial = 9; now = now }

abbrev late : Run
late = new_run 5 10 "helper" "i1" "manual"

abbrev first : Run
first = new_run 3 10 "helper" "i2" "manual"

abbrev local : Run
local = new_run 4 6 "laptop" "i1" "assigned"

abbrev waiting : Runs
waiting = table (late ∷ first ∷ local ∷ []) 20

abbrev claimed : Runs
claimed = table (late ∷ started 20 first ∷ local ∷ []) 20

-- The server takes the first of the two, as both were created together; the local run waits for its
-- own agent.
claim_test : claim_next_run waiting ≡ (found (started 20 first), claimed)
unfolding claim_next_run claim oldest
claim_test = refl

claim-takes_oldest_example :
    Claimed (remote_queued (helper ∷ laptop ∷ [])) waiting (claim_next_run waiting)
    × Claimed (queued_of "laptop") waiting (claim_next_run_for_agent "laptop" waiting)
claim-takes_oldest_example = claim-takes_oldest waiting "laptop"

abbrev ended : Runs
ended = (finish_run 3 done "" claimed).1

abbrev taken : Runs
taken = (claim_next_run_for_agent "laptop" ended).1

claimed_once_example : local.id ≢ first.id
unfolding claim_next_run claim_next_run_for_agent claim oldest finish_run
claimed_once_example =
    claimed_once next_id {d1 = waiting} {d2 = claimed} {d3 = ended} {d4 = taken}
      {r = started 20 first} {r' = started 20 local} (by_server refl)
      (goes (finishes claimed 3 done "" refl) (stays ended)) (by_agent "laptop" refl)

-- An executor that asks for another run.
abbrev asks : Executor
asks r a d = (none, (create_run next_id "helper" r.issue_id "mention" d).1)

run_one-Outcome_example : Outcome asks waiting (run_one asks waiting)
run_one-Outcome_example =
    run_one-Outcome next_id asks (λ r a d. goes (creates d "helper" r.issue_id "mention") (stays _))
      waiting

abbrev called : RunLog
called = record { run_id = 3; seq = 0; kind = "tool_call"; content = "ls"; created_at = 0 }

abbrev logs : List RunLog
logs = log_row 21 called [] ∷ []
