-- ===== src/Agent/Runs.antt =====
-- store/postgres/agent.go: the table of runs and the statements over it, with the constraints of
-- migrations 0008 and later. Rows stand in the order of insertion. A uuid is its 128-bit number, by
-- which the server orders it; `new_id` is gen_random_uuid(), and `now` the transaction's time. A
-- statement is one step: the row locks of a claim let no other claim see its row as queued.
use spec_powers.Prelude.{
  ℕ, suc, String, Bool, true, false, not, ◌&&◌, ◌||◌, Option, none, some, List, [], ◌∷◌, ◌++◌, map,
  any, find, ltb, ◌==◌, str_eq, if◌then◌else◌,
}
use spec_powers.Api.{Stored, found, missing, failed}

-- The statuses that the CHECK constraint admits.
pub data RunStatus : Type 0 where
  queued : RunStatus
  running : RunStatus
  done : RunStatus
  failed_run : RunStatus

pub record Run : Type 0 where
  pub id : ℕ
  pub agent_id : String
  pub issue_id : String
  pub trigger : String
  pub status : RunStatus
  pub error : String
  pub created_at : ℕ
  pub started_at : Option ℕ
  pub finished_at : Option ℕ

pub record Agent : Type 0 where
  pub id : String
  pub name : String
  pub runtime : String

pub record Runs : Type 0 where
  pub runs : List Run
  pub agents : List Agent
  pub serial : ℕ
  pub now : ℕ

abbrev pub is_queued : RunStatus → Bool
is_queued queued = true
is_queued running = false
is_queued done = false
is_queued failed_run = false

abbrev pub is_running : RunStatus → Bool
is_running queued = false
is_running running = true
is_running done = false
is_running failed_run = false

abbrev pub valid_trigger : String → Bool
valid_trigger t =
    any (λ x. str_eq t x)
      ("assigned" ∷ "status_changed" ∷ "wakeup" ∷ "manual" ∷ "mention" ∷ "autopilot" ∷ [])

-- `scanRun`: no row is `store.ErrNotFound`.
abbrev pub one_run : Option Run → Stored Run
one_run none = missing
one_run (some r) = found r

abbrev pub new_run : ℕ → ℕ → String → String → String → Run
new_run id now agent issue trigger = record {
  id = id;
  agent_id = agent;
  issue_id = issue;
  trigger = trigger;
  status = queued;
  error = "";
  created_at = now;
  started_at = none;
  finished_at = none;
}

-- The trigger is checked, and the id is a primary key.
unfoldable pub create_run : (ℕ → ℕ) → String → String → String → Runs → Stored Run × Runs
create_run new_id agent issue trigger d =
    let row = new_run (new_id d.serial) d.now agent issue trigger in
    if valid_trigger trigger && not (any (λ (r : Run). r.id == row.id) d.runs)
    then (found row, record d { runs = d.runs ++ row ∷ []; serial = suc d.serial })
    else (failed, d)

unfoldable pub get_run : ℕ → Runs → Stored Run
get_run id d = one_run (find (λ (r : Run). r.id == id) d.runs)

-- `ORDER BY created_at, id`.
abbrev pub earlier : Run → Run → Bool
earlier a b = ltb a.created_at b.created_at || (a.created_at == b.created_at && ltb a.id b.id)

abbrev pub first_of : Run → Option Run → Run
first_of r none = r
first_of r (some x) = if earlier x r then x else r

-- `… ORDER BY created_at, id LIMIT 1`, over the rows that pass a test.
unfoldable pub oldest : (Run → Bool) → List Run → Option Run
oldest p [] = none
oldest p (r ∷ rs) = let rest = oldest p rs in if p r then some (first_of r rest) else rest

abbrev pub started : ℕ → Run → Run
started now r = record r { status = running; started_at = some now }

-- `SET status = 'running', started_at = now() WHERE id = …`.
abbrev pub start_at : ℕ → ℕ → Run → Run
start_at id now r = if r.id == id then started now r else r

unfoldable pub claim : (Run → Bool) → Runs → Stored Run × Runs
unfolding oldest
claim p d = elim (oldest p d.runs) [
  | none ↦ (missing, d)
  | some r ↦ (found (started d.now r), record d { runs = map (start_at r.id d.now) d.runs })
]

-- `JOIN agents a ON a.id = r.agent_id AND a.runtime <> 'local'`, and `r.status = 'queued'`.
abbrev pub remote_queued : List Agent → Run → Bool
remote_queued agents r =
    is_queued r.status
    && any (λ (a : Agent). str_eq a.id r.agent_id && not (str_eq a.runtime "local")) agents

abbrev pub queued_of : String → Run → Bool
queued_of agent r = is_queued r.status && str_eq r.agent_id agent

unfoldable pub claim_next_run : Runs → Stored Run × Runs
unfolding claim
claim_next_run d = claim (remote_queued d.agents) d

unfoldable pub claim_next_run_for_agent : String → Runs → Stored Run × Runs
unfolding claim
claim_next_run_for_agent agent d = claim (queued_of agent) d

abbrev pub finished : ℕ → RunStatus → String → Run → Run
finished now status error r = record r { status = status; error = error; finished_at = some now }

-- `WHERE id = $1 AND status = 'running'`.
abbrev pub is_unfinished : ℕ → Run → Bool
is_unfinished id r = r.id == id && is_running r.status

abbrev pub finish_if : ℕ → ℕ → RunStatus → String → Run → Run
finish_if id now status error r = if is_unfinished id r then finished now status error r else r

unfoldable pub finish_run : ℕ → RunStatus → String → Runs → Stored Run × Runs
finish_run id status error d = elim (find (is_unfinished id) d.runs) [
  | none ↦ (missing, d)
  | some r ↦ (
    found (finished d.now status error r),
    record d { runs = map (finish_if id d.now status error) d.runs },
  )
]
