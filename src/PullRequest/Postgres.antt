-- ===== src/PullRequest/Postgres.antt =====
-- backend/internal/store/postgres/pull_requests.go: the tables of pull requests and of their issues,
-- with the constraints of migration 0014_issue_pr_links. Rows stand in the order of insertion; ids come
-- from `new_id`, as from gen_random_uuid(), and foreign keys are taken to hold.
use spec_powers.Prelude.{
  ℕ, suc, String, Bool, true, not, ◌&&◌, Option, none, some, List, [], ◌∷◌, ◌++◌, map, all, any,
  find, ◌==◌, str_eq, codes, if◌then◌else◌,
}
use spec_powers.Prelude.Int.{ℤ, eq_ℤ}
use spec_powers.Domain.{Project, ProjectMember, Issue, IssueEvent}
use spec_powers.Api.{Stored, found, missing, failed}
use spec_powers.PullRequest.Service.{PullRequest, PullStores, valid_state, or_open}

pub record Link : Type 0 where
  pub issue_id : String
  pub pull_request_id : String

pub record PullDb : Type 0 where
  pub pulls : List PullRequest
  pub links : List Link
  pub issues : List Issue
  pub serial : ℕ

-- `scanPullRequest`.
abbrev pub one_pull : Option PullRequest → Stored PullRequest
one_pull none = missing
one_pull (some p) = found p

abbrev pub same_pull : String → String → ℤ → PullRequest → Bool
same_pull project repo number p =
    str_eq p.project_id project && str_eq p.repo repo && eq_ℤ p.number number

-- `ON CONFLICT … DO UPDATE`: the state is not among the columns.
abbrev pub refreshed : PullRequest → PullRequest → PullRequest
refreshed p x =
    if same_pull p.project_id p.repo p.number x
    then record x { title = p.title; body = p.body; head_branch = p.head_branch }
    else x

abbrev pub fits_pull : PullRequest → Bool
fits_pull p = not (all (λ c. c == 32) (codes p.title)) && valid_state (or_open p.state)

unfoldable pub by_number : String → String → ℤ → PullDb → Stored PullRequest
by_number project repo number d = one_pull (find (same_pull project repo number) d.pulls)

abbrev pub upsert_row : (ℕ → String) → PullRequest → PullDb → Stored PullRequest × PullDb
unfolding by_number
upsert_row new_id p d =
    let row = record p { id = new_id d.serial; state = or_open p.state } in
    let d' = record d { pulls = map (refreshed p) d.pulls } in
    if any (same_pull p.project_id p.repo p.number) d.pulls
    then (by_number p.project_id p.repo p.number d', d')
    else (found row, record d { pulls = d.pulls ++ row ∷ []; serial = suc d.serial })

unfoldable pub upsert_pull : (ℕ → String) → PullRequest → PullDb → Stored PullRequest × PullDb
unfolding upsert_row
upsert_pull new_id p d = if fits_pull p then upsert_row new_id p d else (failed, d)

unfoldable pub get_pull : String → PullDb → Stored PullRequest
get_pull id d = one_pull (find (λ (p : PullRequest). str_eq p.id id) d.pulls)

abbrev pub or_at : Option ℕ → Option ℕ → Option ℕ
or_at none old = old
or_at (some t) old = some t

abbrev pub move_to : String → String → Option ℕ → PullRequest → PullRequest
move_to id state at p =
    if str_eq p.id id then record p { state = state; merged_at = or_at at p.merged_at } else p

unfoldable pub set_pull_state : String → String → Option ℕ → PullDb → Stored PullRequest × PullDb
unfolding get_pull
set_pull_state id state at d =
    let d' = record d { pulls = map (move_to id state at) d.pulls } in
    if any (λ (p : PullRequest). str_eq p.id id) d.pulls && not (valid_state state)
    then (failed, d)
    else (get_pull id d', d')

abbrev pub is_link : String → String → Link → Bool
is_link issue pr l = str_eq l.issue_id issue && str_eq l.pull_request_id pr

-- `ON CONFLICT … DO NOTHING`.
unfoldable pub link_issue : String → String → PullDb → Bool × PullDb
link_issue pr issue d = if any (is_link issue pr) d.links then (true, d) else (
  true,
  record d { links = d.links ++ (record { issue_id = issue; pull_request_id = pr }) ∷ [] },
)

-- `ListPullRequestsForIssue` selects `created_at` from the join with issue_pull_requests, which has a
-- column of that name too (0014_issue_pr_links): the name is ambiguous, and the server refuses the
-- query, whatever the tables hold.
unfoldable pub list_for_issue : String → PullDb → Option (List PullRequest)
list_for_issue issue d = none

-- The tables that the service reads besides, the table of issues that it closes them in, and the join
-- that gives the keys of linked issues.
pub record Others : Type 0 where
  pub project : String → PullDb → Stored Project
  pub member : String → String → PullDb → Stored ProjectMember
  pub project_by_key : String → List ℕ → PullDb → Stored Project
  pub issue : String → PullDb → Stored Issue
  pub issue_by_number : String → ℕ → PullDb → Stored Issue
  pub update_issue : Issue → PullDb → Stored Issue × PullDb
  pub linked_keys : String → PullDb → Option (List (List ℕ))
  pub events : Option (IssueEvent → PullDb → Bool × PullDb)

abbrev pub pg_pulls : (ℕ → String) → Others → PullStores
pg_pulls new_id o = record {
  State = PullDb;
  get_project = o.project;
  get_project_member = o.member;
  project_by_key = o.project_by_key;
  get_issue = o.issue;
  issue_by_number = o.issue_by_number;
  update_issue = o.update_issue;
  upsert = upsert_pull new_id;
  get = get_pull;
  by_number = by_number;
  set_state = set_pull_state;
  link = link_issue;
  for_issue = list_for_issue;
  linked_keys = o.linked_keys;
  events = o.events;
}
