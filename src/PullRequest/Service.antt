-- ===== src/PullRequest/Service.antt =====
-- pr/service.go, over the stores that it is written against (Projects, Issues, store.PullRequestStore,
-- store.IssueEventStore) with one state. The clock is an argument; keys are lists of code points.
use spec_powers.Prelude.{
  ℕ, String, Bool, true, false, not, ◌&&◌, ◌||◌, Option, none, some, List, [], ◌∷◌, ◌==◌, str_eq,
  codes, concat, is_blank, if◌then◌else◌,
}
use spec_powers.Prelude.Int.{ℤ, pos, ltb_ℤ}
use spec_powers.Domain.{Project, ProjectMember, Issue, IssueEvent}
use spec_powers.Api.{
  err_invalid, err_forbidden, err_not_found, err_internal, Stored, found, missing, failed, Result,
  ok, err, checked, required, listed, Action, pure, lift, reads, writes, calls, guard, whenever,
  ◌>>=◌, ◌>>◌,
}
use spec_powers.Issue.Status.{is_terminal}
use spec_powers.Issue.Access.{role_suffices}
use spec_powers.PullRequest.Keys.{extract_issue_keys, parse_close_intents, split_issue_key}

pub record PullRequest : Type 0 where
  pub id : String
  pub project_id : String
  pub repo : String
  pub number : ℤ
  pub title : String
  pub body : String
  pub head_branch : String
  pub state : String
  pub merged_at : Option ℕ
  pub created_by : String

pub record UpsertInput : Type 0 where
  pub repo : String
  pub number : ℤ
  pub title : String
  pub body : String
  pub head_branch : String
  pub state : String

pub record PullStores : Type 1 where
  pub State : Type 0
  pub get_project : String → State → Stored Project
  pub get_project_member : String → String → State → Stored ProjectMember
  pub project_by_key : String → List ℕ → State → Stored Project
  pub get_issue : String → State → Stored Issue
  pub issue_by_number : String → ℕ → State → Stored Issue
  pub update_issue : Issue → State → Stored Issue × State
  pub upsert : PullRequest → State → Stored PullRequest × State
  pub get : String → State → Stored PullRequest
  pub by_number : String → String → ℤ → State → Stored PullRequest
  pub set_state : String → String → Option ℕ → State → Stored PullRequest × State
  pub link : String → String → State → Bool × State
  pub for_issue : String → State → Option (List PullRequest)
  pub linked_keys : String → State → Option (List (List ℕ))
  pub events : Option (IssueEvent → State → Bool × State)

abbrev pub state_open : String
state_open = "open"

abbrev pub state_merged : String
state_merged = "merged"

abbrev pub state_closed : String
state_closed = "closed"

abbrev pub valid_state : String → Bool
valid_state s = str_eq s state_open || str_eq s state_merged || str_eq s state_closed

abbrev pub or_open : String → String
or_open s = if str_eq s "" then state_open else s

-- A reference that is not found is no error.
abbrev pub if_found : {A : Type 0} → Stored A → String → Result (Option A)
if_found (found a) msg = ok (some a)
if_found missing msg = ok none
if_found failed msg = err (err_internal msg)

abbrev pub state_of : Stored PullRequest → Result String
state_of (found p) = ok p.state
state_of missing = ok ""
state_of failed = err (err_internal "get pull request failed")

module _ (st : PullStores) where
  open st use {
    State, get_project, get_project_member, project_by_key, get_issue, issue_by_number,
    update_issue, upsert, get, by_number, set_state, link, for_issue, linked_keys, events,
  }

  unfoldable pub require_project_role : String → String → String → Action State (Unit {0})
  require_project_role user project min = do
    reads (λ s.
        checked (get_project project s) (err_not_found "project not found")
          (err_internal "get project failed"))
    pm ← reads (λ s.
        checked (get_project_member project user s) (err_forbidden "not a project member")
          (err_internal "get project member failed"))
    lift (role_suffices min pm)

  unfoldable pub record_event : String → String → String → String → String → Action State (Unit {0})
  record_event issue actor field old new = elim events [
    | none ↦ pure tt
    | some create ↦
        calls
          (create (record {
            issue_id = issue;
            actor_id = actor;
            field = field;
            old_value = old;
            new_value = new;
          }))
          (err_internal "record issue event failed")
  ]

  abbrev pub issue_of_project : Option Project → ℕ → State → Result (Option Issue)
  issue_of_project none number s = ok none
  issue_of_project (some p) number s =
      if_found (issue_by_number p.id number s) "resolve issue number failed"

  -- No prefix, and no number, is no reference.
  abbrev pub project_for : Project → List ℕ × ℕ → State → Result (Option Project)
  project_for project ([], number) s = ok none
  project_for project (c ∷ prefix, number) s =
      if number == 0
      then ok none
      else if_found (project_by_key project.workspace_id (c ∷ prefix) s)
          "resolve project key failed"

  unfoldable pub resolve_issue_key : Project → List ℕ → Action State (Option Issue)
  unfolding split_issue_key
  resolve_issue_key project key = do
    p ← reads (project_for project (split_issue_key key))
    reads (issue_of_project p (split_issue_key key).1)

  -- One key of the loop: whether it was linked.
  abbrev pub link_found : String → Option Issue → Action State Bool
  link_found pr none = pure false
  link_found pr (some i) = do calls (link pr i.id) (err_internal "link issue failed"); pure true

  -- The loop over the keys; the result is those that were linked.
  unfoldable pub link_each : Project → String → List (List ℕ) → Action State (List (List ℕ))
  unfolding resolve_issue_key link_found
  link_each project pr [] = pure []
  link_each project pr (key ∷ keys) = do
    i ← resolve_issue_key project key
    linked ← link_found pr i
    rest ← link_each project pr keys
    pure (if linked then key ∷ rest else rest)

  unfoldable pub link_referenced_issues : Project → PullRequest → Action State (List (List ℕ))
  unfolding link_each extract_issue_keys
  link_referenced_issues project pr = link_each project pr.id (
      extract_issue_keys
        (codes (concat pr.title (concat "\n" (concat pr.body (concat "\n" pr.head_branch))))))

  -- An open issue is done.
  unfoldable pub close_issue : String → Option Issue → Action State (Unit {0})
  unfolding is_terminal record_event
  close_issue user none = pure tt
  close_issue user (some i) = whenever (not (is_terminal i.status)) (do
    writes (update_issue (record i { status = "done" })) (err_internal "close issue failed")
    record_event i.id user "status" i.status "done")

  unfoldable pub close_each : String → Project → List (List ℕ) → Action State (Unit {0})
  unfolding resolve_issue_key close_issue
  close_each user project [] = pure tt
  close_each user project (key ∷ keys) = do
    i ← resolve_issue_key project key
    close_issue user i
    close_each user project keys

  unfoldable pub apply_close_intents : String → PullRequest → Action State (Unit {0})
  unfolding close_each parse_close_intents
  apply_close_intents user pr = do
    project ←
        reads (λ s. required (get_project pr.project_id s) (err_internal "get project failed"))
    close_each user project (parse_close_intents (codes (concat pr.title (concat "\n" pr.body))))

  -- What follows the write of the row.
  unfoldable pub refer :
      String → Project → String → String → PullRequest → Action State (PullRequest × List (List ℕ))
  unfolding link_referenced_issues apply_close_intents
  refer user project state previous pr = do
    linked ← link_referenced_issues project pr
    whenever (str_eq state state_merged && not (str_eq previous state_merged))
        (apply_close_intents user pr)
    pure (pr, linked)

  unfoldable pub write_row :
      String
      → String
      → UpsertInput
      → String
      → Project
      → String
      → Action State (PullRequest × List (List ℕ))
  unfolding refer
  write_row user project_id u state project previous = do
    pr ←
        writes
          (upsert (record {
            id = "";
            project_id = project_id;
            repo = u.repo;
            number = u.number;
            title = u.title;
            body = u.body;
            head_branch = u.head_branch;
            state = state;
            merged_at = none;
            created_by = user;
          }))
          (err_internal "upsert pull request failed")
    refer user project state previous pr

  -- With a state that is valid.
  unfoldable pub upsert_as :
      String → String → UpsertInput → String → Action State (PullRequest × List (List ℕ))
  unfolding write_row
  upsert_as user project_id u state = do
    project ← reads (λ s. required (get_project project_id s) (err_internal "get project failed"))
    previous ← reads (λ s. state_of (by_number project_id u.repo u.number s))
    write_row user project_id u state project previous

  unfoldable pub upsert_pull_request :
      String → String → UpsertInput → Action State (PullRequest × List (List ℕ))
  unfolding require_project_role is_blank upsert_as
  upsert_pull_request user project_id u = do
    require_project_role user project_id "member"
    guard (ltb_ℤ (pos 0) u.number) (err_invalid "pull request number must be positive")
    guard (not (is_blank u.title)) (err_invalid "pull request title is required")
    guard (valid_state (or_open u.state))
        (err_invalid (concat "unknown pull request state: " (or_open u.state)))
    upsert_as user project_id u (or_open u.state)

  unfoldable pub require_pr_member : String → String → Action State (Unit {0})
  unfolding require_project_role
  require_pr_member user id = do
    pr ← reads (λ s.
        checked (get id s) (err_not_found "pull request not found")
          (err_internal "get pull request failed"))
    require_project_role user pr.project_id "member"

  unfoldable pub update_state : ℕ → String → String → String → Action State PullRequest
  unfolding require_pr_member apply_close_intents
  update_state now user id state = do
    require_pr_member user id
    guard (valid_state state) (err_invalid (concat "unknown pull request state: " state))
    old ← reads (λ s. required (get id s) (err_internal "get pull request failed"))
    let merges = str_eq state state_merged && not (str_eq old.state state_merged)
    pr ←
        writes (set_state id state (if merges then some now else none))
          (err_internal "update pull request failed")
    whenever merges (apply_close_intents user pr)
    pure pr

  unfoldable pub get_pull_request : String → String → Action State (PullRequest × List (List ℕ))
  unfolding require_pr_member
  get_pull_request user id = do
    require_pr_member user id
    pr ← reads (λ s. required (get id s) (err_internal "get pull request failed"))
    keys ← reads (λ s. listed (linked_keys id s) "list linked issues failed")
    pure (pr, keys)

  unfoldable pub list_issue_pull_requests : String → String → Action State (List PullRequest)
  unfolding require_project_role
  list_issue_pull_requests user issue = do
    i ← reads (λ s.
        checked (get_issue issue s) (err_not_found "issue not found")
          (err_internal "get issue failed"))
    require_project_role user i.project_id "member"
    reads (λ s. listed (for_issue issue s) "list issue pull requests failed")
