-- ===== src/Issue/Postgres.antt =====
-- store/postgres/issues.go, statuses.go, subscribers.go and issue_events.go: the tables of issues and
-- the statements over them, with the constraints of migrations 0003, 0013 and 0014. Rows stand in the
-- order of insertion, which is that of `created_at`; ids come from `new_id`, as from
-- gen_random_uuid(). A uuid column holds the canonical spelling of an id and compares with any
-- spelling; `uuid` is how the server reads a text as a uuid, and `none` is a text that it refuses. The
-- issue, parent, assignee and user that a caller names are read so; the other ids come from the
-- tables themselves and are compared as they stand. The foreign key of the assignee is checked, since
-- the service lets other ids through; the other foreign keys are taken to hold and connections not to
-- fail.
use spec_powers.Prelude.{
  ℕ, suc, String, Bool, true, false, not, ◌&&◌, ◌||◌, Option, none, some, List, [], ◌∷◌, ◌++◌, map,
  any, find, select, ◌==◌, ◌*◌, ◌/◌, str_eq, all, codes, if◌then◌else◌,
}
use spec_powers.Prelude.Int.{ℤ, ltb_ℤ, eq_ℤ, suc_ℤ}
use spec_powers.Domain.{Project, ProjectMember, Issue, WorkspaceStatus, IssueEvent, Squad}
use spec_powers.Api.{Stored, found, missing, failed}
use spec_powers.Notification.Fanout.{Sink}
use spec_powers.Issue.Status.{
  is_valid_status, is_valid_priority, is_valid_status_category, default_directory,
}
use spec_powers.Issue.Stores.{IssueFilter, RunTrigger, IssueStores}
use spec_powers.Issue.Children.{sort_children}

pub record IssueDb : Type 0 where
  pub issues : List Issue
  pub wakeups : List (String × String)
  pub statuses : List WorkspaceStatus
  pub events : List IssueEvent
  pub subscribers : List (String × String)
  pub users : List String
  pub serial : ℕ
  pub uuid : String → Option String

abbrev pub one : {A : Type 0} → Option A → Stored A
one none = missing
one (some a) = found a

abbrev pub has_text : String → List String → Bool
has_text t ts = any (λ x. str_eq x t) ts

-- `length(btrim(t)) = 0`.
abbrev pub only_spaces : String → Bool
only_spaces t = all (λ c. c == 32) (codes t)

-- The row with an id in its canonical spelling.
unfoldable pub row_at : String → IssueDb → Stored Issue
row_at id d = one (find (λ (i : Issue). str_eq i.id id) d.issues)

-- `WHERE id = $1`.
unfoldable pub get_issue : String → IssueDb → Stored Issue
unfolding row_at
get_issue id d = elim (d.uuid id) [ none ↦ failed | some k ↦ row_at k d ]

abbrev pub or_default : String → String → String
or_default t default = if str_eq t "" then default else t

-- `NULLIF($n, '')::uuid`, read back as text; a text that is no uuid stays as it is and fits no key.
abbrev pub spelled : IssueDb → String → String
spelled d t = if str_eq t "" then "" else elim (d.uuid t) [ none ↦ t | some k ↦ k ]

-- The day of an instant in nanoseconds, at midnight: the column is a date.
abbrev pub on_day : Option ℕ → Option ℕ
on_day none = none
on_day (some t) = some (t / 86_400_000_000_000 * 86_400_000_000_000)

-- `normalizeForWrite`, with what the columns make of the ids and of the due date.
unfoldable pub normalize : IssueDb → Issue → Issue
normalize d i = record i {
  status = or_default i.status "todo";
  priority = or_default i.priority "none";
  parent_id = spelled d i.parent_id;
  assignee_id = spelled d i.assignee_id;
  due_date = on_day i.due_date;
}

-- The CHECK constraints, and `assignee_id uuid REFERENCES users`.
unfoldable pub fits_table : IssueDb → Issue → Bool
unfolding is_valid_status is_valid_priority
fits_table d i =
    not (only_spaces i.title)
    && is_valid_status i.status
    && is_valid_priority i.priority
    && (str_eq i.assignee_id "" || has_text i.assignee_id d.users)

unfoldable pub create_issue : (ℕ → String) → Issue → IssueDb → Stored Issue × IssueDb
unfolding normalize fits_table
create_issue new_id i d =
    let row = record (normalize d i) { id = new_id d.serial } in
    if fits_table d row
    then (found row, record d { issues = d.issues ++ row ∷ []; serial = suc d.serial })
    else (failed, d)

-- `SET … WHERE id = $1`: the project and the creator stay.
abbrev pub rewrite : IssueDb → String → Issue → Issue → Issue
rewrite d k i x =
    if str_eq x.id k
    then record (normalize d i) { id = x.id; project_id = x.project_id; created_by = x.created_by }
    else x

unfoldable pub update_at : String → Issue → IssueDb → Stored Issue × IssueDb
unfolding normalize fits_table row_at
update_at k i d =
    let d' = record d { issues = map (rewrite d k i) d.issues } in
    if any (λ (x : Issue). str_eq x.id k) d.issues
    then (if fits_table d (normalize d i) then (row_at k d', d') else (failed, d))
    else (missing, d)

unfoldable pub update_issue : Issue → IssueDb → Stored Issue × IssueDb
unfolding update_at
update_issue i d = elim (d.uuid i.id) [ none ↦ (failed, d) | some k ↦ update_at k i d ]

abbrev pub is_any : {A : Type 0} → (A → Bool) → Option A → Bool
is_any p none = true
is_any p (some a) = p a

-- The WHERE clause of `ListIssues`, but for the search by a keyword.
unfoldable pub matches : String → IssueFilter → Issue → Bool
matches project f i =
    str_eq i.project_id project
    && is_any (λ (p : String). str_eq i.parent_id p) f.parent_id
    && (str_eq f.status "" || str_eq i.status f.status)
    && is_any (λ (n : ℤ). eq_ℤ i.stage n) f.stage
    && (str_eq f.label "" || has_text f.label i.labels)

-- `ORDER BY stage, position, created_at`: the sort keeps the order of insertion in ties.
unfoldable pub list_issues : String → IssueFilter → IssueDb → Option (List Issue)
unfolding matches sort_children
list_issues project f d = some (sort_children (select (matches project f) d.issues))

-- `COALESCE(MAX(position) + 1, 0)` over the siblings.
abbrev pub is_sibling : String → String → ℤ → Issue → Bool
is_sibling project parent stage i =
    str_eq i.project_id project && eq_ℤ i.stage stage && str_eq i.parent_id parent

max_position : List Issue → Option ℤ
max_position [] = none
max_position (i ∷ rows) = elim (max_position rows) [
  | none ↦ some i.position
  | some m ↦ if ltb_ℤ m i.position then some i.position else some m
]

abbrev after_max : Option ℤ → ℤ
after_max none = ℤ.pos 0
after_max (some m) = suc_ℤ m

unfoldable pub next_position : String → String → ℤ → IssueDb → Option ℤ
unfolding max_position
next_position project parent stage d =
    some (after_max (max_position (select (is_sibling project parent stage) d.issues)))

abbrev pub has_pair : String → String → List (String × String) → Bool
has_pair a b ps = any (λ (p : String × String). str_eq p.0 a && str_eq p.1 b) ps

-- `ON CONFLICT … DO NOTHING`.
unfoldable pub create_wakeup : String → String → IssueDb → Bool × IssueDb
create_wakeup parent child d =
    if has_pair parent child d.wakeups
    then (true, d)
    else (true, record d { wakeups = d.wakeups ++ (parent, child) ∷ [] })

-- `ensureSeeded`.
abbrev pub in_workspace : String → WorkspaceStatus → Bool
in_workspace w x = str_eq x.workspace_id w

unfoldable pub ensure_seeded : String → List WorkspaceStatus → List WorkspaceStatus
unfolding default_directory
ensure_seeded w rows =
    if any (in_workspace w) rows
    then rows
    else rows ++ map (λ (x : WorkspaceStatus). record x { workspace_id = w }) default_directory

-- `ORDER BY position, name`; `before` is the server's order of texts.
insert_status :
    (String → String → Bool) → WorkspaceStatus → List WorkspaceStatus → List WorkspaceStatus
insert_status before x [] = x ∷ []
insert_status before x (y ∷ ys) =
    let rest = insert_status before x ys in
    if ltb_ℤ x.position y.position || (eq_ℤ x.position y.position && before x.name y.name)
    then x ∷ y ∷ ys
    else y ∷ rest

sort_statuses : (String → String → Bool) → List WorkspaceStatus → List WorkspaceStatus
unfolding insert_status
sort_statuses before [] = []
sort_statuses before (x ∷ xs) = insert_status before x (sort_statuses before xs)

abbrev or_built_in : List WorkspaceStatus → List WorkspaceStatus
or_built_in [] = default_directory
or_built_in (x ∷ xs) = x ∷ xs

unfoldable pub list_statuses :
    (String → String → Bool) → String → IssueDb → Option (List WorkspaceStatus)
unfolding sort_statuses
list_statuses before w d =
    some (or_built_in (sort_statuses before (select (in_workspace w) d.statuses)))

abbrev pub same_entry : String → String → WorkspaceStatus → Bool
same_entry w name x = str_eq x.workspace_id w && str_eq x.name name

unfoldable pub upsert_status : WorkspaceStatus → IssueDb → Bool × IssueDb
unfolding ensure_seeded
upsert_status e d =
    let rows = ensure_seeded e.workspace_id d.statuses in
    let same = same_entry e.workspace_id e.name in
    if is_valid_status_category e.category && not (only_spaces e.name)
    then (
      true,
      record d {
        statuses =
            if any same rows then map (λ x. if same x then e else x) rows else rows ++ e ∷ [];
      },
    )
    else (false, record d { statuses = rows })

unfoldable pub delete_status : String → String → IssueDb → Stored (Unit {0}) × IssueDb
unfolding ensure_seeded
delete_status w name d =
    let rows = ensure_seeded w d.statuses in
    let left = record d { statuses = select (λ x. not (same_entry w name x)) rows } in
    if any (same_entry w name) rows then (found tt, left) else (missing, left)

unfoldable pub create_event : IssueEvent → IssueDb → Bool × IssueDb
create_event e d = (true, record d { events = d.events ++ e ∷ [] })

unfoldable pub list_events : String → IssueDb → Option (List IssueEvent)
list_events issue d = some (select (λ (e : IssueEvent). str_eq e.issue_id issue) d.events)

unfoldable pub add_subscriber : String → String → IssueDb → Bool × IssueDb
add_subscriber issue user d =
    if has_pair issue user d.subscribers
    then (true, d)
    else (true, record d { subscribers = d.subscribers ++ (issue, user) ∷ [] })

unfoldable pub remove_subscriber : String → String → IssueDb → Stored (Unit {0}) × IssueDb
remove_subscriber issue user d =
    if has_pair issue user d.subscribers
    then (
      found tt,
      record d {
        subscribers =
            select (λ (p : String × String). not (str_eq p.0 issue && str_eq p.1 user))
              d.subscribers;
      },
    )
    else (missing, d)

unfoldable pub list_subscribers : String → IssueDb → Option (List String)
list_subscribers issue d = some (
    map (λ (p : String × String). p.1)
      (select (λ (p : String × String). str_eq p.0 issue) d.subscribers))

-- What other tables and libraries give to the service.
pub record IssueOthers : Type 0 where
  pub project : String → IssueDb → Stored Project
  pub project_member : String → String → IssueDb → Stored ProjectMember
  pub squad : Option (String → IssueDb → Stored Squad)
  pub run_trigger : Option (RunTrigger IssueDb)
  pub sink : Option (Sink IssueDb)
  pub delete : String → IssueDb → Stored (Unit {0}) × IssueDb
  pub text_before : String → String → Bool
  pub date : ℕ → String
  pub decimal : ℤ → String

abbrev pub get_user : String → IssueDb → Stored (Unit {0})
get_user id d = elim (d.uuid id) [
  | none ↦ failed
  | some k ↦ if has_text k d.users then found tt else missing
]

-- The stores that cmd/spd gives to the service.
abbrev pub pg_issues : (ℕ → String) → IssueOthers → IssueStores
pg_issues new_id o = record {
  State = IssueDb;
  get_issue = get_issue;
  create_issue = create_issue new_id;
  update_issue = update_issue;
  delete_issue = o.delete;
  list_issues = list_issues;
  next_position = next_position;
  create_wakeup = create_wakeup;
  get_project = o.project;
  get_project_member = o.project_member;
  get_user = get_user;
  squads = o.squad;
  statuses = some (record {
    list = list_statuses o.text_before;
    upsert = upsert_status;
    delete = delete_status;
  });
  events = some (record { create = create_event; list = list_events });
  subscribers = some (record { add = add_subscriber; list = list_subscribers });
  trigger = o.run_trigger;
  notifier = o.sink;
  due_text = o.date;
  int_text = o.decimal;
}
