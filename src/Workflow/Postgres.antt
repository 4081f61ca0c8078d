-- ===== src/Workflow/Postgres.antt =====
-- backend/internal/store/postgres/workflow.go: the tables of the workflow and the statements over
-- them, with the constraints of migrations 0005 to 0007. Rows stand in the order of insertion; ids
-- come from `new_id`, as from gen_random_uuid(); `now` is the transaction's time. Foreign keys are
-- taken to hold and connections not to fail.
pub mod Versions
pub mod Listing
pub mod Verify
use spec_powers.Prelude.{
  ℕ, zero, suc, String, Bool, true, false, not, ◌&&◌, ◌||◌, Option, none, some, List, [], ◌∷◌, ◌++◌,
  map, any, find, select, ltb, ◌==◌, str_eq, if◌then◌else◌,
}
use spec_powers.Prelude.Int.{ltb_ℤ, eq_ℤ}
use spec_powers.Domain.{Project, ProjectMember, Issue, Change, ChangeHandoff, Artifact, TaskMapping}
use spec_powers.Api.{Stored, found, missing, failed}
use spec_powers.Workflow.Stores.{Stores}
use spec_powers.Workflow.Phases.{is_valid_kind, kind_verify}

pub record Db : Type 0 where
  pub changes : List Change
  pub handoffs : List ChangeHandoff
  pub artifacts : List Artifact
  pub mappings : List TaskMapping
  pub serial : ℕ
  pub now : ℕ

-- `scan…` of a query for one row: `pgx.ErrNoRows` is `store.ErrNotFound`.
abbrev pub one_row : {A : Type 0} → Option A → Stored A
one_row none = missing
one_row (some a) = found a

unfoldable pub get_change : String → Db → Stored Change
get_change id d = one_row (find (λ (c : Change). str_eq c.id id) d.changes)

unfoldable pub get_change_by_issue : String → Db → Stored Change
get_change_by_issue issue d = one_row (find (λ (c : Change). str_eq c.issue_id issue) d.changes)

-- `phase` and `status` take their column defaults; `issue_id` is UNIQUE.
unfoldable pub create_change : (ℕ → String) → Change → Db → Stored Change × Db
create_change new_id c d =
    let row = record c { id = new_id d.serial; phase = "proposal"; status = "active" } in
    if any (λ (x : Change). str_eq x.issue_id c.issue_id) d.changes
    then (failed, d)
    else (found row, record d { changes = d.changes ++ row ∷ []; serial = suc d.serial })

abbrev valid_status : String → Bool
valid_status s = str_eq s "active" || str_eq s "archived" || str_eq s "failed"

abbrev set_phase : Change → Change → Change
set_phase c x = if str_eq x.id c.id then record x { phase = c.phase; status = c.status } else x

unfoldable pub update_change : Change → Db → Stored Change × Db
unfolding get_change is_valid_kind
update_change c d =
    let d' = record d { changes = map (set_phase c) d.changes } in
    let found_row = any (λ (x : Change). str_eq x.id c.id) d.changes in
    if found_row && not (is_valid_kind c.phase && valid_status c.status)
    then (failed, d)
    else (get_change c.id d', d')

-- `created_at` is now, unless the caller sets it; `to_phase` is checked too.
unfoldable pub create_handoff : (ℕ → String) → ChangeHandoff → Db → Stored ChangeHandoff × Db
unfolding is_valid_kind
create_handoff new_id h d =
    let row = record h {
      id = new_id d.serial;
      created_at = if h.created_at == 0 then d.now else h.created_at;
    } in
    if is_valid_kind h.from_phase && is_valid_kind h.to_phase && not (str_eq h.to_phase "proposal")
    then (found row, record d { handoffs = d.handoffs ++ row ∷ []; serial = suc d.serial })
    else (failed, d)

-- `ORDER BY created_at DESC`; rows of one time come last inserted first, which stands for the order
-- of their ids.
insert_latest : ChangeHandoff → List ChangeHandoff → List ChangeHandoff
insert_latest h [] = h ∷ []
insert_latest h (x ∷ xs) =
    let rest = insert_latest h xs in if ltb h.created_at x.created_at then x ∷ rest else h ∷ x ∷ xs

newest_first : List ChangeHandoff → List ChangeHandoff → List ChangeHandoff
unfolding insert_latest
newest_first sorted [] = sorted
newest_first sorted (h ∷ hs) = newest_first (insert_latest h sorted) hs

unfoldable pub list_handoffs : String → Db → Option (List ChangeHandoff)
unfolding newest_first
list_handoffs change d =
    some (newest_first [] (select (λ (h : ChangeHandoff). str_eq h.change_id change) d.handoffs))

-- `WHERE change_id = $1 AND kind = $2`.
abbrev pub of_kind : String → String → Artifact → Bool
of_kind change kind a = str_eq a.change_id change && str_eq a.kind kind

-- `MAX(version)` over such rows, 0 if there is none.
unfoldable pub max_version : String → String → List Artifact → ℕ
max_version change kind [] = 0
max_version change kind (a ∷ rows) =
    let m = max_version change kind rows in
    if of_kind change kind a && ltb m a.version then a.version else m

unfoldable pub create_artifact : (ℕ → String) → Artifact → Db → Stored Artifact × Db
unfolding is_valid_kind
create_artifact new_id a d =
    let row = record a {
      id = new_id d.serial;
      version = suc (max_version a.change_id a.kind d.artifacts);
      created_at = d.now;
    } in
    if is_valid_kind a.kind || str_eq a.kind kind_verify
    then (found row, record d { artifacts = d.artifacts ++ row ∷ []; serial = suc d.serial })
    else (failed, d)

abbrev pub of_version : String → String → ℕ → Artifact → Bool
of_version change kind version a = of_kind change kind a && a.version == version

-- Version 0 selects the latest; a row's version is at least 1.
unfoldable pub get_artifact : String → String → ℕ → Db → Stored Artifact
get_artifact change kind zero d =
    one_row (find (of_version change kind (max_version change kind d.artifacts)) d.artifacts)
get_artifact change kind (suc v) d = one_row (find (of_version change kind (suc v)) d.artifacts)

-- `collectArtifacts` over rows of `columns` columns with `targets` scan targets: the driver accepts
-- a scan or ends the query with an error.
unfoldable pub collect : (ℕ → ℕ → Bool) → ℕ → ℕ → List Artifact → Option (List Artifact)
collect accepts columns targets [] = some []
collect accepts columns targets (a ∷ rows) =
    let rest = collect accepts columns targets rows in
    if accepts columns targets then elim rest [ none ↦ none | some l ↦ some (a ∷ l) ] else none

-- The columns of `qualifiedArtifactColumns` and `artifactColumns`, and the targets that
-- `collectArtifacts` scans them into.
abbrev pub artifact_columns : ℕ
artifact_columns = 8

abbrev pub artifact_targets : ℕ
artifact_targets = 7

-- The rows of the latest versions, the kinds in their canonical order, verify reports last.
latest_of : String → String → List Artifact → List Artifact
latest_of change kind rows = select (of_version change kind (max_version change kind rows)) rows

unfoldable pub latest_rows : String → List Artifact → List Artifact
unfolding latest_of
latest_rows change rows =
    latest_of change "proposal" rows
    ++ (latest_of change "specs" rows
        ++ (latest_of change "design" rows
            ++ (latest_of change "tasks" rows ++ latest_of change kind_verify rows)))

unfoldable pub list_artifacts : (ℕ → ℕ → Bool) → String → Db → Option (List Artifact)
list_artifacts accepts change d =
    collect accepts artifact_columns artifact_targets (latest_rows change d.artifacts)

-- The versions of a kind are inserted in their order.
last_first : List Artifact → List Artifact → List Artifact
last_first done [] = done
last_first done (a ∷ rows) = last_first (a ∷ done) rows

unfoldable pub list_artifact_versions :
    (ℕ → ℕ → Bool) → String → String → Db → Option (List Artifact)
unfolding last_first
list_artifact_versions accepts change kind d =
    collect accepts artifact_columns artifact_targets
      (last_first [] (select (of_kind change kind) d.artifacts))

-- `ORDER BY stage, position`.
abbrev staged_before : TaskMapping → TaskMapping → Bool
staged_before m x = ltb_ℤ m.stage x.stage || (eq_ℤ m.stage x.stage && ltb_ℤ m.position x.position)

insert_staged : TaskMapping → List TaskMapping → List TaskMapping
insert_staged m [] = m ∷ []
insert_staged m (x ∷ xs) =
    let rest = insert_staged m xs in if staged_before m x then m ∷ x ∷ xs else x ∷ rest

by_stage : List TaskMapping → List TaskMapping → List TaskMapping
unfolding insert_staged
by_stage sorted [] = sorted
by_stage sorted (m ∷ ms) = by_stage (insert_staged m sorted) ms

unfoldable pub list_task_mappings : String → Db → Option (List TaskMapping)
unfolding by_stage
list_task_mappings change d =
    some (by_stage [] (select (λ (m : TaskMapping). str_eq m.change_id change) d.mappings))

-- The insertions, one by one; `issue_id` is UNIQUE.
insert_mappings : String → String → List TaskMapping → List TaskMapping → Option (List TaskMapping)
insert_mappings change artifact [] rows = some rows
insert_mappings change artifact (m ∷ items) rows =
    let next =
      insert_mappings change artifact items
        (rows ++ record m { change_id = change; artifact_id = artifact } ∷ []) in
    if any (λ (x : TaskMapping). str_eq x.issue_id m.issue_id) rows then none else next

-- One transaction: the change's rows are deleted, and the items inserted, or nothing happens.
unfoldable pub set_task_mappings : String → String → List TaskMapping → Db → Bool × Db
unfolding insert_mappings
set_task_mappings change artifact items d =
    elim (insert_mappings change artifact items
      (select (λ (m : TaskMapping). not (str_eq m.change_id change)) d.mappings)) [
        | none ↦ (false, d)
        | some rows ↦ (true, record d { mappings = rows })
      ]

-- The collaborators of the workflow service that other tables stand behind.
pub record Others : Type 0 where
  pub issue : String → Db → Stored Issue
  pub project : String → Db → Stored Project
  pub project_member : String → String → Db → Stored ProjectMember
  pub agents : Option (String → Db → Bool)
  pub waker : Option (String → String → Db → Bool × Db)
  pub hook : Option (Issue → Db → Bool × Db)

-- The stores that cmd/spd gives to the service.
abbrev pub pg_stores : (ℕ → String) → (ℕ → ℕ → Bool) → Others → Stores
pg_stores new_id accepts o = record {
  State = Db;
  get_change = get_change;
  get_change_by_issue = get_change_by_issue;
  create_change = create_change new_id;
  update_change = update_change;
  create_handoff = create_handoff new_id;
  list_handoffs = list_handoffs;
  create_artifact = create_artifact new_id;
  get_artifact = get_artifact;
  list_artifacts = list_artifacts accepts;
  list_artifact_versions = list_artifact_versions accepts;
  list_task_mappings = list_task_mappings;
  get_issue = o.issue;
  get_project = o.project;
  get_project_member = o.project_member;
  agent_access = o.agents;
  wakeups = o.waker;
  wakeup_hook = o.hook;
}
