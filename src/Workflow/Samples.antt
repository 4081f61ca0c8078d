-- ===== src/Workflow/Samples.antt =====
-- A change with its artifacts, handoff and verify report, and the theorems at it.
use spec_powers.Prelude.{
  ℕ, zero, suc, String, ◌≡◌, ◌≢◌, refl, Bool, true, false, none, some, List, [], ◌∷◌, ◌++◌, all,
  take, arith, ◌==◌,
}
use spec_powers.Prelude.Int.{pos}
use spec_powers.Domain.{Project, ProjectMember, Issue, Change, ChangeHandoff, Artifact}
use spec_powers.Api.{ok, found}
use spec_powers.Workflow.Phases.{next_phase, phase_order, phase_index}
use spec_powers.Workflow.Stores.{Stores, Yaml, mapping, report}
use spec_powers.Workflow.Access.{require_change_role, require_project_role}
use spec_powers.Workflow.Guard.{
  GuardReport, guard_status, report_on, make_report, phase_legal, handoff_fresh, verify_passed,
  parse_verify_report, has_kind, missing_kinds, stale_kind, kinds_before,
}
use spec_powers.Workflow.Advance.{
  advance_phase, record_advance, archive, record_archive, submit_verify_report,
}
use spec_powers.Workflow.Gates.{can_advance-passes}
use spec_powers.Workflow.Moved.{Moved}
use spec_powers.Workflow.Archived.{IsArchivable, archive-IsArchivable, advance-next_phase}
use spec_powers.Workflow.Postgres.{
  Db, Others, pg_stores, create_artifact, get_artifact, get_change, update_change, create_handoff,
  list_handoffs, list_artifacts, latest_rows, max_version, collect,
}
use spec_powers.Workflow.Postgres.Versions.{get-create_artifact}
use spec_powers.Workflow.Postgres.Verify.{verify_passed-submit}
use spec_powers.Workflow.Postgres.Listing.{advance_never}

abbrev pub new_id : ℕ → String
new_id zero = "a"
new_id (suc n) = "b"

-- A driver that takes any scan, and one that wants as many targets as columns.
abbrev any_arity : ℕ → ℕ → Bool
any_arity columns targets = true

abbrev equal_arity : ℕ → ℕ → Bool
equal_arity columns targets = columns == targets

-- The content of a document is its result.
abbrev plain_yaml : Yaml
plain_yaml = record {
  as_map = λ content. mapping;
  as_report = λ content. report (record { result = content; summary = "" });
}

abbrev the_project : Project
the_project = record { id = "p1"; workspace_id = "w1" }

abbrev the_member : ProjectMember
the_member = record { project_id = "p1"; user_id = "ann"; role = "member" }

abbrev pub root_issue : Issue
root_issue = record {
  id = "i1";
  project_id = "p1";
  parent_id = "";
  title = "Split";
  description = "";
  status = "todo";
  priority = "none";
  assignee_id = "";
  due_date = none;
  labels = [];
  stage = pos 0;
  position = pos 0;
  created_by = "ann";
}

abbrev others : Others
others = record {
  issue = λ id d. found root_issue;
  project = λ id d. found the_project;
  project_member = λ project user d. found the_member;
  agents = none;
  waker = some (λ parent child d. (true, d));
  hook = none;
}

abbrev artifact : String → ℕ → String → Artifact
artifact kind version content = record {
  id = kind;
  change_id = "c1";
  kind = kind;
  version = version;
  content = content;
  created_by = "ann";
  run_id = "";
  created_at = version;
}

abbrev pub at_phase : String → Change
at_phase phase = record {
  id = "c1";
  project_id = "p1";
  issue_id = "i1";
  phase = phase;
  status = "active";
  created_by = "ann";
}

abbrev handed_to : String → ChangeHandoff
handed_to phase = record {
  id = "h";
  change_id = "c1";
  from_phase = "design";
  to_phase = phase;
  created_by = "ann";
  created_at = 9;
}

abbrev complete : Db
complete = record {
  changes = at_phase "tasks" ∷ [];
  handoffs = handed_to "tasks" ∷ [];
  artifacts =
      artifact "proposal" 1 "a"
      ∷ artifact "specs" 1 "b"
      ∷ artifact "design" 1 "c"
      ∷ artifact "tasks" 1 "d"
      ∷ artifact "verify" 1 "pass"
      ∷ [];
  mappings = [];
  serial = 0;
  now = 10;
}

abbrev pub proposed : Db
proposed = record complete { changes = at_phase "proposal" ∷ [] }

abbrev pub working : Stores
working = pg_stores new_id any_arity others

abbrev archived : Change
archived = record (at_phase "tasks") { status = "archived" }

archive_works : (archive working plain_yaml "ann" "c1" complete).0 ≡ ok archived
unfolding archive require_change_role get_change require_project_role phase_legal phase_index
    phase_order list_artifacts collect latest_rows max_version missing_kinds handoff_fresh
    list_handoffs stale_kind kinds_before verify_passed get_artifact parse_verify_report
    record_archive update_change
archive_works = refl

-- The reports of the two states.
abbrev ready_report : GuardReport
ready_report = record {
  change_id = "c1";
  phase = "tasks";
  next = none;
  legal = true;
  fresh = true;
  passed = true;
  can_advance = false;
  can_archive = true;
  reasons = [];
}

abbrev proposed_report : GuardReport
proposed_report = record {
  change_id = "c1";
  phase = "proposal";
  next = some "specs";
  legal = true;
  fresh = true;
  passed = true;
  can_advance = true;
  can_archive = false;
  reasons = [];
}

ready : (guard_status working plain_yaml "ann" "c1" complete).0 ≡ ok ready_report
unfolding guard_status report_on make_report next_phase require_change_role get_change
    require_project_role phase_legal phase_index phase_order list_artifacts collect latest_rows
    max_version missing_kinds handoff_fresh list_handoffs stale_kind kinds_before verify_passed
    get_artifact parse_verify_report
ready = refl

proposed_ready : (guard_status working plain_yaml "ann" "c1" proposed).0 ≡ ok proposed_report
unfolding guard_status report_on make_report next_phase require_change_role get_change
    require_project_role phase_legal phase_index phase_order list_artifacts collect latest_rows
    max_version missing_kinds handoff_fresh list_handoffs stale_kind kinds_before verify_passed
    get_artifact parse_verify_report
proposed_ready = refl

can_advance-passes_example :
    (c : Change) × (next : String) × (working.get_change "c1" proposed ≡ found c)
    × (proposed_report.next ≡ some next)
    × (advance_phase working "ann" "c1" proposed ≡ record_advance working "ann" c next proposed)
can_advance-passes_example =
    can_advance-passes working plain_yaml "ann" "c1" proposed {r = proposed_report} proposed_ready
      refl

archive-IsArchivable_example :
    (c : Change) × (working.get_change "c1" complete ≡ found c)
    × (archived ≡ record c { status = "archived" })
    × IsArchivable working plain_yaml c complete
archive-IsArchivable_example =
    archive-IsArchivable working plain_yaml "ann" "c1" complete archived archive_works

abbrev handoff : ChangeHandoff
handoff = record {
  id = "a";
  change_id = "c1";
  from_phase = "proposal";
  to_phase = "specs";
  created_by = "ann";
  created_at = 10;
}

advance_works : (advance_phase working "ann" "c1" proposed).0 ≡ ok (at_phase "specs", handoff)
unfolding advance_phase next_phase record_advance update_change create_handoff require_change_role
    get_change require_project_role phase_legal phase_index phase_order list_artifacts collect
    latest_rows max_version missing_kinds handoff_fresh list_handoffs stale_kind kinds_before
    verify_passed get_artifact parse_verify_report
advance_works = refl

advance-next_phase_example :
    (c : Change) × (idx : ℕ) × (rows : List Artifact) × (working.get_change "c1" proposed ≡ found c)
    × (c.status ≡ "active")
    × (next_phase c.phase ≡ some "specs")
    × (at_phase "specs" ≡ record c { phase = "specs" })
    × Moved working "ann" proposed c
        (at_phase "specs")
        handoff
        (advance_phase working "ann" "c1" proposed).1
    × (phase_index c.phase ≡ some idx)
    × (working.list_artifacts c.id proposed ≡ some rows)
    × (all (has_kind rows) (take (suc idx) phase_order) ≡ true)
advance-next_phase_example =
    advance-next_phase working "ann" "c1" proposed (at_phase "specs") handoff advance_works

-- A second version of the specs.
abbrev second : Artifact
second = record (artifact "specs" 2 "b2") { id = "a"; created_at = 10 }

second_written :
    create_artifact new_id (artifact "specs" 0 "b2") complete
    ≡ (found second, record complete { artifacts = complete.artifacts ++ second ∷ []; serial = 1 })
unfolding create_artifact max_version
second_written = refl

get-create_artifact_example :
    (get_artifact "c1" "specs" 0
        (record complete { artifacts = complete.artifacts ++ second ∷ []; serial = 1 })
      ≡ found second)
    × (second.version ≡ suc (max_version "c1" "specs" complete.artifacts))
    × (second.content ≡ "b2")
get-create_artifact_example =
    get-create_artifact new_id (artifact "specs" 0 "b2") complete second_written

abbrev resubmitted : Artifact
resubmitted = record (artifact "verify" 2 "fail") { id = "a"; created_at = 10 }

abbrev failing : Db
failing = record complete { artifacts = complete.artifacts ++ resubmitted ∷ []; serial = 1 }

submit_works :
    submit_verify_report working plain_yaml "ann" "c1" "fail" "" complete
    ≡ (ok (resubmitted, false), failing)
unfolding submit_verify_report create_artifact max_version require_change_role get_change
    require_project_role parse_verify_report
submit_works = refl

verify_passed-submit_example :
    (c : Change) × (require_change_role working "ann" "c1" complete ≡ (ok c, complete))
    × ((verify_passed working plain_yaml c.id failing).0 ≡ false)
verify_passed-submit_example =
    verify_passed-submit new_id any_arity others plain_yaml "ann" "c1" "fail" "" complete failing
      resubmitted false submit_works

equal_arity_mismatch :
    (columns targets : ℕ) → columns ≢ targets → equal_arity columns targets ≡ false
equal_arity_mismatch columns targets h = ground arith

advance_never_example :
    (advance_phase (pg_stores new_id equal_arity others) "ann" "c1" proposed).0
    ≢ ok (at_phase "specs", handoff)
advance_never_example =
    advance_never new_id equal_arity equal_arity_mismatch others "ann" "c1" proposed
      (at_phase "specs", handoff)
