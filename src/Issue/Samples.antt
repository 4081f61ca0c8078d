-- ===== src/Issue/Samples.antt =====
-- The statuses of issues at concrete directories.
use mathlib.Core.List.{Perm}
use spec_powers.Prelude.{
  none, ℕ, ◌≤◌, ◌≢◌, Option, All, find-All, eq_iff, str_eq, if◌then◌else◌, inr, arith, String, ◌≡◌,
  refl, true, false, some, List, [], ◌∷◌,
}
use spec_powers.Prelude.Int.{ℤ, pos}
use spec_powers.Domain.{Issue, WorkspaceStatus}
use spec_powers.Issue.Access.{
  UpdateInput, squad_leader_override, only_assignee, assigned_squad, require_project_role,
  directory_for,
}
use spec_powers.Issue.Update.{
  update_issue_for, check_update, may_update, check_assignee, check_new_parent,
}
use spec_powers.Issue.Tree.{no_answer, validate_new_parent, climb_from, climb}
use spec_powers.Issue.Transition.{transition_status}
use spec_powers.Issue.Children.{sort_children}
use spec_powers.Issue.Sorted.{Rising, sort_children-sorts}
use spec_powers.Issue.Forest.{Rooted, validate_new_parent-answers}
use spec_powers.Issue.Refusals.{Fails, transition-custom_never, update-foreign_never}
use spec_powers.Issue.Spellings.{below, own_parent}
use spec_powers.Issue.Postgres.{
  IssueDb, IssueOthers, one, get_issue, row_at, normalize, fits_table, list_statuses, pg_issues,
}
use spec_powers.Api.{found, missing, ok, err, err_invalid}
use spec_powers.Issue.Status.{
  is_valid_status, statuses, is_terminal_in, status_category, transition_in, default_directory,
  default_status, can_transition, is_terminal, is_valid_priority,
}
use spec_powers.Issue.Machine.{transition_in-allows}

abbrev status : String → String → WorkspaceStatus
status name category = record {
  workspace_id = "w";
  name = name;
  category = category;
  position = pos 0;
}

-- A directory with names of its own.
abbrev board : List WorkspaceStatus
board =
    status "idea" "backlog"
    ∷ status "doing" "in_progress"
    ∷ status "checking" "in_review"
    ∷ status "shipped" "done"
    ∷ status "dropped" "cancelled"
    ∷ []

abbrev shipped : String
shipped = "shipped"

transition_in-allows_example :
    (shipped ≡ shipped)
    × (is_terminal_in board "checking" ≡ false)
    × (status_category board "shipped" ≡ some "done"
        → status_category board "checking" ≡ some "in_review")
unfolding transition_in status_category
transition_in-allows_example = transition_in-allows board "checking" shipped shipped refl

-- What the built-in machine says of single moves.
moves_test :
    (can_transition "backlog" "todo" ≡ true)
    × (can_transition "done" "todo" ≡ false)
    × (is_terminal "cancelled" ≡ true)
    × (is_valid_priority "urgent" ≡ true)
    × (default_status board ≡ "idea")
    × (default_status default_directory ≡ "todo")
unfolding can_transition is_terminal is_valid_priority default_status default_directory
moves_test = (refl, refl, refl, refl, refl, refl)

skip_test :
    transition_in board "idea" "shipped"
    ≡ err (err_invalid "illegal status transition: idea -> shipped")
unfolding transition_in status_category
skip_test = refl

-- Four issues: 1 and 2 are roots, 3 and 4 hang below 1.
abbrev row : String → String → ℕ → Issue
row id parent place = record {
  id = id;
  project_id = "p";
  parent_id = parent;
  title = "t";
  description = "";
  status = "in_progress";
  priority = "none";
  assignee_id = "";
  due_date = none;
  labels = [];
  stage = ℤ.pos 1;
  position = ℤ.pos place;
  created_by = "u";
}

-- A spelling of its own for one id.
abbrev lower : String → String
lower t = if str_eq t "ONE" then "1" else t

abbrev tree : IssueDb
tree = record {
  issues = row "1" "" 0 ∷ row "2" "" 1 ∷ row "3" "1" 1 ∷ row "4" "1" 0 ∷ [];
  wakeups = [];
  statuses = [];
  events = [];
  subscribers = [];
  users = "u" ∷ [];
  serial = 5;
  uuid = λ t. some (lower t);
}

abbrev member : IssueOthers
member = record {
  project = λ id d. found (record { id = id; workspace_id = "w" });
  project_member = λ id user d. found (record { project_id = id; user_id = user; role = "member" });
  squad = some (λ id d.
      if str_eq id "s"
      then found
          (record { id = id; name = "crew"; description = ""; leader_id = "u"; created_by = "ann" })
      else missing);
  run_trigger = none;
  sink = none;
  delete = λ id d. (missing, d);
  text_before = λ a b. false;
  date = λ t. "";
  decimal = λ n. "";
}

abbrev ids : ℕ → String
ids n = "new"

abbrev nothing : UpdateInput
nothing = record {
  title = none;
  description = none;
  priority = none;
  assignee_id = none;
  due_date = none;
  labels = none;
  parent_id = none;
  stage = none;
  position = none;
}

abbrev to_squad : UpdateInput
to_squad = record nothing { assignee_id = some "s" }

-- Issue 1 cannot go below its child 3; it can go below 2.
cycle_test :
    (update_issue_for (pg_issues ids member) 5 "u" "1" (below "3") tree).0
    ≡ err (err_invalid "parent move would create a cycle")
unfolding update_issue_for check_update may_update squad_leader_override only_assignee
    assigned_squad require_project_role check_assignee check_new_parent validate_new_parent
    climb_from climb get_issue
cycle_test = refl

abbrev HasRoot : Issue → Type 0
HasRoot i = (n : ℕ) × Rooted (λ x. get_issue x tree) n i

abbrev first_row : Issue
first_row = row "1" "" 0

tree-HasRoot : All HasRoot tree.issues
unfolding get_issue
tree-HasRoot = (
  (0, refl),
  ((0, refl), ((1, inr (first_row, refl, refl)), ((1, inr (first_row, refl, refl)), tt))),
)

tree-Forest : (id : String) (i : Issue) → get_issue id tree ≡ found i → HasRoot i
unfolding get_issue
tree-Forest id i h =
    find-All HasRoot (λ (x : Issue). str_eq x.id (lower id)) tree.issues i tree-HasRoot
      (of_one _ i h)
  where
    of_one : (o : Option Issue) (a : Issue) → one o ≡ found a → o ≡ some a
    of_one none a e = absurd (ground arith)
    of_one (some b) a e = cc

validate_new_parent-answers_example :
    (rounds : ℕ) × ((fuel : ℕ)
      → rounds ≤ fuel
      → validate_new_parent fuel (λ x. get_issue x tree) (row "1" "" 0) "3" ≢ err no_answer)
validate_new_parent-answers_example =
    validate_new_parent-answers (λ x. get_issue x tree) tree-Forest (row "1" "" 0) "3"

-- A workspace whose directory is the board, in which issue 3 is being worked on.
abbrev boarded : IssueDb
boarded = record tree { statuses = board; issues = record (row "3" "" 0) { status = "doing" } ∷ [] }

move_allowed :
    (dir : List WorkspaceStatus) × (directory_for (pg_issues ids member) "p" boarded ≡ ok dir)
    × (transition_in dir "doing" "checking" ≡ ok "checking")
unfolding directory_for list_statuses transition_in status_category
move_allowed = (
  status "dropped" "cancelled"
      ∷ status "shipped" "done"
      ∷ status "checking" "in_review"
      ∷ status "doing" "in_progress"
      ∷ status "idea" "backlog"
      ∷ [],
  refl,
  refl,
)

member_may : may_update (pg_issues ids member) "u" (row "1" "" 0) (below "ONE") tree ≡ ok tt
unfolding may_update squad_leader_override only_assignee assigned_squad require_project_role
member_may = refl

own_parent_example :
    let r = update_issue_for (pg_issues ids member) 1 "u" "1" (below "ONE") tree in
    (saved : Issue) × (r.0 ≡ ok saved)
    × (row_at "1" r.1 ≡ found saved)
    × (saved.id ≡ "1")
    × (saved.parent_id ≡ "1")
unfolding row_at get_issue normalize fits_table is_valid_status statuses is_valid_priority
own_parent_example =
    own_parent ids member tree (row "1" "" 0) "u" "1" "ONE" 0 refl member_may refl refl refl refl
      (λ e. ground (arith, eq_iff "ONE" "1")) (λ e. ground (arith, eq_iff "ONE" "")) refl

transition-custom_never_example :
    Fails boarded (transition_status (pg_issues ids member) "u" "3" "checking" boarded)
unfolding is_valid_status statuses
transition-custom_never_example =
    transition-custom_never ids member "u" "3" boarded "checking" refl
      (λ e. ground (arith, eq_iff "checking" ""))

update-foreign_never_example :
    Fails tree (update_issue_for (pg_issues ids member) 5 "u" "3" to_squad tree)
update-foreign_never_example =
    update-foreign_never ids member "u" "3" tree 5 to_squad "s" "s" refl refl refl
      (λ e. ground (arith, eq_iff "s" "")) (λ e. ground (arith, eq_iff "s" ""))

sort_children-sorts_example :
    Rising (sort_children tree.issues) × Perm (sort_children tree.issues) tree.issues
sort_children-sorts_example = sort_children-sorts tree.issues
