-- ===== src/Issue/Update.antt =====
-- issue/service.go: `UpdateIssue`, with the events of the fields that changed, and `DeleteIssue`.
use spec_powers.Prelude.{
  ℕ, String, Bool, true, false, not, ◌&&◌, ◌==◌, Option, none, some, List, [], ◌∷◌, ◌++◌, str_eq,
  is_blank, concat, if◌then◌else◌,
}
use spec_powers.Prelude.Int.{eq_ℤ}
use spec_powers.Domain.{Issue}
use spec_powers.Api.{
  err_invalid, err_not_found, err_internal, Result, ok, err, checked, Action, reads, writes, tries,
  pure, given, calls, whenever, lift, ◌>>=◌, ◌>>◌,
}
use spec_powers.Issue.Stores.{IssueStores, RunTrigger, EventStore}
use spec_powers.Issue.Access.{
  UpdateInput, is_nil, then_check, validate_priority, require_project_role, require_project_issue,
  validate_assignee, squad_leader_override, require_leader, record_event,
}
use spec_powers.Issue.Tree.{validate_new_parent}

abbrev pub or_else : {A : Type 0} → Option A → A → A
or_else none a = a
or_else (some b) a = b

abbrev pub check_title : Option String → Result (Unit {0})
check_title none = ok tt
check_title (some t) = if is_blank t then err (err_invalid "issue title is required") else ok tt

abbrev pub check_priority : Option String → Result (Unit {0})
check_priority none = ok tt
check_priority (some p) = validate_priority p

-- `slices.Equal`, and `strings.Join(l, ",")`.
unfoldable pub same_labels : List String → List String → Bool
same_labels [] [] = true
same_labels [] (y ∷ ys) = false
same_labels (x ∷ xs) [] = false
same_labels (x ∷ xs) (y ∷ ys) = str_eq x y && same_labels xs ys

unfoldable pub join_labels : List String → String
join_labels [] = ""
join_labels (x ∷ []) = x
join_labels (x ∷ y ∷ rest) = concat x (concat "," (join_labels (y ∷ rest)))

-- `dueEqual`.
abbrev pub due_equal : Option ℕ → Option ℕ → Bool
due_equal none none = true
due_equal none (some b) = false
due_equal (some a) none = false
due_equal (some a) (some b) = a == b

-- A field that was given, and whose value changed.
pub record FieldChange : Type 0 where
  pub field : String
  pub old : String
  pub new : String

abbrev pub change_if : Bool → String → String → String → List FieldChange
change_if true field old new = record { field = field; old = old; new = new } ∷ []
change_if false field old new = []

-- The row that is written: the given fields replace those of the current issue.
abbrev pub updated : Issue → UpdateInput → Issue
updated c u = record c {
  title = or_else u.title c.title;
  description = or_else u.description c.description;
  priority = or_else u.priority c.priority;
  assignee_id = or_else u.assignee_id c.assignee_id;
  due_date = elim u.due_date [ none ↦ c.due_date | some d ↦ some d ];
  labels = or_else u.labels c.labels;
  stage = or_else u.stage c.stage;
  position = or_else u.position c.position;
  parent_id = or_else u.parent_id c.parent_id;
}

module _ (st : IssueStores) where
  open st use {State, get_issue, update_issue, delete_issue, events, trigger, due_text, int_text}

  abbrev pub format_due : Option ℕ → String
  format_due none = ""
  format_due (some d) = due_text d

  -- The list `changes` of `recordFieldEvents`.
  unfoldable pub field_changes : Issue → Issue → UpdateInput → List FieldChange
  unfolding same_labels join_labels
  field_changes a b u =
      change_if (not (is_nil u.title) && not (str_eq a.title b.title)) "title" a.title b.title
      ++ (change_if (not (is_nil u.description) && not (str_eq a.description b.description))
            "description" a.description b.description
          ++ (change_if (not (is_nil u.priority) && not (str_eq a.priority b.priority)) "priority"
                a.priority b.priority
              ++ (change_if (not (is_nil u.assignee_id) && not (str_eq a.assignee_id b.assignee_id))
                    "assignee" a.assignee_id b.assignee_id
                  ++ (change_if (not (is_nil u.due_date) && not (due_equal a.due_date b.due_date))
                        "due_date" (format_due a.due_date) (format_due b.due_date)
                      ++ (change_if (not (is_nil u.labels) && not (same_labels a.labels b.labels))
                            "labels" (join_labels a.labels) (join_labels b.labels)
                          ++ (change_if (not (is_nil u.stage) && not (eq_ℤ a.stage b.stage)) "stage"
                                (int_text a.stage) (int_text b.stage)
                              ++ change_if
                                  (not (is_nil u.parent_id) && not (str_eq a.parent_id b.parent_id))
                                  "parent" a.parent_id b.parent_id))))))

  unfoldable pub record_changes : String → String → List FieldChange → Action State (Unit {0})
  record_changes issue user [] = pure tt
  record_changes issue user (c ∷ cs) =
      record_event st issue user c.field c.old c.new >> record_changes issue user cs

  -- `recordFieldEvents`; without a store of events nothing is recorded.
  unfoldable pub record_field_events :
      String → Issue → Issue → UpdateInput → Action State (Unit {0})
  unfolding record_changes field_changes
  record_field_events user a b u =
      given events λ (_ : EventStore State). record_changes b.id user (field_changes a b u)

  unfoldable pub check_assignee : String → Issue → Option String → State → Result (Unit {0})
  check_assignee user current none s = ok tt
  check_assignee user current (some a) s =
      then_check (require_leader st user current a s) (λ _. validate_assignee st a s)

  unfoldable pub check_new_parent : ℕ → Issue → Option String → State → Result (Unit {0})
  check_new_parent fuel current none s = ok tt
  check_new_parent fuel current (some p) s =
      validate_new_parent fuel (λ id. get_issue id s) current p

  -- The squad's leader needs no membership of the project, if only the assignee is touched.
  unfoldable pub may_update : String → Issue → UpdateInput → State → Result (Unit {0})
  may_update user current u s =
      if squad_leader_override st user current u s
      then ok tt
      else require_project_role st user current.project_id "member" s

  -- The reads and checks before the row is written.
  unfoldable pub check_update : ℕ → String → String → UpdateInput → Action State Issue
  unfolding check_assignee check_new_parent may_update is_blank
  check_update fuel user issue u = do
    current ← reads (λ s.
        checked (get_issue issue s) (err_not_found "issue not found")
          (err_internal "get issue failed"))
    reads (may_update user current u)
    lift (check_title u.title)
    lift (check_priority u.priority)
    reads (check_assignee user current u.assignee_id)
    reads (check_new_parent fuel current u.parent_id)
    pure current

  abbrev pub is_reassigned : Issue → Option String → Bool
  is_reassigned current none = false
  is_reassigned current (some a) = not (str_eq a "") && not (str_eq a current.assignee_id)

  -- What follows the write.
  unfoldable pub after_update : String → Issue → UpdateInput → Issue → Action State Issue
  unfolding record_field_events
  after_update user current u saved = do
    record_field_events user current saved u
    given trigger λ (t : RunTrigger State).
        whenever (is_reassigned current u.assignee_id)
          (calls (t.assigned saved) (err_internal "notify assignment failed"))
    pure saved

  unfoldable pub update_issue_for : ℕ → String → String → UpdateInput → Action State Issue
  update_issue_for fuel user issue u = do
    current ← check_update fuel user issue u
    saved ← writes (update_issue (updated current u)) (err_internal "update issue failed")
    after_update user current u saved

  unfoldable pub delete_issue_for : String → String → Action State (Unit {0})
  delete_issue_for user issue = do
    require_project_issue st user issue
    tries (delete_issue issue) (err_not_found "issue not found")
        (err_internal "delete issue failed")
