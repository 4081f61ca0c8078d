-- ===== src/Issue/Tree.antt =====
-- issue/service.go: `validateNewParent`. The walk over the ancestors is a loop without a bound: it runs
-- on fuel here, and `no_answer` stands for a walk that has not ended.
use spec_powers.Prelude.{ℕ, zero, suc, String, true, false, str_eq, if◌then◌else◌}
use spec_powers.Domain.{Issue}
use spec_powers.Api.{
  AppError, err_invalid, err_not_found, err_internal, Stored, Result, ok, err, checked,
}
use spec_powers.Issue.Access.{then_check}

abbrev pub no_answer : AppError
no_answer = record { status = 0; code = "no answer"; message = "" }

abbrev pub parent_row : Stored Issue → Result Issue
parent_row r =
    checked r (err_not_found "parent issue not found") (err_internal "get parent issue failed")

abbrev pub cycle : Result (Unit {0})
cycle = err (err_invalid "parent move would create a cycle")

-- `for ancestor.ParentID != ""`, from an ancestor on; `get` reads an issue.
unfoldable pub climb : ℕ → (String → Stored Issue) → String → Issue → Result (Unit {0})
climb zero get current ancestor = err no_answer
climb (suc fuel) get current ancestor = elim (str_eq ancestor.parent_id "") [
  | true ↦ ok tt
  | false ↦ elim (str_eq ancestor.parent_id current) [
    | true ↦ cycle
    | false ↦ then_check (parent_row (get ancestor.parent_id)) (climb fuel get current)
  ]
]

unfoldable pub climb_from : ℕ → (String → Stored Issue) → Issue → Issue → Result (Unit {0})
climb_from fuel get current parent =
    if str_eq parent.project_id current.project_id
    then climb fuel get current.id parent
    else err (err_invalid "parent issue belongs to another project")

-- `validateNewParent`.
unfoldable pub validate_new_parent :
    ℕ → (String → Stored Issue) → Issue → String → Result (Unit {0})
unfolding climb_from
validate_new_parent fuel get current parent_id =
    if str_eq parent_id ""
    then ok tt
    else if str_eq parent_id current.id
    then err (err_invalid "issue cannot be its own parent")
    else then_check (parent_row (get parent_id)) (climb_from fuel get current)
