-- ===== src/Property/Samples.antt =====
-- Checks of definitions and values, and the theorems at a small project.
use spec_powers.Prelude.{
  ℕ, ◌≡◌, refl, true, false, none, some, String, List, [], ◌∷◌, str_eq, codes, is_blank, subst,
  if◌then◌else◌,
}
use mathlib.Core.Option.{some-injective}
use spec_powers.Domain.{Issue}
use spec_powers.Prelude.Int.{pos}
use spec_powers.Api.{ok, err, err_internal, found}
use spec_powers.Workflow.Tasks.{trim}
use spec_powers.Cron.Calendar.{days_in}
use spec_powers.Property.Values.{
  PropertyDefinition, IssuePropertyValue, DefinitionInput, Readers, is_date, validate_definition,
  validate_value, check_options,
}
use spec_powers.Property.Service.{create_definition, set_issue_value, require_project_role}
use spec_powers.Property.Postgres.{PropertyDb, Others, pg_properties}
use spec_powers.Property.Checked.{IsProper, validate_definition-IsProper, create_definition-taken}
use spec_powers.Property.Stored.{Admitted, set_issue_value-Admitted}

dates :
    (is_date (codes "2024-02-29") ≡ true)
    × (is_date (codes "2023-02-29") ≡ false)
    × (is_date (codes "2024-2-9") ≡ false)
    × (is_date (codes "2024-00-10") ≡ false)
unfolding is_date days_in
dates = (refl, refl, refl, refl)

abbrev readers : Readers
readers = record {
  is_number = λ t. str_eq t "7";
  strings = λ t. if str_eq t "[]" then some [] else none;
}

abbrev size : PropertyDefinition
size = record {
  id = "p";
  project_id = "pr";
  name = "size";
  type = "select";
  options = "small" ∷ "large" ∷ [];
  position = 0;
}

abbrev size_again : DefinitionInput
size_again = record { name = " size "; type = "select"; options = "s" ∷ "l" ∷ [] }

size_again-valid : validate_definition size_again ≡ ok (record size_again { name = "size" })
unfolding validate_definition trim check_options is_blank
size_again-valid = refl

validate_definition-IsProper_example :
    (record size_again { name = "size" } ≡ record size_again { name = trim size_again.name })
    × IsProper (record size_again { name = "size" })
validate_definition-IsProper_example =
    validate_definition-IsProper size_again (record size_again { name = "size" }) size_again-valid

abbrev issue : Issue
issue = record {
  id = "i";
  project_id = "pr";
  parent_id = "";
  title = "t";
  description = "";
  status = "todo";
  priority = "none";
  assignee_id = "";
  due_date = none;
  labels = [];
  stage = pos 0;
  position = pos 0;
  created_by = "ann";
}

abbrev tables : PropertyDb
tables = record {
  definitions = size ∷ [];
  values = record { issue_id = "i"; property_id = "p"; value = "small" } ∷ [];
  issues = issue ∷ [];
  serial = 1;
}

abbrev others : Others
others = record {
  readers = readers;
  project = λ id d. found (record { id = id; workspace_id = "w" });
  member = λ id user d. found (record { project_id = id; user_id = user; role = "owner" });
  issue = λ id d. found issue;
}

abbrev new_id : ℕ → String
new_id n = "id"

abbrev ordered : List IssuePropertyValue → List IssuePropertyValue
ordered rows = rows

owner :
    require_project_role (pg_properties new_id ordered others) "ann" "pr" "owner" tables
    ≡ (ok tt, tables)
unfolding require_project_role
owner = refl

create_definition-taken_example :
    create_definition (pg_properties new_id ordered others) "ann" "pr" size_again tables
    ≡ (err (err_internal "create property definition failed"), tables)
create_definition-taken_example =
    create_definition-taken new_id ordered others "ann" "pr" size_again
      (record size_again { name = "size" }) tables owner size_again-valid refl

small-admitted : validate_value readers "select" "small" ("small" ∷ "large" ∷ []) ≡ ok tt
unfolding validate_value
small-admitted = refl

tables-Admitted : Admitted readers tables
tables-Admitted = (
  (λ p e.
      subst (λ (x : PropertyDefinition). validate_value readers x.type "small" x.options ≡ ok tt)
        (some-injective size p e) small-admitted),
  tt,
)

set_issue_value-Admitted_example :
    Admitted readers
      (set_issue_value (pg_properties new_id ordered others) "ann" "i" "p" "huge" tables).1
set_issue_value-Admitted_example =
    set_issue_value-Admitted new_id ordered others "ann" "i" "p" "huge" tables tables-Admitted
