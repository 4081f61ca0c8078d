-- ===== src/Property/Service.antt =====
-- property/service.go, over the stores that it is written against (store.PropertyStore, ProjectStore,
-- IssueStore) with one state.
use spec_powers.Prelude.{String, Option, List, str_eq, length, if◌then◌else◌}
use spec_powers.Domain.{Project, ProjectMember, Issue}
use spec_powers.Api.{
  err_invalid, err_forbidden, err_not_found, err_conflict, err_internal, Stored, Result, ok, err,
  checked, listed, Action, pure, lift, reads, writes, tries, guard, ◌>>=◌, ◌>>◌,
}
use spec_powers.Issue.Access.{role_suffices}
use spec_powers.Property.Values.{
  PropertyDefinition, IssuePropertyValue, DefinitionInput, Readers, validate_definition,
  validate_value,
}

-- What a write of a definition reports: a row, `store.ErrConflict`, or another error.
pub data Written : Type 0 where
  written : PropertyDefinition → Written
  taken : Written
  broken : Written

pub record PropertyStores : Type 1 where
  pub State : Type 0
  pub readers : Readers
  pub get_project : String → State → Stored Project
  pub get_project_member : String → String → State → Stored ProjectMember
  pub get_issue : String → State → Stored Issue
  pub create : PropertyDefinition → State → Written × State
  pub get : String → State → Stored PropertyDefinition
  pub list : String → State → Option (List PropertyDefinition)
  pub update : PropertyDefinition → State → Written × State
  pub delete : String → State → Stored (Unit {0}) × State
  pub set_value : IssuePropertyValue → State → Stored IssuePropertyValue × State
  pub values : String → State → Option (List IssuePropertyValue)
  pub project_values : String → State → Option (List IssuePropertyValue)
  pub delete_value : String → String → State → Stored (Unit {0}) × State

abbrev pub checked_write : Written → String → Result PropertyDefinition
checked_write (written d) msg = ok d
checked_write taken msg = err (err_conflict "property name already exists")
checked_write broken msg = err (err_internal msg)

-- `err != nil && err != store.ErrNotFound`.
abbrev pub cleared : Stored (Unit {0}) → Result (Unit {0})
cleared (Stored.found u) = ok tt
cleared Stored.missing = ok tt
cleared Stored.failed = err (err_internal "delete issue property failed")

module _ (st : PropertyStores) where
  open st use {
    State, readers, get_project, get_project_member, get_issue, create, get, list, update, delete,
    set_value, values, project_values, delete_value,
  }

  unfoldable pub require_project_role : String → String → String → Action State (Unit {0})
  require_project_role user project min = do
    reads (λ s.
        checked (get_project project s) (err_not_found "project not found")
          (err_internal "get project failed"))
    pm ← reads (λ s.
        checked (get_project_member project user s) (err_forbidden "not a project member")
          (err_internal "get project member failed"))
    lift (role_suffices min pm)

  abbrev pub write : (State → Written × State) → String → Action State PropertyDefinition
  write f msg s = let (r, s') = f s in (checked_write r msg, s')

  -- For an owner of the project.
  unfoldable pub create_in : String → DefinitionInput → Action State PropertyDefinition
  unfolding validate_definition
  create_in project u = do
    input ← lift (validate_definition u)
    existing ← reads (λ s. listed (list project s) "list property definitions failed")
    write
        (create (record {
          id = "";
          project_id = project;
          name = input.name;
          type = input.type;
          options = input.options;
          position = length existing;
        }))
        "create property definition failed"

  unfoldable pub create_definition :
      String → String → DefinitionInput → Action State PropertyDefinition
  unfolding require_project_role create_in
  create_definition user project u = do
    require_project_role user project "owner"
    create_in project u

  unfoldable pub list_definitions : String → String → Action State (List PropertyDefinition)
  unfolding require_project_role
  list_definitions user project = do
    require_project_role user project "member"
    reads (λ s. listed (list project s) "list property definitions failed")

  abbrev pub definition_of : String → Action State PropertyDefinition
  definition_of id = reads (λ s.
      checked (get id s) (err_not_found "property definition not found")
        (err_internal "get property definition failed"))

  unfoldable pub update_definition :
      String → String → String → DefinitionInput → Action State PropertyDefinition
  unfolding require_project_role validate_definition
  update_definition user project id u = do
    require_project_role user project "owner"
    current ← definition_of id
    guard (str_eq current.project_id project)
        (err_invalid "property definition belongs to another project")
    input ← lift (validate_definition u)
    write
        (update (record current { name = input.name; type = input.type; options = input.options }))
        "update property definition failed"

  unfoldable pub delete_definition : String → String → String → Action State (Unit {0})
  unfolding require_project_role
  delete_definition user project id = do
    require_project_role user project "owner"
    current ← definition_of id
    guard (str_eq current.project_id project)
        (err_invalid "property definition belongs to another project")
    tries (delete id) (err_not_found "property definition not found")
        (err_internal "delete property definition failed")

  unfoldable pub require_project_issue : String → String → Action State Issue
  unfolding require_project_role
  require_project_issue user issue = do
    i ← reads (λ s.
        checked (get_issue issue s) (err_not_found "issue not found")
          (err_internal "get issue failed"))
    require_project_role user i.project_id "member"
    pure i

  abbrev pub clear : String → String → Action State IssuePropertyValue
  clear issue property = do
    λ s. let (r, s') = delete_value issue property s in (cleared r, s')
    pure (record { issue_id = issue; property_id = property; value = "" })

  abbrev pub assign :
      String → String → String → PropertyDefinition → Action State IssuePropertyValue
  unfolding validate_value
  assign issue property value d = do
    lift (validate_value readers d.type value d.options)
    writes (set_value (record { issue_id = issue; property_id = property; value = value }))
        (err_internal "set issue property failed")

  -- An empty value clears the assignment.
  unfoldable pub set_or_clear :
      String → String → String → PropertyDefinition → Action State IssuePropertyValue
  unfolding assign
  set_or_clear issue property value d =
      if str_eq value "" then clear issue property else assign issue property value d

  unfoldable pub set_issue_value :
      String → String → String → String → Action State IssuePropertyValue
  unfolding require_project_issue set_or_clear
  set_issue_value user issue property value = do
    i ← require_project_issue user issue
    d ← definition_of property
    guard (str_eq d.project_id i.project_id)
        (err_invalid "property definition belongs to another project")
    set_or_clear issue property value d

  unfoldable pub list_issue_values : String → String → Action State (List IssuePropertyValue)
  unfolding require_project_issue
  list_issue_values user issue = do
    require_project_issue user issue
    reads (λ s. listed (values issue s) "list issue properties failed")

  unfoldable pub list_project_values : String → String → Action State (List IssuePropertyValue)
  unfolding require_project_role
  list_project_values user project = do
    require_project_role user project "member"
    reads (λ s. listed (project_values project s) "list project issue properties failed")

  unfoldable pub delete_issue_value : String → String → String → Action State (Unit {0})
  unfolding require_project_issue
  delete_issue_value user issue property = do
    require_project_issue user issue
    tries (delete_value issue property) (err_not_found "property value not found")
        (err_internal "delete issue property failed")
