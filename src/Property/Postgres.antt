-- ===== src/Property/Postgres.antt =====
-- backend/internal/store/postgres/properties.go: the tables of definitions and values, with the
-- constraints of migration 0013_workspace_settings. Rows stand in the order of insertion; ids come from
-- `new_id`, as from gen_random_uuid(); `ordered` sorts values by their ids. A name that is taken is
-- reported by the driver's error, which the store does not tell apart. Foreign keys are taken to hold.
use spec_powers.Prelude.{
  ℕ, suc, String, Bool, not, ◌&&◌, Option, none, some, List, [], ◌∷◌, ◌++◌, map, all, any, find,
  select, ltb, ◌==◌, str_eq, codes, if◌then◌else◌,
}
use spec_powers.Domain.{Project, ProjectMember, Issue}
use spec_powers.Api.{Stored, found, missing}
use spec_powers.Property.Values.{PropertyDefinition, IssuePropertyValue, Readers, valid_types}
use spec_powers.Property.Service.{PropertyStores, Written, written, broken}

pub record PropertyDb : Type 0 where
  pub definitions : List PropertyDefinition
  pub values : List IssuePropertyValue
  pub issues : List Issue
  pub serial : ℕ

-- `scanProperty`.
abbrev pub one_property : Option PropertyDefinition → Stored PropertyDefinition
one_property none = missing
one_property (some p) = found p

-- `length(btrim(name)) > 0`, and the CHECK of the type.
abbrev pub fits_property : PropertyDefinition → Bool
fits_property p = not (all (λ c. c == 32) (codes p.name)) && valid_types p.type

-- `UNIQUE (project_id, name)`.
abbrev pub same_name : PropertyDefinition → PropertyDefinition → Bool
same_name p x = str_eq x.project_id p.project_id && str_eq x.name p.name

unfoldable pub create_property :
    (ℕ → String) → PropertyDefinition → PropertyDb → Written × PropertyDb
create_property new_id p d =
    let row = record p { id = new_id d.serial } in
    if fits_property p && not (any (same_name p) d.definitions)
    then (written row, record d { definitions = d.definitions ++ row ∷ []; serial = suc d.serial })
    else (broken, d)

unfoldable pub get_property : String → PropertyDb → Stored PropertyDefinition
get_property id d = one_property (find (λ (p : PropertyDefinition). str_eq p.id id) d.definitions)

-- `ORDER BY position, created_at`.
abbrev pub by_position : PropertyDefinition → List PropertyDefinition → List PropertyDefinition
by_position p [] = p ∷ []
by_position p (x ∷ rows) =
    let rest = by_position p rows in if ltb x.position p.position then x ∷ rest else p ∷ x ∷ rows

abbrev pub sorted : List PropertyDefinition → List PropertyDefinition
sorted [] = []
sorted (p ∷ rows) = by_position p (sorted rows)

unfoldable pub list_properties : String → PropertyDb → Option (List PropertyDefinition)
list_properties project d =
    some (sorted (select (λ (p : PropertyDefinition). str_eq p.project_id project) d.definitions))

-- The project is not written.
abbrev pub set_property : PropertyDefinition → PropertyDefinition → PropertyDefinition
set_property p x = if str_eq x.id p.id then record p { project_id = x.project_id } else x

abbrev pub clashes : PropertyDefinition → PropertyDefinition → Bool
clashes p x = same_name p x && not (str_eq x.id p.id)

abbrev pub rewritten :
    Option PropertyDefinition → PropertyDefinition → PropertyDb → Written × PropertyDb
rewritten none p d = (broken, d)
rewritten (some x) p d =
    let row = record p { project_id = x.project_id } in
    if fits_property p && not (any (clashes row) d.definitions)
    then (written row, record d { definitions = map (set_property p) d.definitions })
    else (broken, d)

-- No row gives `store.ErrNotFound`, which the service does not tell apart either.
unfoldable pub update_property : PropertyDefinition → PropertyDb → Written × PropertyDb
update_property p d =
    rewritten (find (λ (x : PropertyDefinition). str_eq x.id p.id) d.definitions) p d

-- The values go with the definition.
unfoldable pub delete_property : String → PropertyDb → Stored (Unit {0}) × PropertyDb
delete_property id d =
    if any (λ (p : PropertyDefinition). str_eq p.id id) d.definitions
    then (
      found tt,
      record d {
        definitions = select (λ (p : PropertyDefinition). not (str_eq p.id id)) d.definitions;
        values = select (λ (v : IssuePropertyValue). not (str_eq v.property_id id)) d.values;
      },
    )
    else (missing, d)

abbrev pub same_key : String → String → IssuePropertyValue → Bool
same_key issue property v = str_eq v.issue_id issue && str_eq v.property_id property

abbrev pub put : IssuePropertyValue → IssuePropertyValue → IssuePropertyValue
put v x = if same_key v.issue_id v.property_id x then v else x

-- `ON CONFLICT … DO UPDATE`.
unfoldable pub set_issue_property :
    IssuePropertyValue → PropertyDb → Stored IssuePropertyValue × PropertyDb
set_issue_property v d =
    if any (same_key v.issue_id v.property_id) d.values
    then (found v, record d { values = map (put v) d.values })
    else (found v, record d { values = d.values ++ v ∷ [] })

unfoldable pub list_issue_properties :
    (List IssuePropertyValue → List IssuePropertyValue)
    → String
    → PropertyDb
    → Option (List IssuePropertyValue)
list_issue_properties ordered issue d =
    some (ordered (select (λ (v : IssuePropertyValue). str_eq v.issue_id issue) d.values))

abbrev pub in_project : String → PropertyDb → IssuePropertyValue → Bool
in_project project d v =
    any (λ (i : Issue). str_eq i.id v.issue_id && str_eq i.project_id project) d.issues

unfoldable pub list_project_properties :
    (List IssuePropertyValue → List IssuePropertyValue)
    → String
    → PropertyDb
    → Option (List IssuePropertyValue)
list_project_properties ordered project d = some (ordered (select (in_project project d) d.values))

unfoldable pub delete_issue_property : String → String → PropertyDb → Stored (Unit {0}) × PropertyDb
delete_issue_property issue property d =
    if any (same_key issue property) d.values
    then (found tt, record d { values = select (λ v. not (same_key issue property v)) d.values })
    else (missing, d)

-- The tables of projects and issues, which the service only reads.
pub record Others : Type 0 where
  pub readers : Readers
  pub project : String → PropertyDb → Stored Project
  pub member : String → String → PropertyDb → Stored ProjectMember
  pub issue : String → PropertyDb → Stored Issue

abbrev pub pg_properties :
    (ℕ → String) → (List IssuePropertyValue → List IssuePropertyValue) → Others → PropertyStores
pg_properties new_id ordered o = record {
  State = PropertyDb;
  readers = o.readers;
  get_project = o.project;
  get_project_member = o.member;
  get_issue = o.issue;
  create = create_property new_id;
  get = get_property;
  list = list_properties;
  update = update_property;
  delete = delete_property;
  set_value = set_issue_property;
  values = list_issue_properties ordered;
  project_values = list_project_properties ordered;
  delete_value = delete_issue_property;
}
