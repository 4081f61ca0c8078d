-- ===== src/Property/Values.antt =====
-- property/service.go: the checks of definitions and values. `strconv.ParseFloat` and the JSON reader
-- are parameters: whether a text is a number, and the list of texts that a text is, if it is one.
use spec_powers.Prelude.{
  ℕ, ◌+◌, ◌-◌, ◌*◌, String, Bool, true, false, not, ◌&&◌, ◌||◌, Option, none, some, List, [], ◌∷◌,
  any, all, leb, ◌==◌, str_eq, codes, concat, is_blank, if◌then◌else◌,
}
use spec_powers.Api.{err_invalid, Result, ok, err}
use spec_powers.Workflow.Tasks.{trim}
use spec_powers.Cron.Calendar.{days_in}

pub record PropertyDefinition : Type 0 where
  pub id : String
  pub project_id : String
  pub name : String
  pub type : String
  pub options : List String
  pub position : ℕ

pub record IssuePropertyValue : Type 0 where
  pub issue_id : String
  pub property_id : String
  pub value : String

pub record DefinitionInput : Type 0 where
  pub name : String
  pub type : String
  pub options : List String

pub record Readers : Type 0 where
  pub is_number : String → Bool
  pub strings : String → Option (List String)

abbrev pub type_select : String
type_select = "select"

abbrev pub type_multi_select : String
type_multi_select = "multi_select"

abbrev pub type_checkbox : String
type_checkbox = "checkbox"

abbrev pub type_text : String
type_text = "text"

abbrev pub type_number : String
type_number = "number"

abbrev pub type_date : String
type_date = "date"

abbrev pub has_options : String → Bool
has_options t = str_eq t type_select || str_eq t type_multi_select

abbrev pub valid_types : String → Bool
valid_types t =
    has_options t
    || str_eq t type_checkbox
    || str_eq t type_text
    || str_eq t type_number
    || str_eq t type_date

abbrev pub is_among : String → List String → Bool
is_among t options = any (λ o. str_eq o t) options

-- The loop over the options, with those seen.
unfoldable pub check_options : List String → List String → Result (Unit {0})
unfolding is_blank
check_options seen [] = ok tt
check_options seen (o ∷ options) =
    let rest = check_options (o ∷ seen) options in
    if is_blank o
    then err (err_invalid "select options must not be blank")
    else if is_among o seen
    then err (err_invalid (concat "duplicate select option: " o))
    else rest

abbrev pub none_given : List String → Bool
none_given [] = true
none_given (o ∷ options) = false

abbrev pub some_option : Result (Unit {0}) → List String → Result (Unit {0})
some_option (ok u) options =
    if none_given options
    then err (err_invalid "select properties require at least one option")
    else ok tt
some_option (err e) options = err e

unfoldable pub validate_definition : DefinitionInput → Result DefinitionInput
unfolding trim check_options
validate_definition u =
    let name = trim u.name in
    if str_eq name ""
    then err (err_invalid "property name is required")
    else if not (valid_types u.type)
    then err (err_invalid (concat "unknown property type: " u.type))
    else if has_options u.type
    then elim (some_option (check_options [] u.options) u.options) [
      | ok _ ↦ ok (record u { name = name })
      | err e ↦ err e
    ]
    else if none_given u.options
    then ok (record u { name = name })
    else err (err_invalid "options are only valid for select / multi_select")

abbrev pub is_digit : ℕ → Bool
is_digit c = leb 48 c && leb c 57

-- The number of digits.
abbrev pub number : List ℕ → ℕ → ℕ
number [] n = n
number (c ∷ cs) n = number cs (n * 10 + (c - 48))

-- `time.Parse("2006-01-02", …)`: ten characters, and a day of the calendar.
unfoldable pub is_date : List ℕ → Bool
unfolding days_in
is_date (y ∷ y' ∷ y'' ∷ y''' ∷ h ∷ m ∷ m' ∷ h' ∷ d ∷ d' ∷ []) =
    let year = number (y ∷ y' ∷ y'' ∷ y''' ∷ []) 0 in
    let month = number (m ∷ m' ∷ []) 0 in
    let day = number (d ∷ d' ∷ []) 0 in
    all is_digit (y ∷ y' ∷ y'' ∷ y''' ∷ m ∷ m' ∷ d ∷ d' ∷ [])
    && h == 45
    && h' == 45
    && leb 1 month
    && leb month 12
    && leb 1 day
    && leb day (days_in year month)
is_date _ = false

abbrev pub require : Bool → String → Result (Unit {0})
require true msg = ok tt
require false msg = err (err_invalid msg)

abbrev pub all_among : Option (List String) → List String → Result (Unit {0})
all_among none options = err (err_invalid "multi_select value must be a JSON array of options")
all_among (some picked) options =
    require (all (λ p. is_among p options) picked) "value is not one of the select options"

-- `ValidateValue`.
unfoldable pub validate_value : Readers → String → String → List String → Result (Unit {0})
unfolding is_date
validate_value r type value options =
    if str_eq type type_text
    then ok tt
    else if str_eq type type_number
    then require (r.is_number value) "value must be a number"
    else if str_eq type type_checkbox
    then require (str_eq value "true" || str_eq value "false")
        "checkbox value must be true or false"
    else if str_eq type type_date
    then require (is_date (codes value)) "date value must be YYYY-MM-DD"
    else if str_eq type type_select
    then require (is_among value options) "value is not one of the select options"
    else if str_eq type type_multi_select
    then all_among (r.strings value) options
    else err (err_invalid (concat "unknown property type: " type))
