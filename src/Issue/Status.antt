-- ===== src/Issue/Status.antt =====
-- issue/statemachine.go, with the status directory of domain/models.go.
use spec_powers.Prelude.{
  ℕ, String, Bool, false, ◌&&◌, ◌||◌, Option, none, some, List, [], ◌∷◌, any, find, str_eq, concat,
  if◌then◌else◌,
}
use spec_powers.Prelude.Int.{pos}
use spec_powers.Domain.{WorkspaceStatus}
use spec_powers.Api.{Result, ok, err, err_invalid}

-- The statuses are the keys of `validStatuses`, and the categories of a directory.
unfoldable pub statuses : List String
statuses = "backlog" ∷ "todo" ∷ "in_progress" ∷ "in_review" ∷ "done" ∷ "blocked" ∷ "cancelled" ∷ []

unfoldable pub is_valid_status : String → Bool
unfolding statuses
is_valid_status s = any (λ x. str_eq s x) statuses

unfoldable pub is_terminal : String → Bool
is_terminal s = str_eq s "done" || str_eq s "cancelled"

-- The map `transitions`: what may follow a status; nothing follows an unknown one.
unfoldable pub transitions : String → List String
transitions s =
    if str_eq s "backlog"
    then "todo" ∷ "cancelled" ∷ []
    else if str_eq s "todo"
    then "in_progress" ∷ "blocked" ∷ "cancelled" ∷ []
    else if str_eq s "in_progress"
    then "in_review" ∷ "blocked" ∷ "todo" ∷ "cancelled" ∷ []
    else if str_eq s "in_review"
    then "done" ∷ "in_progress" ∷ "cancelled" ∷ []
    else if str_eq s "blocked"
    then "in_progress" ∷ "todo" ∷ "cancelled" ∷ []
    else []

-- `transitions[from][to]`.
unfoldable pub allowed : String → String → Bool
unfolding transitions
allowed from to = any (λ x. str_eq to x) (transitions from)

unfoldable pub can_transition : String → String → Bool
unfolding is_valid_status allowed
can_transition from to = is_valid_status from && allowed from to

abbrev illegal : String → String → Result String
illegal from to =
    err (err_invalid (concat "illegal status transition: " (concat from (concat " -> " to))))

abbrev unknown : String → Result String
unknown s = err (err_invalid (concat "unknown status: " s))

unfoldable pub transition : String → String → Result String
unfolding is_valid_status allowed
transition from to =
    if is_valid_status from
    then (if is_valid_status to
        then (if allowed from to then ok to else illegal from to)
        else unknown to)
    else unknown from

unfoldable pub is_valid_priority : String → Bool
is_valid_priority p =
    str_eq p "none" || str_eq p "low" || str_eq p "medium" || str_eq p "high" || str_eq p "urgent"

-- The category of a status in a workspace's directory.
unfoldable pub status_category : List WorkspaceStatus → String → Option String
status_category [] name = none
status_category (s ∷ dir) name =
    if str_eq s.name name then some s.category else status_category dir name

unfoldable pub is_terminal_category : String → Bool
is_terminal_category cat = str_eq cat "done" || str_eq cat "cancelled"

unfoldable pub is_terminal_in : List WorkspaceStatus → String → Bool
unfolding is_terminal_category
is_terminal_in dir name = elim (status_category dir name) [
  | none ↦ false
  | some cat ↦ is_terminal_category cat
]

unfoldable pub move_in : String → String → Option String → Option String → Result String
unfolding allowed
move_in from to none to_cat = unknown from
move_in from to (some from_cat) none = unknown to
move_in from to (some from_cat) (some to_cat) =
    if allowed from_cat to_cat then ok to else illegal from to

unfoldable pub transition_in : List WorkspaceStatus → String → String → Result String
unfolding move_in
transition_in dir from to = move_in from to (status_category dir from) (status_category dir to)

entry : String → ℕ → WorkspaceStatus
entry name i = record { workspace_id = ""; name = name; category = name; position = pos i }

-- `domain.DefaultStatusDirectory()`: each status is its own category.
unfoldable pub default_directory : List WorkspaceStatus
unfolding entry
default_directory =
    entry "backlog" 0
    ∷ entry "todo" 1
    ∷ entry "in_progress" 2
    ∷ entry "in_review" 3
    ∷ entry "blocked" 4
    ∷ entry "done" 5
    ∷ entry "cancelled" 6
    ∷ []

-- `domain.IsValidStatusCategory`.
unfoldable pub is_valid_status_category : String → Bool
is_valid_status_category c =
    any (λ x. str_eq c x)
      ("backlog" ∷ "todo" ∷ "in_progress" ∷ "in_review" ∷ "blocked" ∷ "done" ∷ "cancelled" ∷ [])

-- The status of a new issue: the first todo entry, else the first entry.
unfoldable pub default_status : List WorkspaceStatus → String
default_status dir = elim (find (λ (s : WorkspaceStatus). str_eq s.category "todo") dir) [
  | some s ↦ s.name
  | none ↦ elim dir [ [] ↦ "todo" | s ∷ rest ↦ s.name ]
]
