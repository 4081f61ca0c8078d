-- ===== src/Workflow/Tasks.antt =====
-- workflow/parser.go: `ParseTasks`. encoding/json is a parameter, by the list of tasks that it reads
-- or the text of its error; so is the decimal text of a number. Texts are lists of code points.
use Prim.Native.Char.{Char, code}
use spec_powers.Prelude.{
  ℕ, zero, suc, String, Bool, true, false, ◌&&◌, Option, none, some, List, [], ◌∷◌, ◌==◌, str_eq,
  codes, concat, is_space, is_blank, if◌then◌else◌,
}
use spec_powers.Prelude.Int.{ℤ, pos, ltb_ℤ, eq_ℤ}
use spec_powers.Notification.Mentions.{fold}

pub record TaskSpec : Type 0 where
  pub title : String
  pub description : String
  pub stage : ℤ

-- An entry of `tasksBlock`, a zero value where the text leaves a field out.
pub record RawTask : Type 0 where
  pub title : String
  pub description : String
  pub stage : ℤ

pub data Unmarshalled : Type 0 where
  bad_json : String → Unmarshalled
  block : List RawTask → Unmarshalled

pub record Json : Type 0 where
  pub unmarshal : String → Unmarshalled
  pub decimal : ℕ → String

-- `strings.TrimSpace`.
unfoldable pub trim_left : String → String
trim_left String.[] = String.[]
trim_left (String.◌∷◌ c s) = if is_space (code c) then trim_left s else String.◌∷◌ c s

unfoldable pub trim_right : String → String
trim_right String.[] = String.[]
trim_right (String.◌∷◌ c s) =
    let rest = trim_right s in
    if str_eq rest "" && is_space (code c) then String.[] else String.◌∷◌ c rest

unfoldable pub trim : String → String
unfolding trim_left trim_right
trim s = trim_right (trim_left s)

-- `strings.Split(content, "\n")`.
push : Char → List String → List String
push c [] = String.◌∷◌ c String.[] ∷ []
push c (line ∷ rest) = String.◌∷◌ c line ∷ rest

unfoldable pub lines : String → List String
unfolding push
lines String.[] = String.[] ∷ []
lines (String.◌∷◌ c s) =
    let rest = lines s in if code c == 10 then String.[] ∷ rest else push c rest

-- `strings.Join(body, "\n")`.
unfoldable pub join : List String → String
join [] = ""
join (l ∷ []) = l
join (l ∷ m ∷ rest) = concat l (concat "\n" (join (m ∷ rest)))

-- The text after so many backticks.
after_ticks : ℕ → String → Option String
after_ticks zero s = some s
after_ticks (suc n) String.[] = none
after_ticks (suc n) (String.◌∷◌ c s) = elim (code c == 96) [ true ↦ after_ticks n s | false ↦ none ]

-- What follows ``` in a line that starts with it, spaces aside.
unfoldable pub fence : String → Option String
unfolding trim after_ticks
fence line = after_ticks 3 (trim line)

-- `strings.EqualFold` with a word of lower-case letters; U+017F folds with the letter s.
abbrev fold_letter : ℕ → ℕ
fold_letter c = if c == 0x17f then 115 else fold c

unfoldable pub folds_to : List ℕ → List ℕ → Bool
folds_to [] [] = true
folds_to [] (d ∷ word) = false
folds_to (c ∷ s) [] = false
folds_to (c ∷ s) (d ∷ word) = fold_letter c == d && folds_to s word

-- The lines up to the next fence.
unfoldable pub fenced : List String → Option (List String)
unfolding fence
fenced [] = none
fenced (line ∷ rest) =
    let body = fenced rest in
    elim (fence line) [
      | some lang ↦ some []
      | none ↦ elim body [ none ↦ none | some ls ↦ some (line ∷ ls) ]
    ]

unfoldable pub is_json_fence : String → Bool
unfolding fence folds_to trim
is_json_fence line = elim (fence line) [
  | none ↦ false
  | some lang ↦ folds_to (codes (trim lang)) (codes "json")
]

unfoldable pub json_block : List String → Option (List String)
unfolding is_json_fence fenced
json_block [] = none
json_block (line ∷ rest) =
    let later = json_block rest in if is_json_fence line then fenced rest else later

-- `extractJSONFence`.
unfoldable pub extract_json_fence : String → Option String
unfolding json_block lines join
extract_json_fence content = elim (json_block (lines content)) [
  | none ↦ none
  | some body ↦ some (join body)
]

pub data Tasks : Type 0 where
  bad_tasks : String → Tasks
  tasks : List TaskSpec → Tasks

abbrev pub spec_of : RawTask → TaskSpec
spec_of r = record {
  title = trim r.title;
  description = r.description;
  stage = if eq_ℤ r.stage (pos 0) then pos 1 else r.stage;
}

abbrev pub and_then : TaskSpec → Tasks → Tasks
and_then t (bad_tasks e) = bad_tasks e
and_then t (tasks ts) = tasks (t ∷ ts)

module _ (j : Json) where
  -- The loop over the entries, of which `i` come before.
  unfoldable pub specs_from : ℕ → List RawTask → Tasks
  unfolding is_blank trim
  specs_from i [] = tasks []
  specs_from i (r ∷ rest) =
      let later = specs_from (suc i) rest in
      if is_blank r.title
      then bad_tasks (concat "task " (concat (j.decimal (suc i)) " has a blank title"))
      else if ltb_ℤ r.stage (pos 0)
      then bad_tasks (concat "task " (concat (j.decimal (suc i)) " has a negative stage"))
      else and_then (spec_of r) later

  unfoldable pub specs_in : Unmarshalled → Tasks
  unfolding specs_from
  specs_in (bad_json e) = bad_tasks (concat "tasks artifact json block is invalid: " e)
  specs_in (block []) = bad_tasks "tasks artifact json block contains no tasks"
  specs_in (block (r ∷ rest)) = specs_from 0 (r ∷ rest)

  unfoldable pub parse_tasks : String → Tasks
  unfolding extract_json_fence specs_in
  parse_tasks content = elim (extract_json_fence content) [
    | none ↦ bad_tasks "tasks artifact has no ```json block"
    | some text ↦ specs_in (j.unmarshal text)
  ]
