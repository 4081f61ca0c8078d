-- ===== src/Workflow/Split.antt =====
-- workflow/splitter.go: `Run`, and the tasks phase that it shares with manual writes. The model, the
-- prompt templates and encoding/json are parameters: a completion and a rendering give a text or the
-- text of an error. Creating an issue is the issue service's, which this one is given.
use spec_powers.Prelude.{
  ℕ, zero, suc, String, Bool, Option, none, some, List, [], ◌∷◌, str_eq, concat, is_blank,
  if◌then◌else◌,
}
use spec_powers.Prelude.Int.{ℤ, pos, pos_part, suc_ℤ}
use spec_powers.Domain.{Issue, TaskMapping}
use spec_powers.Api.{err_invalid, err_internal, Result, ok, err, Action, pure, lift, calls, ◌>>=◌}
use spec_powers.Issue.Create.{CreateInput}
use spec_powers.Workflow.Phases.{kind_tasks}
use spec_powers.Workflow.Tasks.{TaskSpec, Json, Tasks, tasks, bad_tasks, parse_tasks}

-- `PromptData`, with the artifacts so far, the latest first.
pub record PromptData : Type 0 where
  pub issue_title : String
  pub issue_description : String
  pub project_context : String
  pub artifacts : List (String × String)

-- A text, or the text of an error.
pub data Text : Type 0 where
  text : String → Text
  broken : String → Text

-- `SplitterDeps`, over the state of the stores.
pub record Deps (S : Type 0) : Type 0 where
  pub json : Json
  pub render : String → PromptData → Text
  pub complete : String → S → Text × S
  pub create_issue : String → String → CreateInput → Action S Issue
  pub set_mappings : String → String → List TaskMapping → S → Bool × S
  pub project_context : Option (String → S → Option String)
  pub max_retries : ℤ

-- `validateArtifact`: `none` if it is in order.
unfoldable pub validate_artifact : Json → String → String → Option String
unfolding parse_tasks is_blank
validate_artifact j kind content =
    if str_eq kind kind_tasks
    then elim (parse_tasks j content) [ tasks ts ↦ none | bad_tasks e ↦ some e ]
    else if is_blank content
    then some (concat "empty " (concat kind " output"))
    else none

abbrev pub parsed : Tasks → Result (List TaskSpec)
parsed (tasks ts) = ok ts
parsed (bad_tasks e) = err (err_invalid (concat "parse tasks artifact failed: " e))

abbrev pub sub_issue : String → TaskSpec → CreateInput
sub_issue parent t = record {
  title = t.title;
  description = t.description;
  priority = "";
  assignee_id = "";
  due_date = none;
  labels = [];
  parent_id = parent;
  stage = t.stage;
}

abbrev pub mapping_of : String → String → String → TaskSpec → ℕ → TaskMapping
mapping_of change artifact issue t place = record {
  change_id = change;
  artifact_id = artifact;
  issue_id = issue;
  title = t.title;
  stage = t.stage;
  position = pos place;
}

module _ {S : Type 0} (p : Deps S) where
  open p use {json, render, complete, create_issue, set_mappings, max_retries}

  -- The loop over the specs, of which `place` come before.
  unfoldable pub create_subs :
      String → Issue → String → String → ℕ → List TaskSpec → Action S (List TaskMapping)
  create_subs user parent change artifact place [] s = pure [] s
  create_subs user parent change artifact place (t ∷ rest) s =
      (do
        created ← create_issue user parent.project_id (sub_issue parent.id t)
        items ← create_subs user parent change artifact (suc place) rest
        pure (mapping_of change artifact created.id t place ∷ items))
        s

  -- `bindTaskSubIssuesTo`.
  unfoldable pub bind_sub_issues : String → Issue → String → String → String → Action S (Unit {0})
  unfolding create_subs parse_tasks
  bind_sub_issues user parent change artifact content = do
    specs ← lift (parsed (parse_tasks json content))
    items ← create_subs user parent change artifact 0 specs
    calls (set_mappings change artifact items) (err_internal "save task mappings failed")

  -- One attempt: `Complete`, then `validateArtifact`.
  unfoldable pub attempt : String → Text → Text
  unfolding validate_artifact
  attempt kind (broken e) = broken e
  attempt kind (text t) = elim (validate_artifact json kind t) [ none ↦ text t | some e ↦ broken e ]

  -- The attempts that are left; `last` is `lastErr`, nil before the first.
  unfoldable pub attempts : ℕ → String → String → Option String → S → Text × S
  unfolding attempt
  attempts zero kind prompt none s = (text "", s)
  attempts zero kind prompt (some e) s = (broken e, s)
  attempts (suc n) kind prompt last s =
      let (t, s') = complete prompt s in
      elim (attempt kind t) [
        | text c ↦ (text c, s')
        | broken e ↦ attempts n kind prompt (some e) s'
      ]

  prompted : String → Text → S → Text × S
  unfolding attempts
  prompted kind (broken e) s = (broken e, s)
  prompted kind (text prompt) s = attempts (pos_part (suc_ℤ max_retries)) kind prompt none s

  -- `generatePhase`.
  unfoldable pub generate_phase : String → PromptData → S → Text × S
  unfolding prompted
  generate_phase kind data_so_far s = prompted kind (render kind data_so_far) s

  abbrev pub generated : String → Text → Result String
  generated kind (text t) = ok t
  generated kind (broken e) =
      err (err_internal (concat "generate " (concat kind (concat " failed: " e))))
