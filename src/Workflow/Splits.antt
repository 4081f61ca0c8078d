-- ===== src/Workflow/Splits.antt =====
-- The tasks phase and a whole split at concrete texts.
use spec_powers.Prelude.{
  suc, String, ◌≡◌, refl, true, none, some, List, [], ◌∷◌, All, length, is_blank, all_space,
  is_space,
}
use spec_powers.Prelude.Int.{pos}
use spec_powers.Domain.{TaskMapping}
use spec_powers.Api.{ok, pure}
use spec_powers.Workflow.Phases.{kind_tasks, phase_order}
use spec_powers.Workflow.Tasks.{
  RawTask, TaskSpec, block, Json, tasks, trim, trim_left, trim_right, lines, join, fence, folds_to,
  fenced, is_json_fence, json_block, extract_json_fence, specs_from, specs_in, parse_tasks,
}
use spec_powers.Workflow.Parsed.{IsTask, parse_tasks-IsTask}
use spec_powers.Workflow.Split.{Deps, PromptData, text, create_subs, bind_sub_issues}
use spec_powers.Workflow.Run.{run_phases}
use spec_powers.Workflow.Mapped.{Placed, bind-Placed}
use spec_powers.Workflow.Ended.{Ended, run_phases-Ended}
use spec_powers.Workflow.Postgres.{Db, set_task_mappings}
use spec_powers.Workflow.Samples.{proposed, working, root_issue, at_phase}

abbrev raw : String → RawTask
raw title = record { title = title; description = "do it"; stage = pos 0 }

abbrev reader : Json
reader = record { unmarshal = λ t. block (raw " read " ∷ raw "write" ∷ []); decimal = λ n. "n" }

abbrev artifact_text : String
artifact_text = "Tasks:\n```JSON\n{}\n```\nend"

abbrev spec : String → TaskSpec
spec title = record { title = title; description = "do it"; stage = pos 1 }

abbrev two_specs : List TaskSpec
two_specs = spec "read" ∷ spec "write" ∷ []

parses : parse_tasks reader artifact_text ≡ tasks two_specs
unfolding parse_tasks extract_json_fence specs_in specs_from is_blank all_space is_space trim
    trim_left trim_right lines join fence folds_to fenced is_json_fence json_block
parses = refl

parse_tasks-IsTask_example :
    All IsTask two_specs
    × ((text : String) × (r : RawTask) × (rest : List RawTask) × (extract_json_fence artifact_text
          ≡ some text)
        × (reader.unmarshal text ≡ block (r ∷ rest))
        × (2 ≡ suc (length rest)))
parse_tasks-IsTask_example = parse_tasks-IsTask reader artifact_text two_specs parses

abbrev deps : Deps Db
deps = record {
  json = reader;
  render = λ kind so_far. text kind;
  complete = λ prompt s. (text artifact_text, s);
  create_issue = λ user project c s. pure (record root_issue { id = c.title }) s;
  set_mappings = set_task_mappings;
  project_context = none;
  max_retries = pos 2;
}

binds : (bind_sub_issues deps "ann" root_issue "c1" "a1" artifact_text proposed).0 ≡ ok tt
unfolding bind_sub_issues create_subs set_task_mappings parse_tasks extract_json_fence specs_in
    specs_from is_blank all_space is_space trim trim_left trim_right lines join fence folds_to
    fenced is_json_fence json_block
binds = refl

bind-Placed_example :
    (specs : List TaskSpec) × (items : List TaskMapping) × (s' : Db) × (parse_tasks reader
        artifact_text
      ≡ tasks specs)
    × Placed "c1" "a1" 0 specs items
    × (set_task_mappings "c1" "a1" items s'
        ≡ (true, (bind_sub_issues deps "ann" root_issue "c1" "a1" artifact_text proposed).1))
bind-Placed_example = bind-Placed deps "ann" "c1" "a1" root_issue artifact_text proposed binds

abbrev prompt : PromptData
prompt = record {
  issue_title = "ship";
  issue_description = "";
  project_context = "";
  artifacts = [];
}

run_phases-Ended_example :
    Ended working "c1" kind_tasks
      (run_phases working deps "ann" root_issue phase_order (at_phase "proposal") prompt proposed)
run_phases-Ended_example =
    run_phases-Ended working deps "ann" root_issue (at_phase "proposal") prompt proposed
