-- ===== src/Workflow/Manual.antt =====
-- workflow/manual.go: artifacts that agents and people write, without the splitter's model.
use spec_powers.Prelude.{
  String, Bool, true, false, not, Option, none, some, List, [], str_eq, concat, is_blank,
  if◌then◌else◌,
}
use spec_powers.Domain.{Change, Artifact, TaskMapping}
use spec_powers.Api.{
  err_invalid, err_conflict, err_internal, err, Action, pure, lift, reads, writes, guard, ◌>>=◌,
  ◌>>◌,
}
use spec_powers.Workflow.Phases.{is_valid_kind, kind_tasks}
use spec_powers.Workflow.Stores.{Stores}
use spec_powers.Workflow.Access.{require_change_role, require_project_role}
use spec_powers.Workflow.Split.{Deps, bind_sub_issues}
use spec_powers.Workflow.Run.{required_issue, none_yet, open_change, start_split}

module _ (st : Stores) where
  open st use {State, create_artifact, get_change_by_issue}

  -- `bindTaskSubIssues`, with the issue service if it is attached.
  unfoldable pub bind_tasks :
      Option (Deps State) → String → Change → Artifact → String → Action State (Unit {0})
  unfolding bind_sub_issues
  bind_tasks none user c a content = lift (err (err_internal "issue creator is not configured"))
  bind_tasks (some p) user c a content = do
    parent ← required_issue st c.issue_id
    bind_sub_issues p user parent c.id a.id content

  unfoldable pub write_artifact :
      Option (Deps State) → String → String → String → String → String → Action State Artifact
  unfolding is_valid_kind is_blank require_change_role bind_tasks
  write_artifact p user change kind content run = do
    guard (is_valid_kind kind) (err_invalid (concat "unknown artifact kind: " kind))
    guard (not (is_blank content)) (err_invalid "content is required")
    c ← require_change_role st user change
    guard (str_eq c.status "active") (err_conflict "change is not active")
    a ←
        writes
          (create_artifact (record {
            id = "";
            change_id = c.id;
            kind = kind;
            version = 0;
            content = content;
            created_by = user;
            run_id = run;
            created_at = 0;
          }))
          (err_internal "save artifact failed")
    if str_eq kind kind_tasks then bind_tasks p user c a content else pure tt
    pure a

  unfoldable pub start_change :
      Option (Deps State) → String → String → Bool → Action State (Change × List TaskMapping)
  unfolding start_split require_project_role open_change
  start_change p user issue false = start_split st p user issue
  start_change p user issue true = do
    i ← required_issue st issue
    reads (require_project_role st user i.project_id)
    reads (λ s. none_yet (get_change_by_issue issue s))
    c ← open_change st user issue i.project_id
    pure (c, [])
