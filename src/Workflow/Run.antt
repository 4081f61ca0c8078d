-- ===== src/Workflow/Run.antt =====
-- workflow/splitter.go: `Run`, the loop over the phases, and workflow/service.go: `StartSplit`.
use spec_powers.Prelude.{String, Option, none, some, List, [], ◌∷◌, str_eq, if◌then◌else◌}
use spec_powers.Domain.{Issue, Change, ChangeHandoff, Artifact, TaskMapping}
use spec_powers.Api.{
  err_invalid, err_not_found, err_conflict, err_internal, Stored, found, missing, failed, Result,
  ok, err, checked, Action, pure, lift, reads, writes, listed, ◌>>=◌, ◌>>◌,
}
use spec_powers.Workflow.Phases.{phase_order, kind_proposal, kind_tasks}
use spec_powers.Workflow.Stores.{Stores}
use spec_powers.Workflow.Access.{require_project_role}
use spec_powers.Workflow.Split.{Deps, PromptData, generated, generate_phase, bind_sub_issues}

-- `data.Artifacts[kind] = content`.
abbrev pub with_artifact : PromptData → String → String → PromptData
with_artifact so_far kind content = record so_far { artifacts = (kind, content) ∷ so_far.artifacts }

abbrev pub none_yet : Stored Change → Result (Unit {0})
none_yet (found c) = err (err_conflict "change already exists for this issue")
none_yet missing = ok tt
none_yet failed = err (err_internal "get change failed")

module _ (st : Stores) where
  open st use {
    State, get_issue, get_change_by_issue, create_change, update_change, create_handoff,
    create_artifact, list_task_mappings,
  }

  -- `s.issues.GetIssue(…)`, with its errors.
  abbrev pub required_issue : String → Action State Issue
  required_issue issue = reads (λ s.
      checked (get_issue issue s) (err_not_found "issue not found")
        (err_internal "get issue failed"))

  -- A change starts at the proposal.
  unfoldable pub open_change : String → String → String → Action State Change
  open_change user issue project =
      writes
        (create_change (record {
          id = "";
          project_id = project;
          issue_id = issue;
          phase = kind_proposal;
          status = "active";
          created_by = user;
        }))
        (err_internal "create change failed")

  abbrev pub fail_if : {A : Type 0} → Change → Result A × State → Result A × State
  fail_if c (ok a, s) = (ok a, s)
  fail_if c (err e, s) = (err e, (update_change (record c { status = "failed" }) s).1)

  -- A step after which an error ends in `failChange`.
  abbrev pub or_fail : {A : Type 0} → Change → Action State A → Action State A
  or_fail c m s = fail_if c (m s)

  module _ (p : Deps State) where
    open p use {project_context}

    -- The artifact of one phase, and what it says.
    unfoldable pub produce :
        String → Change → String → PromptData → Action State (String × Artifact)
    unfolding generate_phase
    produce user c kind so_far = do
      content ← λ s. let (t, s') = generate_phase p kind so_far s in (generated p kind t, s')
      saved ←
          writes
            (create_artifact (record {
              id = "";
              change_id = c.id;
              kind = kind;
              version = 0;
              content = content;
              created_by = user;
              run_id = "";
              created_at = 0;
            }))
            (err_internal "save artifact failed")
      pure (content, saved)

    abbrev pub record_handoff : String → Change → String → String → Action State ChangeHandoff
    record_handoff user c kind next = or_fail c (
        writes
          (create_handoff (record {
            id = "";
            change_id = c.id;
            from_phase = kind;
            to_phase = next;
            created_by = user;
            created_at = 0;
          }))
          (err_internal "record handoff failed"))

    -- A write that fails marks the change failed at its new phase.
    abbrev pub move_to : Change → String → Action State Change
    move_to c next =
        or_fail (record c { phase = next })
          (writes (update_change (record c { phase = next }))
            (err_internal "advance change phase failed"))

    -- The handoff to the next phase, and the change at that phase.
    unfoldable pub hand_over : String → Change → String → List String → Action State Change
    hand_over user c kind [] = pure c
    hand_over user c kind (next ∷ rest) = do
      record_handoff user c kind next
      move_to c next
      pure (record c { phase = next })

    unfoldable pub end_phase :
        String → Issue → Change → String → List String → String → Artifact → Action State Change
    unfolding bind_sub_issues hand_over
    end_phase user i c kind rest content saved =
        if str_eq kind kind_tasks
        then or_fail c (bind_sub_issues p user i c.id saved.id content) >> pure c
        else hand_over user c kind rest

    -- The loop over the phases that are left.
    unfoldable pub run_phases :
        String → Issue → List String → Change → PromptData → Action State Change
    unfolding produce end_phase
    run_phases user i [] c so_far = pure c
    run_phases user i (kind ∷ rest) c so_far = do
      (content, saved) ← or_fail c (produce user c kind so_far)
      c' ← end_phase user i c kind rest content saved
      run_phases user i rest c' (with_artifact so_far kind content)

    abbrev context_in : Option (String → State → Option String) → String → State → String
    context_in none project s = ""
    context_in (some get) project s = elim (get project s) [ none ↦ "" | some text ↦ text ]

    -- `Splitter.Run`.
    unfoldable pub run_split : String → String → Action State Change
    unfolding open_change run_phases phase_order
    run_split user issue = do
      i ← required_issue issue
      reads (λ s. none_yet (get_change_by_issue issue s))
      context ← reads (λ s. ok (context_in project_context i.project_id s))
      c ← open_change user issue i.project_id
      run_phases user i phase_order c (record {
        issue_title = i.title;
        issue_description = i.description;
        project_context = context;
        artifacts = [];
      })

  split_with : Option (Deps State) → String → String → Action State (Change × List TaskMapping)
  unfolding run_split
  split_with none user issue = lift (err (err_invalid "splitter is not configured"))
  split_with (some p) user issue = do
    c ← run_split p user issue
    tasks ← reads (λ s. listed (list_task_mappings c.id s) "list task mappings failed")
    pure (c, tasks)

  -- `StartSplit`.
  unfoldable pub start_split :
      Option (Deps State) → String → String → Action State (Change × List TaskMapping)
  unfolding require_project_role split_with
  start_split p user issue = do
    i ← required_issue issue
    reads (require_project_role st user i.project_id)
    split_with p user issue
