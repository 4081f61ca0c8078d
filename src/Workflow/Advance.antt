-- ===== src/Workflow/Advance.antt =====
-- workflow/guard.go: the operations behind the gates: `AdvancePhase`, `SubmitVerifyReport`, `Archive`.
use spec_powers.Prelude.{
  String, Bool, true, false, Option, none, some, List, [], ◌∷◌, str_eq, concat, if◌then◌else◌,
}
use spec_powers.Domain.{Issue, Change, ChangeHandoff, Artifact}
use spec_powers.Api.{
  err_invalid, err_not_found, err_conflict, err_internal, Result, ok, err, checked, Action, pure,
  reads, writes, lift, guard, calls, ◌>>=◌, ◌>>◌,
}
use spec_powers.Workflow.Phases.{next_phase, kind_tasks, kind_verify}
use spec_powers.Workflow.Stores.{Stores, Yaml, VerifyReport}
use spec_powers.Workflow.Access.{require_change_role}
use spec_powers.Workflow.Guard.{
  phase_legal, handoff_fresh, verify_passed, parse_verify_report, Checked, valid, rejected,
}

-- `next, has := NextPhase(c.Phase); if !has { … }`.
abbrev pub required_phase : Option String → Result String
required_phase none = err (err_conflict "change is at the final phase; archive it instead")
required_phase (some k) = ok k

-- `if !ok { return ErrConflict(prefix + reasons[0]) }`.
abbrev pub first_reason : List String → String
first_reason [] = ""
first_reason (r ∷ rs) = r

abbrev pub legal_gate : String → Bool × List String → Result (Unit {0})
legal_gate prefix (true, reasons) = ok tt
legal_gate prefix (false, reasons) = err (err_conflict (concat prefix (first_reason reasons)))

abbrev pub gate : String → Bool × String → Result (Unit {0})
gate prefix (true, reason) = ok tt
gate prefix (false, reason) = err (err_conflict (concat prefix reason))

abbrev pub accepted_report : Checked → Result VerifyReport
accepted_report (valid r) = ok r
accepted_report (rejected e) = err (err_invalid (concat "verify report rejected: " e))

module _ (st : Stores) where
  open st use {
    State, create_handoff, update_change, create_artifact, get_issue, wakeups, wakeup_hook,
  }

  -- The writes of `AdvancePhase`: the handoff first, then the change.
  unfoldable pub record_advance : String → Change → String → Action State (Change × ChangeHandoff)
  record_advance user c next = do
    handoff ←
        writes
          (create_handoff (record {
            id = "";
            change_id = c.id;
            from_phase = c.phase;
            to_phase = next;
            created_by = user;
            created_at = 0;
          }))
          (err_internal "record handoff failed")
    let c' = record c { phase = next }
    writes (update_change c') (err_internal "advance change phase failed")
    pure (c', handoff)

  unfoldable pub advance_phase : String → String → Action State (Change × ChangeHandoff)
  advance_phase user change = do
    c ← require_change_role st user change
    guard (str_eq c.status "active") (err_conflict "change is not active")
    next ← lift (required_phase (next_phase c.phase))
    reads (λ s. legal_gate "phase gate failed: " (phase_legal st c s))
    reads (λ s. gate "handoff gate failed: " (handoff_fresh st c s))
    record_advance user c next

  unfoldable pub submit_verify_report :
      Yaml → String → String → String → String → Action State (Artifact × Bool)
  submit_verify_report y user change content run = do
    c ← require_change_role st user change
    guard (str_eq c.status "active") (err_conflict "change is not active")
    r ← lift (accepted_report (parse_verify_report y content))
    a ←
        writes
          (create_artifact (record {
            id = "";
            change_id = c.id;
            kind = kind_verify;
            version = 0;
            content = content;
            created_by = user;
            run_id = run;
            created_at = 0;
          }))
          (err_internal "save verify report failed")
    pure (a, str_eq r.result "pass")

  run_hook : Option (Issue → State → Bool × State) → Issue → Action State (Unit {0})
  run_hook none i = pure tt
  run_hook (some hook) i = do
    parent ← reads (λ s.
        checked (get_issue i.parent_id s) (err_not_found "parent issue not found")
          (err_internal "get parent issue failed"))
    calls (hook parent) (err_internal "notify parent wakeup failed")

  wake : (String → String → State → Bool × State) → Issue → Action State (Unit {0})
  unfolding run_hook
  wake create i = if str_eq i.parent_id "" then pure tt else do
    calls (create i.parent_id i.id) (err_internal "record parent wakeup failed")
    run_hook wakeup_hook i

  unfoldable pub wake_change_issue_parent :
      (String → String → State → Bool × State) → Change → Action State (Unit {0})
  unfolding wake
  wake_change_issue_parent create c = do
    i ← reads (λ s.
        checked (get_issue c.issue_id s) (err_not_found "issue not found")
          (err_internal "get issue failed"))
    wake create i

  required_recorder :
      Option (String → String → State → Bool × State)
      → Result (String → String → State → Bool × State)
  required_recorder none = err (err_internal "wakeup recorder is not configured")
  required_recorder (some create) = ok create

  -- The writes of `Archive`.
  unfoldable pub record_archive :
      (String → String → State → Bool × State) → Change → Action State Change
  unfolding wake_change_issue_parent
  record_archive create c = do
    let c' = record c { status = "archived" }
    writes (update_change c') (err_internal "archive change failed")
    wake_change_issue_parent create c'
    pure c'

  unfoldable pub archive : Yaml → String → String → Action State Change
  unfolding required_recorder
  archive y user change = do
    c ← require_change_role st user change
    guard (str_eq c.status "active") (err_conflict "change is not active")
    guard (str_eq c.phase kind_tasks) (err_conflict "archive gate failed: phase is not tasks")
    reads (λ s. legal_gate "archive gate failed: " (phase_legal st c s))
    reads (λ s. gate "archive gate failed: " (handoff_fresh st c s))
    reads (λ s. gate "archive gate failed: " (verify_passed st y c.id s))
    create ← lift (required_recorder wakeups)
    record_archive create c
