-- ===== src/Workflow/Guard.antt =====
-- workflow/guard.go and verify.go: the three gates of a change, and `GuardStatus`.
use spec_powers.Prelude.{
  ℕ, suc, String, Bool, true, false, not, ◌&&◌, Option, none, some, List, [], ◌∷◌, ◌++◌, map, any,
  find, select, take, ltb, str_eq, concat, if◌then◌else◌,
}
use spec_powers.Domain.{Change, ChangeHandoff, Artifact}
use spec_powers.Api.{Action, found, missing, failed, gets, ◌>>=◌}
use spec_powers.Workflow.Phases.{
  phase_order, phase_index, next_phase, kind_proposal, kind_tasks, kind_verify,
}
use spec_powers.Workflow.Stores.{
  Stores, Yaml, bad_map, nil_map, mapping, YamlReport, bad_report, report, VerifyReport,
}
use spec_powers.Workflow.Access.{require_change_role}

-- `ParseVerifyReport`: a report, or the text of the error.
pub data Checked : Type 0 where
  valid : VerifyReport → Checked
  rejected : String → Checked

-- `%q` of a text without characters to escape.
quoted : String → String
quoted t = concat "\"" (concat t "\"")

check_report : YamlReport → Checked
unfolding quoted
check_report (bad_report e) = rejected (concat "not valid YAML: " e)
check_report (report r) =
    if str_eq r.result "pass"
    then valid r
    else if str_eq r.result "fail"
    then valid r
    else if str_eq r.result ""
    then rejected "result field is required"
    else rejected (concat "result must be pass or fail, got " (quoted r.result))

unfoldable pub parse_verify_report : Yaml → String → Checked
unfolding check_report
parse_verify_report y content = elim (y.as_map content) [
  | bad_map e ↦ rejected (concat "not valid YAML: " e)
  | nil_map ↦ rejected "verify report must be a YAML mapping"
  | mapping ↦ check_report (y.as_report content)
]

-- `byKind[kind]` after the loop over the rows: the last row of the kind.
last_of_kind : String → List Artifact → Option Artifact
last_of_kind kind [] = none
last_of_kind kind (a ∷ rest) = elim (last_of_kind kind rest) [
  | some b ↦ some b
  | none ↦ if str_eq a.kind kind then some a else none
]

-- The kinds without a row, in order.
abbrev pub has_kind : List Artifact → String → Bool
has_kind rows kind = any (λ (a : Artifact). str_eq a.kind kind) rows

unfoldable pub missing_kinds : List Artifact → List String → List String
missing_kinds rows kinds = select (λ k. not (has_kind rows k)) kinds

-- The first kind whose row is newer than the handoff.
is_newer : ChangeHandoff → Option Artifact → Bool
is_newer latest none = false
is_newer latest (some a) = ltb latest.created_at a.created_at

unfoldable pub stale_kind : ChangeHandoff → List Artifact → List String → Option String
unfolding last_of_kind is_newer
stale_kind latest rows kinds = find (λ k. is_newer latest (last_of_kind k rows)) kinds

abbrev pub is_empty : List String → Bool
is_empty [] = true
is_empty (r ∷ rs) = false

-- The kinds before the phase; none of an unknown phase, whose index is -1.
unfoldable pub kinds_before : String → List String
kinds_before phase = elim (phase_index phase) [ none ↦ [] | some i ↦ take i phase_order ]

pub record GuardReport : Type 0 where
  pub change_id : String
  pub phase : String
  pub next : Option String
  pub legal : Bool
  pub fresh : Bool
  pub passed : Bool
  pub can_advance : Bool
  pub can_archive : Bool
  pub reasons : List String

abbrev pub is_some : Option String → Bool
is_some none = false
is_some (some k) = true

abbrev reason_if : Bool → String → List String
reason_if true r = r ∷ []
reason_if false r = []

-- The report from the three gates, each with its reasons.
unfoldable pub make_report :
    Change → Bool × List String → Bool × String → Bool × String → GuardReport
make_report c (legal, reasons) (fresh, stale_reason) (passed, verify_reason) =
    let active = str_eq c.status "active" in
    let next = next_phase c.phase in
    let can_archive = active && str_eq c.phase kind_tasks && legal && fresh && passed in
    record {
      change_id = c.id;
      phase = c.phase;
      next = next;
      legal = legal;
      fresh = fresh;
      passed = passed;
      can_advance = active && is_some next && legal && fresh;
      can_archive = can_archive;
      reasons =
          reasons
          ++ (reason_if (not active) "change is not active"
              ++ (reason_if (not (is_some next) && not can_archive)
                    "change is at the final phase; archive it instead"
                  ++ (reason_if (not fresh) stale_reason ++ reason_if (not passed) verify_reason)));
    }

module _ (st : Stores) where
  open st use {State, list_artifacts, list_handoffs, get_artifact}

  unfoldable pub legal_at : Option ℕ → Change → State → Bool × List String
  unfolding missing_kinds
  legal_at none c s = (false, concat "unknown phase: " c.phase ∷ [])
  legal_at (some idx) c s = elim (list_artifacts c.id s) [
    | none ↦ (false, "list artifacts failed" ∷ [])
    | some rows ↦
        let reasons =
          map (λ k. concat "missing artifact: " k)
            (missing_kinds rows (take (suc idx) phase_order)) in
        (is_empty reasons, reasons)
  ]

  unfoldable pub phase_legal : Change → State → Bool × List String
  unfolding legal_at
  phase_legal c s = legal_at (phase_index c.phase) c s

  fresh_since : ChangeHandoff → Change → State → Bool × String
  fresh_since latest c s =
      if str_eq latest.to_phase c.phase
      then elim (list_artifacts c.id s) [
        | none ↦ (false, "list artifacts failed")
        | some rows ↦ elim (stale_kind latest rows (kinds_before c.phase)) [
          | none ↦ (true, "")
          | some k ↦ (false, concat (concat "handoff is stale: " k) " was updated after it")
        ]
      ]
      else (
        false,
        concat (concat (concat "latest handoff targets phase " latest.to_phase) ", not ") c.phase,
      )

  unfoldable pub fresh_handoff : Option (List ChangeHandoff) → Change → State → Bool × String
  unfolding fresh_since
  fresh_handoff none c s = (false, "list handoffs failed")
  fresh_handoff (some []) c s = (false, "no handoff recorded for the current phase")
  fresh_handoff (some (latest ∷ older)) c s = fresh_since latest c s

  unfoldable pub handoff_fresh : Change → State → Bool × String
  unfolding fresh_handoff
  handoff_fresh c s =
      if str_eq c.phase kind_proposal then (true, "") else fresh_handoff (list_handoffs c.id s) c s

  unfoldable pub passed_report : Checked → Bool × String
  passed_report (rejected e) = (false, concat "verify report is invalid: " e)
  passed_report (valid r) =
      if str_eq r.result "pass" then (true, "") else (false, concat "verify result is " r.result)

  unfoldable pub verify_passed : Yaml → String → State → Bool × String
  unfolding passed_report
  verify_passed y change s = elim (get_artifact change kind_verify 0 s) [
    | missing ↦ (false, "no verify report submitted")
    | failed ↦ (false, "get verify report failed")
    | found a ↦ passed_report (parse_verify_report y a.content)
  ]

  unfoldable pub report_on : Yaml → Change → State → GuardReport
  unfolding make_report
  report_on y c s = make_report c (phase_legal c s) (handoff_fresh c s) (verify_passed y c.id s)

  unfoldable pub guard_status : Yaml → String → String → Action State GuardReport
  unfolding report_on
  guard_status y user change = do c ← require_change_role st user change; gets (report_on y c)
