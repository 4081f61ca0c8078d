-- ===== src/Workflow/Postgres/Verify.antt =====
-- verify.go and workflow.go of the stores: submitted verify reports and the verify gate.
use spec_powers.Prelude.{ℕ, String, ◌≡◌, ap, ◌∙◌, inl, inr, Bool, str_eq, arith}
use spec_powers.Domain.{Change, Artifact}
use spec_powers.Api.{ok, found}
use spec_powers.Workflow.Phases.{kind_verify}
use spec_powers.Workflow.Stores.{Stores, Yaml, VerifyReport}
use spec_powers.Workflow.Access.{require_change_role}
use spec_powers.Workflow.Guard.{valid, parse_verify_report, passed_report, verify_passed}
use spec_powers.Workflow.Advance.{submit_verify_report}
use spec_powers.Workflow.Gates.{role-state, Result-cases}
use spec_powers.Workflow.Postgres.{Db, Others, pg_stores, create_artifact}
use spec_powers.Workflow.Postgres.Versions.{get-create_artifact}

verify_passed-found :
    (st : Stores) (y : Yaml) (id : String) (s : st.State) (a : Artifact) (r : VerifyReport)
    → st.get_artifact id kind_verify 0 s ≡ found a
    → parse_verify_report y a.content ≡ valid r
    → (verify_passed st y id s).0 ≡ str_eq r.result "pass"
unfolding verify_passed passed_report
verify_passed-found st y id s a r got parsed = rw (got, verify_passed) (ground (arith, parsed))

module _ (new_id : ℕ → String) (accepts : ℕ → ℕ → Bool) (o : Others) (y : Yaml)
    (user change content run : String) (d d' : Db) (a : Artifact) (b : Bool)
    (submitted : submit_verify_report (pg_stores new_id accepts o) y user change content run d
      ≡ (ok (a, b), d')) where
  submit-role :
      (c : Change) × (require_change_role (pg_stores new_id accepts o) user change d ≡ (ok c, d))
  unfolding submit_verify_report
  submit-role =
      elim (Result-cases (require_change_role (pg_stores new_id accepts o) user change d).0) [
        | inl (c, e) ↦ (c, ground (arith, role-state (pg_stores new_id accepts o) user change d))
        | inr (x, e) ↦ absurd (ground arith)
      ]

  abbrev given : Change → Artifact
  given c = record {
    id = "";
    change_id = c.id;
    kind = kind_verify;
    version = 0;
    content = content;
    created_by = user;
    run_id = run;
    created_at = 0;
  }

  submit-writes :
      (c : Change)
      → require_change_role (pg_stores new_id accepts o) user change d ≡ (ok c, d)
      → (create_artifact new_id (given c) d ≡ (found a, d'))
        × ((r : VerifyReport) × (parse_verify_report y content ≡ valid r)
            × (str_eq r.result "pass" ≡ b))
  unfolding submit_verify_report
  submit-writes c role = (ground (arith, role), ground (arith, role))

  -- After a verify report was accepted, the verify gate of the change is open exactly if
  -- `SubmitVerifyReport` said that the report passes.
  pub verify_passed-submit :
      (c : Change) × (require_change_role (pg_stores new_id accepts o) user change d ≡ (ok c, d))
      × ((verify_passed (pg_stores new_id accepts o) y c.id d').0 ≡ b)
  verify_passed-submit =
      let (c, role) = submit-role in
      let (written, (r, parsed, verdict)) = submit-writes c role in
      let (latest, version, same) = get-create_artifact new_id (given c) d written in
      (
        c,
        role,
        verify_passed-found (pg_stores new_id accepts o) y c.id d' a r latest
              (ap (parse_verify_report y) same ∙ parsed)
            ∙ verdict,
      )
