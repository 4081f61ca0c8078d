-- ===== src/Workflow/Postgres/Listing.antt =====
-- `collectArtifacts` scans eight columns into seven targets.
use mathlib.Core.Bool.{false≢true}
use spec_powers.Prelude.{
  ℕ, suc, String, ◌≡◌, ◌≢◌, refl, sym, ◌∙◌, Bool, false, some, List, [], ◌∷◌, take, all, arith,
}
use spec_powers.Domain.{Change, ChangeHandoff, Artifact}
use spec_powers.Api.{ok}
use spec_powers.Workflow.Phases.{phase_order}
use spec_powers.Workflow.Guard.{has_kind}
use spec_powers.Workflow.Advance.{advance_phase, archive}
use spec_powers.Workflow.Archived.{advance-next_phase, archive-IsArchivable}
use spec_powers.Workflow.Stores.{Yaml}
use spec_powers.Workflow.Postgres.{
  Db, collect, list_artifacts, latest_rows, Others, pg_stores, artifact_columns, artifact_targets,
}

module _ (new_id : ℕ → String) (accepts : ℕ → ℕ → Bool)
    (same_arity : (columns targets : ℕ) → columns ≢ targets → accepts columns targets ≡ false)
    (o : Others) where
  mismatch : artifact_columns ≢ artifact_targets
  mismatch = omega arith

  collect_empty :
      (rows l : List Artifact)
      → collect accepts artifact_columns artifact_targets rows ≡ some l
      → l ≡ []
  unfolding collect
  collect_empty [] l e = ground arith
  collect_empty (a ∷ rows) l e =
      ground (arith, same_arity artifact_columns artifact_targets mismatch)

  none_complete : (idx : ℕ) → all (has_kind []) (take (suc idx) phase_order) ≡ false
  unfolding phase_order
  none_complete idx = refl

  no_rows :
      (idx : ℕ) (change : String) (d : Db) {rows : List Artifact}
      → list_artifacts accepts change d ≡ some rows
      → all (has_kind rows) (take (suc idx) phase_order) ≡ false
  unfolding list_artifacts
  no_rows idx change d {rows} e =
      rw (collect_empty (latest_rows change d.artifacts) rows e) (none_complete idx)

  -- On these stores no change ever advances: the listing that the phase gate reads fails as soon as
  -- the change has an artifact, and without one the gate is shut.
  pub advance_never :
      (user change : String) (d : Db) (r : Change × ChangeHandoff)
      → (advance_phase (pg_stores new_id accepts o) user change d).0 ≢ ok r
  advance_never user change d (c', h) e =
      let (c, idx, rows, got, active, next, same, moved, i, l, complete) =
        advance-next_phase (pg_stores new_id accepts o) user change d c' h e in
      false≢true (sym (no_rows idx c.id d l) ∙ complete)

  -- Nor is any change ever archived.
  pub archive_never :
      (y : Yaml) (user change : String) (d : Db) (c' : Change)
      → (archive (pg_stores new_id accepts o) y user change d).0 ≢ ok c'
  unfolding phase_order
  archive_never y user change d c' e =
      let (c, got, same, gates) =
        archive-IsArchivable (pg_stores new_id accepts o) y user change d c' e in
      false≢true (sym (no_rows 3 c.id d gates.listed) ∙ gates.complete)
