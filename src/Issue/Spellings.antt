-- ===== src/Issue/Spellings.antt =====
-- issue/service.go over store/postgres/issues.go: an issue moved below itself.
use spec_powers.Prelude.{
  ℕ, suc, String, ◌≡◌, ◌≢◌, refl, true, some, List, [], ◌∷◌, map, any, find, str_eq, eq_iff,
  eq_refl, arith, Bool-cases, inl, inr, none, Option, false, ◌∙◌, ap,
}
use spec_powers.Domain.{Issue}
use spec_powers.Api.{Result, found, ok, given, whenever, calls, err_internal, pure, ◌>>◌}
use spec_powers.Issue.Access.{UpdateInput, record_event}
use spec_powers.Issue.Update.{
  updated, FieldChange, field_changes, record_changes, record_field_events, after_update,
  may_update, check_update, check_new_parent, check_assignee, update_issue_for,
}
use spec_powers.Issue.Stores.{RunTrigger}
use spec_powers.Issue.Tree.{climb, climb_from, validate_new_parent}
use spec_powers.Issue.Postgres.{
  IssueOthers, pg_issues, create_event, IssueDb, one, row_at, get_issue, normalize, fits_table,
  rewrite, update_at, update_issue,
}

found_any :
    (k : String) (rows : List Issue) (c : Issue)
    → one (find (λ (x : Issue). str_eq x.id k) rows) ≡ found c
    → any (λ (x : Issue). str_eq x.id k) rows ≡ true
found_any k [] c h = absurd (ground arith)
found_any k (x ∷ rows) c h = ground (arith, found_any k rows c)

rewritten :
    (d : IssueDb) (k : String) (u : Issue) (rows : List Issue) (c : Issue)
    → one (find (λ (x : Issue). str_eq x.id k) rows) ≡ found c
    → one (find (λ (x : Issue). str_eq x.id k) (map (rewrite d k u) rows)) ≡ found (rewrite d k u c)
rewritten d k u [] c h = absurd (ground arith)
rewritten d k u (x ∷ rows) c h = elim (Bool-cases (str_eq x.id k)) [
  | inl e ↦ let same : x ≡ c = found-injective (rw e at h) in rw (e, ← same) (rw (e) refl)
  | inr e ↦ rw (e, e) (rewritten d k u rows c (rw e at h))
]
  where
    found-injective : {a b : Issue} → found a ≡ found b → a ≡ b
    found-injective q = cc

module _ (d : IssueDb) (c : Issue) (p : String) (row : row_at c.id d ≡ found c)
    (stored : d.uuid c.id ≡ some c.id) (other : d.uuid p ≡ some c.id) (differs : p ≢ c.id)
    (some_text : p ≢ "") where
  finds_itself : get_issue p d ≡ found c
  unfolding get_issue
  finds_itself = rw (other, get_issue) row

  lets_through :
      (fuel : ℕ)
      → c.parent_id ≡ ""
      → validate_new_parent (suc fuel) (λ x. get_issue x d) c p ≡ ok tt
  unfolding validate_new_parent climb_from climb
  lets_through fuel root = ground (
    arith,
    finds_itself,
    root,
    eq_iff p "",
    eq_iff p c.id,
    eq_iff c.parent_id "",
    eq_refl c.project_id,
  )

  writes_itself :
      fits_table d (normalize d (record c { parent_id = p })) ≡ true
      → (saved : Issue) × (d' : IssueDb) × (update_issue (record c { parent_id = p }) d
          ≡ (found saved, d'))
        × (row_at c.id d' ≡ found saved)
        × (saved.id ≡ c.id)
        × (saved.parent_id ≡ c.id)
  unfolding update_issue update_at normalize row_at
  writes_itself fits =
      let u : Issue = record c { parent_id = p } in
      let back = rewritten d c.id u d.issues c row in
      (
        rewrite d c.id u c,
        record d { issues = map (rewrite d c.id u) d.issues },
        ground (arith, stored, fits, found_any c.id d.issues c row, back),
        back,
        ground (arith, eq_refl c.id),
        ground (arith, eq_refl c.id, other, eq_iff p ""),
      )

-- A PATCH of the parent alone.
abbrev pub below : String → UpdateInput
below parent = record {
  title = none;
  description = none;
  priority = none;
  assignee_id = none;
  due_date = none;
  labels = none;
  parent_id = some parent;
  stage = none;
  position = none;
}

module _ (new_id : ℕ → String) (o : IssueOthers) where
  recorded :
      (issue user : String) (cs : List FieldChange) (d : IssueDb)
      → (d' : IssueDb) × (record_changes (pg_issues new_id o) issue user cs d ≡ (ok tt, d'))
        × (d'.issues ≡ d.issues)
  unfolding record_changes record_event create_event
  recorded issue user [] d = (d, refl, refl)
  recorded issue user (c ∷ cs) d = recorded issue user cs _

  untold :
      (r : Option (RunTrigger IssueDb)) (saved : Issue) (d : IssueDb)
      → (given r (λ (t : RunTrigger IssueDb).
              whenever false (calls (t.assigned saved) (err_internal "notify assignment failed")))
            >> pure saved)
          d
        ≡ (ok saved, d)
  untold none saved d = refl
  untold (some t) saved d = refl

  after_move :
      (user p : String) (c saved : Issue) (d : IssueDb)
      → (d' : IssueDb) × (after_update (pg_issues new_id o) user c (below p) saved d
          ≡ (ok saved, d'))
        × (d'.issues ≡ d.issues)
  unfolding after_update record_field_events
  after_move user p c saved d =
      let (d', e, same) =
        recorded saved.id user (field_changes (pg_issues new_id o) c saved (below p)) d in
      (d', rw e (untold o.run_trigger saved d'), same)

  module _ (d : IssueDb) (c : Issue) (user issue p : String) (fuel : ℕ)
      (got : get_issue issue d ≡ found c)
      (may : may_update (pg_issues new_id o) user c (below p) d ≡ ok tt) where
    passes :
        validate_new_parent fuel (λ x. get_issue x d) c p ≡ ok tt
        → check_update (pg_issues new_id o) fuel user issue (below p) d ≡ (ok c, d)
    unfolding check_update check_new_parent check_assignee
    passes valid = rw (got, may, valid) refl

    moves :
        (w : Issue) (d' : IssueDb)
        → validate_new_parent fuel (λ x. get_issue x d) c p ≡ ok tt
        → update_issue (updated c (below p)) d ≡ (found w, d')
        → update_issue_for (pg_issues new_id o) fuel user issue (below p) d
          ≡ after_update (pg_issues new_id o) user c (below p) w d'
    unfolding update_issue_for
    moves w d' valid wrote = rw (passes valid, wrote) refl

-- UpdateIssue can move a root issue below itself: a PATCH whose parent is the issue's own id, in a
-- spelling that is not the stored one, by a caller who may update the issue, succeeds, and afterwards
-- the stored row of the issue has its own id as its parent. The row meets the table's constraints.
pub own_parent :
    (new_id : ℕ → String) (o : IssueOthers) (d : IssueDb) (c : Issue) (user issue p : String)
    (fuel : ℕ)
    → get_issue issue d ≡ found c
    → may_update (pg_issues new_id o) user c (below p) d ≡ ok tt
    → row_at c.id d ≡ found c
    → d.uuid c.id ≡ some c.id
    → c.parent_id ≡ ""
    → d.uuid p ≡ some c.id
    → p ≢ c.id
    → p ≢ ""
    → fits_table d (normalize d (record c { parent_id = p })) ≡ true
    → (let r = update_issue_for (pg_issues new_id o) (suc fuel) user issue (below p) d in
        (saved : Issue) × (r.0 ≡ ok saved)
        × (row_at c.id r.1 ≡ found saved)
        × (saved.id ≡ c.id)
        × (saved.parent_id ≡ c.id))
unfolding row_at
own_parent new_id o d c user issue p fuel got may row stored root other differs some_text fits =
    let valid = lets_through d c p row stored other differs some_text fuel root in
    let (saved, d', wrote, back, same, itself) =
      writes_itself d c p row stored other differs some_text fits in
    let (end, answers, kept) = after_move new_id o user p c saved d' in
    let run = moves new_id o d c user issue p (suc fuel) got may saved d' valid wrote ∙ answers in
    (
      saved,
      ap (λ r. r.0) run,
      ap (λ (r : Result Issue × IssueDb). row_at c.id r.1) run
          ∙ ap (λ rows. one (find (λ (x : Issue). str_eq x.id c.id) rows)) kept
          ∙ back,
      same,
      itself,
    )
