-- ===== src/Workflow/Archived.antt =====
-- What a change has been through when it is archived, and when it advances.
use mathlib.Core.Bool.{false≢true}
use spec_powers.Prelude.{
  ℕ, suc, String, ◌≡◌, refl, sym, ap, ◌∙◌, ◌≢◌, inl, inr, true, Option, none, some, List, [], ◌∷◌,
  map, all, take, str_eq, eq_iff, arith, Option-cases, subst,
}
use spec_powers.Domain.{Change, ChangeHandoff, Artifact}
use spec_powers.Api.{ok, found}
use spec_powers.Workflow.Phases.{
  next_phase, phase_order, phase_index, kind_proposal, kind_tasks, kind_verify,
}
use spec_powers.Workflow.Stores.{Stores, Yaml, VerifyReport}
use spec_powers.Workflow.Access.{require_change_role}
use spec_powers.Workflow.Guard.{
  has_kind, missing_kinds, stale_kind, kinds_before, legal_at, phase_legal, is_empty, fresh_handoff,
  handoff_fresh, passed_report, parse_verify_report, valid, verify_passed,
}
use spec_powers.Workflow.Advance.{advance_phase, record_advance, record_archive, archive}
use spec_powers.Workflow.Moved.{Moved, record_advance-Moved}
use spec_powers.Workflow.Gates.{role-reads, role-state, Result-cases}

-- No kind is missing exactly if every kind has a row.
no_missing :
    (rows : List Artifact) (kinds : List String) (reason : String → String)
    → is_empty (map reason (missing_kinds rows kinds)) ≡ all (has_kind rows) kinds
unfolding missing_kinds
no_missing rows [] reason = refl
no_missing rows (k ∷ ks) reason = ground (arith, no_missing rows ks reason)

module _ (st : Stores) (c : Change) (s : st.State) where
  -- The phase gate is open exactly if every kind up to the phase has an artifact.
  pub phase_legal-eq-all :
      {idx : ℕ} {rows : List Artifact}
      → phase_index c.phase ≡ some idx
      → st.list_artifacts c.id s ≡ some rows
      → (phase_legal st c s).0 ≡ all (has_kind rows) (take (suc idx) phase_order)
  unfolding phase_legal legal_at
  phase_legal-eq-all {idx} {rows} i l =
      rw (i, legal_at) (rw l (no_missing rows (take (suc idx) phase_order) _))

  phase_legal-reads :
      (phase_legal st c s).0 ≡ true
      → (idx : ℕ) × (rows : List Artifact) × (phase_index c.phase ≡ some idx)
        × (st.list_artifacts c.id s ≡ some rows)
  unfolding phase_legal legal_at
  phase_legal-reads h = ground arith

  fresh_handoff-reads :
      (o : Option (List ChangeHandoff))
      → (fresh_handoff st o c s).0 ≡ true
      → (h : ChangeHandoff) × (older : List ChangeHandoff) × (rows : List Artifact) × (o
          ≡ some (h ∷ older))
        × (h.to_phase ≡ c.phase)
        × (st.list_artifacts c.id s ≡ some rows)
        × (stale_kind h rows (kinds_before c.phase) ≡ none)
  unfolding fresh_handoff
  fresh_handoff-reads none e = absurd (ground arith)
  fresh_handoff-reads (some []) e = absurd (ground arith)
  fresh_handoff-reads (some (h ∷ older)) e =
      let (rows, target, l, fresh) = read in (h, older, rows, refl, target, l, fresh)
    where
      read :
          (rows : List Artifact) × (h.to_phase ≡ c.phase)
          × (st.list_artifacts c.id s ≡ some rows)
          × (stale_kind h rows (kinds_before c.phase) ≡ none)
      read = ground (arith, eq_iff h.to_phase c.phase)

  handoff_fresh-reads :
      (handoff_fresh st c s).0 ≡ true
      → c.phase ≢ kind_proposal
      → (fresh_handoff st (st.list_handoffs c.id s) c s).0 ≡ true
  unfolding handoff_fresh
  handoff_fresh-reads h later = ground (arith, eq_iff c.phase kind_proposal)

  verify_passed-reads :
      (y : Yaml)
      → (verify_passed st y c.id s).0 ≡ true
      → (a : Artifact) × (r : VerifyReport) × (st.get_artifact c.id kind_verify 0 s ≡ found a)
        × (parse_verify_report y a.content ≡ valid r)
        × (str_eq r.result "pass" ≡ true)
  unfolding verify_passed passed_report
  verify_passed-reads y h = ground arith

-- Everything that the archive gate asks of a change.
pub record IsArchivable (st : Stores) (y : Yaml) (c : Change) (s : st.State) : Type 0 where
  pub active : c.status ≡ "active"
  pub at_tasks : c.phase ≡ kind_tasks
  pub rows : List Artifact
  pub listed : st.list_artifacts c.id s ≡ some rows
  pub complete : all (has_kind rows) phase_order ≡ true
  pub latest : ChangeHandoff
  pub older : List ChangeHandoff
  pub handed_off : st.list_handoffs c.id s ≡ some (latest ∷ older)
  pub to_tasks : latest.to_phase ≡ kind_tasks
  pub fresh : stale_kind latest rows (kinds_before kind_tasks) ≡ none
  pub verified : Artifact
  pub submitted : st.get_artifact c.id kind_verify 0 s ≡ found verified
  pub verdict : VerifyReport
  pub parsed : parse_verify_report y verified.content ≡ valid verdict
  pub passed : verdict.result ≡ "pass"

tasks-ne-proposal : kind_tasks ≢ kind_proposal
tasks-ne-proposal h = false≢true ((eq_iff kind_tasks kind_proposal).1 h)

module _ (st : Stores) (y : Yaml) (c : Change) (s : st.State) where
  gates :
      c.status ≡ "active"
      → c.phase ≡ kind_tasks
      → (phase_legal st c s).0 ≡ true
      → (handoff_fresh st c s).0 ≡ true
      → (verify_passed st y c.id s).0 ≡ true
      → IsArchivable st y c s
  unfolding phase_order phase_index
  gates active at_tasks legal fresh passed =
      let (idx, rows, i, l) = phase_legal-reads st c s legal in
      let (a, r, got, valid_report, says_pass) = verify_passed-reads st c s y passed in
      let (h, older, rows', handed, target, l', not_stale) =
        fresh_handoff-reads st c s (st.list_handoffs c.id s)
          (handoff_fresh-reads st c s fresh (later c.phase at_tasks)) in
      record {
        active = active;
        at_tasks = at_tasks;
        rows = rows;
        listed = l;
        complete = sym (phase_legal-eq-all st c s {idx = 3} (ap phase_index at_tasks) l) ∙ legal;
        latest = h;
        older = older;
        handed_off = handed;
        to_tasks = target ∙ at_tasks;
        fresh = cc (l, l', not_stale, at_tasks);
        verified = a;
        submitted = got;
        verdict = r;
        parsed = valid_report;
        passed = (eq_iff _ _).0 says_pass;
      }
    where
      later : (p : String) → p ≡ kind_tasks → p ≢ kind_proposal
      later p e h = tasks-ne-proposal (sym e ∙ h)

module _ (st : Stores) (y : Yaml) (user change : String) (s : st.State) where
  archive-gates :
      (c c' : Change)
      → require_change_role st user change s ≡ (ok c, s)
      → (archive st y user change s).0 ≡ ok c'
      → (str_eq c.status "active" ≡ true)
        × (str_eq c.phase kind_tasks ≡ true)
        × ((phase_legal st c s).0 ≡ true)
        × ((handoff_fresh st c s).0 ≡ true)
        × ((verify_passed st y c.id s).0 ≡ true)
        × (c' ≡ record c { status = "archived" })
  unfolding archive record_archive
  archive-gates c c' role e = ground (arith, role)

  archive-role :
      (c' : Change)
      → (archive st y user change s).0 ≡ ok c'
      → (c : Change) × (require_change_role st user change s ≡ (ok c, s))
  unfolding archive
  archive-role c' e = elim (Result-cases (require_change_role st user change s).0) [
    | inl (c, found_it) ↦ (c, ground (arith, role-state st user change s))
    | inr (x, refused) ↦ absurd (ground arith)
  ]

  -- An archive that succeeds returns the stored change with its status set to archived, and found the
  -- change active, at the tasks phase, with an artifact of all four kinds, handed off to the tasks
  -- phase after the last update of every earlier artifact, and with a verify report that says pass.
  pub archive-IsArchivable :
      (c' : Change)
      → (archive st y user change s).0 ≡ ok c'
      → (c : Change) × (st.get_change change s ≡ found c)
        × (c' ≡ record c { status = "archived" })
        × IsArchivable st y c s
  archive-IsArchivable c' e =
      let (c, role) = archive-role c' e in
      let (active, at_tasks, legal, fresh, passed, same) = archive-gates c c' role e in
      (
        c,
        (role-reads st user change s s c role).1,
        same,
        gates st y c s ((eq_iff _ _).0 active) ((eq_iff _ _).0 at_tasks) legal fresh passed,
      )

module _ (st : Stores) (user change : String) (s : st.State) where
  advance-record :
      (c : Change) (next : String) (r : Change × ChangeHandoff)
      → require_change_role st user change s ≡ (ok c, s)
      → next_phase c.phase ≡ some next
      → (advance_phase st user change s).0 ≡ ok r
      → (str_eq c.status "active" ≡ true)
        × ((phase_legal st c s).0 ≡ true)
        × (advance_phase st user change s ≡ record_advance st user c next s)
  unfolding advance_phase
  advance-record c next r role step e = ground (arith, role)

  advance-next :
      (c : Change) (r : Change × ChangeHandoff)
      → require_change_role st user change s ≡ (ok c, s)
      → (advance_phase st user change s).0 ≡ ok r
      → (next : String) × (next_phase c.phase ≡ some next)
  unfolding advance_phase
  advance-next c r role e = elim (Option-cases (next_phase c.phase)) [
    | inl none_left ↦ absurd (ground (arith, role))
    | inr step ↦ step
  ]

  advance-role :
      (r : Change × ChangeHandoff)
      → (advance_phase st user change s).0 ≡ ok r
      → (c : Change) × (require_change_role st user change s ≡ (ok c, s))
  unfolding advance_phase
  advance-role r e = elim (Result-cases (require_change_role st user change s).0) [
    | inl (c, found_it) ↦ (c, ground (arith, role-state st user change s))
    | inr (x, refused) ↦ absurd (ground arith)
  ]

  -- An advance that succeeds records a handoff from the phase of an active change to the next phase of
  -- the order and then writes the change with that phase and every other field as it was: the state it
  -- ends in is the one that this write left. It found an artifact of every kind up to the phase that
  -- it left.
  pub advance-next_phase :
      (c' : Change) (h : ChangeHandoff)
      → (advance_phase st user change s).0 ≡ ok (c', h)
      → (c : Change) × (idx : ℕ) × (rows : List Artifact) × (st.get_change change s ≡ found c)
        × (c.status ≡ "active")
        × (next_phase c.phase ≡ some c'.phase)
        × (c' ≡ record c { phase = c'.phase })
        × Moved st user s c c' h (advance_phase st user change s).1
        × (phase_index c.phase ≡ some idx)
        × (st.list_artifacts c.id s ≡ some rows)
        × (all (has_kind rows) (take (suc idx) phase_order) ≡ true)
  advance-next_phase c' h e =
      let (c, role) = advance-role (c', h) e in
      let (next, step) = advance-next c (c', h) role e in
      let (active, legal, writes_it) = advance-record c next (c', h) role step e in
      let (same, moved) =
        record_advance-Moved st user s c c' next h (ap (λ x. x.0) (sym writes_it) ∙ e) in
      let to : next ≡ c'.phase = sym (ap (λ (x : Change). x.phase) same) in
      let (idx, rows, i, l) = phase_legal-reads st c s legal in
      (
        c,
        idx,
        rows,
        (role-reads st user change s s c role).1,
        (eq_iff _ _).0 active,
        step ∙ ap some to,
        same ∙ ap (λ p. record c { phase = p }) to,
        subst (Moved st user s c c' h) (ap (λ x. x.1) (sym writes_it)) moved,
        i,
        l,
        sym (phase_legal-eq-all st c s i l) ∙ legal,
      )
