-- ===== src/Workflow/Gates.antt =====
-- workflow/guard.go: `GuardStatus` beside `AdvancePhase` and `Archive`.
use spec_powers.Prelude.{String, ◌≡◌, refl, ap, ◌∙◌, Bool, true, false, some, inl, inr, ◌⊎◌, arith}
use spec_powers.Domain.{Change}
use spec_powers.Api.{AppError, Result, ok, err, found}
use spec_powers.Workflow.Phases.{next_phase}
use spec_powers.Workflow.Stores.{Stores, Yaml}
use spec_powers.Workflow.Access.{require_change_role}
use spec_powers.Workflow.Guard.{report_on, GuardReport, guard_status}
use spec_powers.Workflow.Advance.{advance_phase, record_advance, record_archive, archive}

-- The answer is a conflict, and nothing was written.
abbrev pub IsConflict : {S A : Type 0} → Result A × S → S → Type 0
IsConflict (ok a, s') s = ⊥
IsConflict (err e, s') s = (e.code ≡ "conflict") × (s' ≡ s)

module _ (st : Stores) where
  pub role-reads :
      (user change : String) (s s' : st.State) (c : Change)
      → require_change_role st user change s ≡ (ok c, s')
      → (s' ≡ s) × (st.get_change change s ≡ found c)
  unfolding require_change_role
  role-reads user change s s' c e = ground arith

module _ (st : Stores) (y : Yaml) (user change : String) (s : st.State) (c : Change)
    (role : require_change_role st user change s ≡ (ok c, s)) where
  guard_status-report : guard_status st y user change s ≡ (ok (report_on st y c s), s)
  unfolding guard_status
  guard_status-report = rw role

  advance-refuses :
      (report_on st y c s).can_advance ≡ false → IsConflict (advance_phase st user change s) s
  unfolding report_on advance_phase
  advance-refuses no_way = rw role (ground arith)

  advance-passes :
      (next : String)
      → next_phase c.phase ≡ some next
      → (report_on st y c s).can_advance ≡ true
      → advance_phase st user change s ≡ record_advance st user c next s
  unfolding report_on advance_phase
  advance-passes next n way = rw role (ground arith)

  archive-refuses :
      (report_on st y c s).can_archive ≡ false → IsConflict (archive st y user change s) s
  unfolding report_on archive
  archive-refuses no_way = rw role (ground arith)

  archive-passes :
      (create : String → String → st.State → Bool × st.State)
      → st.wakeups ≡ some create
      → (report_on st y c s).can_archive ≡ true
      → archive st y user change s ≡ record_archive st create c s
  unfolding report_on archive
  archive-passes create w way = rw role (ground arith)

next_of_can_advance :
    (st : Stores) (y : Yaml) (c : Change) (s : st.State)
    → (report_on st y c s).can_advance ≡ true
    → (next : String) × (next_phase c.phase ≡ some next)
unfolding report_on
next_of_can_advance st y c s way = ground arith

pub Result-cases :
    {A : Type 0} (r : Result A) → ((a : A) × (r ≡ ok a)) ⊎ ((e : AppError) × (r ≡ err e))
Result-cases (ok a) = inl (a, refl)
Result-cases (err e) = inr (e, refl)

pub role-state :
    (st : Stores) (user change : String) (s : st.State)
    → (require_change_role st user change s).1 ≡ s
unfolding require_change_role
role-state st user change s = ground arith

module _ (st : Stores) (y : Yaml) (user change : String) (s : st.State) {r : GuardReport}
    (status : (guard_status st y user change s).0 ≡ ok r) where
  status-role :
      (c : Change) × (require_change_role st user change s ≡ (ok c, s))
      × (st.get_change change s ≡ found c)
      × (r ≡ report_on st y c s)
  unfolding guard_status
  status-role = elim (Result-cases (require_change_role st user change s).0) [
    | inl (c, e) ↦
        let role : require_change_role st user change s ≡ (ok c, s) =
          ground (arith, role-state st user change s) in
        (c, role, (role-reads st user change s s c role).1, ground arith)
    | inr (x, e) ↦ absurd (ground arith)
  ]

  -- If `GuardStatus` reports that the change cannot advance, `AdvancePhase` answers with a conflict
  -- and writes nothing.
  pub can_advance-refuses : r.can_advance ≡ false → IsConflict (advance_phase st user change s) s
  can_advance-refuses no_way =
      let (c, role, e, same) = status-role in
      advance-refuses st y user change s c role (rw same at no_way)

  -- If `GuardStatus` reports that the change can advance, `AdvancePhase` gets through every gate: it
  -- does the writes for the phase that the report calls next.
  pub can_advance-passes :
      r.can_advance ≡ true
      → (c : Change) × (next : String) × (st.get_change change s ≡ found c)
        × (r.next ≡ some next)
        × (advance_phase st user change s ≡ record_advance st user c next s)
  can_advance-passes way =
      let (c, role, e, same) = status-role in
      let way' = rw same at way in
      let (following, n) = next_of_can_advance st y c s way' in
      let reported : (report_on st y c s).next ≡ some following = unfold report_on in n in
      (
        c,
        following,
        e,
        ap (λ (g : GuardReport). g.next) same ∙ reported,
        advance-passes st y user change s c role following n way',
      )

  -- If `GuardStatus` reports that the change cannot be archived, `Archive` answers with a conflict
  -- and writes nothing.
  pub can_archive-refuses : r.can_archive ≡ false → IsConflict (archive st y user change s) s
  can_archive-refuses no_way =
      let (c, role, e, same) = status-role in
      archive-refuses st y user change s c role (rw same at no_way)

  -- If `GuardStatus` reports that the change can be archived and a wakeup recorder is configured,
  -- `Archive` gets through every gate and does its writes.
  pub can_archive-passes :
      {create : String → String → st.State → Bool × st.State}
      → st.wakeups ≡ some create
      → r.can_archive ≡ true
      → (c : Change) × (st.get_change change s ≡ found c)
        × (archive st y user change s ≡ record_archive st create c s)
  can_archive-passes {create} w way =
      let (c, role, e, same) = status-role in
      (c, e, archive-passes st y user change s c role create w (rw same at way))
