-- ===== src/Workflow/Moved.antt =====
-- workflow/guard.go: what the writes of `AdvancePhase` leave behind.
use spec_powers.Prelude.{String, ◌≡◌, refl, sym, ap, ◌∙◌, subst, arith}
use spec_powers.Domain.{Change, ChangeHandoff}
use spec_powers.Api.{
  AppError, ok, err_internal, Stored, found, missing, failed, required, writes, pure, ◌>>◌,
  >>=-splits,
}
use spec_powers.Workflow.Stores.{Stores}
use spec_powers.Workflow.Advance.{record_advance}

stored_at : {A : Type 0} (r : Stored A) (a : A) (x : AppError) → required r x ≡ ok a → r ≡ found a
stored_at (found b) a x h = cc
stored_at missing a x h = absurd (ground arith)
stored_at failed a x h = absurd (ground arith)

module _ (st : Stores) (user : String) (s : st.State) where
  abbrev pub handoff_to : Change → String → ChangeHandoff
  handoff_to c next = record {
    id = "";
    change_id = c.id;
    from_phase = c.phase;
    to_phase = next;
    created_by = user;
    created_at = 0;
  }

  -- The two rows that an advance writes, in order: the handoff from the old phase to the new one, and
  -- then the change.
  abbrev pub Moved : Change → Change → ChangeHandoff → st.State → Type 0
  Moved c c' h end =
      (s1 : st.State) × (saved : Change) × (st.create_handoff (handoff_to c c'.phase) s
        ≡ (found h, s1))
      × (st.update_change c' s1 ≡ (found saved, end))

  pub record_advance-Moved :
      (c c' : Change) (next : String) (h : ChangeHandoff)
      → (record_advance st user c next s).0 ≡ ok (c', h)
      → (c' ≡ record c { phase = next }) × Moved c c' h (record_advance st user c next s).1
  unfolding record_advance
  record_advance-Moved c c' next h e =
      let moved : Change = record c { phase = next } in
      let (h1, made, k, at) =
        >>=-splits
          (writes (st.create_handoff (handoff_to c next)) (err_internal "record handoff failed"))
          (λ handoff.
            writes (st.update_change moved) (err_internal "advance change phase failed")
            >> pure (moved, handoff))
          s (c', h) e in
      let s1 = (st.create_handoff (handoff_to c next) s).1 in
      let (saved, wrote, q, at') =
        >>=-splits (writes (st.update_change moved) (err_internal "advance change phase failed"))
          (λ _. pure (moved, h1)) s1 (c', h) k in
      let same : moved ≡ c' = cc in
      let handed : h1 ≡ h = cc in
      let end : (st.update_change moved s1).1 ≡ (record_advance st user c next s).1 =
        sym (at ∙ at') in
      subst (λ x. (x ≡ moved) × Moved c x h (record_advance st user c next s).1) same
        (
          refl,
          (
            s1,
            saved,
            λ i. (
              (stored_at (st.create_handoff (handoff_to c next) s).0 h1 _ made ∙ ap found handed) i,
              s1,
            ),
            λ i. (stored_at (st.update_change moved s1).0 saved _ wrote i, end i),
          ),
        )
