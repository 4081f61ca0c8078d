-- ===== src/Workflow/Mapped.antt =====
-- workflow/splitter.go: the sub-issues that the tasks phase makes, and their mappings.
use spec_powers.Prelude.{
  ℕ, suc, String, ◌≡◌, refl, ◌∙◌, sym, subst, Bool, true, List, [], ◌∷◌, arith,
}
use spec_powers.Prelude.Int.{pos}
use spec_powers.Domain.{Issue, TaskMapping}
use spec_powers.Api.{ok, lift, >>=-splits}
use spec_powers.Workflow.Tasks.{TaskSpec, Tasks, tasks, bad_tasks, parse_tasks}
use spec_powers.Workflow.Split.{Deps, parsed, sub_issue, mapping_of, create_subs, bind_sub_issues}

-- One mapping for each spec, in order, numbered from `n`, for the change and the artifact and with the
-- title and stage of the spec.
abbrev pub Placed : String → String → ℕ → List TaskSpec → List TaskMapping → Type 0
Placed change artifact n [] [] = Unit
Placed change artifact n [] (m ∷ ms) = ⊥
Placed change artifact n (t ∷ ts) [] = ⊥
Placed change artifact n (t ∷ ts) (m ∷ ms) =
    (m.change_id ≡ change)
    × (m.artifact_id ≡ artifact)
    × (m.title ≡ t.title)
    × (m.stage ≡ t.stage)
    × (m.position ≡ pos n)
    × Placed change artifact (suc n) ts ms

parsed-tasks : (r : Tasks) (specs : List TaskSpec) → parsed r ≡ ok specs → r ≡ tasks specs
parsed-tasks (tasks ts) specs h = ground arith
parsed-tasks (bad_tasks e) specs h = absurd (ground arith)

pair_eq : {S : Type 0} {r : Bool × S} {s : S} → r.0 ≡ true → r.1 ≡ s → r ≡ (true, s)
pair_eq h e = λ i. (h i, e i)

module _ {S : Type 0} (p : Deps S) (user change artifact : String) (parent : Issue) where
  create_subs-Placed :
      (specs : List TaskSpec) (n : ℕ) (s : S) (items : List TaskMapping)
      → (create_subs p user parent change artifact n specs s).0 ≡ ok items
      → Placed change artifact n specs items
  unfolding create_subs
  create_subs-Placed [] n s items h =
      let same : [] ≡ items = ground arith in subst (Placed change artifact n []) same tt
  create_subs-Placed (t ∷ rest) n s items h =
      let (created, _, k, _) =
        >>=-splits (p.create_issue user parent.project_id (sub_issue parent.id t)) _ s items h in
      let (later, made, q, _) =
        >>=-splits (create_subs p user parent change artifact (suc n) rest) _ _ items k in
      let same : mapping_of change artifact created.id t n ∷ later ≡ items = ground arith in
      subst (Placed change artifact n (t ∷ rest)) same
        (refl, refl, refl, refl, refl, create_subs-Placed rest (suc n) _ later made)

  -- When the tasks phase succeeds, the artifact's tasks parse, and the mappings that are saved for the
  -- change are one for each task, in the order of the tasks and numbered from 0, each with its
  -- task's title and stage, the change and the artifact.
  pub bind-Placed :
      (content : String) (s : S)
      → (bind_sub_issues p user parent change artifact content s).0 ≡ ok tt
      → (specs : List TaskSpec) × (items : List TaskMapping) × (s' : S) × (parse_tasks p.json
            content
          ≡ tasks specs)
        × Placed change artifact 0 specs items
        × (p.set_mappings change artifact items s'
            ≡ (true, (bind_sub_issues p user parent change artifact content s).1))
  unfolding bind_sub_issues
  bind-Placed content s h =
      let (specs, e, k, at) = >>=-splits (lift (parsed (parse_tasks p.json content))) _ s tt h in
      let (items, made, q, at') =
        >>=-splits (create_subs p user parent change artifact 0 specs) _ s tt k in
      let s' = (create_subs p user parent change artifact 0 specs s).1 in
      let saved : (p.set_mappings change artifact items s').0 ≡ true = ground arith in
      (
        specs,
        items,
        s',
        parsed-tasks _ specs e,
        create_subs-Placed specs 0 s items made,
        pair_eq saved (sym (at ∙ at')),
      )
