-- ===== src/Workflow/Ended.antt =====
-- workflow/splitter.go: how a split ends.
use spec_powers.Prelude.{String, ◌≡◌, refl, subst, ap, ◌∙◌, false, List, [], ◌∷◌, str_eq}
use spec_powers.Domain.{Issue, Change}
use spec_powers.Api.{Result, ok, err, Action, pure, continue, ◌>>=◌}
use spec_powers.Workflow.Phases.{phase_order, kind_tasks}
use spec_powers.Workflow.Stores.{Stores}
use spec_powers.Workflow.Split.{Deps, PromptData, bind_sub_issues}
use spec_powers.Workflow.Run.{
  with_artifact, produce, fail_if, or_fail, record_handoff, move_to, hand_over, end_phase,
  run_phases,
}

-- What holds of a value, and what of the state that an error leaves.
abbrev pub Post : {S A : Type 0} → (A → Type 0) → (S → Type 0) → Result A × S → Type 0
Post P F (ok a, s) = P a
Post P F (err e, s) = F s

Post-continue :
    {S A B : Type 0} (P : A → Type 0) (Q : B → Type 0) (F : S → Type 0) (r : Result A) (s : S)
    (k : A → Action S B)
    → Post P F (r, s)
    → ((a : A) (s' : S) → P a → Post Q F (k a s'))
    → Post Q F (continue r k s)
Post-continue P Q F (ok a) s k h hk = hk a s h
Post-continue P Q F (err e) s k h hk = h

Post->>= :
    {S A B : Type 0} (P : A → Type 0) (Q : B → Type 0) (F : S → Type 0) (m : Action S A)
    (k : A → Action S B) (s : S)
    → Post P F (m s)
    → ((a : A) (s' : S) → P a → Post Q F (k a s'))
    → Post Q F ((m >>= k) s)
Post->>= P Q F m k s h hk = Post-continue P Q F (m s).0 (m s).1 k h hk

module _ (st : Stores) where
  open st use {State, update_change}

  -- The last write put the status of a change to failed.
  abbrev pub Marked : String → State → Type 0
  Marked id s =
      (f : Change) × (s0 : State) × (f.id ≡ id)
      × (f.status ≡ "failed")
      × (s ≡ (update_change f s0).1)

  abbrev Any : {A : Type 0} → A → Type 0
  Any a = Unit

  fail_if-Marked :
      {A : Type 0} (c : Change) (r : Result A × State) → Post Any (Marked c.id) (fail_if st c r)
  fail_if-Marked c (ok a, s) = tt
  fail_if-Marked c (err e, s) = (record c { status = "failed" }, s, refl, refl, refl)

  -- The change at a phase, or a change with its id that is marked.
  abbrev pub Ended : String → String → Result Change × State → Type 0
  Ended id phase = Post (λ c. (c.phase ≡ phase) × (c.id ≡ id)) (Marked id)

  module _ (p : Deps State) (user : String) (i : Issue) where
    hand_over-Ended :
        (c : Change) (kind next : String) (rest : List String) (s : State)
        → Ended c.id next (hand_over st p user c kind (next ∷ rest) s)
    unfolding hand_over
    hand_over-Ended c kind next rest s =
        Post->>= Any _ (Marked c.id) (record_handoff st p user c kind next) _ s (fail_if-Marked c _)
          (λ _ s' _.
            Post->>= Any (λ (x : Change). (x.phase ≡ next) × (x.id ≡ c.id)) (Marked c.id)
              (move_to st p c next) _ s' (fail_if-Marked (record c { phase = next }) _)
              (λ _ s'' _. (refl, refl)))

    -- A phase before the last.
    handed-Ended :
        (c : Change) (kind next : String) (rest : List String) (so_far : PromptData) (s : State)
        → str_eq kind kind_tasks ≡ false
        → ((c1 : Change) (so_far' : PromptData) (s' : State)
            → c1.phase ≡ next
            → Ended c1.id kind_tasks (run_phases st p user i (next ∷ rest) c1 so_far' s'))
        → Ended c.id kind_tasks (run_phases st p user i (kind ∷ next ∷ rest) c so_far s)
    unfolding run_phases end_phase
    handed-Ended c kind next rest so_far s e later =
        Post->>= Any (λ (x : Change). (x.phase ≡ kind_tasks) × (x.id ≡ c.id)) (Marked c.id)
          (or_fail st c (produce st p user c kind so_far)) _ s (fail_if-Marked c _)
          (λ (content, saved) s1 _.
            Post->>= (λ (x : Change). (x.phase ≡ next) × (x.id ≡ c.id))
              (λ (x : Change). (x.phase ≡ kind_tasks) × (x.id ≡ c.id)) (Marked c.id)
              (end_phase st p user i c kind (next ∷ rest) content saved) _ s1
              (rw e (hand_over-Ended c kind next rest s1))
              (λ c1 s2 (at, same).
                subst
                  (λ id. Ended id kind_tasks (
                    run_phases st p user i (next ∷ rest) c1 (with_artifact so_far kind content) s2))
                  same (later c1 (with_artifact so_far kind content) s2 at)))

    last-Ended :
        (c : Change) (so_far : PromptData) (s : State)
        → c.phase ≡ kind_tasks
        → Ended c.id kind_tasks (run_phases st p user i (kind_tasks ∷ []) c so_far s)
    unfolding run_phases end_phase
    last-Ended c so_far s at =
        Post->>= Any (λ (x : Change). (x.phase ≡ kind_tasks) × (x.id ≡ c.id)) (Marked c.id)
          (or_fail st c (produce st p user c kind_tasks so_far)) _ s (fail_if-Marked c _)
          (λ (content, saved) s1 _.
            Post->>= (λ (x : Change). x ≡ c)
              (λ (x : Change). (x.phase ≡ kind_tasks) × (x.id ≡ c.id)) (Marked c.id)
              (end_phase st p user i c kind_tasks [] content saved) _ s1
              (Post->>= Any (λ (x : Change). x ≡ c) (Marked c.id)
                (or_fail st c (bind_sub_issues p user i c.id saved.id content)) (λ _. pure c) s1
                (fail_if-Marked c _) (λ _ s' _. refl))
              (λ c1 s2 same.
                (ap (λ (x : Change). x.phase) same ∙ at, ap (λ (x : Change). x.id) same)))

    -- A split comes to the tasks phase or is marked: from the first phase on, the loop of Run returns
    -- the change at the tasks phase, or an error after a last write that puts the status of the
    -- change to failed.
    pub run_phases-Ended :
        (c : Change) (so_far : PromptData) (s : State)
        → Ended c.id kind_tasks (run_phases st p user i phase_order c so_far s)
    unfolding phase_order
    run_phases-Ended c so_far s =
        handed-Ended c "proposal" "specs" ("design" ∷ kind_tasks ∷ []) so_far s refl (λ c1 f1 s1 _.
          handed-Ended c1 "specs" "design" (kind_tasks ∷ []) f1 s1 refl (λ c2 f2 s2 _.
            handed-Ended c2 "design" kind_tasks [] f2 s2 refl
              (λ c3 f3 s3 at. last-Ended c3 f3 s3 at)))
