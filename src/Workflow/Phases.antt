-- ===== src/Workflow/Phases.antt =====
-- workflow/service.go, splitter.go, guard.go: artifact kinds, the phase order and `NextPhase`.
use spec_powers.Prelude.{
  ℕ, suc, String, Bool, Option, none, some, List, [], ◌∷◌, any, str_eq, if◌then◌else◌,
}

abbrev pub kind_proposal : String
kind_proposal = "proposal"

abbrev pub kind_specs : String
kind_specs = "specs"

abbrev pub kind_design : String
kind_design = "design"

abbrev pub kind_tasks : String
kind_tasks = "tasks"

abbrev pub kind_verify : String
kind_verify = "verify"

unfoldable pub phase_order : List String
phase_order = kind_proposal ∷ kind_specs ∷ kind_design ∷ kind_tasks ∷ []

-- The keys of the map `kinds` are those of the order.
unfoldable pub is_valid_kind : String → Bool
unfolding phase_order
is_valid_kind kind = any (λ k. str_eq k kind) phase_order

-- The element after the first occurrence; `none` for `"", false`.
after : String → List String → Option String
after phase [] = none
after phase (k ∷ []) = none
after phase (k ∷ l ∷ rest) = if str_eq k phase then some l else after phase (l ∷ rest)

unfoldable pub next_phase : String → Option String
unfolding after phase_order
next_phase phase = after phase phase_order

-- The loop `for i, k := range order { if k == phase { idx = i; break } }`.
index_in : String → List String → Option ℕ
index_in phase [] = none
index_in phase (k ∷ rest) =
    let later = index_in phase rest in
    if str_eq k phase then some 0 else elim later [ none ↦ none | some i ↦ some (suc i) ]

unfoldable pub phase_index : String → Option ℕ
unfolding index_in phase_order
phase_index phase = index_in phase phase_order
