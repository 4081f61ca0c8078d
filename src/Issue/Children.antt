-- ===== src/Issue/Children.antt =====
-- issue/service.go: `GetChildren`. The inner loop moves one row down the rows that are sorted already:
-- it swaps while the row comes before its neighbour.
use spec_powers.Prelude.{String, Bool, ◌&&◌, ◌||◌, List, [], ◌∷◌, if◌then◌else◌}
use spec_powers.Prelude.Int.{ltb_ℤ, eq_ℤ}
use spec_powers.Domain.{Issue}
use spec_powers.Api.{listed, Action, reads, pure, ◌>>=◌}
use spec_powers.Issue.Stores.{IssueStores}
use spec_powers.Issue.Access.{require_project_issue}
use spec_powers.Issue.Transition.{children_of}

-- By stage, then by position.
abbrev pub goes_before : Issue → Issue → Bool
goes_before a b = ltb_ℤ a.stage b.stage || (eq_ℤ a.stage b.stage && ltb_ℤ a.position b.position)

-- `sorted` is the part that is in order, its last row first: the row `k` moves down it.
unfoldable pub sink_row : Issue → List Issue → List Issue
sink_row k [] = k ∷ []
sink_row k (x ∷ sorted) =
    let rest = sink_row k sorted in if goes_before k x then x ∷ rest else k ∷ x ∷ sorted

-- The outer loop, and the rows from first to last.
unfoldable pub sort_rows : List Issue → List Issue → List Issue
unfolding sink_row
sort_rows sorted [] = sorted
sort_rows sorted (k ∷ kids) = sort_rows (sink_row k sorted) kids

unfoldable pub first_to_last : List Issue → List Issue → List Issue
first_to_last [] out = out
first_to_last (x ∷ xs) out = first_to_last xs (x ∷ out)

unfoldable pub sort_children : List Issue → List Issue
unfolding sort_rows first_to_last
sort_children kids = first_to_last (sort_rows [] kids) []

module _ (st : IssueStores) where
  open st use {State, list_issues}

  unfoldable pub get_children : String → String → Action State (List Issue)
  get_children user issue = do
    parent ← require_project_issue st user issue
    kids ← reads (λ s.
        listed (list_issues parent.project_id (children_of parent.id) s) "list children failed")
    pure (sort_children kids)
