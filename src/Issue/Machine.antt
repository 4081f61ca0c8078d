-- ===== src/Issue/Machine.antt =====
-- issue/statemachine.go: which moves the directory of a workspace allows.
use spec_powers.Prelude.{
  String, ◌≡◌, refl, sym, ap, ◌∙◌, true, false, Option, none, some, List, str_eq, str_eq_comm,
  eq_iff, Bool-cases, arith, inl, inr, ◌⊎◌,
}
use spec_powers.Domain.{WorkspaceStatus}
use spec_powers.Api.{ok}
use spec_powers.Issue.Status.{
  statuses, is_valid_status, transitions, allowed, transition, status_category,
  is_terminal_category, is_terminal_in, move_in, transition_in, default_directory,
  is_valid_status_category,
}

-- The built-in directory knows just the valid statuses, each as its own category.
status_category-default :
    (s : String)
    → (is_valid_status s ≡ false) × (status_category default_directory s ≡ none)
      ⊎ (is_valid_status s ≡ true) × (status_category default_directory s ≡ some s)
unfolding is_valid_status statuses status_category default_directory
status_category-default s = ground (
  arith,
  eq_iff "backlog" s,
  eq_iff "todo" s,
  eq_iff "in_progress" s,
  eq_iff "in_review" s,
  eq_iff "blocked" s,
  eq_iff "done" s,
  eq_iff "cancelled" s,
  str_eq_comm "backlog" s,
  str_eq_comm "todo" s,
  str_eq_comm "in_progress" s,
  str_eq_comm "in_review" s,
  str_eq_comm "blocked" s,
  str_eq_comm "done" s,
  str_eq_comm "cancelled" s,
)

-- The built-in directory gives the fixed machine: TransitionIn accepts and refuses just what
-- Transition does, with the same error.
pub transition_in-transition :
    (from to : String) → transition_in default_directory from to ≡ transition from to
unfolding transition_in transition
transition_in-transition from to = elim (status_category-default from) [
  | inl (a, b) ↦ rw (a, b)
  | inr (a, b) ↦ elim (status_category-default to) [
    | inl (c, d) ↦ rw (a, b, c, d)
    | inr (c, d) ↦ rw (a, b, c, d)
  ]
]

terminal-cases : (s : String) → is_terminal_category s ≡ true → (s ≡ "done") ⊎ (s ≡ "cancelled")
unfolding is_terminal_category
terminal-cases s h = ground (arith, eq_iff s "done", eq_iff s "cancelled")

-- No move leaves a terminal category.
allowed-terminal : (from to : String) → is_terminal_category from ≡ true → allowed from to ≡ false
unfolding allowed transitions
allowed-terminal from to h = elim (terminal-cases from h) [ inl e ↦ rw e refl | inr e ↦ rw e refl ]

-- A category with moves is one of five.
open_cases :
    (s : String)
    → (s ≡ "backlog")
      ⊎ (s ≡ "todo")
      ⊎ (s ≡ "in_progress")
      ⊎ (s ≡ "in_review")
      ⊎ (s ≡ "blocked")
      ⊎ ((to : String) → allowed s to ≡ false)
unfolding allowed transitions
open_cases s = elim (Bool-cases (str_eq s "backlog")) [
  | inl e ↦ inl ((eq_iff s "backlog").0 e)
  | inr e ↦ elim (Bool-cases (str_eq s "todo")) [
    | inl f ↦ inr (inl ((eq_iff s "todo").0 f))
    | inr f ↦ elim (Bool-cases (str_eq s "in_progress")) [
      | inl g ↦ inr (inr (inl ((eq_iff s "in_progress").0 g)))
      | inr g ↦ elim (Bool-cases (str_eq s "in_review")) [
        | inl h ↦ inr (inr (inr (inl ((eq_iff s "in_review").0 h))))
        | inr h ↦ elim (Bool-cases (str_eq s "blocked")) [
          | inl k ↦ inr (inr (inr (inr (inl ((eq_iff s "blocked").0 k)))))
          | inr k ↦ inr (inr (inr (inr (inr (λ to. rw (e, f, g, h, k) refl)))))
        ]
      ]
    ]
  ]
]

-- Only a status in review can be done.
allowed-done : (from : String) → (from ≡ "in_review") ⊎ (allowed from "done" ≡ false)
unfolding allowed transitions
allowed-done from = elim (open_cases from) [
  | inl e ↦ inr (rw e refl)
  | inr (inl e) ↦ inr (rw e refl)
  | inr (inr (inl e)) ↦ inr (rw e refl)
  | inr (inr (inr (inl e))) ↦ inl e
  | inr (inr (inr (inr (inl e)))) ↦ inr (rw e refl)
  | inr (inr (inr (inr (inr k)))) ↦ inr (k "done")
]

-- Every other category can be cancelled.
category-cases :
    (s : String)
    → is_valid_status_category s ≡ true
    → is_terminal_category s ≡ false
    → (s ≡ "backlog") ⊎ (s ≡ "todo") ⊎ (s ≡ "in_progress") ⊎ (s ≡ "in_review") ⊎ (s ≡ "blocked")
unfolding is_valid_status_category is_terminal_category
category-cases s h k = ground (
  arith,
  eq_iff s "backlog",
  eq_iff s "todo",
  eq_iff s "in_progress",
  eq_iff s "in_review",
  eq_iff s "blocked",
)

allowed-cancelled :
    (from : String)
    → is_valid_status_category from ≡ true
    → is_terminal_category from ≡ false
    → allowed from "cancelled" ≡ true
unfolding allowed transitions
allowed-cancelled from h k = elim (category-cases from h k) [
  | inl e ↦ rw e refl
  | inr (inl e) ↦ rw e refl
  | inr (inr (inl e)) ↦ rw e refl
  | inr (inr (inr (inl e))) ↦ rw e refl
  | inr (inr (inr (inr e))) ↦ rw e refl
]

-- A move that is accepted has two categories, and the move between them is allowed.
Move : Option String → Option String → String → String → Type 0
Move from_cat to_cat to s =
    (a b : String) × (from_cat ≡ some a) × (to_cat ≡ some b) × (allowed a b ≡ true) × (s ≡ to)

move_in-Move :
    (from to s : String) (from_cat to_cat : Option String)
    → move_in from to from_cat to_cat ≡ ok s
    → Move from_cat to_cat to s
unfolding move_in Move
move_in-Move from to s none to_cat h = ground arith
move_in-Move from to s (some a) none h = ground arith
move_in-Move from to s (some a) (some b) h = (a, b, refl, refl, ground arith, ground arith)

transition_in-Move :
    (dir : List WorkspaceStatus) (from to s : String)
    → transition_in dir from to ≡ ok s
    → Move (status_category dir from) (status_category dir to) to s
unfolding transition_in
transition_in-Move dir from to s h =
    move_in-Move from to s (status_category dir from) (status_category dir to) h

is_terminal_in_lem :
    (dir : List WorkspaceStatus) (name cat : String)
    → status_category dir name ≡ some cat
    → is_terminal_in dir name ≡ is_terminal_category cat
unfolding is_terminal_in
is_terminal_in_lem dir name cat e = rw (e, is_terminal_in) refl

-- If a move lands in done, it comes from in_review.
Move-done :
    (from_cat to_cat : Option String) (to s : String)
    → Move from_cat to_cat to s
    → to_cat ≡ some "done"
    → from_cat ≡ some "in_review"
unfolding Move
Move-done from_cat to_cat to s (a, b, from_eq, to_eq, moves, same) h = elim (allowed-done a) [
  | inl e ↦ from_eq ∙ ap some e
  | inr refused ↦ grind arith
]

-- A terminal status is never left: a move that TransitionIn accepts, in any directory, starts at
-- a status that is not terminal, and if it ends at a status of the category done, it starts at one
-- of the category in_review; the answer is the new status.
pub transition_in-allows :
    (dir : List WorkspaceStatus) (from to s : String)
    → transition_in dir from to ≡ ok s
    → (s ≡ to)
      × (is_terminal_in dir from ≡ false)
      × (status_category dir to ≡ some "done" → status_category dir from ≡ some "in_review")
unfolding Move
transition_in-allows dir from to s h =
    let move = transition_in-Move dir from to s h in
    let (a, b, from_eq, to_eq, moves, same) = move in
    (
      same,
      ground (arith, is_terminal_in_lem dir from a from_eq, allowed-terminal a b),
      Move-done (status_category dir from) (status_category dir to) to s move,
    )

-- Under a directory with valid categories, a status that is not terminal can be moved to each status of the category cancelled.
pub transition_in-cancels :
    (dir : List WorkspaceStatus) (from to cat : String)
    → status_category dir from ≡ some cat
    → is_valid_status_category cat ≡ true
    → is_terminal_in dir from ≡ false
    → status_category dir to ≡ some "cancelled"
    → transition_in dir from to ≡ ok to
unfolding transition_in move_in
transition_in-cancels dir from to cat e v t c =
    let k = allowed-cancelled cat v (sym (is_terminal_in_lem dir from cat e) ∙ t) in
    rw (e, c, k) refl
