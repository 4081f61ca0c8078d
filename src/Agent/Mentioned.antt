-- ===== src/Agent/Mentioned.antt =====
-- agent/mention.go: which agents a comment calls.
use spec_powers.Prelude.{
  String, Bool, true, false, ◌&&◌, not, some, List, [], ◌∷◌, ◌++◌, ◌≡◌, refl, sym, ap, ◌∙◌, map,
  select, str_eq, arith, Bool-cases, inl, inr,
}
use spec_powers.Agent.Runs.{Agent}
use spec_powers.Agent.Mention.{mentions_agent, enqueue_mentioned, enqueue_all, on_comment}

pub record Call : Type 0 where
  pub agent : String
  pub issue : String
  pub trigger : String

-- A run store that keeps what it is asked for.
abbrev pub ask : String → String → String → List Call → Bool × List Call
ask agent issue trigger s =
    (true, s ++ record { agent = agent; issue = issue; trigger = trigger } ∷ [])

abbrev pub is_called : String → String → Agent → Bool
is_called author content a = not (str_eq a.id author) && mentions_agent content a.name

abbrev pub call_to : String → Agent → Call
call_to issue a = record { agent = a.id; issue = issue; trigger = "mention" }

append-nil : {A : Type 0} (xs : List A) → xs ++ [] ≡ xs
append-nil [] = refl
append-nil (x ∷ xs) = ap (λ l. x ∷ l) (append-nil xs)

append-one : {A : Type 0} (xs : List A) (y : A) (ys : List A) → (xs ++ y ∷ []) ++ ys ≡ xs ++ y ∷ ys
append-one [] y ys = refl
append-one (x ∷ xs) y ys = ap (λ l. x ∷ l) (append-one xs y ys)

step-idle :
    (a : Agent) (issue author content : String) (s : List Call)
    → is_called author content a ≡ false
    → enqueue_mentioned ask a issue author content s ≡ (true, s)
unfolding enqueue_mentioned
step-idle a issue author content s h = ground arith

step-calls :
    (a : Agent) (issue author content : String) (s : List Call)
    → is_called author content a ≡ true
    → enqueue_mentioned ask a issue author content s ≡ (true, s ++ call_to issue a ∷ [])
unfolding enqueue_mentioned
step-calls a issue author content s h = ground arith

enqueue_all-calls :
    (list : List Agent) (issue author content : String) (s : List Call)
    → enqueue_all ask list issue author content s
      ≡ (true, s ++ map (call_to issue) (select (is_called author content) list))
unfolding enqueue_all
enqueue_all-calls [] issue author content s = ap (λ l. (true, l)) (sym (append-nil s))
enqueue_all-calls (a ∷ list) issue author content s =
    elim (Bool-cases (is_called author content a)) [
      | inr e ↦
          rw
            (
              step-idle a issue author content s e,
              enqueue_all,
              step-idle a issue author content s e,
              e,
            )
            (enqueue_all-calls list issue author content s)
      | inl e ↦
          rw
            (
              step-calls a issue author content s e,
              enqueue_all,
              step-calls a issue author content s e,
              e,
            )
            (enqueue_all-calls list issue author content _
              ∙ ap (λ l. (true, l)) (append-one s (call_to issue a) _))
    ]

-- A comment calls the agents whose names it mentions, its author excepted: each gets one run for the
-- issue, in the order of the list, and no other agent gets one. The runs can be stored.
pub on_comment-calls :
    (list : List Agent) (issue author content : String)
    → on_comment ask (λ s. some list) issue author content []
      ≡ (true, map (call_to issue) (select (is_called author content) list))
unfolding on_comment
on_comment-calls list issue author content = enqueue_all-calls list issue author content []
