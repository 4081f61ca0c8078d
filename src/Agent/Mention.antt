-- ===== src/Agent/Mention.antt =====
-- agent/mention.go: `OnComment`, with the run store as `create_run`, which takes the agent, the issue
-- and the trigger and reports its success. Contents and names are ASCII text.
use spec_powers.Prelude.{
  String, Bool, true, false, ◌||◌, not, Option, none, some, List, [], ◌∷◌, str_eq, codes,
  if◌then◌else◌,
}
use spec_powers.Notification.Mentions.{mentions_name}
use spec_powers.Agent.Runs.{Agent}

-- `mentionsAgent`.
abbrev pub mentions_agent : String → String → Bool
mentions_agent content name = mentions_name (codes content) (codes name)

module _ {S : Type 0} (create_run : String → String → String → S → Bool × S) where
  -- The test of the loop, and the call under it.
  unfoldable pub enqueue_mentioned : Agent → String → String → String → S → Bool × S
  enqueue_mentioned a issue author content s =
      if str_eq a.id author || not (mentions_agent content a.name)
      then (true, s)
      else create_run a.id issue "mention" s

  unfoldable pub enqueue_all : List Agent → String → String → String → S → Bool × S
  unfolding enqueue_mentioned
  enqueue_all [] issue author content s = (true, s)
  enqueue_all (a ∷ list) issue author content s =
      let (stored, s') = enqueue_mentioned a issue author content s in
      elim stored [ true ↦ enqueue_all list issue author content s' | false ↦ (false, s') ]

  -- `OnComment`: `none` is a failed listing.
  unfoldable pub on_comment : (S → Option (List Agent)) → String → String → String → S → Bool × S
  unfolding enqueue_all
  on_comment list_agents issue author content s = elim (list_agents s) [
    | none ↦ (false, s)
    | some list ↦ enqueue_all list issue author content s
  ]
