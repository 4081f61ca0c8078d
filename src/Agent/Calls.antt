-- ===== src/Agent/Calls.antt =====
-- Comments at concrete agents.
use spec_powers.Prelude.{
  String, ◌≡◌, refl, Bool, true, false, none, some, List, [], ◌∷◌, ◌++◌, map, select, str_eq,
  concat,
}
use spec_powers.Agent.Runs.{Agent, Run, new_run}
use spec_powers.Agent.Mention.{on_comment}
use spec_powers.Agent.Mentioned.{ask, call_to, is_called, on_comment-calls}

abbrev agents : List Agent
agents =
    record { id = "a1"; name = "Kim"; runtime = "server" }
    ∷ record { id = "a2"; name = "Lee"; runtime = "server" }
    ∷ record { id = "a3"; name = "Max"; runtime = "server" }
    ∷ []

on_comment-calls_example :
    on_comment ask (λ s. some agents) "i" "a3" "@kim and @Max, look" []
    ≡ (true, map (call_to "i") (select (is_called "a3" "@kim and @Max, look") agents))
on_comment-calls_example = on_comment-calls agents "i" "a3" "@kim and @Max, look"

call_test :
    map (call_to "i") (select (is_called "a3" "@kim and @Max, look") agents)
    ≡ call_to "i" (record { id = "a1"; name = "Kim"; runtime = "server" }) ∷ []
unfolding spec_powers.Notification.Mentions.mentions_name
    spec_powers.Notification.Mentions.mentioned spec_powers.Notification.Mentions.after_name
    spec_powers.Notification.Mentions.is_name_byte spec_powers.Prelude.all_space
    spec_powers.Prelude.is_space
call_test = refl

abbrev ended : Run
ended = new_run 1 5 "helper" "i" "assigned"
