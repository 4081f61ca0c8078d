-- ===== src/PullRequest/Samples.antt =====
-- Keys in texts, and the theorem at a small repository.
use mathlib.Core.Option.{none-ne-some}
use spec_powers.Prelude.{ℕ, ◌≡◌, refl, none, some, String, [], ◌∷◌, codes}
use spec_powers.Prelude.Int.{pos}
use spec_powers.Api.{found, missing}
use spec_powers.PullRequest.Keys.{
  extract_issue_keys, parse_close_intents, split_issue_key, find_all, issue_key, verb_then_key,
  distinct_keys, key_at, run, dashed_number, after_word, gap_then_key, gap_from, blanks_then_key,
}
use spec_powers.PullRequest.Service.{PullRequest, UpsertInput, upsert_pull_request}
use spec_powers.PullRequest.Postgres.{PullDb, Others, pg_pulls}
use spec_powers.PullRequest.Rows.{Aside, HasState}
use spec_powers.PullRequest.States.{upsert_pull_request-HasState}

keys :
    (extract_issue_keys (codes "SP-44, AB_2-1 SP-44 xSP-1 issue-4 A-1 SP-12a")
      ≡ codes "SP-44" ∷ codes "AB_2-1" ∷ [])
    × (extract_issue_keys (codes "AB-12-CD-3") ≡ codes "AB-12" ∷ codes "CD-3" ∷ [])
unfolding extract_issue_keys find_all issue_key distinct_keys key_at run dashed_number
keys = (refl, refl)

intents :
    parse_close_intents (codes "Closes SP-44; fixes : sp-45, prefix SP-1 fix SP-44 resolve:SP-2")
    ≡ codes "SP-44" ∷ codes "SP-45" ∷ []
unfolding parse_close_intents find_all verb_then_key distinct_keys key_at run dashed_number
    after_word gap_then_key gap_from blanks_then_key
intents = refl

splits : split_issue_key (codes "SP-044") ≡ (codes "SP", 44)
unfolding split_issue_key find_all issue_key key_at run dashed_number
splits = refl

abbrev pull : PullRequest
pull = record {
  id = "p";
  project_id = "pr";
  repo = "r";
  number = pos 7;
  title = "t";
  body = "closes SP-1";
  head_branch = "b";
  state = "open";
  merged_at = none;
  created_by = "ann";
}

abbrev tables : PullDb
tables = record { pulls = pull ∷ []; links = []; issues = []; serial = 1 }

abbrev others : Others
others = record {
  project = λ id d. found (record { id = id; workspace_id = "w" });
  member = λ id user d. found (record { project_id = id; user_id = user; role = "member" });
  project_by_key = λ w key d. missing;
  issue = λ id d. missing;
  issue_by_number = λ project n d. missing;
  update_issue = λ i d. (missing, d);
  linked_keys = λ id d. some [];
  events = none;
}

others-Aside : Aside others
others-Aside = ((λ i d. refl), (λ f e x d. absurd (none-ne-some f e)))

abbrev new_id : ℕ → String
new_id n = "id"

abbrev merged : UpsertInput
merged = record {
  repo = "r";
  number = pos 7;
  title = "t";
  body = "closes SP-1";
  head_branch = "b";
  state = "merged";
}

upsert_pull_request-HasState_example :
    HasState "pr" "r"
      (pos 7)
      "open"
      (upsert_pull_request (pg_pulls new_id others) "ann" "pr" merged tables).1.pulls
upsert_pull_request-HasState_example =
    upsert_pull_request-HasState new_id others others-Aside "ann" "pr" merged "open" tables
      (pull, refl, refl)
