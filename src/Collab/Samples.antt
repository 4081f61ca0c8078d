-- ===== src/Collab/Samples.antt =====
-- A small issue with comments and files, and the theorems at it.
use spec_powers.Prelude.{
  ℕ, ◌≡◌, refl, true, false, none, some, String, List, [], ◌∷◌, inl, inr, sym, ap, Option,
}
use spec_powers.Domain.{Issue}
use spec_powers.Prelude.Int.{pos}
use spec_powers.Api.{found}
use spec_powers.Notification.Fanout.{NotifyInput}
use spec_powers.Collab.Stores.{IssueComment, IssueMetadata, Upload}
use spec_powers.Collab.Comments.{add_comment}
use spec_powers.Collab.Attachments.{limited, add_attachment}
use spec_powers.Collab.Postgres.{CollabDb, Others, pg_collab}
use spec_powers.Collab.Told.{Quiet}
use spec_powers.Collab.Threads.{Threaded, add_comment-Threaded}
use spec_powers.Collab.Files.{IsWhole, add_attachment-IsWhole}

abbrev issue : Issue
issue = record {
  id = "i";
  project_id = "pr";
  parent_id = "";
  title = "t";
  description = "";
  status = "todo";
  priority = "none";
  assignee_id = "bob";
  due_date = none;
  labels = [];
  stage = pos 0;
  position = pos 0;
  created_by = "ann";
}

abbrev comment : String → String → IssueComment
comment id parent = record {
  id = id;
  issue_id = "i";
  parent_id = parent;
  author_id = "ann";
  content = "well";
}

abbrev tables : CollabDb
tables = record {
  comments = comment "root" "" ∷ comment "reply" "root" ∷ [];
  attachments = [];
  metadata = [];
  files = [];
  serial = 2;
}

-- Who is told is written into the metadata.
abbrev told : NotifyInput → CollabDb → CollabDb
told n d = record d {
  metadata =
      record { issue_id = n.issue_id; key = n.user_id; value = n.body; type = n.kind } ∷ d.metadata;
}

abbrev others : Others
others = record {
  issue = λ id d. found issue;
  project = λ id d. found (record { id = id; workspace_id = "w" });
  member = λ id user d. found (record { project_id = id; user_id = user; role = "member" });
  subscribers = none;
  notifier = some told;
  user_directory = some (λ d. some (record { id = "cid"; display_name = "Cid" } ∷ []));
  comment_observer = some (λ c d. d);
}

abbrev new_id : ℕ → String
new_id n = "id"

abbrev ordered : List IssueMetadata → List IssueMetadata
ordered rows = rows

comments_by :
    Option (NotifyInput → CollabDb → CollabDb) → NotifyInput → CollabDb → List IssueComment
comments_by none n d = d.comments
comments_by (some f) n d = (f n d).comments

comments_after :
    Option (IssueComment → CollabDb → CollabDb) → IssueComment → CollabDb → List IssueComment
comments_after none c d = d.comments
comments_after (some f) c d = (f c d).comments

others-Quiet : Quiet others
unfolding comments_by comments_after
others-Quiet = (
  (λ sink e n d.
      sym (ap (λ (f : Option (NotifyInput → CollabDb → CollabDb)). comments_by f n d) e)),
  λ f e c d. sym (ap (λ (g : Option (IssueComment → CollabDb → CollabDb)). comments_after g c d) e),
)

tables-Threaded : Threaded tables
tables-Threaded = (inl refl, (inr (comment "root" "", refl, refl, refl), tt))

add_comment-Threaded_example :
    Threaded (add_comment (pg_collab new_id ordered others) "ann" "i" "root" "@cid look" tables).1
add_comment-Threaded_example =
    add_comment-Threaded new_id ordered others others-Quiet "ann" "i" "root" "@cid look" tables
      tables-Threaded

abbrev upload : Upload
upload = record { bytes = 1 ∷ 2 ∷ 3 ∷ []; breaks = false }

add_attachment-IsWhole_example : IsWhole "files" 3 (some "a") "i" upload tables (
    add_attachment
      (pg_collab new_id ordered others)
      "files"
      3
      (some "a")
      "ann"
      "i"
      ""
      "n.txt"
      ""
      upload
      tables)
add_attachment-IsWhole_example =
    add_attachment-IsWhole new_id ordered others "files" 3 (some "a") "ann" "i" "" "n.txt" "" upload
      tables refl

cuts :
    (limited 3 upload ≡ (1 ∷ 2 ∷ 3 ∷ [], false))
    × (limited 2 (record { bytes = 1 ∷ 2 ∷ []; breaks = true }) ≡ (1 ∷ 2 ∷ [], false))
    × (limited 3 (record { bytes = 1 ∷ 2 ∷ []; breaks = true }) ≡ (1 ∷ 2 ∷ [], true))
cuts = (refl, refl, refl)
