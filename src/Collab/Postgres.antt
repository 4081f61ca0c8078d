-- ===== src/Collab/Postgres.antt =====
-- backend/internal/store/postgres/collab.go: the tables of comments, attachments and metadata, with the
-- constraints of migration 0004_collaboration, and the files of the attachment directory, which are
-- taken not to fail. Rows stand in the order of insertion; ids come from `new_id`, as from
-- gen_random_uuid(), and `ordered` sorts metadata by key. Foreign keys are taken to hold. Ids are given
-- in their canonical spelling, as the columns return them.
use spec_powers.Prelude.{
  ℕ, suc, String, Bool, true, not, ◌&&◌, ◌||◌, Option, none, some, List, [], ◌∷◌, ◌++◌, map, all,
  any, find, select, ◌==◌, str_eq, codes, if◌then◌else◌,
}
use spec_powers.Domain.{Project, ProjectMember, Issue}
use spec_powers.Api.{Stored, found, missing, failed}
use spec_powers.Notification.Fanout.{Sink}
use spec_powers.Collab.Stores.{
  IssueComment, IssueAttachment, IssueMetadata, NamedUser, Subscriptions, CollabStores,
}

pub record File : Type 0 where
  pub path : String
  pub bytes : List ℕ

pub record CollabDb : Type 0 where
  pub comments : List IssueComment
  pub attachments : List IssueAttachment
  pub metadata : List IssueMetadata
  pub files : List File
  pub serial : ℕ

-- `length(btrim(text)) > 0`.
abbrev pub has_text : String → Bool
has_text t = not (all (λ c. c == 32) (codes t))

abbrev pub one_comment : Option IssueComment → Stored IssueComment
one_comment none = missing
one_comment (some c) = found c

unfoldable pub create_comment :
    (ℕ → String) → IssueComment → CollabDb → Stored IssueComment × CollabDb
create_comment new_id c d =
    let row = record c { id = new_id d.serial } in
    if has_text c.content
    then (found row, record d { comments = d.comments ++ row ∷ []; serial = suc d.serial })
    else (failed, d)

unfoldable pub get_comment : String → CollabDb → Stored IssueComment
get_comment id d = one_comment (find (λ (c : IssueComment). str_eq c.id id) d.comments)

unfoldable pub list_comments : String → CollabDb → Option (List IssueComment)
list_comments issue d = some (select (λ (c : IssueComment). str_eq c.issue_id issue) d.comments)

abbrev pub one_attachment : Option IssueAttachment → Stored IssueAttachment
one_attachment none = missing
one_attachment (some a) = found a

unfoldable pub create_attachment :
    (ℕ → String) → IssueAttachment → CollabDb → Stored IssueAttachment × CollabDb
create_attachment new_id a d =
    let row = record a { id = new_id d.serial } in
    if has_text a.file_name
    then (found row, record d { attachments = d.attachments ++ row ∷ []; serial = suc d.serial })
    else (failed, d)

unfoldable pub get_attachment : String → CollabDb → Stored IssueAttachment
get_attachment id d = one_attachment (find (λ (a : IssueAttachment). str_eq a.id id) d.attachments)

unfoldable pub list_attachments : String → CollabDb → Option (List IssueAttachment)
list_attachments issue d =
    some (select (λ (a : IssueAttachment). str_eq a.issue_id issue) d.attachments)

abbrev pub same_entry : String → String → IssueMetadata → Bool
same_entry issue key m = str_eq m.issue_id issue && str_eq m.key key

abbrev pub put_entry : IssueMetadata → IssueMetadata → IssueMetadata
put_entry m x = if same_entry m.issue_id m.key x then m else x

abbrev pub is_metadata_type : String → Bool
is_metadata_type t = str_eq t "string" || str_eq t "number" || str_eq t "bool"

unfoldable pub set_issue_metadata : IssueMetadata → CollabDb → Stored IssueMetadata × CollabDb
set_issue_metadata m d =
    if not (has_text m.key && is_metadata_type m.type)
    then (failed, d)
    else if any (same_entry m.issue_id m.key) d.metadata
    then (found m, record d { metadata = map (put_entry m) d.metadata })
    else (found m, record d { metadata = d.metadata ++ m ∷ [] })

unfoldable pub list_issue_metadata :
    (List IssueMetadata → List IssueMetadata) → String → CollabDb → Option (List IssueMetadata)
list_issue_metadata ordered issue d =
    some (ordered (select (λ (m : IssueMetadata). str_eq m.issue_id issue) d.metadata))

unfoldable pub delete_issue_metadata : String → String → CollabDb → Stored (Unit {0}) × CollabDb
delete_issue_metadata issue key d =
    if any (same_entry issue key) d.metadata
    then (found tt, record d { metadata = select (λ m. not (same_entry issue key m)) d.metadata })
    else (missing, d)

abbrev pub is_at : String → File → Bool
is_at path f = str_eq f.path path

abbrev pub removed : String → List File → List File
removed path files = select (λ f. not (is_at path f)) files

abbrev pub bytes_of : Option File → Option (List ℕ)
bytes_of none = none
bytes_of (some f) = some f.bytes

unfoldable pub open_file : String → CollabDb → Option (List ℕ)
open_file path d = bytes_of (find (is_at path) d.files)

unfoldable pub write_file : String → List ℕ → CollabDb → Bool × CollabDb
write_file path bytes d =
    (true, record d { files = record { path = path; bytes = bytes } ∷ removed path d.files })

unfoldable pub remove_file : String → CollabDb → CollabDb
remove_file path d = record d { files = removed path d.files }

-- The tables that the service only reads, and what it tells.
pub record Others : Type 0 where
  pub issue : String → CollabDb → Stored Issue
  pub project : String → CollabDb → Stored Project
  pub member : String → String → CollabDb → Stored ProjectMember
  pub subscribers : Option (Subscriptions CollabDb)
  pub notifier : Option (Sink CollabDb)
  pub user_directory : Option (CollabDb → Option (List NamedUser))
  pub comment_observer : Option (IssueComment → CollabDb → CollabDb)

abbrev pub pg_collab :
    (ℕ → String) → (List IssueMetadata → List IssueMetadata) → Others → CollabStores
pg_collab new_id ordered o = record {
  State = CollabDb;
  get_issue = o.issue;
  get_project = o.project;
  get_project_member = o.member;
  create_comment = create_comment new_id;
  get_comment = get_comment;
  comments = list_comments;
  create_attachment = create_attachment new_id;
  get_attachment = get_attachment;
  attachments = list_attachments;
  set_metadata = set_issue_metadata;
  metadata = list_issue_metadata ordered;
  delete_metadata = delete_issue_metadata;
  subscribers = o.subscribers;
  notifier = o.notifier;
  user_directory = o.user_directory;
  comment_observer = o.comment_observer;
  make_dirs = λ path d. (true, d);
  create_file = λ path d. write_file path [] d;
  write_file = write_file;
  remove_file = remove_file;
  open_file = open_file;
}
