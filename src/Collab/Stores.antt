-- ===== src/Collab/Stores.antt =====
-- What collab/service.go is written against (issueLookup, projectAccess, store.CommentStore,
-- AttachmentStore, IssueMetadataStore, the subscribers and the user directory, package os), over one
-- state; a collaborator that may be nil is an `Option`. And the access rule of all its methods.
use spec_powers.Prelude.{ℕ, String, Bool, ◌||◌, Option, List, str_eq}
use spec_powers.Domain.{Project, ProjectMember, Issue}
use spec_powers.Api.{
  err_forbidden, err_not_found, err_internal, Stored, checked, Action, pure, reads, guard, ◌>>=◌,
  ◌>>◌,
}
use spec_powers.Notification.Fanout.{Sink}

pub record IssueComment : Type 0 where
  pub id : String
  pub issue_id : String
  pub parent_id : String
  pub author_id : String
  pub content : String

pub record IssueAttachment : Type 0 where
  pub id : String
  pub issue_id : String
  pub comment_id : String
  pub file_name : String
  pub size_bytes : ℕ
  pub content_type : String
  pub storage_path : String
  pub uploaded_by : String

pub record IssueMetadata : Type 0 where
  pub issue_id : String
  pub key : String
  pub value : String
  pub type : String

pub record NamedUser : Type 0 where
  pub id : String
  pub display_name : String

-- `store.SubscriberStore` with the look-up by email, by the ids of users.
pub record Subscriptions (S : Type 0) : Type 0 where
  pub by_email : String → S → Stored String
  pub add : String → String → S → Bool × S
  pub remove : String → String → S → Stored (Unit {0}) × S
  pub list : String → S → Option (List String)

-- What an upload sends: bytes, and whether it breaks off with an error after them.
pub record Upload : Type 0 where
  pub bytes : List ℕ
  pub breaks : Bool

-- `make_dirs`, `create_file`, `write_file` (with the closing) and `remove_file` are os.MkdirAll,
-- os.Create, writes to an open file, and os.Remove.
pub record CollabStores : Type 1 where
  pub State : Type 0
  pub get_issue : String → State → Stored Issue
  pub get_project : String → State → Stored Project
  pub get_project_member : String → String → State → Stored ProjectMember
  pub create_comment : IssueComment → State → Stored IssueComment × State
  pub get_comment : String → State → Stored IssueComment
  pub comments : String → State → Option (List IssueComment)
  pub create_attachment : IssueAttachment → State → Stored IssueAttachment × State
  pub get_attachment : String → State → Stored IssueAttachment
  pub attachments : String → State → Option (List IssueAttachment)
  pub set_metadata : IssueMetadata → State → Stored IssueMetadata × State
  pub metadata : String → State → Option (List IssueMetadata)
  pub delete_metadata : String → String → State → Stored (Unit {0}) × State
  pub subscribers : Option (Subscriptions State)
  pub notifier : Option (Sink State)
  pub user_directory : Option (State → Option (List NamedUser))
  pub comment_observer : Option (IssueComment → State → State)
  pub make_dirs : String → State → Bool × State
  pub create_file : String → State → Bool × State
  pub write_file : String → List ℕ → State → Bool × State
  pub remove_file : String → State → State
  pub open_file : String → State → Option (List ℕ)

abbrev pub is_any_role : String → Bool
is_any_role role = str_eq role "owner" || str_eq role "member"

module _ (st : CollabStores) where
  open st use {State, get_issue, get_project, get_project_member}

  unfoldable pub require_project_issue : String → String → Action State Issue
  require_project_issue user issue = do
    i ← reads (λ s.
        checked (get_issue issue s) (err_not_found "issue not found")
          (err_internal "get issue failed"))
    reads (λ s.
        checked (get_project i.project_id s) (err_not_found "project not found")
          (err_internal "get project failed"))
    pm ← reads (λ s.
        checked (get_project_member i.project_id user s) (err_forbidden "not a project member")
          (err_internal "get project member failed"))
    guard (is_any_role pm.role) (err_forbidden "not a project member")
    pure i
