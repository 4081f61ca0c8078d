-- ===== src/Collab/Comments.antt =====
-- collab/service.go: `AddComment`, who is told of it, and `ListComments`. Names and contents are ASCII
-- where they are searched or cut.
use spec_powers.Prelude.{
  ℕ, zero, suc, String, not, ◌||◌, Option, none, some, List, [], ◌∷◌, leb, str_eq, codes, concat,
  length, is_blank, if◌then◌else◌,
}
use spec_powers.Domain.{Issue}
use spec_powers.Api.{
  err_invalid, err_not_found, err_internal, Result, ok, err, checked, listed, Action, pure, reads,
  writes, does, guard, ◌>>=◌, ◌>>◌,
}
use spec_powers.Notification.Fanout.{Sink, NotifyInput, notify_many}
use spec_powers.Notification.Mentions.{mentions_name}
use spec_powers.Collab.Stores.{
  IssueComment, NamedUser, Subscriptions, CollabStores, require_project_issue,
}

unfoldable pub first_chars : ℕ → String → String
first_chars zero text = String.[]
first_chars (suc n) String.[] = String.[]
first_chars (suc n) (String.◌∷◌ c text) = String.◌∷◌ c (first_chars n text)

-- `if len(body) > 200 { body = body[:200] + "…" }`.
unfoldable pub shortened : String → String
unfolding first_chars
shortened body = if leb (length (codes body)) 200 then body else concat (first_chars 200 body) "…"

-- What `AddComment` checks of a parent.
abbrev pub root_of : String → IssueComment → Result String
root_of issue parent =
    if not (str_eq parent.issue_id issue)
    then err (err_invalid "parent comment belongs to another issue")
    else if not (str_eq parent.parent_id "")
    then err (err_invalid "cannot reply to a reply")
    else ok parent.id

abbrev pub notice : Issue → String → String → String → NotifyInput
unfolding shortened
notice i kind title content = record {
  user_id = "";
  kind = kind;
  title = concat title i.title;
  body = shortened content;
  issue_id = i.id;
  project_id = i.project_id;
}

abbrev pub or_nobody : Option (List String) → List String
or_nobody none = []
or_nobody (some users) = users

abbrev pub assignee_first : Issue → List String → List String
assignee_first i users = if str_eq i.assignee_id "" then users else i.assignee_id ∷ users

module _ {S : Type 0} where
  abbrev pub subscribed : Option (Subscriptions S) → String → S → List String
  subscribed none issue s = []
  subscribed (some subs) issue s = or_nobody (subs.list issue s)

  unfoldable pub notify_comment :
      Option (Sink S) → Option (Subscriptions S) → Issue → String → String → S → S
  unfolding notify_many
  notify_comment none subs i author content s = s
  notify_comment (some sink) subs i author content s =
      notify_many (some sink) (assignee_first i (subscribed subs i.id s)) author
        (notice i "comment" "New comment on: " content) s

  -- The loop over the users.
  unfoldable pub mention_each : Sink S → List NamedUser → Issue → String → String → S → S
  unfolding mentions_name
  mention_each sink [] i author content s = s
  mention_each sink (u ∷ users) i author content s =
      if str_eq u.id author
        || str_eq u.id i.assignee_id
        || not (mentions_name (codes content) (codes u.display_name))
      then mention_each sink users i author content s
      else mention_each sink users i author content (
          sink (record (notice i "mention" "You were mentioned in: " content) { user_id = u.id }) s)

  abbrev pub mention_listed : Sink S → Option (List NamedUser) → Issue → String → String → S → S
  unfolding mention_each
  mention_listed sink none i author content s = s
  mention_listed sink (some users) i author content s = mention_each sink users i author content s

  unfoldable pub notify_mentions :
      Option (Sink S) → Option (S → Option (List NamedUser)) → Issue → String → String → S → S
  unfolding mention_listed
  notify_mentions none directory i author content s = s
  notify_mentions (some sink) none i author content s = s
  notify_mentions (some sink) (some directory) i author content s =
      mention_listed sink (directory s) i author content s

  abbrev pub observe : Option (IssueComment → S → S) → IssueComment → S → S
  observe none c s = s
  observe (some f) c s = f c s

module _ (st : CollabStores) where
  open st use {
    State, create_comment, get_comment, comments, subscribers, notifier, user_directory,
    comment_observer,
  }

  -- The parent to store: none, or a root comment of the issue.
  unfoldable pub parent_for : String → String → State → Result String
  parent_for issue parent s =
      if str_eq parent ""
      then ok ""
      else elim (checked (get_comment parent s) (err_not_found "parent comment not found")
          (err_internal "get parent comment failed")) [ ok p ↦ root_of issue p | err e ↦ err e ]

  -- Once the comment is stored.
  unfoldable pub announce : Issue → String → IssueComment → State → State
  unfolding notify_comment notify_mentions
  announce i user c s = observe comment_observer c (
      notify_mentions notifier user_directory i user c.content
        (notify_comment notifier subscribers i user c.content s))

  unfoldable pub store_comment : Issue → String → IssueComment → Action State IssueComment
  unfolding announce
  store_comment i user c = do
    stored ← writes (create_comment c) (err_internal "create comment failed")
    does (announce i user stored)
    pure stored

  unfoldable pub add_comment : String → String → String → String → Action State IssueComment
  unfolding require_project_issue is_blank parent_for store_comment
  add_comment user issue parent content = do
    i ← require_project_issue st user issue
    guard (not (is_blank content)) (err_invalid "comment content is required")
    root ← reads (parent_for issue parent)
    store_comment i user (record {
      id = "";
      issue_id = issue;
      parent_id = root;
      author_id = user;
      content = content;
    })

  unfoldable pub list_comments : String → String → Action State (List IssueComment)
  unfolding require_project_issue
  list_comments user issue = do
    require_project_issue st user issue
    reads (λ s. listed (comments issue s) "list comments failed")
