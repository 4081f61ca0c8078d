-- ===== src/Collab/Told.antt =====
-- collab/service.go: what is told of a comment does not touch the comments.
use spec_powers.Prelude.{
  String, ◌≡◌, refl, ◌∙◌, not, ◌||◌, Option, none, some, List, [], ◌∷◌, str_eq, codes, Bool-cases,
  Option-cases, inl, inr,
}
use spec_powers.Domain.{Issue}
use spec_powers.Notification.Fanout.{Sink, NotifyInput, is_in, fan_out, notify_many}
use spec_powers.Notification.Mentions.{mentions_name}
use spec_powers.Collab.Stores.{IssueComment, NamedUser, Subscriptions}
use spec_powers.Collab.Comments.{notify_comment, notify_mentions, mention_each, observe}
use spec_powers.Collab.Postgres.{CollabDb, Others}

fan_out-comments :
    (sink : Sink CollabDb)
    → ((n : NotifyInput) (d : CollabDb) → (sink n d).comments ≡ d.comments)
    → (seen ids : List String) (n : NotifyInput) (d : CollabDb)
    → (fan_out sink seen ids n d).comments ≡ d.comments
unfolding fan_out
fan_out-comments sink quiet seen [] n d = refl
fan_out-comments sink quiet seen (id ∷ ids) n d =
    elim (Bool-cases (str_eq id "" || is_in id seen)) [
      | inl e ↦ rw (fan_out, e) (fan_out-comments sink quiet seen ids n d)
      | inr e ↦
          rw (fan_out, e)
            (fan_out-comments sink quiet (id ∷ seen) ids n (sink (record n { user_id = id }) d)
              ∙ quiet (record n { user_id = id }) d)
    ]

mention_each-comments :
    (sink : Sink CollabDb)
    → ((n : NotifyInput) (d : CollabDb) → (sink n d).comments ≡ d.comments)
    → (users : List NamedUser) (i : Issue) (author content : String) (d : CollabDb)
    → (mention_each sink users i author content d).comments ≡ d.comments
unfolding mention_each
mention_each-comments sink quiet [] i author content d = refl
mention_each-comments sink quiet (u ∷ users) i author content d =
    elim (Bool-cases (
      str_eq u.id author
      || str_eq u.id i.assignee_id
      || not (mentions_name (codes content) (codes u.display_name)))) [
        | inl e ↦ rw e (mention_each-comments sink quiet users i author content d)
        | inr e ↦ rw e (mention_each-comments sink quiet users i author content _ ∙ quiet _ d)
      ]

-- What is told does not touch the comments.
abbrev pub Quiet : Others → Type 0
Quiet o =
    ((sink : Sink CollabDb)
      → o.notifier ≡ some sink
      → (n : NotifyInput) (d : CollabDb) → (sink n d).comments ≡ d.comments)
    × ((f : IssueComment → CollabDb → CollabDb)
        → o.comment_observer ≡ some f
        → (c : IssueComment) (d : CollabDb) → (f c d).comments ≡ d.comments)

pub notify_comment-comments :
    (sink : Option (Sink CollabDb)) (subs : Option (Subscriptions CollabDb))
    → ((f : Sink CollabDb)
        → sink ≡ some f
        → (n : NotifyInput) (d : CollabDb) → (f n d).comments ≡ d.comments)
    → (i : Issue) (author content : String) (d : CollabDb)
    → (notify_comment sink subs i author content d).comments ≡ d.comments
unfolding notify_comment notify_many
notify_comment-comments none subs quiet i author content d = refl
notify_comment-comments (some f) subs quiet i author content d =
    fan_out-comments f (quiet f refl) (author ∷ []) _ _ d

pub notify_mentions-comments :
    (sink : Option (Sink CollabDb)) (directory : Option (CollabDb → Option (List NamedUser)))
    → ((f : Sink CollabDb)
        → sink ≡ some f
        → (n : NotifyInput) (d : CollabDb) → (f n d).comments ≡ d.comments)
    → (i : Issue) (author content : String) (d : CollabDb)
    → (notify_mentions sink directory i author content d).comments ≡ d.comments
unfolding notify_mentions
notify_mentions-comments none directory quiet i author content d = refl
notify_mentions-comments (some f) none quiet i author content d = refl
notify_mentions-comments (some f) (some directory) quiet i author content d =
    elim (Option-cases (directory d)) [
      | inl e ↦ rw e refl
      | inr (users, e) ↦ rw e (mention_each-comments f (quiet f refl) users i author content d)
    ]

pub observe-comments :
    (observer : Option (IssueComment → CollabDb → CollabDb))
    → ((f : IssueComment → CollabDb → CollabDb)
        → observer ≡ some f
        → (c : IssueComment) (d : CollabDb) → (f c d).comments ≡ d.comments)
    → (c : IssueComment) (d : CollabDb) → (observe observer c d).comments ≡ d.comments
observe-comments none quiet c d = refl
observe-comments (some f) quiet c d = quiet f refl c d
