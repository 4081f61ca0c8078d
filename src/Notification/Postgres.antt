-- ===== src/Notification/Postgres.antt =====
-- backend/internal/store/postgres/notifications.go: the table of notifications and the statements
-- over it, and what notification/service.go makes of them. Rows stand in the order of insertion; ids
-- come from `new_id`, as from gen_random_uuid(), and `now` is the transaction's time. `known` says
-- whether a user exists, for the foreign key; the others are taken to hold.
use spec_powers.Prelude.{
  ℕ, suc, String, Bool, true, false, not, ◌&&◌, ◌||◌, Option, none, some, List, [], ◌∷◌, ◌++◌, map,
  all, any, find, select, ltb, str_eq, ◌==◌, codes, length, if◌then◌else◌,
}
use spec_powers.Api.{Stored, found, missing, failed}
use spec_powers.Notification.Fanout.{NotifyInput, Sink, notify}

pub record Notification : Type 0 where
  pub id : String
  pub user_id : String
  pub kind : String
  pub title : String
  pub body : String
  pub issue_id : String
  pub project_id : String
  pub read_at : Option ℕ
  pub created_at : ℕ

pub record Inbox : Type 0 where
  pub rows : List Notification
  pub serial : ℕ
  pub now : ℕ

abbrev pub is_unread : Notification → Bool
is_unread n = elim n.read_at [ none ↦ true | some t ↦ false ]

abbrev pub belongs_to : String → Notification → Bool
belongs_to user n = str_eq n.user_id user

-- `WHERE user_id = $1 AND read_at IS NULL`.
abbrev pub unread_of : String → Notification → Bool
unread_of user n = str_eq n.user_id user && is_unread n

module _ (known : String → Bool) (new_id : ℕ → String) where
  abbrev pub new_row : NotifyInput → Inbox → Notification
  new_row n d = record {
    id = new_id d.serial;
    user_id = n.user_id;
    kind = n.kind;
    title = n.title;
    body = n.body;
    issue_id = n.issue_id;
    project_id = n.project_id;
    read_at = none;
    created_at = d.now;
  }

  -- The user exists, and the title is more than spaces: `length(btrim(title)) > 0`.
  unfoldable pub accepted : NotifyInput → Bool
  accepted n = known n.user_id && not (all (λ c. c == 32) (codes n.title))

  unfoldable pub create_notification : NotifyInput → Inbox → Stored Notification × Inbox
  unfolding accepted
  create_notification n d =
      if accepted n
      then (
        found (new_row n d),
        record d { rows = d.rows ++ new_row n d ∷ []; serial = suc d.serial },
      )
      else (failed, d)

  -- `Service.Notify` on the table.
  unfoldable pub inbox_sink : Sink Inbox
  unfolding notify create_notification
  inbox_sink n d = notify (λ m x. (create_notification m x).1) n d

-- `issue_id = NULLIF($2, '')` is never true of the empty text.
abbrev pub same_notice : String → String → String → String → Notification → Bool
same_notice user issue kind title n =
    str_eq n.user_id user
    && (not (str_eq issue "") && str_eq n.issue_id issue)
    && str_eq n.kind kind
    && str_eq n.title title

unfoldable pub has_notification : String → String → String → String → Inbox → Option Bool
has_notification user issue kind title d = some (any (same_notice user issue kind title) d.rows)

-- `ORDER BY created_at DESC, id DESC`; rows of one time come last inserted first, which stands for
-- the order of their ids.
insert_newest : Notification → List Notification → List Notification
insert_newest n [] = n ∷ []
insert_newest n (x ∷ xs) =
    let rest = insert_newest n xs in if ltb n.created_at x.created_at then x ∷ rest else n ∷ x ∷ xs

newest_first : List Notification → List Notification → List Notification
unfolding insert_newest
newest_first sorted [] = sorted
newest_first sorted (n ∷ rows) = newest_first (insert_newest n sorted) rows

abbrev pub listed_for : String → Bool → String → Notification → Bool
listed_for user unread kind n =
    str_eq n.user_id user && (not unread || is_unread n) && (str_eq kind "" || str_eq n.kind kind)

unfoldable pub list_notifications : String → Bool → String → Inbox → Option (List Notification)
unfolding newest_first
list_notifications user unread kind d =
    some (newest_first [] (select (listed_for user unread kind) d.rows))

unfoldable pub count_unread : String → Inbox → ℕ
count_unread user d = length (select (unread_of user) d.rows)

-- `SET read_at = $3` on the rows that a test selects.
abbrev pub stamp : (Notification → Bool) → ℕ → Notification → Notification
stamp p at n = if p n then record n { read_at = some at } else n

abbrev pub named_unread : String → String → Notification → Bool
named_unread user id n = str_eq n.id id && unread_of user n

abbrev pub stamped_row : ℕ → Option Notification → Stored Notification
stamped_row at none = missing
stamped_row at (some n) = found (record n { read_at = some at })

unfoldable pub mark_notification_read : String → String → ℕ → Inbox → Stored Notification × Inbox
mark_notification_read user id at d = (
  stamped_row at (find (named_unread user id) d.rows),
  record d { rows = map (stamp (named_unread user id) at) d.rows },
)

unfoldable pub mark_all_read : String → ℕ → Inbox → ℕ × Inbox
mark_all_read user at d = (
  length (select (unread_of user) d.rows),
  record d { rows = map (stamp (unread_of user) at) d.rows },
)
