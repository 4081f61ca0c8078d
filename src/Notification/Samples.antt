-- ===== src/Notification/Samples.antt =====
-- Notifications at concrete events and texts.
use spec_powers.Prelude.{
  ℕ, String, ◌≡◌, refl, Bool, true, false, Option, none, some, List, [], ◌∷◌, codes, ◌↔◌, all_space,
  is_space,
}
use spec_powers.Prelude.Int.{pos}
use spec_powers.Domain.{Issue}
use spec_powers.Notification.Fanout.{NotifyInput, notify_many, fan_out, notify}
use spec_powers.Notification.Delivery.{times, keep, once, notify_many-times}
use spec_powers.Notification.Postgres.{
  Notification, Inbox, mark_all_read, has_notification, inbox_sink, create_notification, accepted,
}
use spec_powers.Notification.Mentions.{mentions_name, mentioned, after_name, is_name_byte}
use spec_powers.Notification.Syntax.{Mention, mentions_name-Mention}
use spec_powers.Notification.Due.{
  scan, scan_found, scan_list, notify_issue, notify_due, notify_titled, due_title, unless_sent,
}
use spec_powers.Notification.Scans.{inbox_scanner, scan-again}

abbrev event : NotifyInput
event = record {
  user_id = "";
  kind = "assigned";
  title = "moved";
  body = "";
  issue_id = "i";
  project_id = "p";
}

abbrev subscribers : List String
subscribers = "ann" ∷ "bob" ∷ "" ∷ "ann" ∷ []

notify_many-times_example :
    times "ann" (notify_many (some keep) subscribers "bob" event []) ≡ once true
notify_many-times_example = notify_many-times "ann" subscribers "bob" event

actor_test : times "bob" (notify_many (some keep) subscribers "bob" event []) ≡ 0
unfolding times notify_many fan_out
actor_test = refl

abbrev letter : String → String → Notification
letter id user = record {
  id = id;
  user_id = user;
  kind = "due";
  title = "late";
  body = "";
  issue_id = "i";
  project_id = "p";
  read_at = none;
  created_at = 3;
}

abbrev inbox : Inbox
inbox = record {
  rows = letter "1" "ann" ∷ letter "2" "bob" ∷ letter "3" "ann" ∷ [];
  serial = 3;
  now = 5;
}

mark_test : (mark_all_read "ann" 9 inbox).0 ≡ 2
unfolding mark_all_read
mark_test = refl

abbrev comment : List ℕ
comment = codes "hi @bo, @BOB!"

mentions_name-Mention_example :
    (mentions_name comment (codes "Bob") ≡ true)
    ↔ ((all_space (codes "Bob") ≡ false) × Mention comment (codes "Bob"))
mentions_name-Mention_example = mentions_name-Mention comment (codes "Bob")

mention_test : mentions_name comment (codes "Bob") ≡ true
unfolding mentions_name mentioned after_name is_name_byte all_space is_space
mention_test = refl

longer_test : mentions_name (codes "@bobby") (codes "bob") ≡ false
unfolding mentions_name mentioned after_name is_name_byte all_space is_space
longer_test = refl

abbrev late : String → Option ℕ → Issue
late id due = record {
  id = id;
  project_id = "p";
  parent_id = "";
  title = "ship";
  description = "";
  status = "todo";
  priority = "none";
  assignee_id = "ann";
  due_date = due;
  labels = [];
  stage = pos 0;
  position = pos 0;
  created_by = "ann";
}

abbrev everyone : String → Bool
everyone id = true

abbrev fresh : ℕ → String
fresh n = "n"

abbrev open_issues : List Issue
open_issues = late "i1" (some 4) ∷ late "i2" (some 90) ∷ []

scan-again_example :
    (let once = scan (inbox_scanner everyone fresh (some open_issues) none 50) 60 inbox in
      scan (inbox_scanner everyone fresh (some open_issues) none 50) 60 once.1 ≡ once)
scan-again_example = scan-again everyone fresh open_issues none 50 60 inbox (refl, (refl, tt))

scan_test :
    has_notification "ann" "i2" "due" "Issue due soon: ship"
      (scan (inbox_scanner everyone fresh (some open_issues) none 50) 60 inbox).1
    ≡ some true
unfolding scan scan_found scan_list notify_issue notify_due notify_titled due_title unless_sent
    has_notification inbox_sink notify create_notification accepted
scan_test = refl
