-- ===== src/Notification/Scans.antt =====
-- notification/due.go over store/postgres/notifications.go: scanning twice is scanning once.
use spec_powers.Prelude.{
  ℕ, String, ◌≡◌, refl, ap, ◌∙◌, Bool, true, false, not, ◌||◌, Option, none, some, List, [], ◌∷◌,
  ◌++◌, any, All, str_eq, eq_refl, if◌then◌else◌, arith, Bool-cases, concat, codes, str_eq-ne,
  codes-concat, ◌<◌, lt→ltb, inl, inr,
}
use spec_powers.Domain.{Issue}
use spec_powers.Notification.Fanout.{NotifyInput, notify}
use spec_powers.Notification.Due.{
  Scanner, scan, scan_found, scan_list, notify_issue, notify_due, notify_titled, unless_sent,
  due_title, due_notice,
}
use spec_powers.Notification.Postgres.{
  Notification, Inbox, accepted, create_notification, new_row, inbox_sink, has_notification,
  same_notice,
}

-- The scanner of cmd/spd: the table answers for duplicates and takes the notices; issues and agents
-- are in other tables.
abbrev pub inbox_scanner :
    (String → Bool) → (ℕ → String) → Option (List Issue) → Option (String → Bool) → ℕ → Scanner
inbox_scanner known new_id issues agents window = record {
  State = Inbox;
  due_issues = λ d. issues;
  agents = elim agents [ none ↦ none | some f ↦ some (λ id d. f id) ];
  dedupe = some has_notification;
  sink = some (inbox_sink known new_id);
  window = window;
}

abbrev pub knows : Option (String → Bool) → String → Bool
knows none id = false
knows (some f) id = f id

any-append : {A : Type 0} (p : A → Bool) (xs ys : List A) → any p (xs ++ ys) ≡ any p xs || any p ys
any-append p [] ys = refl
any-append p (x ∷ xs) ys = ground (arith, any-append p xs ys)

module _ (known : String → Bool) (new_id : ℕ → String) where
  -- No row comes of such a notice.
  abbrev refused : NotifyInput → Bool
  refused n = str_eq n.user_id "" || str_eq n.title "" || not (accepted known new_id n)

  sink-refused : (n : NotifyInput) (d : Inbox) → refused n ≡ true → inbox_sink known new_id n d ≡ d
  unfolding inbox_sink notify create_notification
  sink-refused n d h = ground arith

  sink-rows :
      (n : NotifyInput) (d : Inbox)
      → refused n ≡ false
      → (inbox_sink known new_id n d).rows ≡ d.rows ++ new_row known new_id n d ∷ []
  unfolding inbox_sink notify create_notification
  sink-rows n d h = ground arith

  sink-keeps :
      (n : NotifyInput) (d : Inbox) (p : Notification → Bool)
      → any p d.rows ≡ true
      → any p (inbox_sink known new_id n d).rows ≡ true
  sink-keeps n d p h = elim (Bool-cases (refused n)) [
    | inl e ↦ ap (λ (x : Inbox). any p x.rows) (sink-refused n d e) ∙ h
    | inr e ↦ ap (any p) (sink-rows n d e) ∙ any-append p d.rows _ ∙ ground arith
  ]

  notice-same :
      (i : Issue) (t : String) (d : Inbox)
      → str_eq i.id "" ≡ false
      → same_notice i.assignee_id i.id "due" t (new_row known new_id (due_notice i t) d) ≡ true
  notice-same i t d h =
      ground (arith, eq_refl i.assignee_id, eq_refl i.id, eq_refl t, eq_refl "due")

  -- The notice of a title for an issue is there, or no row comes of it.
  abbrev settled : Issue → Option String → Inbox → Bool
  settled i none d = true
  settled i (some t) d =
      any (same_notice i.assignee_id i.id "due" t) d.rows || refused (due_notice i t)

  module _ (issues : Option (List Issue)) (agents : Option (String → Bool)) (window now : ℕ) where
    abbrev told : Issue → Option String → Inbox → Inbox
    told i o d =
        notify_titled (inbox_scanner known new_id issues agents window) (inbox_sink known new_id)
          has_notification i o d

    told-settled :
        (i : Issue) (o : Option String) (d : Inbox) → settled i o d ≡ true → told i o d ≡ d
    unfolding notify_titled unless_sent has_notification
    told-settled i none d h = refl
    told-settled i (some t) d h =
        elim (Bool-cases (any (same_notice i.assignee_id i.id "due" t) d.rows)) [
          | inl e ↦ rw e refl
          | inr e ↦ rw e (sink-refused (due_notice i t) d (ground arith))
        ]

    told-settles :
        (i : Issue) (o : Option String) (d : Inbox)
        → str_eq i.id "" ≡ false
        → settled i o (told i o d) ≡ true
    unfolding notify_titled unless_sent has_notification
    told-settles i none d h = refl
    told-settles i (some t) d h =
        elim (Bool-cases (any (same_notice i.assignee_id i.id "due" t) d.rows)) [
          | inl e ↦ rw e (ground arith)
          | inr e ↦ rw e (elim (Bool-cases (refused (due_notice i t))) [
            | inl r ↦ ground arith
            | inr r ↦
                rw
                  (
                    sink-rows (due_notice i t) d r,
                    any-append (same_notice i.assignee_id i.id "due" t) d.rows
                        (new_row known new_id (due_notice i t) d ∷ []),
                    notice-same i t d h,
                  )
                  (ground arith)
          ])
        ]

    told-keeps :
        (j : Issue) (o : Option String) (p : Notification → Bool) (d : Inbox)
        → any p d.rows ≡ true
        → any p (told j o d).rows ≡ true
    unfolding notify_titled unless_sent has_notification
    told-keeps j none p d h = h
    told-keeps j (some t) p d h =
        elim (Bool-cases (any (same_notice j.assignee_id j.id "due" t) d.rows)) [
          | inl e ↦ rw e h
          | inr e ↦ rw e (sink-keeps (due_notice j t) d p h)
        ]

    settled-stays :
        (i : Issue) (o : Option String) (j : Issue) (o' : Option String) (d : Inbox)
        → settled i o d ≡ true
        → settled i o (told j o' d) ≡ true
    settled-stays i none j o' d h = refl
    settled-stays i (some t) j o' d h =
        ground (arith, told-keeps j o' (same_notice i.assignee_id i.id "due" t) d)

    -- The title of the notice that an issue gets, if it gets one.
    notice_of : Option ℕ → Issue → Option String
    notice_of none i = none
    notice_of (some due) i =
        if str_eq i.assignee_id "" || knows agents i.assignee_id
        then none
        else due_title (inbox_scanner known new_id issues agents window) due now i.title

    due-told :
        (o : Option ℕ) (a : Option (String → Bool)) (i : Issue) (d : Inbox)
        → agents ≡ a
        → notify_due
            (inbox_scanner known new_id issues agents window)
            (some (inbox_sink known new_id))
            (some has_notification)
            o
            i
            now
            d
          ≡ told i (notice_of o i) d
    unfolding notify_due notice_of notify_titled due_title
    due-told none a i d e = refl
    due-told (some due) none i d e = rw e (ground arith)
    due-told (some due) (some f) i d e = rw e (ground arith)

    -- What one issue does to the inbox.
    step : Issue → Inbox → Inbox
    step i d = told i (notice_of i.due_date i) d

    issue-step :
        (i : Issue) (d : Inbox)
        → notify_issue (inbox_scanner known new_id issues agents window) i now d ≡ step i d
    unfolding notify_issue step
    issue-step i d = due-told i.due_date agents i d refl

    scan-kept :
        (list : List Issue) (i : Issue) (o : Option String) (d : Inbox)
        → settled i o d ≡ true
        → settled i o (scan_list (inbox_scanner known new_id issues agents window) list now d)
          ≡ true
    unfolding scan_list step
    scan-kept [] i o d h = h
    scan-kept (j ∷ list) i o d h =
        scan-kept list i o _
          (ap (settled i o) (issue-step j d) ∙ settled-stays i o j (notice_of j.due_date j) d h)

    abbrev Settled : Inbox → Issue → Type 0
    Settled d i = settled i (notice_of i.due_date i) d ≡ true

    scan-Settled :
        (list : List Issue) (d : Inbox)
        → All (λ (i : Issue). str_eq i.id "" ≡ false) list
        → All
            (Settled (scan_list (inbox_scanner known new_id issues agents window) list now d))
            list
    unfolding scan_list step
    scan-Settled [] d h = tt
    scan-Settled (i ∷ list) d (h, hs) = (
      scan-kept list i (notice_of i.due_date i) _ (
          ap (settled i (notice_of i.due_date i)) (issue-step i d)
          ∙ told-settles i (notice_of i.due_date i) d h),
      scan-Settled list _ hs,
    )

    Settled-scan :
        (list : List Issue) (d : Inbox)
        → All (Settled d) list
        → scan_list (inbox_scanner known new_id issues agents window) list now d ≡ d
    unfolding scan_list step
    Settled-scan [] d h = refl
    Settled-scan (i ∷ list) d (h, hs) =
        ap (scan_list (inbox_scanner known new_id issues agents window) list now)
          (issue-step i d ∙ told-settled i (notice_of i.due_date i) d h)
        ∙ Settled-scan list d hs

-- A second scan at the same time tells nobody anything: it leaves the table of notifications as the
-- first scan left it. The open issues have ids, and a user either exists during both scans or during
-- neither.
pub scan-again :
    (known : String → Bool) (new_id : ℕ → String) (list : List Issue)
    (agents : Option (String → Bool)) (window now : ℕ) (d : Inbox)
    → All (λ (i : Issue). str_eq i.id "" ≡ false) list
    → (let once = scan (inbox_scanner known new_id (some list) agents window) now d in
        scan (inbox_scanner known new_id (some list) agents window) now once.1 ≡ once)
unfolding scan scan_found
scan-again known new_id list agents window now d h =
    ap (λ x. (true, x))
      (Settled-scan known new_id (some list) agents window now list _
        (scan-Settled known new_id (some list) agents window now list d h))

All-middle :
    {A : Type 0} (P : A → Type 0) (before after : List A) (a : A)
    → All P (before ++ a ∷ after)
    → P a
All-middle P [] after a (h, hs) = h
All-middle P (x ∷ before) after a (h, hs) = All-middle P before after a hs

-- The title of such a notice starts with a letter.
prefix-refused :
    (known : String → Bool) (new_id : ℕ → String) (i : Issue)
    → str_eq i.assignee_id "" ≡ false
    → known i.assignee_id ≡ true
    → refused known new_id (due_notice i (concat "Issue overdue: " i.title)) ≡ false
unfolding accepted
prefix-refused known new_id i h k =
    let title = concat "Issue overdue: " i.title in
    let starts : codes title ≡ 73 ∷ codes (concat "ssue overdue: " i.title) =
      codes-concat _ _ i.title in
    let some_text : str_eq title "" ≡ false =
      str_eq-ne title "" (λ e. absurd (ground (arith, starts, ap codes e))) in
    rw (h, k, some_text, starts) refl

-- A scan reaches every overdue issue: wherever the issue stands in the list, afterwards its assignee,
-- who is a user and no agent, has the notice with the issue's title. The open issues have ids.
pub scan-tells :
    (known : String → Bool) (new_id : ℕ → String) (before after : List Issue) (i : Issue)
    (agents : Option (String → Bool)) (window now due : ℕ) (d : Inbox)
    → All (λ (x : Issue). str_eq x.id "" ≡ false) (before ++ i ∷ after)
    → i.due_date ≡ some due
    → due < now
    → str_eq i.assignee_id "" ≡ false
    → known i.assignee_id ≡ true
    → knows agents i.assignee_id ≡ false
    → has_notification i.assignee_id i.id "due"
        (concat "Issue overdue: " i.title)
        (scan (inbox_scanner known new_id (some (before ++ i ∷ after)) agents window) now d).1
      ≡ some true
unfolding scan scan_found has_notification notice_of due_title
scan-tells known new_id before after i agents window now due d h dated late assigned user human =
    let list = before ++ i ∷ after in
    let d' = (scan (inbox_scanner known new_id (some list) agents window) now d).1 in
    let mine =
      All-middle (Settled known new_id (some list) agents window now d') before after i
        (scan-Settled known new_id (some list) agents window now list d h) in
    let title : notice_of known new_id (some list) agents window now i.due_date i
        ≡ some (concat "Issue overdue: " i.title) =
      rw (dated, assigned, human, lt→ltb due now late) refl in
    ground (
      arith,
      ap (λ o. settled known new_id i o d') title,
      mine,
      prefix-refused known new_id i assigned user,
    )
