-- ===== src/Notification/Delivery.antt =====
-- notification/fanout.go and store/postgres/notifications.go: who gets an event, and what marking
-- does to the unread.
use spec_powers.Prelude.{
  ℕ, ◌+◌, String, ◌≡◌, refl, ◌∙◌, ap, Bool, true, false, not, ◌&&◌, ◌||◌, some, List, [], ◌∷◌, map,
  select, str_eq, eq_iff, length, if◌then◌else◌, arith, Bool-cases, inl, inr,
}
use spec_powers.Notification.Fanout.{NotifyInput, Sink, is_in, fan_out, notify_many}
use spec_powers.Notification.Postgres.{
  Notification, Inbox, unread_of, stamp, count_unread, mark_all_read,
}

-- A sink that keeps what it gets.
abbrev pub keep : Sink (List NotifyInput)
keep n s = n ∷ s

-- How often a user was told.
unfoldable pub times : String → List NotifyInput → ℕ
times x [] = 0
times x (n ∷ s) = (if str_eq n.user_id x then 1 else 0) + times x s

abbrev pub once : Bool → ℕ
once true = 1
once false = 0

fan_out-times :
    (x : String) (ids seen : List String) (n : NotifyInput) (s : List NotifyInput)
    → times x (fan_out keep seen ids n s)
      ≡ once (not (str_eq x "") && not (is_in x seen) && is_in x ids) + times x s
unfolding fan_out times
fan_out-times x [] seen n s = ground arith
fan_out-times x (id ∷ ids) seen n s = elim (Bool-cases (str_eq id "" || is_in id seen)) [
  | inl e ↦
      rw (e, times)
        (fan_out-times x ids seen n s ∙ elim (Bool-cases (str_eq id x)) [
          | inl same ↦ rw same (let at : id ≡ x = (eq_iff id x).0 same in ground (arith))
          | inr other ↦ rw other refl
        ])
  | inr e ↦
      rw (e, times)
        (fan_out-times x ids (id ∷ seen) n (keep (record n { user_id = id }) s)
          ∙ elim (Bool-cases (str_eq id x)) [
            | inl same ↦ rw same (let at : id ≡ x = (eq_iff id x).0 same in ground (arith))
            | inr other ↦ rw other (ground arith)
          ])
]

pub told_times :
    (x : String) (ids : List String) (skip : String) (n : NotifyInput) (s : List NotifyInput)
    → times x (notify_many (some keep) ids skip n s)
      ≡ once (not (str_eq x "") && not (str_eq skip x) && is_in x ids) + times x s
unfolding notify_many
told_times x ids skip n s = fan_out-times x ids (skip ∷ []) n s ∙ ground arith

-- An event goes exactly once to each user of the list, save the actor, and to nobody else: for every
-- user, the number of deliveries of NotifyMany is 1 if the user's id is not empty, is not the
-- actor's and is in the list, and 0 otherwise.
pub notify_many-times :
    (x : String) (ids : List String) (skip : String) (n : NotifyInput)
    → times x (notify_many (some keep) ids skip n [])
      ≡ once (not (str_eq x "") && not (str_eq skip x) && is_in x ids)
unfolding times
notify_many-times x ids skip n = told_times x ids skip n [] ∙ ground arith

-- Marking all as read.
module _ (user other : String) (at : ℕ) where
  read-none :
      (rows : List Notification)
      → length (select (unread_of user) (map (stamp (unread_of user) at) rows)) ≡ 0
  read-none [] = refl
  read-none (n ∷ rows) = ground (arith, read-none rows)

  read-others :
      (rows : List Notification)
      → str_eq user other ≡ false
      → select (unread_of other) (map (stamp (unread_of user) at) rows)
        ≡ select (unread_of other) rows
  read-others [] ne = refl
  read-others (n ∷ rows) ne =
      ground (
        arith,
        read-others rows ne,
        eq_iff n.user_id user,
        eq_iff n.user_id other,
        eq_iff user other,
      )

-- Marking all as read reports how many notifications the user had unread, leaves the user none, and
-- leaves what any other user has unread.
pub mark_all_read-counts :
    (user : String) (at : ℕ) (d : Inbox)
    → ((mark_all_read user at d).0 ≡ count_unread user d)
      × (count_unread user (mark_all_read user at d).1 ≡ 0)
      × ((other : String)
          → str_eq user other ≡ false
          → count_unread other (mark_all_read user at d).1 ≡ count_unread other d)
unfolding mark_all_read count_unread
mark_all_read-counts user at d = (
  refl,
  read-none user user at d.rows,
  λ other ne. ap length (read-others user other at d.rows ne),
)
