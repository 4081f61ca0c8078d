-- ===== src/Collab/Entries.antt =====
-- collab/service.go: metadata and subscribers. Whether `strconv.ParseFloat` reads a text, and its
-- quoted form, are parameters. Without subscribers attached their methods panic.
use spec_powers.Prelude.{
  String, Bool, true, not, ◌||◌, Option, none, some, List, str_eq, concat, is_blank, if◌then◌else◌,
}
use spec_powers.Api.{
  err_invalid, err_not_found, err_internal, recovered, Result, ok, err, checked, listed, Action,
  fail, lift, reads, writes, tries, calls, guard, ◌>>=◌, ◌>>◌,
}
use spec_powers.Collab.Stores.{IssueMetadata, Subscriptions, CollabStores, require_project_issue}

abbrev pub or_string : String → String
or_string t = if str_eq t "" then "string" else t

module _ (is_number : String → Bool) (quoted : String → String) where
  abbrev pub metadata_types : String → Option (String → Bool)
  metadata_types t =
      if str_eq t "string"
      then some (λ v. true)
      else if str_eq t "number"
      then some is_number
      else if str_eq t "bool"
      then some (λ v. str_eq v "true" || str_eq v "false")
      else none

  abbrev pub check_metadata : Option (String → Bool) → String → String → Result (Unit {0})
  check_metadata none t v = err (err_invalid (concat "unknown metadata type: " t))
  check_metadata (some check) t v =
      if check v
      then ok tt
      else err (err_invalid (concat "invalid " (concat t (concat " value: " (quoted v)))))

  module _ (st : CollabStores) where
    open st use {State, set_metadata}

    unfoldable pub put_metadata :
        String → String → String → String → String → Action State IssueMetadata
    unfolding require_project_issue is_blank
    put_metadata user issue key value type = do
      require_project_issue st user issue
      guard (not (is_blank key)) (err_invalid "metadata key is required")
      lift (check_metadata (metadata_types (or_string type)) (or_string type) value)
      writes
          (set_metadata
            (record { issue_id = issue; key = key; value = value; type = or_string type }))
          (err_internal "set metadata failed")

module _ (st : CollabStores) where
  open st use {State, metadata, delete_metadata, subscribers}

  unfoldable pub list_metadata : String → String → Action State (List IssueMetadata)
  unfolding require_project_issue
  list_metadata user issue = do
    require_project_issue st user issue
    reads (λ s. listed (metadata issue s) "list metadata failed")

  unfoldable pub drop_metadata : String → String → String → Action State (Unit {0})
  unfolding require_project_issue
  drop_metadata user issue key = do
    require_project_issue st user issue
    tries (delete_metadata issue key) (err_not_found "metadata key not found")
        (err_internal "delete metadata failed")

  abbrev pub with_subscribers :
      {A : Type 0} → (Subscriptions State → Action State A) → Action State A
  with_subscribers f = elim subscribers [ none ↦ fail recovered | some subs ↦ f subs ]

  unfoldable pub list_subscribers : String → String → Action State (List String)
  unfolding require_project_issue
  list_subscribers user issue = do
    require_project_issue st user issue
    with_subscribers (λ subs. reads (λ s. listed (subs.list issue s) "list subscribers failed"))

  unfoldable pub add_subscriber : String → String → String → Action State (List String)
  unfolding require_project_issue is_blank list_subscribers
  add_subscriber user issue email = do
    require_project_issue st user issue
    guard (not (is_blank email)) (err_invalid "subscriber email is required")
    with_subscribers (λ subs. do
      id ← reads (λ s.
          checked (subs.by_email email s) (err_not_found "user not found")
            (err_internal "lookup user failed"))
      calls (subs.add issue id) (err_internal "add subscriber failed"))
    list_subscribers user issue

  unfoldable pub remove_subscriber : String → String → String → Action State (Unit {0})
  unfolding require_project_issue
  remove_subscriber user issue target = do
    require_project_issue st user issue
    with_subscribers (λ subs.
        tries (subs.remove issue target) (err_not_found "subscriber not found")
          (err_internal "remove subscriber failed"))
