-- ===== src/Collab/Attachments.antt =====
-- collab/service.go: `AddAttachment` with `writeLimited`, and what reads attachments back. The id of
-- `newID` is an argument, `none` if the random source failed. Ids have no separators in them.
use spec_powers.Prelude.{
  ℕ, suc, String, Bool, true, false, not, ◌&&◌, Option, none, some, List, ltb, take, length, str_eq,
  concat, is_blank, if◌then◌else◌,
}
use spec_powers.Api.{
  AppError, err_invalid, err_not_found, err_internal, recovered, Stored, found, missing, failed,
  Result, ok, err, checked, listed, Action, pure, lift, reads, calls, guard, ◌>>=◌, ◌>>◌,
}
use spec_powers.Collab.Stores.{
  IssueComment, IssueAttachment, Upload, CollabStores, require_project_issue,
}

abbrev pub max_attachment_bytes : ℕ
max_attachment_bytes = 20_971_520

-- `filepath.Join`.
abbrev pub join_path : String → String → String
join_path dir name = concat dir (concat "/" name)

-- What `io.Copy` from an `io.LimitReader` gets: bytes, and whether the reader failed. At the limit it
-- is not read any more.
abbrev pub limited : ℕ → Upload → List ℕ × Bool
limited n u = if ltb (length u.bytes) n then (u.bytes, u.breaks) else (take n u.bytes, false)

-- How `writeLimited` ends: a size, an API error, or another error, on which its caller panics.
pub data Wrote : Type 0 where
  size : ℕ → Wrote
  refused : AppError → Wrote
  other : Wrote

abbrev pub wrote_size : Wrote → Result ℕ
wrote_size (size n) = ok n
wrote_size (refused e) = err e
wrote_size other = err recovered

abbrev pub comment_ref : String → IssueComment → Result String
comment_ref issue c =
    if str_eq c.issue_id issue
    then ok c.id
    else err (err_invalid "comment belongs to another issue")

abbrev pub fresh_id : Option String → Result String
fresh_id none = err (err_internal "generate attachment id failed")
fresh_id (some id) = ok id

abbrev pub or_octets : String → String
or_octets t = if str_eq t "" then "application/octet-stream" else t

abbrev pub opened : Option (List ℕ) → Result (List ℕ)
opened none = err (err_internal "attachment file missing")
opened (some bytes) = ok bytes

module _ (st : CollabStores) where
  open st use {
    State, get_comment, create_attachment, get_attachment, attachments, make_dirs, create_file,
    write_file, remove_file, open_file,
  }

  abbrev pub copied : String → ℕ → Bool → ℕ → State → Wrote × State
  copied path cap true n s =
      if ltb cap n
      then (refused (err_invalid "attachment exceeds the maximum size"), remove_file path s)
      else (size n, s)
  copied path cap false n s = (other, remove_file path s)

  -- The file is open.
  unfoldable pub copy_limited : String → Upload → ℕ → State → Wrote × State
  copy_limited path u cap s =
      let (bytes, broke) = limited (suc cap) u in
      let (wrote, s') = write_file path bytes s in
      copied path cap (wrote && not broke) (length bytes) s'

  unfoldable pub write_limited : String → Upload → ℕ → State → Wrote × State
  unfolding copy_limited
  write_limited path u cap s =
      let (created, s') = create_file path s in
      if created
      then copy_limited path u cap s'
      else (refused (err_internal "create attachment file failed"), s')

  -- `if commentID != ""`.
  unfoldable pub comment_for : String → String → State → Result String
  comment_for issue comment s =
      if str_eq comment ""
      then ok ""
      else elim (checked (get_comment comment s) (err_not_found "comment not found")
          (err_internal "get comment failed")) [ ok c ↦ comment_ref issue c | err e ↦ err e ]

  abbrev pub recorded : String → Stored IssueAttachment → State → Result IssueAttachment × State
  recorded path (found a) s = (ok a, s)
  recorded path missing s = (err (err_internal "create attachment failed"), remove_file path s)
  recorded path failed s = (err (err_internal "create attachment failed"), remove_file path s)

  -- The file goes again if its row cannot be stored.
  abbrev pub record_or_remove : String → IssueAttachment → Action State IssueAttachment
  record_or_remove path a s = let (r, s') = create_attachment a s in recorded path r s'

  -- The file, and then its row.
  unfoldable pub save : String → ℕ → IssueAttachment → Upload → Action State IssueAttachment
  unfolding write_limited
  save dir cap a u = do
    n ← λ s.
        let (w, s') = write_limited (join_path dir a.storage_path) u cap s in (wrote_size w, s')
    record_or_remove (join_path dir a.storage_path) (record a { size_bytes = n })

  -- Once the file's comment is known.
  unfoldable pub store_upload :
      String
      → ℕ
      → Option String
      → String
      → String
      → String
      → String
      → String
      → Upload
      → Action State IssueAttachment
  unfolding save
  store_upload dir cap new_id user issue ref file_name content_type u = do
    id ← lift (fresh_id new_id)
    calls (make_dirs (join_path dir issue)) (err_internal "prepare attachment storage failed")
    save dir cap
        (record {
          id = "";
          issue_id = issue;
          comment_id = ref;
          file_name = file_name;
          size_bytes = 0;
          content_type = or_octets content_type;
          storage_path = join_path issue id;
          uploaded_by = user;
        })
        u

  unfoldable pub add_attachment :
      String
      → ℕ
      → Option String
      → String
      → String
      → String
      → String
      → String
      → Upload
      → Action State IssueAttachment
  unfolding require_project_issue is_blank comment_for store_upload
  add_attachment dir cap new_id user issue comment file_name content_type u = do
    require_project_issue st user issue
    guard (not (is_blank file_name)) (err_invalid "file name is required")
    ref ← reads (comment_for issue comment)
    store_upload dir cap new_id user issue ref file_name content_type u

  abbrev pub content_of : String → IssueAttachment → Action State (IssueAttachment × List ℕ)
  content_of dir a = do
    bytes ← reads (λ s. opened (open_file (join_path dir a.storage_path) s))
    pure (a, bytes)

  unfoldable pub get_attachment_content :
      String → String → String → String → Action State (IssueAttachment × List ℕ)
  unfolding require_project_issue
  get_attachment_content dir user issue id = do
    require_project_issue st user issue
    a ← reads (λ s.
        checked (get_attachment id s) (err_not_found "attachment not found")
          (err_internal "get attachment failed"))
    guard (str_eq a.issue_id issue) (err_not_found "attachment not found")
    content_of dir a

  unfoldable pub list_attachments : String → String → Action State (List IssueAttachment)
  unfolding require_project_issue
  list_attachments user issue = do
    require_project_issue st user issue
    reads (λ s. listed (attachments issue s) "list attachments failed")
