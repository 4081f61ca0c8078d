-- ===== src/Collab/Files.antt =====
-- collab/service.go on the tables: an attachment and its file.
use spec_powers.Prelude.{
  ltb→le, ℕ, zero, suc, ◌≤◌, String, ◌≡◌, refl, ap, subst, ◌∙◌, Bool, true, false, Option, none,
  some, List, [], ◌∷◌, ◌++◌, find, take, length, ltb, eq_refl, str_eq, is_blank, arith, Bool-cases,
  inl, inr,
}
use mathlib.Core.Option.{some-injective}
use spec_powers.Api.{Result, AppError, ok, err, err_invalid, found, reads, >>=-ends}
use spec_powers.Collab.Stores.{IssueAttachment, IssueMetadata, Upload, require_project_issue}
use spec_powers.Collab.Attachments.{
  write_limited, save, comment_for, join_path, or_octets, store_upload, add_attachment,
}
use spec_powers.Collab.Postgres.{
  CollabDb, File, Others, has_text, create_attachment, get_attachment, open_file, write_file,
  remove_file, is_at, removed, bytes_of, one_attachment, pg_collab,
}
use spec_powers.Collab.Reads.{project_issue-reads}

length-take : (n : ℕ) (xs : List ℕ) → n ≤ length xs → length (take n xs) ≡ n
length-take zero xs h = refl
length-take (suc n) [] h = absurd (omega arith)
length-take (suc n) (x ∷ xs) h = ap suc (length-take n xs (omega arith))

none-removed : (path : String) (files : List File) → find (is_at path) (removed path files) ≡ none
none-removed path [] = refl
none-removed path (f ∷ files) = elim (Bool-cases (is_at path f)) [
  | inl e ↦ rw e (none-removed path files)
  | inr e ↦ rw (e, e) (none-removed path files)
]

find-last :
    (p : IssueAttachment → Bool) (rows : List IssueAttachment) (a : IssueAttachment)
    → find p rows ≡ none
    → p a ≡ true
    → find p (rows ++ a ∷ []) ≡ some a
find-last p [] a h e = rw e refl
find-last p (x ∷ rows) a h e = elim (Bool-cases (p x)) [
  | inl f ↦ absurd (ground (arith, rw f at h))
  | inr f ↦ rw f (find-last p rows a (rw f at h) e)
]

-- A stored attachment reads back, its file has all that was sent, and no more than the cap; a refused
-- one leaves no row, and no file at its path.
abbrev pub IsWhole :
    String
    → ℕ
    → Option String
    → String
    → Upload
    → CollabDb
    → Result IssueAttachment × CollabDb
    → Type 0
IsWhole dir cap id issue u d (ok a, d') =
    (get_attachment a.id d' ≡ found a)
    × (open_file (join_path dir a.storage_path) d' ≡ some u.bytes)
    × (length u.bytes ≤ cap)
    × (u.breaks ≡ false)
    × (a.size_bytes ≡ length u.bytes)
    × (a.issue_id ≡ issue)
IsWhole dir cap id issue u d (err e, d') =
    (d'.attachments ≡ d.attachments)
    × ((i : String)
        → id ≡ some i
        → open_file (join_path dir (join_path issue i)) d ≡ none
        → open_file (join_path dir (join_path issue i)) d' ≡ none)

gone :
    (dir : String) (a : IssueAttachment) (i i' : String) (files : List File)
    → a.storage_path ≡ join_path a.issue_id i
    → some i ≡ some i'
    → bytes_of (
        find
          (is_at (join_path dir (join_path a.issue_id i')))
          (removed (join_path dir a.storage_path) files))
      ≡ none
gone dir a i i' files at same =
    subst
      (λ p.
        bytes_of (find (is_at (join_path dir p)) (removed (join_path dir a.storage_path) files))
        ≡ none)
      (at ∙ ap (join_path a.issue_id) (some-injective i i' same))
      (ap bytes_of (none-removed (join_path dir a.storage_path) files))

-- The files after the creation and the write.
abbrev written : String → List ℕ → CollabDb → List File
written path bytes d =
    (record { path = path; bytes = bytes })
    ∷ removed path ((record { path = path; bytes = [] }) ∷ removed path d.files)

module _ (new_id : ℕ → String) (ordered : List IssueMetadata → List IssueMetadata)
    (o : Others) where
  save-IsWhole :
      (dir : String) (cap : ℕ) (i : String) (a : IssueAttachment) (u : Upload) (d : CollabDb)
      → a.storage_path ≡ join_path a.issue_id i
      → find (λ (x : IssueAttachment). str_eq x.id (new_id d.serial)) d.attachments ≡ none
      → IsWhole dir cap (some i) a.issue_id u d (save (pg_collab new_id ordered o) dir cap a u d)
  unfolding save write_limited write_file remove_file create_attachment get_attachment open_file
  save-IsWhole dir cap i a u d at fresh = elim (Bool-cases (ltb (length u.bytes) (suc cap))) [
    | inr e ↦
        let long : length (take (suc cap) u.bytes) ≡ suc cap =
          length-take (suc cap) u.bytes (ltb→le (length u.bytes) (suc cap) e) in
        let over : ltb cap (suc cap) ≡ true = ground arith in
        rw (e, long, over)
          (
            refl,
            λ i' same _.
                gone dir a i i' (written (join_path dir a.storage_path) (take (suc cap) u.bytes) d)
                  at same,
          )
    | inl e ↦ elim (Bool-cases u.breaks) [
      | inl f ↦
          rw (e, f)
            (
              refl,
              λ i' same _.
                  gone dir a i i' (written (join_path dir a.storage_path) u.bytes d) at same,
            )
      | inr f ↦
          let within : ltb cap (length u.bytes) ≡ false = ground (arith, e) in
          elim (Bool-cases (has_text a.file_name)) [
            | inr g ↦
                rw (e, f, within, g)
                  (
                    refl,
                    λ i' same _.
                        gone dir a i i' (written (join_path dir a.storage_path) u.bytes d) at same,
                  )
            | inl g ↦
                rw (e, f, within, g)
                  (
                    ap one_attachment (
                        find-last (λ (x : IssueAttachment). str_eq x.id (new_id d.serial))
                          d.attachments
                          (record a { id = new_id d.serial; size_bytes = length u.bytes }) fresh
                          (eq_refl (new_id d.serial))),
                    rw (eq_refl (join_path dir a.storage_path)) refl,
                    ground (arith, e),
                    f,
                    refl,
                    refl,
                  )
          ]
    ]
  ]

  upload-IsWhole :
      (dir : String) (cap : ℕ) (id : Option String) (user issue ref file_name content_type : String)
      (u : Upload) (d : CollabDb)
      → find (λ (x : IssueAttachment). str_eq x.id (new_id d.serial)) d.attachments ≡ none
      → IsWhole dir cap id issue u d (
          store_upload
            (pg_collab new_id ordered o)
            dir
            cap
            id
            user
            issue
            ref
            file_name
            content_type
            u
            d)
  unfolding store_upload
  upload-IsWhole dir cap none user issue ref file_name content_type u d fresh = (refl, λ i _ h. h)
  upload-IsWhole dir cap (some i) user issue ref file_name content_type u d fresh =
      save-IsWhole dir cap i
        (record {
          id = "";
          issue_id = issue;
          comment_id = ref;
          file_name = file_name;
          size_bytes = 0;
          content_type = or_octets content_type;
          storage_path = join_path issue i;
          uploaded_by = user;
        })
        u d refl fresh

  -- An upload that is stored reads back whole: the row is the one returned, its file has all the bytes
  -- sent, no more than the cap, and they were sent without an error. An upload that is refused leaves the
  -- rows alone, and no file at its path, if there was none before. The new row's id is not taken.
  -- Ids are given in their canonical spelling.
  pub add_attachment-IsWhole :
      (dir : String) (cap : ℕ) (id : Option String)
      (user issue comment file_name content_type : String) (u : Upload) (d : CollabDb)
      → find (λ (x : IssueAttachment). str_eq x.id (new_id d.serial)) d.attachments ≡ none
      → IsWhole dir cap id issue u d (
          add_attachment
            (pg_collab new_id ordered o)
            dir
            cap
            id
            user
            issue
            comment
            file_name
            content_type
            u
            d)
  unfolding add_attachment
  add_attachment-IsWhole dir cap id user issue comment file_name content_type u d fresh =
      >>=-ends Whole (require_project_issue (pg_collab new_id ordered o) user issue) _ d
        (project_issue-reads new_id ordered o user issue d) untouched
        (λ _ _. elim (Bool-cases (is_blank file_name)) [
          | inl e ↦ rw e (untouched (err_invalid "file name is required"))
          | inr e ↦ rw e (
              >>=-ends Whole (reads (comment_for (pg_collab new_id ordered o) issue comment))
                (λ ref.
                  store_upload (pg_collab new_id ordered o) dir cap id user issue ref file_name
                    content_type u)
                d refl untouched
                (λ ref _.
                  upload-IsWhole dir cap id user issue ref file_name content_type u d fresh))
        ])
    where
      Whole : Result IssueAttachment × CollabDb → Type 0
      Whole = IsWhole dir cap id issue u d

      untouched : (e : AppError) → Whole (err e, d)
      untouched e = (refl, λ i _ h. h)
