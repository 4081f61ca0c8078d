-- ===== src/Collab/Threads.antt =====
-- collab/service.go on the tables: threads of comments have a single level.
use spec_powers.Prelude.{
  ℕ, String, ◌≡◌, refl, sym, subst, ◌∙◌, Bool, true, some, List, [], ◌∷◌, ◌++◌, find, All, All-imp,
  eq_iff, str_eq, is_blank, arith, Bool-cases, Option-cases, inl, inr, ◌⊎◌,
}
use mathlib.Core.Option.{some-injective}
use spec_powers.Domain.{Issue}
use spec_powers.Api.{ok, reads, >>=-reads}
use spec_powers.Collab.Stores.{IssueComment, IssueMetadata, require_project_issue}
use spec_powers.Collab.Comments.{announce, store_comment, parent_for, add_comment}
use spec_powers.Collab.Told.{
  Quiet, notify_comment-comments, notify_mentions-comments, observe-comments,
}
use spec_powers.Collab.Reads.{project_issue-reads}
use spec_powers.Collab.Postgres.{CollabDb, Others, create_comment, get_comment, has_text, pg_collab}

-- A root, or a reply to a root of the same issue.
abbrev pub IsThreaded : List IssueComment → IssueComment → Type 0
IsThreaded rows c =
    (str_eq c.parent_id "" ≡ true)
    ⊎ ((p : IssueComment) × (find (λ (x : IssueComment). str_eq x.id c.parent_id) rows ≡ some p)
        × (str_eq p.parent_id "" ≡ true)
        × (p.issue_id ≡ c.issue_id))

abbrev pub Threaded : CollabDb → Type 0
Threaded d = All (IsThreaded d.comments) d.comments

find-append :
    (q : IssueComment → Bool) (rows more : List IssueComment) (x : IssueComment)
    → find q rows ≡ some x
    → find q (rows ++ more) ≡ some x
find-append q [] more x h = absurd (ground (arith, h))
find-append q (y ∷ rows) more x h = elim (Bool-cases (q y)) [
  | inl e ↦ rw e (rw e at h)
  | inr e ↦ rw e (find-append q rows more x (rw e at h))
]

find-true :
    (q : IssueComment → Bool) (rows : List IssueComment) (x : IssueComment)
    → find q rows ≡ some x
    → q x ≡ true
find-true q [] x h = absurd (ground (arith, h))
find-true q (y ∷ rows) x h = elim (Bool-cases (q y)) [
  | inl e ↦ subst (λ z. q z ≡ true) (some-injective y x (rw e at h)) e
  | inr e ↦ find-true q rows x (rw e at h)
]

append-All :
    (P : IssueComment → Type 0) (rows : List IssueComment) (c : IssueComment)
    → All P rows
    → P c
    → All P (rows ++ c ∷ [])
append-All P [] c hs h = (h, tt)
append-All P (x ∷ rows) c (g, gs) h = (g, append-All P rows c gs h)

IsThreaded-append :
    (rows more : List IssueComment) (c : IssueComment)
    → IsThreaded rows c
    → IsThreaded (rows ++ more) c
IsThreaded-append rows more c (inl e) = inl e
IsThreaded-append rows more c (inr (p, at, root, same)) =
    inr (p, find-append (λ (x : IssueComment). str_eq x.id c.parent_id) rows more p at, root, same)

stored-Threaded :
    (new_id : ℕ → String) (c : IssueComment) (d : CollabDb)
    → IsThreaded d.comments c
    → Threaded d
    → Threaded (create_comment new_id c d).1
unfolding create_comment
stored-Threaded new_id c d h hs = elim (Bool-cases (has_text c.content)) [
  | inr e ↦ rw e hs
  | inl e ↦
      let row = record c { id = new_id d.serial } in
      rw e (
        append-All (IsThreaded (d.comments ++ row ∷ [])) d.comments row
          (All-imp d.comments (λ x g. IsThreaded-append d.comments (row ∷ []) x g) hs)
          (IsThreaded-append d.comments (row ∷ []) row h))
]

module _ (new_id : ℕ → String) (ordered : List IssueMetadata → List IssueMetadata) (o : Others)
    (quiet : Quiet o) where
  announce-comments :
      (i : Issue) (user : String) (c : IssueComment) (d : CollabDb)
      → (announce (pg_collab new_id ordered o) i user c d).comments ≡ d.comments
  unfolding announce
  announce-comments i user c d =
      let (sinks, observers) = quiet in
      observe-comments o.comment_observer observers c _
      ∙ notify_mentions-comments o.notifier o.user_directory sinks i user c.content _
      ∙ notify_comment-comments o.notifier o.subscribers sinks i user c.content d

  store-comments :
      (i : Issue) (user : String) (c : IssueComment) (d : CollabDb)
      → (store_comment (pg_collab new_id ordered o) i user c d).1.comments
        ≡ (create_comment new_id c d).1.comments
  unfolding store_comment create_comment
  store-comments i user c d = elim (Bool-cases (has_text c.content)) [
    | inr e ↦ rw e refl
    | inl e ↦ rw e (announce-comments i user (record c { id = new_id d.serial }) _)
  ]

  parent_for-IsThreaded :
      (issue parent root user content : String) (d : CollabDb)
      → parent_for (pg_collab new_id ordered o) issue parent d ≡ ok root
      → IsThreaded d.comments (record {
        id = "";
        issue_id = issue;
        parent_id = root;
        author_id = user;
        content = content;
      })
  unfolding parent_for get_comment
  parent_for-IsThreaded issue parent root user content d h = elim (Bool-cases (str_eq parent "")) [
    | inl e ↦
        let same : "" ≡ root = cc (rw e at h) in inl (subst (λ r. str_eq r "" ≡ true) same refl)
    | inr e ↦ elim (Option-cases (find (λ (x : IssueComment). str_eq x.id parent) d.comments)) [
      | inl f ↦ absurd (ground (arith, rw (e, f) at h))
      | inr (p, f) ↦ elim (Bool-cases (str_eq p.issue_id issue)) [
        | inr g ↦ absurd (ground (arith, rw (e, f, g) at h))
        | inl g ↦ elim (Bool-cases (str_eq p.parent_id "")) [
          | inr k ↦ absurd (ground (arith, rw (e, f, g, k) at h))
          | inl k ↦
              let id : p.id ≡ root = cc (rw (e, f, g, k) at h) in
              let at : p.id ≡ parent =
                (eq_iff p.id parent).0
                  (find-true (λ (x : IssueComment). str_eq x.id parent) d.comments p f) in
              inr (
                p,
                subst (λ r. find (λ (x : IssueComment). str_eq x.id r) d.comments ≡ some p)
                    (sym at ∙ id) f,
                k,
                (eq_iff p.issue_id issue).0 g,
              )
        ]
      ]
    ]
  ]

  -- Threads keep a single level: if every comment is a root, or a reply to a root of its issue, this
  -- is so after AddComment, whether or not it succeeds. What is told of the comment leaves the
  -- comments alone.
  pub add_comment-Threaded :
      (user issue parent content : String) (d : CollabDb)
      → Threaded d
      → Threaded (add_comment (pg_collab new_id ordered o) user issue parent content d).1
  unfolding add_comment
  add_comment-Threaded user issue parent content d hs =
      >>=-reads Threaded (require_project_issue (pg_collab new_id ordered o) user issue) _ d
        (project_issue-reads new_id ordered o user issue d) hs
        (λ i _. elim (Bool-cases (is_blank content)) [
          | inl e ↦ rw e hs
          | inr e ↦ rw e (
              >>=-reads Threaded (reads (parent_for (pg_collab new_id ordered o) issue parent))
                (λ root. store_comment (pg_collab new_id ordered o) i user (record {
                  id = "";
                  issue_id = issue;
                  parent_id = root;
                  author_id = user;
                  content = content;
                }))
                d refl hs
                (λ root h.
                  let c : IssueComment = record {
                    id = "";
                    issue_id = issue;
                    parent_id = root;
                    author_id = user;
                    content = content;
                  } in
                  subst (λ rows. All (IsThreaded rows) rows) (sym (store-comments i user c d))
                    (stored-Threaded new_id c d
                      (parent_for-IsThreaded issue parent root user content d h) hs)))
        ])
