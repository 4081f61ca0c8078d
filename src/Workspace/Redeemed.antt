-- ===== src/Workspace/Redeemed.antt =====
-- workspace/service.go on the tables: an invite is redeemed once, and its user joins.
use spec_powers.Prelude.{
  ℕ, String, ◌≡◌, refl, sym, ap, ◌∙◌, Bool, true, false, ◌&&◌, Option, some, List, [], ◌∷◌, ◌++◌,
  map, any, find, ◌==◌, eq_refl, str_eq, is_blank, arith, Bool-cases, Option-cases, inl, inr,
}
use spec_powers.Api.{ok, err, err_not_found, found}
use spec_powers.Workflow.Tasks.{trim}
use spec_powers.Workspace.Emails.{to_lower}
use spec_powers.Workspace.Service.{Workspace, Member, User, WorkspaceInvite, accept, redeem}
use spec_powers.Workspace.Postgres.{
  WorkspaceDb, is_member, set_role_of, add_member, get_user, is_pending, has_code,
  get_invite_by_code, answers, mark_if, set_invite_status, pg_workspaces,
}

-- The user's row of the workspace has the role.
abbrev pub has_joined : String → String → ℕ → Member → Bool
has_joined workspace user role m = is_member workspace user m && m.role_id == role

joined-map :
    (w u : String) (r : ℕ) (rows : List Member)
    → any (is_member w u) rows ≡ true
    → any (has_joined w u r) (map (set_role_of w u r) rows) ≡ true
joined-map w u r [] h = absurd (ground arith)
joined-map w u r (x ∷ rows) h = elim (Bool-cases (is_member w u x)) [
  | inl e ↦ rw e (ground (arith, e))
  | inr e ↦ rw e (ground (arith, e, joined-map w u r rows))
]

joined-append :
    (w u : String) (r : ℕ) (m : Member) (rows : List Member)
    → has_joined w u r m ≡ true
    → any (has_joined w u r) (rows ++ m ∷ []) ≡ true
joined-append w u r m [] h = rw h refl
joined-append w u r m (x ∷ rows) h = ground (arith, joined-append w u r m rows h)

find-mark_if :
    (w id status c : String) (at : Option ℕ) (rows : List WorkspaceInvite) (i : WorkspaceInvite)
    → find (has_code c) rows ≡ some i
    → find (has_code c) (map (mark_if w id status at) rows) ≡ some (mark_if w id status at i)
find-mark_if w id status c at [] i h = absurd (ground arith)
find-mark_if w id status c at (x ∷ rows) i h = elim (Bool-cases (has_code c x)) [
  | inl e ↦
      let same : x ≡ i = cc (rw e at h) in
      let kept : has_code c (mark_if w id status at x) ≡ true = mark-code x e in
      rw kept (ap (λ y. some (mark_if w id status at y)) same)
  | inr e ↦
      let kept : has_code c (mark_if w id status at x) ≡ false = mark-code x e in
      rw kept (find-mark_if w id status c at rows i (rw e at h))
]
  where
    mark-code :
        {b : Bool} (x : WorkspaceInvite)
        → has_code c x ≡ b
        → has_code c (mark_if w id status at x) ≡ b
    mark-code x e = elim (Bool-cases (answers w id x)) [ inl f ↦ rw f e | inr f ↦ rw f e ]

module _ (new_id : ℕ → String) (scan : List Member → List Member) (time now : ℕ) where
  added-invites :
      (w u : String) (r : ℕ) (d : WorkspaceDb) → (add_member time w u r d).1.invites ≡ d.invites
  unfolding add_member
  added-invites w u r d = elim (Bool-cases (any (is_member w u) d.members)) [
    | inl e ↦ rw e refl
    | inr e ↦ rw e refl
  ]

  added : (w u : String) (r : ℕ) (d : WorkspaceDb) → (add_member time w u r d).0 ≡ true
  unfolding add_member
  added w u r d = elim (Bool-cases (any (is_member w u) d.members)) [
    | inl e ↦ rw e refl
    | inr e ↦ rw e refl
  ]

  added-joined :
      (w u : String) (r : ℕ) (d : WorkspaceDb)
      → any (has_joined w u r) (add_member time w u r d).1.members ≡ true
  unfolding add_member
  added-joined w u r d = elim (Bool-cases (any (is_member w u) d.members)) [
    | inl e ↦ rw e (joined-map w u r d.members e)
    | inr e ↦ rw e (
        joined-append w u r
          (record { workspace_id = w; user_id = u; role_id = r; created_at = time }) d.members
          (ground (arith, eq_refl w, eq_refl u)))
  ]

  accept_lem :
      (user : String) (i : WorkspaceInvite) (d : WorkspaceDb) (w : Workspace)
      → (accept (pg_workspaces new_id scan time) now user i d).0 ≡ ok w
      → (let d' = (accept (pg_workspaces new_id scan time) now user i d).1 in
          (d'.invites ≡ map (mark_if i.workspace_id i.id "accepted" (some now)) d.invites)
          × (any (has_joined i.workspace_id user i.role_id) d'.members ≡ true))
  unfolding accept set_invite_status
  accept_lem user i d w h =
      let d1 = record d {
        invites = map (mark_if i.workspace_id i.id "accepted" (some now)) d.invites;
      } in
      elim (Option-cases (find (answers i.workspace_id i.id) d.invites)) [
        | inl e ↦ absurd (ground (arith, rw e at h))
        | inr (x, e) ↦
            rw (e, added i.workspace_id user i.role_id d1)
              (
                added-invites i.workspace_id user i.role_id d1,
                added-joined i.workspace_id user i.role_id d1,
              )
      ]

  again :
      (now' : ℕ) (user' code : String) (d : WorkspaceDb) (i : WorkspaceInvite)
      → is_blank code ≡ false
      → find (has_code (trim code)) d.invites ≡ some i
      → is_pending i ≡ false
      → redeem (pg_workspaces new_id scan time) now' user' code d
        ≡ (err (err_not_found "invite not found"), d)
  unfolding redeem get_invite_by_code
  again now' user' code d i e f g = rw (e, f, g) refl

  marked_once :
      (i : WorkspaceInvite)
      → is_pending i ≡ true
      → is_pending (mark_if i.workspace_id i.id "accepted" (some now) i) ≡ false
  marked_once i g = rw (eq_refl i.id, eq_refl i.workspace_id, g) refl

  redeem-accepts :
      (user code : String) (d : WorkspaceDb) (w : Workspace)
      → (redeem (pg_workspaces new_id scan time) now user code d).0 ≡ ok w
      → (i : WorkspaceInvite) × (is_blank code ≡ false)
        × (find (has_code (trim code)) d.invites ≡ some i)
        × (is_pending i ≡ true)
        × (redeem (pg_workspaces new_id scan time) now user code d
            ≡ accept (pg_workspaces new_id scan time) now user i d)
  unfolding redeem get_invite_by_code get_user
  redeem-accepts user code d w h = elim (Bool-cases (is_blank code)) [
    | inl e ↦ absurd (ground (arith, rw e at h))
    | inr e ↦ elim (Option-cases (find (has_code (trim code)) d.invites)) [
      | inl f ↦ absurd (ground (arith, rw (e, f) at h))
      | inr (i, f) ↦ elim (Bool-cases (is_pending i)) [
        | inr g ↦ absurd (ground (arith, rw (e, f, g) at h))
        | inl g ↦ elim (Option-cases (find (λ (u : User). str_eq u.id user) d.users)) [
          | inl k ↦ absurd (ground (arith, rw (e, f, g, k) at h))
          | inr (u, k) ↦ elim (Bool-cases (str_eq (to_lower u.email) (to_lower i.email))) [
            | inr l ↦ absurd (ground (arith, rw (e, f, g, k, l) at h))
            | inl l ↦ (i, e, f, g, rw (e, f, g, k, l) refl)
          ]
        ]
      ]
    ]
  ]

  -- When a code is redeemed, its invite was pending; afterwards the user is a member of the invite's
  -- workspace in the invite's role, and nobody can redeem the code again: the answer is that there is no
  -- such invite, and nothing changes.
  pub redeem-once :
      (user code : String) (d : WorkspaceDb) (w : Workspace)
      → (redeem (pg_workspaces new_id scan time) now user code d).0 ≡ ok w
      → (let d' = (redeem (pg_workspaces new_id scan time) now user code d).1 in
          (i : WorkspaceInvite) × (get_invite_by_code (trim code) d ≡ found i)
          × (is_pending i ≡ true)
          × (any (has_joined i.workspace_id user i.role_id) d'.members ≡ true)
          × ((now' : ℕ) (user' : String)
              → redeem (pg_workspaces new_id scan time) now' user' code d'
                ≡ (err (err_not_found "invite not found"), d')))
  unfolding get_invite_by_code
  redeem-once user code d w h =
      let (i, e, f, g, at) = redeem-accepts user code d w h in
      let h' : (accept (pg_workspaces new_id scan time) now user i d).0 ≡ ok w =
        sym (ap (λ p. p.0) at) ∙ h in
      let (spent, joins) = accept_lem user i d w h' in
      rw (at, get_invite_by_code, f)
        (
          i,
          refl,
          g,
          joins,
          λ now' user'.
              again now' user' code (accept (pg_workspaces new_id scan time) now user i d).1
                (mark_if i.workspace_id i.id "accepted" (some now) i) e
                (ap (find (has_code (trim code))) spent
                  ∙ find-mark_if i.workspace_id i.id "accepted" (trim code) (some now) d.invites i
                      f)
                (marked_once i g),
        )
