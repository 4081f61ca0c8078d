-- ===== src/Workspace/Invited.antt =====
-- workspace/service.go on the tables: what an invitation of a registered user does to its role.
use spec_powers.Prelude.{
  ℕ, String, ◌≡◌, refl, ◌∙◌, true, false, List, [], ◌∷◌, map, any, select, All, str_eq, eq_iff,
  arith, Bool-cases, inl, inr,
}
use spec_powers.Api.{ok, found, gets, ◌>>=◌, >>=-ok}
use spec_powers.Workspace.Emails.{is_email}
use spec_powers.Workspace.Service.{
  Workspace, Member, User, joined, shown_member, last_of, role_member, resolve_workspace,
  require_owner, invite, invite_to, invite_found,
}
use spec_powers.Workspace.Postgres.{
  WorkspaceDb, is_member, set_role_of, add_member, list_members, get_user_by_email, pg_workspaces,
}
use spec_powers.Workspace.Roles.{owns}

sole-demoted :
    (w u : String) (rows : List Member)
    → All (λ m. owns w m ≡ true → m.user_id ≡ u) rows
    → any (owns w) (map (set_role_of w u role_member) rows) ≡ false
sole-demoted w u [] hs = refl
sole-demoted w u (x ∷ rows) (h, hs) = elim (Bool-cases (is_member w u x)) [
  | inl e ↦ rw e (ground (arith, sole-demoted w u rows hs))
  | inr e ↦ elim (Bool-cases (owns w x)) [
    | inr f ↦ rw (e, f) (sole-demoted w u rows hs)
    | inl f ↦ absurd (ground (arith, e, f, eq_iff x.user_id u, h f))
  ]
]

module _ (new_id : ℕ → String) (scan : List Member → List Member) (now : ℕ) where
  invited_lem :
      (code user email : String) (d : WorkspaceDb) (ws : Workspace) (target : User)
      → require_owner (pg_workspaces new_id scan now) ws.id user d ≡ (ok tt, d)
      → get_user_by_email email d ≡ found target
      → any (is_member ws.id target.id) d.members ≡ true
      → (let d' = record d { members = map (set_role_of ws.id target.id role_member) d.members } in
          invite_to (pg_workspaces new_id scan now) code user email role_member ws d ≡ (
            ok (
                joined (
                  shown_member
                    (last_of target.id
                      (select (λ (m : Member). str_eq m.workspace_id ws.id) d'.members))
                    target)),
            d',
          ))
  unfolding invite_to add_member list_members last_of
  invited_lem code user email d ws target o t m =
      >>=-ok (require_owner (pg_workspaces new_id scan now) ws.id user)
        (λ _. gets (get_user_by_email email) >>= λ x.
          invite_found (pg_workspaces new_id scan now) ws user email role_member code x)
        d d tt o
      ∙ rw (t, m) refl

  invite_lem :
      (code user email : String) (d : WorkspaceDb) (ws : Workspace) (target : User)
      → is_email email ≡ true
      → resolve_workspace (pg_workspaces new_id scan now) user d ≡ (ok ws, d)
      → require_owner (pg_workspaces new_id scan now) ws.id user d ≡ (ok tt, d)
      → get_user_by_email email d ≡ found target
      → any (is_member ws.id target.id) d.members ≡ true
      → (let d' = record d { members = map (set_role_of ws.id target.id role_member) d.members } in
          invite (pg_workspaces new_id scan now) code user email "member" d ≡ (
            ok (
                joined (
                  shown_member
                    (last_of target.id
                      (select (λ (m : Member). str_eq m.workspace_id ws.id) d'.members))
                    target)),
            d',
          ))
  unfolding invite
  invite_lem code user email d ws target e r o t m = rw e (
      >>=-ok (resolve_workspace (pg_workspaces new_id scan now) user)
        (invite_to (pg_workspaces new_id scan now) code user email role_member) d d ws r
      ∙ invited_lem code user email d ws target o t m)

  -- Invite can leave a workspace without an owner. An owner who invites, as a member, the email of a
  -- user who is registered, belongs to the workspace, and is its only owner, is told that the user has
  -- joined, and then nobody owns the workspace.
  pub invite-last_owner :
      (code user email : String) (d : WorkspaceDb) (ws : Workspace) (target : User)
      → is_email email ≡ true
      → resolve_workspace (pg_workspaces new_id scan now) user d ≡ (ok ws, d)
      → require_owner (pg_workspaces new_id scan now) ws.id user d ≡ (ok tt, d)
      → get_user_by_email email d ≡ found target
      → any (is_member ws.id target.id) d.members ≡ true
      → All (λ m. owns ws.id m ≡ true → m.user_id ≡ target.id) d.members
      → (let (r, d') = invite (pg_workspaces new_id scan now) code user email "member" d in
          (r
            ≡ ok (
                joined (
                  shown_member
                    (last_of target.id
                      (select (λ (m : Member). str_eq m.workspace_id ws.id) d'.members))
                    target)))
          × (any (owns ws.id) d'.members ≡ false))
  invite-last_owner code user email d ws target e r o t m sole =
      let run = invite_lem code user email d ws target e r o t m in
      rw run (refl, sole-demoted ws.id target.id d.members sole)
