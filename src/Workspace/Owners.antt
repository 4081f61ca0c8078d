-- ===== src/Workspace/Owners.antt =====
-- workspace/service.go on the tables: who owns a workspace.
use spec_powers.Prelude.{
  ℕ, String, ◌≡◌, refl, sym, subst, Bool, true, false, not, ◌&&◌, some, List, [], ◌∷◌, ◌++◌, map,
  any, find, select, length, leb, ◌==◌, str_eq, arith, Bool-cases, Option-cases, inl, inr,
}
use spec_powers.Api.{
  ok, reads, required, guard, >>=-reads, >>=-keeps, pure, ◌>>=◌, lift, listed, err_internal,
  err_forbidden, AppError,
}
use spec_powers.Workspace.Service.{
  Workspace, Member, role_owner, last_of, known_role, role_by_name, first_id, role_of, role_in,
  resolve_workspace, require_owner, keeps_owner, set_role, change_role, assign, shown,
}
use spec_powers.Workspace.Postgres.{
  WorkspaceDb, list_workspace_ids, get_user, is_member, set_role_of, add_member, list_members,
  count_members_by_role, pg_workspaces,
}
use spec_powers.Workspace.Roles.{
  Unique, owns, Owned, Spares, found_row, set_role-Unique, owners-stay,
}

guard-reads : (b : Bool) (e : AppError) (d : WorkspaceDb) → (guard b e d).1 ≡ d
guard-reads true e d = refl
guard-reads false e d = refl

module _ (new_id : ℕ → String) (scan : List Member → List Member) (now : ℕ) where
  keeps_owner-reads :
      (ws : Workspace) (t : Member) (r : ℕ) (d : WorkspaceDb)
      → (keeps_owner (pg_workspaces new_id scan now) ws t r d).1 ≡ d
  unfolding count_members_by_role
  keeps_owner-reads ws t r d =
      elim (Bool-cases (t.role_id == role_owner && not (r == role_owner))) [
        | inr e ↦ rw e refl
        | inl e ↦ elim (Bool-cases (leb (length (select (owns ws.id) d.members)) 1)) [
          | inl f ↦ rw (e, f) refl
          | inr f ↦ rw (e, f) refl
        ]
      ]

  keeps_owner-Spares :
      (ws : Workspace) (t : Member) (r : ℕ) (d : WorkspaceDb)
      → (keeps_owner (pg_workspaces new_id scan now) ws t r d).0 ≡ ok tt
      → Spares ws.id r t d
  unfolding count_members_by_role
  keeps_owner-Spares ws t r d h = elim (Bool-cases (t.role_id == role_owner)) [
    | inr e ↦ inl e
    | inl e ↦ elim (Bool-cases (r == role_owner)) [
      | inl f ↦ inr (inl f)
      | inr f ↦ elim (Bool-cases (leb (length (select (owns ws.id) d.members)) 1)) [
        | inl g ↦ absurd (ground (arith, rw (e, f, g) at h))
        | inr g ↦ inr (inr g)
      ]
    ]
  ]

  -- One row for each workspace and user, and an owner for each workspace that `d` has one for.
  abbrev Kept : WorkspaceDb → WorkspaceDb → Type 0
  Kept d x = Unique x.members × ((v : String) → Owned v d → Owned v x)

  written-Kept :
      (ws : Workspace) (u : String) (t : Member) (r : ℕ) (d : WorkspaceDb)
      → Unique d.members
      → last_of u (select (λ (m : Member). str_eq m.workspace_id ws.id) d.members) ≡ some t
      → Spares ws.id r t d
      → Kept d (add_member now ws.id u r d).1
  unfolding add_member
  written-Kept ws u t r d keys row spare = rw (found_row ws.id u d.members t row) (
    set_role-Unique ws.id u r d.members keys,
    λ v h. owners-stay v ws.id u r t d keys row spare h,
  )

  assign-state :
      (ws : Workspace) (u : String) (t : Member) (r : ℕ) (d : WorkspaceDb)
      → (assign (pg_workspaces new_id scan now) ws u r t d).1 ≡ (add_member now ws.id u r d).1
  unfolding add_member
  assign-state ws u t r d = elim (Bool-cases (any (is_member ws.id u) d.members)) [
    | inl e ↦ rw e (shown_user (record d { members = map (set_role_of ws.id u r) d.members }))
    | inr e ↦ rw e (
        shown_user (record d {
          members =
              d.members
              ++ (record { workspace_id = ws.id; user_id = u; role_id = r; created_at = now }) ∷ [];
        }))
  ]
    where
      shown_user :
          (x : WorkspaceDb)
          → ((reads (λ y. required (get_user u y) (err_internal "lookup member user failed"))
                >>= λ w.
                    pure (shown (record t { workspace_id = ws.id; user_id = u; role_id = r }) w))
              x).1
            ≡ x
      shown_user x =
          >>=-keeps (λ (y : WorkspaceDb). y)
            (reads (λ y. required (get_user u y) (err_internal "lookup member user failed")))
            (λ w. pure (shown (record t { workspace_id = ws.id; user_id = u; role_id = r }) w))
            (λ y. refl) (λ w y. refl) x

  change_role-Kept :
      (ws : Workspace) (u : String) (r : ℕ) (d : WorkspaceDb)
      → Unique d.members
      → Kept d
          (change_role
            (pg_workspaces new_id scan now)
            ws
            u
            r
            (select (λ (m : Member). str_eq m.workspace_id ws.id) d.members)
            d).1
  unfolding change_role
  change_role-Kept ws u r d keys =
      elim (Option-cases
        (last_of u (select (λ (m : Member). str_eq m.workspace_id ws.id) d.members))) [
          | inl e ↦ rw e (keys, λ v h. h)
          | inr (t, e) ↦ rw e (
              >>=-reads (Kept d) (keeps_owner (pg_workspaces new_id scan now) ws t r)
                (λ _. assign (pg_workspaces new_id scan now) ws u r t) d
                (keeps_owner-reads ws t r d) (keys, λ v h. h)
                (λ _ passed.
                  subst (Kept d) (sym (assign-state ws u t r d))
                    (written-Kept ws u t r d keys e (keeps_owner-Spares ws t r d passed))))
        ]

  resolve_workspace-reads :
      (user : String) (d : WorkspaceDb)
      → (resolve_workspace (pg_workspaces new_id scan now) user d).1 ≡ d
  resolve_workspace-reads user d =
      >>=-keeps (λ (y : WorkspaceDb). y)
        (reads (λ s. listed (list_workspace_ids scan user s) "list memberships failed")) _
        (λ y. refl)
        (λ ids y.
          >>=-keeps (λ (z : WorkspaceDb). z) (lift (first_id ids)) _ (λ z. refl) (λ id z. refl) y)
        d

  require_owner-reads :
      (w user : String) (d : WorkspaceDb)
      → (require_owner (pg_workspaces new_id scan now) w user d).1 ≡ d
  require_owner-reads w user d =
      >>=-keeps (λ (y : WorkspaceDb). y) (role_of (pg_workspaces new_id scan now) w user) _
        (λ y.
          >>=-keeps (λ (z : WorkspaceDb). z)
            (reads (λ x. listed (list_members w x) "list members failed"))
            (λ l. lift (role_in (find (λ (m : Member). str_eq m.user_id user) l))) (λ z. refl)
            (λ l z. refl) y)
        (λ r y. guard-reads (r == role_owner) (err_forbidden "workspace owner role required") y) d

  -- SetRole, whether or not it succeeds, leaves an owner for each workspace that had one, and still
  -- at most one row for each workspace and user.
  pub set_role-Owned :
      (user target role : String) (d : WorkspaceDb)
      → Unique d.members
      → (let d' = (set_role (pg_workspaces new_id scan now) user target role d).1 in
          Unique d'.members × ((v : String) → Owned v d → Owned v d'))
  unfolding set_role list_members
  set_role-Owned user target role d keys =
      >>=-reads (Kept d) (lift (known_role (role_by_name role) role)) _ d refl (keys, λ v h. h)
        (λ r _.
          >>=-reads (Kept d) (resolve_workspace (pg_workspaces new_id scan now) user) _ d
            (resolve_workspace-reads user d) (keys, λ v h. h)
            (λ ws _.
              >>=-reads (Kept d) (require_owner (pg_workspaces new_id scan now) ws.id user) _ d
                (require_owner-reads ws.id user d) (keys, λ v h. h)
                (λ _ _. change_role-Kept ws target r d keys)))
