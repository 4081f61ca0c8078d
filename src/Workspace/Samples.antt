-- ===== src/Workspace/Samples.antt =====
-- A small workspace: emails, roles, an invitation, and the theorems at it.
use spec_powers.Prelude.{
  ℕ, ◌≡◌, refl, true, false, none, some, String, List, [], ◌∷◌, select, any, str_eq, arith,
  is_blank,
}
use spec_powers.Api.{ok, err, err_not_found, found}
use spec_powers.Workflow.Tasks.{trim}
use spec_powers.Workspace.Emails.{is_email, to_lower}
use spec_powers.Workspace.Service.{
  Workspace, Member, User, WorkspaceInvite, joined, shown_member, last_of, resolve_workspace,
  require_owner, set_role, invite, redeem, accept, role_by_name,
}
use spec_powers.Workspace.Postgres.{
  WorkspaceDb, list_workspace_ids, get_workspace, get_user, get_user_by_email, get_invite_by_code,
  is_pending, list_members, add_member, set_invite_status, pg_workspaces,
}
use spec_powers.Workspace.Roles.{Unique, owns, Owned}
use spec_powers.Workspace.Owners.{set_role-Owned}
use spec_powers.Workspace.Invited.{invite-last_owner}
use spec_powers.Workspace.Redeemed.{has_joined, redeem-once}

emails :
    (is_email "ann@example.org" ≡ true)
    × (is_email "a@.b" ≡ false)
    × (is_email "a@b@c.d" ≡ false)
    × (is_email "a b@c.d" ≡ false)
    × (is_email "a@b." ≡ false)
unfolding is_email
emails = (refl, refl, refl, refl, refl)

roles :
    (role_by_name "OWNER" ≡ some 1)
    × (role_by_name "Member" ≡ some 2)
    × (role_by_name "guest" ≡ none)
unfolding role_by_name to_lower
roles = (refl, refl, refl)

abbrev member : String → ℕ → Member
member user role = record { workspace_id = "w"; user_id = user; role_id = role; created_at = 0 }

abbrev user : String → String → User
user id email = record { id = id; email = email; password_hash = "secret"; display_name = id }

abbrev home : Workspace
home = record { id = "w"; name = "home"; created_by = "ann" }

abbrev invitation : WorkspaceInvite
invitation = record {
  id = "i";
  workspace_id = "w";
  email = "cid@x.org";
  role_id = 2;
  code = "c0de";
  invited_by = "ann";
  status = "pending";
  accepted_at = none;
}

abbrev tables : WorkspaceDb
tables = record {
  workspaces = home ∷ [];
  members = member "ann" 1 ∷ member "bob" 2 ∷ [];
  users = user "ann" "ann@x.org" ∷ user "bob" "bob@x.org" ∷ user "cid" "Cid@x.org" ∷ [];
  invites = invitation ∷ [];
  serial = 1;
}

abbrev new_id : ℕ → String
new_id n = "id"

abbrev as_stored : List Member → List Member
as_stored rows = rows

tables-Unique : Unique tables.members
tables-Unique = (refl, (refl, tt))

set_role-Owned_example :
    let d' = (set_role (pg_workspaces new_id as_stored 5) "ann" "ann" "member" tables).1 in
    Unique d'.members × ((v : String) → Owned v tables → Owned v d')
set_role-Owned_example = set_role-Owned new_id as_stored 5 "ann" "ann" "member" tables tables-Unique

resolved : resolve_workspace (pg_workspaces new_id as_stored 5) "ann" tables ≡ (ok home, tables)
unfolding list_workspace_ids get_workspace
resolved = refl

owner : require_owner (pg_workspaces new_id as_stored 5) "w" "ann" tables ≡ (ok tt, tables)
unfolding list_members
owner = refl

ann_found : get_user_by_email "Ann@X.org" tables ≡ found (user "ann" "ann@x.org")
unfolding get_user_by_email to_lower
ann_found = refl

ann_email : is_email "Ann@X.org" ≡ true
unfolding is_email
ann_email = refl

invite-last_owner_example :
    let (r, d') =
      invite (pg_workspaces new_id as_stored 5) "code" "ann" "Ann@X.org" "member" tables in
    (r
      ≡ ok (
          joined (
            shown_member
              (last_of "ann" (select (λ (m : Member). str_eq m.workspace_id "w") d'.members))
              (user "ann" "ann@x.org"))))
    × (any (owns "w") d'.members ≡ false)
invite-last_owner_example =
    invite-last_owner new_id as_stored 5 "code" "ann" "Ann@X.org" tables home
      (user "ann" "ann@x.org") ann_email resolved owner ann_found refl
      ((λ _. refl), ((λ h. absurd (ground (arith, h))), tt))

redeemed : (redeem (pg_workspaces new_id as_stored 5) 9 "cid" " c0de" tables).0 ≡ ok home
unfolding redeem is_blank trim to_lower accept get_invite_by_code get_user get_workspace add_member
    set_invite_status
redeemed = refl

redeem-once_example :
    let d' = (redeem (pg_workspaces new_id as_stored 5) 9 "cid" " c0de" tables).1 in
    (i : WorkspaceInvite) × (get_invite_by_code (trim " c0de") tables ≡ found i)
    × (is_pending i ≡ true)
    × (any (has_joined i.workspace_id "cid" i.role_id) d'.members ≡ true)
    × ((now' : ℕ) (user' : String)
        → redeem (pg_workspaces new_id as_stored 5) now' user' " c0de" d'
          ≡ (err (err_not_found "invite not found"), d'))
redeem-once_example = redeem-once new_id as_stored 5 9 "cid" " c0de" tables home redeemed
