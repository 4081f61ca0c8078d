-- ===== src/Workspace/Postgres.antt =====
-- backend/internal/store/postgres/workspaces.go and invites.go: the tables of workspaces, members and
-- invites, with the constraints of migrations 0001 and 0013_workspace_settings. Rows stand in the order
-- of insertion; ids come from `new_id`, as from gen_random_uuid(), and `now` is the clock's. `scan` is
-- the order of a SELECT without ORDER BY; foreign keys are taken to hold. Emails are citext: case does
-- not count.
use spec_powers.Prelude.{
  ℕ, suc, String, Bool, true, ◌&&◌, ◌||◌, Option, none, some, List, [], ◌∷◌, ◌++◌, map, any, find,
  select, ◌==◌, str_eq, length, if◌then◌else◌,
}
use spec_powers.Api.{Stored, found, missing}
use spec_powers.Workspace.Emails.{to_lower}
use spec_powers.Workspace.Service.{
  Workspace, Member, User, WorkspaceInvite, Invited, invited, pending, WorkspaceStores,
}

pub record WorkspaceDb : Type 0 where
  pub workspaces : List Workspace
  pub members : List Member
  pub users : List User
  pub invites : List WorkspaceInvite
  pub serial : ℕ

abbrev pub one_user : Option User → Stored User
one_user none = missing
one_user (some u) = found u

abbrev pub one_workspace : Option Workspace → Stored Workspace
one_workspace none = missing
one_workspace (some w) = found w

abbrev pub one_invite : Option WorkspaceInvite → Stored WorkspaceInvite
one_invite none = missing
one_invite (some i) = found i

unfoldable pub create_workspace :
    (ℕ → String) → String → String → WorkspaceDb → Workspace × WorkspaceDb
create_workspace new_id name created_by d =
    let w : Workspace = record { id = new_id d.serial; name = name; created_by = created_by } in
    (w, record d { workspaces = d.workspaces ++ w ∷ []; serial = suc d.serial })

unfoldable pub get_workspace : String → WorkspaceDb → Stored Workspace
get_workspace id d = one_workspace (find (λ (w : Workspace). str_eq w.id id) d.workspaces)

abbrev pub is_member : String → String → Member → Bool
is_member workspace user m = str_eq m.workspace_id workspace && str_eq m.user_id user

abbrev pub set_role_of : String → String → ℕ → Member → Member
set_role_of workspace user role m =
    if is_member workspace user m then record m { role_id = role } else m

-- `ON CONFLICT … DO UPDATE`.
unfoldable pub add_member : ℕ → String → String → ℕ → WorkspaceDb → Bool × WorkspaceDb
add_member now workspace user role d =
    let m : Member = record {
      workspace_id = workspace;
      user_id = user;
      role_id = role;
      created_at = now;
    } in
    if any (is_member workspace user) d.members
    then (true, record d { members = map (set_role_of workspace user role) d.members })
    else (true, record d { members = d.members ++ m ∷ [] })

unfoldable pub list_workspace_ids :
    (List Member → List Member) → String → WorkspaceDb → Option (List String)
list_workspace_ids scan user d = some (
    map (λ (m : Member). m.workspace_id)
      (scan (select (λ (m : Member). str_eq m.user_id user) d.members)))

unfoldable pub list_members : String → WorkspaceDb → Option (List Member)
list_members workspace d = some (select (λ (m : Member). str_eq m.workspace_id workspace) d.members)

abbrev pub has_role : String → ℕ → Member → Bool
has_role workspace role m = str_eq m.workspace_id workspace && m.role_id == role

unfoldable pub count_members_by_role : String → ℕ → WorkspaceDb → Option ℕ
count_members_by_role workspace role d = some (length (select (has_role workspace role) d.members))

unfoldable pub get_user : String → WorkspaceDb → Stored User
get_user id d = one_user (find (λ (u : User). str_eq u.id id) d.users)

unfoldable pub get_user_by_email : String → WorkspaceDb → Stored User
unfolding to_lower
get_user_by_email email d =
    one_user (find (λ (u : User). str_eq (to_lower u.email) (to_lower email)) d.users)

abbrev pub is_pending : WorkspaceInvite → Bool
is_pending i = str_eq i.status "pending"

-- The unique keys: the code, and the workspace with the email of a pending invite.
abbrev pub clashes : WorkspaceInvite → WorkspaceInvite → Bool
unfolding to_lower
clashes i x =
    str_eq x.code i.code
    || (is_pending x
        && str_eq x.workspace_id i.workspace_id
        && str_eq (to_lower x.email) (to_lower i.email))

unfoldable pub create_invite : (ℕ → String) → WorkspaceInvite → WorkspaceDb → Invited × WorkspaceDb
create_invite new_id i d =
    let row = record i { id = new_id d.serial; status = "pending"; accepted_at = none } in
    if any (clashes i) d.invites
    then (pending, d)
    else (invited row, record d { invites = d.invites ++ row ∷ []; serial = suc d.serial })

reversed : {A : Type 0} → List A → List A → List A
reversed done [] = done
reversed done (x ∷ rows) = reversed (x ∷ done) rows

unfoldable pub list_invites : String → WorkspaceDb → Option (List WorkspaceInvite)
unfolding reversed
list_invites workspace d = some (
    reversed []
      (select (λ (i : WorkspaceInvite). str_eq i.workspace_id workspace && is_pending i) d.invites))

abbrev pub has_code : String → WorkspaceInvite → Bool
has_code code i = str_eq i.code code

unfoldable pub get_invite_by_code : String → WorkspaceDb → Stored WorkspaceInvite
get_invite_by_code code d = one_invite (find (has_code code) d.invites)

abbrev pub answers : String → String → WorkspaceInvite → Bool
answers workspace id i = str_eq i.id id && str_eq i.workspace_id workspace && is_pending i

abbrev pub mark : String → Option ℕ → WorkspaceInvite → WorkspaceInvite
mark status at i = record i { status = status; accepted_at = at }

abbrev pub mark_if : String → String → String → Option ℕ → WorkspaceInvite → WorkspaceInvite
mark_if workspace id status at i = if answers workspace id i then mark status at i else i

abbrev pub marked : String → Option ℕ → Option WorkspaceInvite → Stored WorkspaceInvite
marked status at none = missing
marked status at (some i) = found (mark status at i)

unfoldable pub set_invite_status :
    String → String → String → Option ℕ → WorkspaceDb → Stored WorkspaceInvite × WorkspaceDb
set_invite_status workspace id status at d = (
  marked status at (find (answers workspace id) d.invites),
  record d { invites = map (mark_if workspace id status at) d.invites },
)

abbrev pub pg_workspaces : (ℕ → String) → (List Member → List Member) → ℕ → WorkspaceStores
pg_workspaces new_id scan now = record {
  State = WorkspaceDb;
  workspace_ids = list_workspace_ids scan;
  get_workspace = get_workspace;
  list_members = list_members;
  add_member = add_member now;
  count_members_by_role = count_members_by_role;
  get_user = get_user;
  get_user_by_email = get_user_by_email;
  create_invite = create_invite new_id;
  list_invites = list_invites;
  get_invite_by_code = get_invite_by_code;
  set_invite_status = set_invite_status;
}
