-- ===== src/Workspace/Service.antt =====
-- workspace/service.go, over the stores that it is written against (store.MemberStore, InviteStore,
-- UserStore, WorkspaceStore) with one state. The clock and the invite code are arguments.
use spec_powers.Prelude.{
  ℕ, String, Bool, not, ◌&&◌, Option, none, some, List, [], ◌∷◌, ◌==◌, leb, find, str_eq, is_blank,
  concat, if◌then◌else◌,
}
use spec_powers.Api.{
  err_invalid, err_forbidden, err_not_found, err_conflict, err_internal, Stored, found, missing,
  failed, Result, ok, err, checked, required, listed, Action, pure, fail, lift, gets, reads, calls,
  tries, guard, whenever, ◌>>=◌, ◌>>◌,
}
use spec_powers.Workflow.Tasks.{trim}
use spec_powers.Workspace.Emails.{is_email, to_lower}

pub record Workspace : Type 0 where
  pub id : String
  pub name : String
  pub created_by : String

pub record Member : Type 0 where
  pub workspace_id : String
  pub user_id : String
  pub role_id : ℕ
  pub created_at : ℕ

pub record User : Type 0 where
  pub id : String
  pub email : String
  pub password_hash : String
  pub display_name : String

pub record WorkspaceInvite : Type 0 where
  pub id : String
  pub workspace_id : String
  pub email : String
  pub role_id : ℕ
  pub code : String
  pub invited_by : String
  pub status : String
  pub accepted_at : Option ℕ

-- What `CreateInvite` reports: a row, `store.ErrConflict`, or another error.
pub data Invited : Type 0 where
  invited : WorkspaceInvite → Invited
  pending : Invited
  broken : Invited

pub record WorkspaceStores : Type 1 where
  pub State : Type 0
  pub workspace_ids : String → State → Option (List String)
  pub get_workspace : String → State → Stored Workspace
  pub list_members : String → State → Option (List Member)
  pub add_member : String → String → ℕ → State → Bool × State
  pub count_members_by_role : String → ℕ → State → Option ℕ
  pub get_user : String → State → Stored User
  pub get_user_by_email : String → State → Stored User
  pub create_invite : WorkspaceInvite → State → Invited × State
  pub list_invites : String → State → Option (List WorkspaceInvite)
  pub get_invite_by_code : String → State → Stored WorkspaceInvite
  pub set_invite_status :
      String → String → String → Option ℕ → State → Stored WorkspaceInvite × State

pub record MemberInfo : Type 0 where
  pub member : Member
  pub user : User
  pub role : String

-- `Joined` with its member, if the listing has it, or the invite.
pub data InviteResult : Type 0 where
  joined : Option MemberInfo → InviteResult
  recorded : WorkspaceInvite → InviteResult

abbrev pub role_owner : ℕ
role_owner = 1

abbrev pub role_member : ℕ
role_member = 2

unfoldable pub role_by_name : String → Option ℕ
unfolding to_lower
role_by_name name =
    if str_eq (to_lower name) "owner"
    then some role_owner
    else if str_eq (to_lower name) "member"
    then some role_member
    else none

abbrev pub role_name : ℕ → String
role_name id = if id == role_owner then "owner" else if id == role_member then "member" else ""

abbrev pub known_role : Option ℕ → String → Result ℕ
known_role none role = err (err_invalid (concat "unknown role: " role))
known_role (some id) role = ok id

abbrev pub first_id : List String → Result String
first_id [] = err (err_not_found "workspace not found")
first_id (id ∷ ids) = ok id

abbrev pub role_in : Option Member → Result ℕ
role_in none = err (err_forbidden "not a workspace member")
role_in (some m) = ok m.role_id

-- What is shown of a user has no password hash.
abbrev pub shown : Member → User → MemberInfo
shown m u = record {
  member = m;
  user = record u { password_hash = "" };
  role = role_name m.role_id;
}

-- The last member of a list with the user's id, as the loops leave it.
unfoldable pub last_of : String → List Member → Option Member
last_of user [] = none
last_of user (m ∷ rest) =
    let later = last_of user rest in
    elim later [ some x ↦ some x | none ↦ if str_eq m.user_id user then some m else none ]

abbrev pub shown_member : Option Member → User → Option MemberInfo
shown_member none u = none
shown_member (some m) u = some (shown m u)

abbrev pub existing : Option Member → Result Member
existing none = err (err_not_found "member not found")
existing (some m) = ok m

abbrev pub invite_result : Invited → Result InviteResult
invite_result (invited i) = ok (recorded i)
invite_result pending = err (err_conflict "a pending invite for this email already exists")
invite_result broken = err (err_internal "create invite failed")

module _ (st : WorkspaceStores) where
  open st use {
    State, workspace_ids, get_workspace, list_members, add_member, count_members_by_role, get_user,
    get_user_by_email, create_invite, list_invites, get_invite_by_code, set_invite_status,
  }

  abbrev pub resolve_workspace : String → Action State Workspace
  resolve_workspace user = do
    ids ← reads (λ s. listed (workspace_ids user s) "list memberships failed")
    id ← lift (first_id ids)
    reads (λ s. required (get_workspace id s) (err_internal "get workspace failed"))

  abbrev pub role_of : String → String → Action State ℕ
  role_of workspace user = do
    members ← reads (λ s. listed (list_members workspace s) "list members failed")
    lift (role_in (find (λ (m : Member). str_eq m.user_id user) members))

  abbrev pub require_owner : String → String → Action State (Unit {0})
  require_owner workspace user = do
    role ← role_of workspace user
    guard (role == role_owner) (err_forbidden "workspace owner role required")

  -- The loop of `Members`.
  unfoldable pub infos_of : List Member → Action State (List MemberInfo)
  infos_of [] = pure []
  infos_of (m ∷ rest) = do
    u ← reads (λ s. required (get_user m.user_id s) (err_internal "lookup member user failed"))
    infos ← infos_of rest
    pure (shown m u ∷ infos)

  unfoldable pub members : String → Action State (Workspace × (List MemberInfo × String))
  unfolding infos_of
  members user = do
    ws ← resolve_workspace user
    role ← role_of ws.id user
    list ← reads (λ s. listed (list_members ws.id s) "list members failed")
    infos ← infos_of list
    pure (ws, (infos, role_name role))

  -- `GetUserByEmail` found a user: a member at once, with that role.
  abbrev pub join : Workspace → ℕ → User → Action State InviteResult
  unfolding last_of
  join ws role target = do
    calls (add_member ws.id target.id role) (err_internal "add member failed")
    list ← reads (λ s. listed (list_members ws.id s) "list members failed")
    pure (joined (shown_member (last_of target.id list) target))

  abbrev pub record_invite : Workspace → String → String → ℕ → String → Action State InviteResult
  unfolding to_lower
  record_invite ws user email role code s =
      let (r, s') =
        create_invite
          (record {
            id = "";
            workspace_id = ws.id;
            email = to_lower email;
            role_id = role;
            code = code;
            invited_by = user;
            status = "";
            accepted_at = none;
          })
          s in
      (invite_result r, s')

  abbrev pub invite_found :
      Workspace → String → String → ℕ → String → Stored User → Action State InviteResult
  invite_found ws user email role code (found target) = join ws role target
  invite_found ws user email role code missing = record_invite ws user email role code
  invite_found ws user email role code failed = fail (err_internal "lookup user failed")

  -- From the caller's workspace on.
  unfoldable pub invite_to : String → String → String → ℕ → Workspace → Action State InviteResult
  invite_to code user email role ws = do
    require_owner ws.id user
    target ← gets (get_user_by_email email)
    invite_found ws user email role code target

  unfoldable pub invite : String → String → String → String → Action State InviteResult
  unfolding is_email role_by_name invite_to
  invite code user email role = do
    guard (is_email email) (err_invalid "invalid email address")
    id ← lift (known_role (role_by_name role) role)
    ws ← resolve_workspace user
    invite_to code user email id ws

  unfoldable pub invites : String → Action State (List WorkspaceInvite)
  invites user = do
    ws ← resolve_workspace user
    require_owner ws.id user
    reads (λ s. listed (list_invites ws.id s) "list invites failed")

  unfoldable pub revoke_invite : String → String → Action State WorkspaceInvite
  revoke_invite user id = do
    ws ← resolve_workspace user
    require_owner ws.id user
    tries (set_invite_status ws.id id "revoked" none) (err_not_found "invite not found")
        (err_internal "revoke invite failed")

  -- The invite is claimed before the caller joins.
  unfoldable pub accept : ℕ → String → WorkspaceInvite → Action State Workspace
  accept now user i = do
    tries (set_invite_status i.workspace_id i.id "accepted" (some now))
        (err_conflict "invite is no longer pending") (err_internal "accept invite failed")
    calls (add_member i.workspace_id user i.role_id) (err_internal "add member failed")
    reads (λ s. required (get_workspace i.workspace_id s) (err_internal "get workspace failed"))

  unfoldable pub redeem : ℕ → String → String → Action State Workspace
  unfolding is_blank trim to_lower accept
  redeem now user code = do
    guard (not (is_blank code)) (err_invalid "invite code is required")
    i ← reads (λ s.
        checked (get_invite_by_code (trim code) s) (err_not_found "invite not found")
          (err_internal "lookup invite failed"))
    guard (str_eq i.status "pending") (err_not_found "invite not found")
    u ← reads (λ s. required (get_user user s) (err_internal "lookup user failed"))
    guard (str_eq (to_lower u.email) (to_lower i.email))
        (err_forbidden "invite was issued to a different email")
    accept now user i

  -- The guard of the last owner.
  abbrev pub keeps_owner : Workspace → Member → ℕ → Action State (Unit {0})
  keeps_owner ws target role =
      whenever (target.role_id == role_owner && not (role == role_owner)) (do
        owners ←
            reads (λ s. listed (count_members_by_role ws.id role_owner s) "count owners failed")
        guard (not (leb owners 1)) (err_conflict "cannot demote the last owner"))

  abbrev pub assign : Workspace → String → ℕ → Member → Action State MemberInfo
  assign ws target_id id target = do
    calls (add_member ws.id target_id id) (err_internal "update member role failed")
    u ← reads (λ s. required (get_user target_id s) (err_internal "lookup member user failed"))
    pure (shown (record target { workspace_id = ws.id; user_id = target_id; role_id = id }) u)

  -- From the listing of the members on.
  unfoldable pub change_role : Workspace → String → ℕ → List Member → Action State MemberInfo
  unfolding last_of
  change_role ws target_id id list = do
    target ← lift (existing (last_of target_id list))
    keeps_owner ws target id
    assign ws target_id id target

  unfoldable pub set_role : String → String → String → Action State MemberInfo
  unfolding role_by_name change_role
  set_role user target_id role = do
    id ← lift (known_role (role_by_name role) role)
    ws ← resolve_workspace user
    require_owner ws.id user
    list ← reads (λ s. listed (list_members ws.id s) "list members failed")
    change_role ws target_id id list
