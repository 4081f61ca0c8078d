-- ===== src/Squad/Service.antt =====
-- squad/service.go, over the stores that it is written against (store.SquadStore, store.UserStore).
use spec_powers.Prelude.{
  String, not, Option, none, some, List, any, str_eq, is_blank, if◌then◌else◌,
}
use spec_powers.Domain.{Squad}
use spec_powers.Api.{
  err_invalid, err_not_found, err_conflict, err_internal, Stored, Result, ok, err, checked, listed,
  Action, pure, reads, writes, tries, guard, whenever, ◌>>=◌, ◌>>◌,
}

-- What `AddSquadMember` reports: no error, `store.ErrConflict`, or another.
pub data Added : Type 0 where
  added : Added
  already : Added
  broken : Added

-- `details` are the members with their names, which the service passes on.
pub record SquadStores : Type 1 where
  pub State : Type 0
  pub Detail : Type 0
  pub get_user : String → State → Stored (Unit {0})
  pub create : Squad → State → Stored Squad × State
  pub get : String → State → Stored Squad
  pub list : State → Option (List Squad)
  pub update : Squad → State → Stored Squad × State
  pub set_leader : String → String → State → Stored Squad × State
  pub delete : String → State → Stored (Unit {0}) × State
  pub add_member : String → String → State → Added × State
  pub remove_member : String → String → State → Stored (Unit {0}) × State
  pub members : String → State → Option (List String)
  pub details : String → State → Option (List Detail)

pub record CreateInput : Type 0 where
  pub name : String
  pub description : String
  pub leader_id : String

pub record UpdateInput : Type 0 where
  pub name : Option String
  pub description : Option String

-- `if err != nil { return e }`, whatever the error is.
abbrev pub must_add : Added → Result (Unit {0})
must_add added = ok tt
must_add already = err (err_internal "add squad leader to roster failed")
must_add broken = err (err_internal "add squad leader to roster failed")

abbrev pub may_add : Added → Result (Unit {0})
may_add added = ok tt
may_add already = err (err_conflict "user is already a squad member")
may_add broken = err (err_internal "add squad member failed")

abbrev pub checked_name : Option String → Result (Unit {0})
unfolding is_blank
checked_name none = ok tt
checked_name (some name) =
    if is_blank name then err (err_invalid "squad name is required") else ok tt

abbrev pub or_else : Option String → String → String
or_else none old = old
or_else (some new) old = new

module _ (st : SquadStores) where
  open st use {
    State, Detail, get_user, create, get, list, update, set_leader, delete, add_member,
    remove_member, members, details,
  }

  -- `requireUser`.
  unfoldable pub require_user : String → State → Result (Unit {0})
  require_user user s =
      if str_eq user ""
      then err (err_invalid "user is required")
      else checked (get_user user s) (err_not_found "user not found")
          (err_internal "lookup user failed")

  -- `s.squads.GetSquad(…)`, with its errors.
  abbrev pub required_squad : String → Action State Squad
  required_squad id =
      reads (λ s.
        checked (get id s) (err_not_found "squad not found") (err_internal "get squad failed"))

  abbrev pub adds : (Added → Result (Unit {0})) → String → String → Action State (Unit {0})
  adds report id user s = let (a, s') = add_member id user s in (report a, s')

  unfoldable pub create_squad : String → CreateInput → Action State Squad
  unfolding is_blank require_user
  create_squad creator c = do
    guard (not (is_blank c.name)) (err_invalid "squad name is required")
    reads (require_user c.leader_id)
    sq ←
        writes
          (create (record {
            id = "";
            name = c.name;
            description = c.description;
            leader_id = c.leader_id;
            created_by = creator;
          }))
          (err_internal "create squad failed")
    adds must_add sq.id c.leader_id
    pure sq

  unfoldable pub get_squad : String → Action State (Squad × List Detail)
  get_squad id = do
    sq ← required_squad id
    roster ← reads (λ s. listed (details id s) "list squad members failed")
    pure (sq, roster)

  unfoldable pub list_squads : Action State (List Squad)
  list_squads = reads (λ s. listed (list s) "list squads failed")

  unfoldable pub update_squad : String → UpdateInput → Action State Squad
  update_squad id u = do
    current ← required_squad id
    reads (λ s. checked_name u.name)
    writes
        (update (record current {
          name = or_else u.name current.name;
          description = or_else u.description current.description;
        }))
        (err_internal "update squad failed")

  -- `SetLeader`.
  unfoldable pub change_leader : String → String → Action State Squad
  unfolding require_user
  change_leader id leader = do
    required_squad id
    reads (require_user leader)
    sq ← writes (set_leader id leader) (err_internal "set squad leader failed")
    roster ← reads (λ s. listed (members id s) "list squad members failed")
    whenever (not (any (λ m. str_eq m leader) roster)) (adds must_add id leader)
    pure sq

  -- `AddMember`.
  unfoldable pub join_squad : String → String → Action State (Unit {0})
  unfolding require_user
  join_squad id user = do required_squad id; reads (require_user user); adds may_add id user

  -- `RemoveMember`.
  unfoldable pub leave_squad : String → String → Action State (Unit {0})
  leave_squad id user = do
    sq ← required_squad id
    guard (not (str_eq sq.leader_id user)) (err_invalid "squad leader cannot be removed")
    tries (remove_member id user) (err_not_found "member not found")
        (err_internal "remove squad member failed")

  unfoldable pub delete_squad : String → Action State (Unit {0})
  delete_squad id =
      tries (delete id) (err_not_found "squad not found") (err_internal "delete squad failed")
