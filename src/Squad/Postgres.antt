-- ===== src/Squad/Postgres.antt =====
-- backend/internal/store/postgres/squad.go: the tables of squads and of their members, with the
-- constraints of migration 0014_squads. Rows stand in the order of insertion; ids come from
-- `new_id`, as from gen_random_uuid(), and `known` says whether a user exists. The uuid columns hold
-- ids in their canonical spelling and compare with any spelling: `uuid` is how the server reads a text
-- as a uuid, and a text that it refuses (`none`) fails the statement.
use spec_powers.Prelude.{
  ℕ, suc, String, Bool, not, ◌&&◌, Option, none, some, List, [], ◌∷◌, ◌++◌, map, all, any, find,
  select, ◌==◌, codes, str_eq, if◌then◌else◌,
}
use spec_powers.Domain.{Squad}
use spec_powers.Api.{Stored, found, missing, failed}
use spec_powers.Squad.Service.{SquadStores, Added, added, already, broken}

pub record Member : Type 0 where
  pub squad_id : String
  pub user_id : String

pub record SquadDb : Type 0 where
  pub squads : List Squad
  pub members : List Member
  pub serial : ℕ
  pub uuid : String → Option String

-- `scanSquad`.
abbrev pub one_squad : Option Squad → Stored Squad
one_squad none = missing
one_squad (some sq) = found sq

-- The ids that a statement names.
abbrev pub with_id : {A : Type 0} → Option String → A → (String → A) → A
with_id none refused f = refused
with_id (some k) refused f = f k

unfoldable pub squad_at : String → SquadDb → Stored Squad
squad_at k d = one_squad (find (λ (x : Squad). str_eq x.id k) d.squads)

unfoldable pub get_squad : String → SquadDb → Stored Squad
unfolding squad_at
get_squad id d = with_id (d.uuid id) failed (λ k. squad_at k d)

unfoldable pub list_squads : SquadDb → Option (List Squad)
list_squads d = some d.squads

-- `length(btrim(name)) > 0`.
abbrev pub has_name : Squad → Bool
has_name sq = not (all (λ c. c == 32) (codes sq.name))

abbrev pub is_member : String → String → Member → Bool
is_member squad user m = str_eq m.squad_id squad && str_eq m.user_id user

abbrev pub rename : String → Squad → Squad → Squad
rename k u x = if str_eq x.id k then record x { name = u.name; description = u.description } else x

abbrev pub lead : String → String → Squad → Squad
lead k leader x = if str_eq x.id k then record x { leader_id = leader } else x

update_at : String → Squad → SquadDb → Stored Squad × SquadDb
unfolding squad_at
update_at k u d =
    let d' = record d { squads = map (rename k u) d.squads } in
    if any (λ (x : Squad). str_eq x.id k) d.squads && not (has_name u)
    then (failed, d)
    else (squad_at k d', d')

unfoldable pub update_squad : Squad → SquadDb → Stored Squad × SquadDb
unfolding update_at
update_squad u d = with_id (d.uuid u.id) (failed, d) (λ k. update_at k u d)

-- The members go with the squad.
delete_at : String → SquadDb → Stored (Unit {0}) × SquadDb
delete_at k d =
    if any (λ (x : Squad). str_eq x.id k) d.squads
    then (
      found tt,
      record d {
        squads = select (λ (x : Squad). not (str_eq x.id k)) d.squads;
        members = select (λ (m : Member). not (str_eq m.squad_id k)) d.members;
      },
    )
    else (missing, d)

unfoldable pub delete_squad : String → SquadDb → Stored (Unit {0}) × SquadDb
unfolding delete_at
delete_squad id d = with_id (d.uuid id) (failed, d) (λ k. delete_at k d)

unfoldable pub remove_at : String → String → SquadDb → Stored (Unit {0}) × SquadDb
remove_at k user d =
    if any (is_member k user) d.members
    then (found tt, record d { members = select (λ m. not (is_member k user m)) d.members })
    else (missing, d)

unfoldable pub remove_squad_member : String → String → SquadDb → Stored (Unit {0}) × SquadDb
unfolding remove_at
remove_squad_member squad user d =
    with_id (d.uuid squad) (failed, d)
      λ k. with_id (d.uuid user) (failed, d) λ member. remove_at k member d

unfoldable pub list_squad_members : String → SquadDb → Option (List String)
list_squad_members squad d = with_id (d.uuid squad) none λ k.
    some (map (λ (m : Member). m.user_id) (select (λ (m : Member). str_eq m.squad_id k) d.members))

module _ (known : String → Bool) where
  unfoldable pub create_squad : (ℕ → String) → Squad → SquadDb → Stored Squad × SquadDb
  create_squad new_id sq d =
      with_id (d.uuid sq.leader_id) (failed, d)
        λ leader.
          with_id (d.uuid sq.created_by) (failed, d)
            λ creator.
              let row = record sq {
                id = new_id d.serial;
                leader_id = leader;
                created_by = creator;
              } in
              if has_name sq && known leader && known creator
              then (found row, record d { squads = d.squads ++ row ∷ []; serial = suc d.serial })
              else (failed, d)

  lead_at : String → String → SquadDb → Stored Squad × SquadDb
  unfolding squad_at
  lead_at k leader d =
      let d' = record d { squads = map (lead k leader) d.squads } in
      if any (λ (x : Squad). str_eq x.id k) d.squads && not (known leader)
      then (failed, d)
      else (squad_at k d', d')

  unfoldable pub set_squad_leader : String → String → SquadDb → Stored Squad × SquadDb
  unfolding lead_at
  set_squad_leader id leader d =
      with_id (d.uuid id) (failed, d)
        λ k. with_id (d.uuid leader) (failed, d) λ user. lead_at k user d

  add_at : String → String → SquadDb → Added × SquadDb
  add_at k user d =
      if any (is_member k user) d.members
      then (already, d)
      else if known user && any (λ (x : Squad). str_eq x.id k) d.squads
      then (added, record d { members = d.members ++ record { squad_id = k; user_id = user } ∷ [] })
      else (broken, d)

  -- `ON CONFLICT DO NOTHING`, with both foreign keys.
  unfoldable pub add_squad_member : String → String → SquadDb → Added × SquadDb
  unfolding add_at
  add_squad_member squad user d =
      with_id (d.uuid squad) (broken, d)
        λ k. with_id (d.uuid user) (broken, d) λ member. add_at k member d

-- The stores of the squad service: users are in another table.
abbrev pub pg_squads : (String → Bool) → (ℕ → String) → SquadStores
pg_squads known new_id = record {
  State = SquadDb;
  Detail = String;
  get_user = λ id d. with_id (d.uuid id) failed λ k. if known k then found tt else missing;
  create = create_squad known new_id;
  get = get_squad;
  list = list_squads;
  update = update_squad;
  set_leader = set_squad_leader known;
  delete = delete_squad;
  add_member = add_squad_member known;
  remove_member = remove_squad_member;
  members = list_squad_members;
  details = list_squad_members;
}
