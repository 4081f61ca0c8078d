-- ===== src/Squad/Samples.antt =====
-- A squad of two.
use spec_powers.Prelude.{
  ℕ, String, ◌≡◌, refl, subst, Bool, true, false, some, if◌then◌else◌, [], ◌∷◌, any, arith, str_eq,
  eq_iff, Bool-cases, inl, inr,
}
use spec_powers.Domain.{Squad}
use spec_powers.Api.{ok, err, err_invalid, found}
use spec_powers.Squad.Service.{leave_squad}
use spec_powers.Squad.Postgres.{
  SquadDb, squad_at, get_squad, is_member, remove_squad_member, pg_squads,
}
use spec_powers.Squad.Roster.{Led, leave-Led, leave-unled}

abbrev crew : Squad
crew = record { id = "s1"; name = "crew"; description = ""; leader_id = "ann"; created_by = "ann" }

abbrev db : SquadDb
db = record {
  squads = crew ∷ [];
  members =
      record { squad_id = "s1"; user_id = "ann" }
      ∷ record { squad_id = "s1"; user_id = "bob" }
      ∷ [];
  serial = 1;
  uuid = λ t. some (if str_eq t "ANN" then "ann" else t);
}

abbrev anyone : String → Bool
anyone id = true

abbrev same_id : ℕ → String
same_id n = "s2"

db-Led : Led db
unfolding squad_at
db-Led id sq h = elim (Bool-cases (str_eq "s1" id)) [
  | inr e ↦ absurd (ground arith)
  | inl e ↦
      let read : found crew ≡ found sq = rw e at h in
      let same : crew ≡ sq = cc in
      subst (λ (y : Squad). any (is_member id y.leader_id) db.members ≡ true) same (rw e refl)
]

leave-Led_example : Led (leave_squad (pg_squads anyone same_id) "s1" "bob" db).1
leave-Led_example = leave-Led anyone same_id "s1" "bob" db refl db-Led

leave-unled_example :
    let r = leave_squad (pg_squads anyone same_id) "s1" "ANN" db in
    (r.0 ≡ ok tt)
    × (squad_at "s1" r.1 ≡ found crew)
    × (any (is_member "s1" "ann") r.1.members ≡ false)
unfolding squad_at
leave-unled_example =
    leave-unled anyone same_id "s1" "ANN" db "s1" crew refl refl refl
      (λ e. ground (arith, eq_iff "ANN" "ann")) refl

leader_test :
    (leave_squad (pg_squads anyone same_id) "s1" "ann" db).0
    ≡ err (err_invalid "squad leader cannot be removed")
unfolding leave_squad get_squad
leader_test = refl

leave_test : (leave_squad (pg_squads anyone same_id) "s1" "bob" db).0 ≡ ok tt
unfolding leave_squad get_squad remove_squad_member
leave_test = refl
